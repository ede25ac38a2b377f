-- ===== src/Keys.antt =====
-- The resolver of symbolic keys, keys.py. `str.isprintable` of one character is a parameter.
pub mod Examples
pub mod Chords
use drei.Base.{
  ℕ, Str, codes, str_eq, ◌≡◌, Bool, true, false, ◌&&◌, List, [], ◌∷◌, ◌++◌, Option, none, some,
  if◌then◌else◌, Assoc, lookup,
}
use drei.Commands.{
  Command, insert_text, forward_char, backward_char, save_buffer, kill_line, yank, yank_pop,
  set_mark, kill_region, copy_region_as_kill, exchange_point_and_mark, undo, keyboard_quit,
  exit_editor, find_file, switch_buffer, prompt_agent, split_window, other_window,
  delete_other_windows,
}

pub data Resolution : Type 0 where
  resolved : Command → Resolution
  unresolved_key : Str → Resolution
  pending_key : Str → Resolution

abbrev pub control_keys : Assoc Command
control_keys =
    (codes "C-@", set_mark)
    ∷ (codes "C-/", undo)
    ∷ (codes "C-f", forward_char)
    ∷ (codes "C-b", backward_char)
    ∷ (codes "C-g", keyboard_quit)
    ∷ (codes "C-k", kill_line)
    ∷ (codes "C-w", kill_region)
    ∷ (codes "C-y", yank)
    ∷ []

abbrev pub meta_keys : Assoc Command
meta_keys = (codes "M-w", copy_region_as_kill) ∷ (codes "M-y", yank_pop) ∷ []

unfoldable pub is_prefix : Str → Bool
is_prefix key = if str_eq key (codes "C-x") then true else str_eq key (codes "C-c")

-- The commands after each prefix.
abbrev pub c_keys : Assoc Command
c_keys = (codes "a", prompt_agent) ∷ []

abbrev pub x_keys : Assoc Command
x_keys =
    (codes "C-c", exit_editor)
    ∷ (codes "C-s", save_buffer)
    ∷ (codes "C-x", exchange_point_and_mark)
    ∷ (codes "u", undo)
    ∷ (codes "C-f", find_file)
    ∷ (codes "b", switch_buffer)
    ∷ (codes "2", split_window)
    ∷ (codes "o", other_window)
    ∷ (codes "1", delete_other_windows)
    ∷ []

-- _PREFIX_COMMANDS.get((pending, key))
unfoldable pub prefix_command : Str → Str → Option Command
unfolding lookup
prefix_command pending key =
    if str_eq pending (codes "C-x")
    then lookup key x_keys
    else if str_eq pending (codes "C-c")
    then lookup key c_keys
    else none

-- `C-g` cancels a prefix and quits; another key that is not bound makes the whole chord unresolved.
unfoldable pub after_prefix : Str → Str → Option Command → Resolution
after_prefix pending key (some command) = resolved command
after_prefix pending key none =
    if str_eq key (codes "C-g")
    then resolved keyboard_quit
    else unresolved_key (pending ++ (codes " " ++ key))

-- What a key is by itself, by the tables.
unfoldable pub bound : Option Command → Option Command → Resolution → Resolution
bound (some command) meta other = resolved command
bound none (some command) other = resolved command
bound none none other = other

module _ (is_printable : ℕ → Bool) where
  -- One printable character is inserted.
  unfoldable pub plain_key : Str → Resolution
  plain_key (c ∷ []) =
      if is_printable c then resolved (insert_text (c ∷ [])) else unresolved_key (c ∷ [])
  plain_key key = unresolved_key key

  unfoldable pub resolve : Option Str → Str → Resolution
  unfolding prefix_command after_prefix is_prefix bound lookup plain_key
  resolve (some pending) key = after_prefix pending key (prefix_command pending key)
  resolve none key =
      if is_prefix key
      then pending_key key
      else bound (lookup key control_keys) (lookup key meta_keys) (plain_key key)
