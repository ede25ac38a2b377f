-- ===== src/Keys/Chords.antt =====
-- The keys that end a chord.
use drei.Base.{
  ℕ, Str, codes, str_eq, ◌≡◌, refl, Bool, true, false, Option, none, some, lookup, if-holds,
}
use drei.Commands.{Command, keyboard_quit}
use drei.Keys.{Resolution, resolved, pending_key, prefix_command, after_prefix, resolve}

unfoldable pub is_pending : Resolution → Bool
is_pending (pending_key prefix) = true
is_pending _ = false

after_prefix-is_pending :
    (pending key : Str) (found : Option Command)
    → is_pending (after_prefix pending key found) ≡ false
unfolding is_pending after_prefix
after_prefix-is_pending pending key (some command) = refl
after_prefix-is_pending pending key none =
    if-holds (λ r. is_pending r ≡ false) (str_eq key (codes "C-g")) _ _ (λ _. refl) (λ _. refl)

prefix_command-quit : (pending : Str) → prefix_command pending (codes "C-g") ≡ none
unfolding prefix_command lookup str_eq
prefix_command-quit pending =
    if-holds (λ r. r ≡ none) (str_eq pending (codes "C-x")) _ _ (λ _. refl)
      (λ _. if-holds (λ r. r ≡ none) (str_eq pending (codes "C-c")) _ _ (λ _. refl) (λ _. refl))

module _ (is_printable : ℕ → Bool) where
  resolve-quit :
      (pending : Option Str) → resolve is_printable pending (codes "C-g") ≡ resolved keyboard_quit
  unfolding resolve lookup str_eq after_prefix
  resolve-quit none = refl
  resolve-quit (some pending) = rw (prefix_command-quit pending)

  -- A chord has at most two keys: whatever prefix is pending, the next key, whatever it is, does not
  -- leave one pending. And `C-g` quits, with and without a prefix, whatever the prefix is.
  pub resolve-is_pending :
      (prefix key : Str) (pending : Option Str)
      → (is_pending (resolve is_printable (some prefix) key) ≡ false)
        × (resolve is_printable pending (codes "C-g") ≡ resolved keyboard_quit)
  unfolding resolve
  resolve-is_pending prefix key pending =
      (after_prefix-is_pending prefix key (prefix_command prefix key), resolve-quit pending)
