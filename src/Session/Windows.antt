-- ===== src/Session/Windows.antt =====
-- The layout: `_split_window`, `_display_buffer`, `_other_window` and `_delete_other_windows`.
use drei.Base.{
  ℕ, ◌+◌, ◌*◌, ◌%◌, min, Str, str_eq, contains, Bool, false, not, List, [], ◌∷◌, ◌++◌, Option, none,
  some, length, take, drop, set, get_elem?, ltb, ◌==◌, if◌then◌else◌, Result, ok, raise,
  value_error, required, ◌>>=◌,
}
use drei.Buffer.{checked}
use drei.Commands.{
  message, too_small_for_splitting, window_split, window_focus_changed, windows_collapsed,
  buffer_displayed,
}
use drei.Session.State.{WindowValue, FrameSize, Session, emit, entry_of, replace_value}
use drei.Session.Buffers.{touch, leave_current}

abbrev pub min_window_rows : ℕ
min_window_rows = 3

-- An unknown frame size permits every split.
unfoldable pub too_small : Option FrameSize → ℕ → Bool
too_small none count = false
too_small (some frame) count = ltb frame.height ((count + 1) * min_window_rows + 1)

-- windows.insert(i, w)
unfoldable pub insert_at {ℓ} : {A : Type ℓ} → ℕ → A → List A → List A
insert_at i w ws = take i ws ++ w ∷ drop i ws

unfoldable pub split_focused : Session → Result Session
unfolding insert_at emit
split_focused s = do
  focused ← required (get_elem? s.windows s.focused)
  let windows = insert_at (s.focused + 1) focused s.windows
  ok (emit (window_split (length windows)) (record s { windows = windows }))

unfoldable pub split_window : Bool → Session → Result Session
unfolding too_small split_focused emit
split_window speak s =
    if too_small s.frame_size (length s.windows)
    then ok (if speak then emit (message too_small_for_splitting) s else s)
    else split_focused s

-- The window after the focused one is given to the buffer, from its start.
unfoldable pub show_next : Str → Session → Session
unfolding emit
show_next buffer_id s =
    let target = (s.focused + 1) % length s.windows in
    emit (buffer_displayed buffer_id target) (record s {
      windows = set s.windows target (record { buffer_id = buffer_id; point = 0; mark = none });
    })

unfoldable pub display_buffer : Str → Session → Result Session
unfolding split_window show_next
display_buffer buffer_id s =
    if not (contains buffer_id s.buffers)
    then raise value_error
    else if length s.windows == 1
    then (do
      s' ← split_window false s
      ok (if length s'.windows == 1 then s' else show_next buffer_id s'))
    else ok (show_next buffer_id s)

unfoldable pub clamped_mark : Option ℕ → ℕ → Option ℕ
clamped_mark none size = none
clamped_mark (some mark) size = some (min mark size)

-- The current buffer takes the window's point and mark, clamped to its text.
unfoldable pub restore_place : WindowValue → Session → Result Session
unfolding clamped_mark replace_value entry_of
restore_place window s = do
  e ← entry_of s s.current_id
  let size = length e.value.text
  value ←
      checked
        (record (e.value) { point = min window.point size; mark = clamped_mark window.mark size })
  replace_value s s.current_id value

unfoldable pub select_window_buffer : WindowValue → Session → Result Session
unfolding leave_current touch restore_place
select_window_buffer window s = do
  s' ← leave_current s
  restore_place window
      (record s' { current_id = window.buffer_id; mru = touch window.buffer_id s'.mru })

unfoldable pub other_window : Session → Result Session
unfolding select_window_buffer restore_place emit
other_window s = if ltb (length s.windows) 2 then ok s else do
  let focused = (s.focused + 1) % length s.windows
  window ← required (get_elem? s.windows focused)
  let s' = emit (window_focus_changed focused window.buffer_id) (record s { focused = focused })
  if str_eq window.buffer_id s'.current_id
      then restore_place window s'
      else select_window_buffer window s'

unfoldable pub delete_other_windows : Session → Result Session
unfolding emit
delete_other_windows s = if ltb (length s.windows) 2 then ok s else do
  window ← required (get_elem? s.windows s.focused)
  ok (emit windows_collapsed (record s { windows = window ∷ []; focused = 0 }))
