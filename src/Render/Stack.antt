-- ===== src/Render/Stack.antt =====
-- A session's frame: its panes, one above the other, and the echo row.
use drei.Base.{
  ℕ, zero, suc, ◌+◌, ◌-◌, ◌*◌, ◌/◌, min, max, Str, Bool, true, false, List, [], ◌∷◌, ◌++◌, Option,
  none, some, if◌then◌else◌, ◌==◌, length, get_elem?, Result, ok, required, ◌>>=◌,
}
use drei.Render.{
  BufferObservation, SessionObservation, Frame, clip, render_body, modeline, cursor_position,
  render_single_row, echo_row, first_cursor, no_rows,
}

-- [base] * (count - 1), and the last pane with the remainder.
unfoldable pub heights_from : ℕ → ℕ → ℕ → List ℕ
heights_from base last zero = []
heights_from base last (suc zero) = last ∷ []
heights_from base last (suc (suc n)) = base ∷ heights_from base last (suc n)

unfoldable pub window_heights : ℕ → ℕ → List ℕ
unfolding heights_from
window_heights body_height count =
    let base = body_height / count in heights_from base (base + (body_height - base * count)) count

unfoldable pub visible_start : ℕ → ℕ → ℕ → ℕ
visible_start count focused visible = min (focused - (visible - 1) / 2) (count - visible)

unfoldable pub visible_count : ℕ → ℕ → ℕ
visible_count count pane_budget = min count (max (pane_budget / 2) 1)

unfoldable pub on_minibuffer : Option Str → Bool
on_minibuffer none = false
on_minibuffer (some input) = true

-- One pane: its body, then its modeline.
unfoldable pub pane_rows : BufferObservation → ℕ → ℕ → List Str
unfolding render_body clip modeline
pane_rows o width height = render_body o.text width (height - 1) ++ clip (modeline o) width ∷ []

-- The panes from the window `index` on, one for each height, below `offset` rows.
unfoldable pub draw_panes :
    SessionObservation → ℕ → ℕ → List ℕ → ℕ → ℕ × ℕ → Result (List Str × (ℕ × ℕ))
unfolding pane_rows cursor_position on_minibuffer
draw_panes o width index [] offset cursor = ok ([], cursor)
draw_panes o width index (height ∷ heights) offset cursor = do
  window ← required (get_elem? o.windows index)
  let (row, column) = cursor_position window.buffer.text window.point width (height - 1)
  let moved : ℕ × ℕ =
      if index == o.focused
      then (if on_minibuffer o.minibuffer then cursor else (row + offset, column))
      else cursor
  (rest, last) ← draw_panes o width (index + 1) heights (offset + height) moved
  ok (pane_rows window.buffer width height ++ rest, last)

unfoldable pub draw_stack : SessionObservation → ℕ → ℕ → Str → Str → Result Frame
unfolding visible_count visible_start window_heights draw_panes first_cursor echo_row
draw_stack o width height echo note = do
  let count = length o.windows
  let visible = visible_count count (height - 1)
  (rows, cursor) ←
      draw_panes o width (visible_start count o.focused visible)
        (window_heights (height - 1) visible) 0
        (first_cursor o.minibuffer o.minibuffer_prompt note width height)
  ok (record {
    rows = rows ++ echo_row o.minibuffer o.minibuffer_prompt echo note width ∷ [];
    cursor = cursor;
    width = width;
    height = height;
  })

unfoldable pub draw_single : SessionObservation → ℕ → Str → Str → Result Frame
unfolding render_single_row
draw_single o width echo note = do
  window ← required (get_elem? o.windows o.focused)
  ok (render_single_row window.buffer width echo note o.minibuffer o.minibuffer_prompt)

unfoldable pub render_session : SessionObservation → ℕ → ℕ → Str → Str → Result Frame
unfolding draw_single draw_stack
render_session o width height echo note =
    if height == 0
    then ok (no_rows width height)
    else if length o.windows == 0
    then ok (no_rows width height)
    else if height == 1
    then draw_single o width echo note
    else draw_stack o width height echo note
