-- ===== src/Render/Lone.antt =====
-- The frame of a session with one window, against the frame of its buffer.
use drei.Base.{
  arith, ℕ, ◌+◌, ◌-◌, Str, ◌≡◌, refl, ap, ◌∙◌, List, [], ◌∷◌, ◌++◌, append-nil, append_assoc,
  Option, none, some, if◌then◌else◌, ◌==◌, Result, ok, Bool-cases, inl, inr, ◌>>=◌, ◌≤◌,
}
use drei.Render.{
  WindowObservation, BufferObservation, SessionObservation, Frame, clip, render_body, modeline,
  cursor_position, prompt_row, prompt_column, echo_row, first_cursor, body_cursor, render,
}
use drei.Render.Stack.{
  window_heights, heights_from, visible_start, visible_count, on_minibuffer, pane_rows, draw_panes,
  draw_stack, draw_single, render_session,
}
use drei.Render.Rows.{length-render_body}

-- The session that shows the window `w` alone, over any buffers, with the minibuffer open or not.
unfoldable pub lone : WindowObservation → List Str → Option Str → Option Str → SessionObservation
lone w buffers minibuffer prompt = record {
  buffers = buffers;
  windows = w ∷ [];
  focused = 0;
  minibuffer = minibuffer;
  minibuffer_prompt = prompt;
}

-- The window's buffer as the only thing on the screen: its point is the window's, and the
-- minibuffer is the session's.
abbrev pub alone : WindowObservation → Option Str → Option Str → BufferObservation
alone w minibuffer prompt = record (w.buffer) {
  point = w.point;
  minibuffer = minibuffer;
  minibuffer_prompt = prompt;
}

one_visible : (budget : ℕ) → visible_count 1 budget ≡ 1
unfolding visible_count
one_visible budget = omega arith

one_height : (budget : ℕ) → window_heights budget 1 ≡ budget ∷ []
unfolding window_heights heights_from
one_height budget = ap (λ h. h ∷ []) (omega arith)

module _ (w : WindowObservation) (buffers : List Str) (minibuffer prompt : Option Str)
    (width height : ℕ) (note : Str) where
  abbrev b : BufferObservation
  b = alone w minibuffer prompt

  -- The cursor after the only pane.
  pane_cursor : Option Str → ℕ × ℕ → ℕ × ℕ
  unfolding on_minibuffer
  pane_cursor input cursor =
      let at = cursor_position b.text b.point width (height - 1 - 1) in
      if on_minibuffer input then cursor else (at.0 + 0, at.1)

  one_start : visible_start 1 0 1 ≡ 0
  unfolding visible_start
  one_start = refl

  panes-lone :
      (cursor : ℕ × ℕ) (visible : ℕ)
      → visible ≡ 1
      → draw_panes
          (lone w buffers minibuffer prompt)
          width
          (visible_start 1 0 visible)
          (window_heights (height - 1) visible)
          0
          cursor
        ≡ ok (pane_rows b width (height - 1) ++ [], pane_cursor b.minibuffer cursor)
  unfolding draw_panes lone pane_cursor visible_start
  panes-lone cursor visible e = rw (e, one_height (height - 1))

  lone-cursor :
      (input : Option Str)
      → 2 ≤ height
      → pane_cursor input (first_cursor input b.minibuffer_prompt note width height)
        ≡ body_cursor (record b { minibuffer = input }) width height note
  unfolding on_minibuffer first_cursor body_cursor pane_cursor
  lone-cursor none h =
      let at = cursor_position b.text b.point width in
      let same : height - 1 - 1 ≡ height - 2 = omega arith in
      rw same (ap (λ r. (r, (at (height - 2)).1)) (omega arith))
  lone-cursor (some input) h =
      ap (λ r. (r, prompt_column (prompt_row b.minibuffer_prompt note input) width))
        (ground (arith, length-render_body b.text width (height - 2)))

  lone-rows :
      (last : Str)
      → (pane_rows b width (height - 1) ++ []) ++ last ∷ []
        ≡ render_body b.text width (height - 2) ++ clip (modeline b) width ∷ last ∷ []
  unfolding pane_rows
  lone-rows last =
      let same : height - 1 - 1 ≡ height - 2 = omega arith in
      rw (append-nil (pane_rows b width (height - 1)), same)
        (append_assoc (render_body b.text width (height - 2)) (clip (modeline b) width ∷ [])
          (last ∷ []))

  stack-lone :
      (echo : Str)
      → 2 ≤ height
      → draw_stack (lone w buffers minibuffer prompt) width height echo note
        ≡ ok (record {
          rows =
              render_body b.text width (height - 2)
              ++ clip (modeline b) width
                ∷ echo_row b.minibuffer b.minibuffer_prompt echo note width
                ∷ [];
          cursor = body_cursor b width height note;
          width = width;
          height = height;
        })
  unfolding draw_stack lone
  stack-lone echo h =
      let last = echo_row b.minibuffer b.minibuffer_prompt echo note width in
      let framed : List Str × (ℕ × ℕ) → Result Frame = λ r.
        ok (record { rows = r.0 ++ last ∷ []; cursor = r.1; width = width; height = height }) in
      let cursor = first_cursor b.minibuffer b.minibuffer_prompt note width height in
      let rows = render_body b.text width (height - 2) ++ clip (modeline b) width ∷ last ∷ [] in
      ap (λ r. r >>= framed) (panes-lone cursor _ (one_visible (height - 1)))
      ∙ ap
          (λ rs. ok (record {
            rows = rs;
            cursor = pane_cursor b.minibuffer cursor;
            width = width;
            height = height;
          }))
          (lone-rows last)
      ∙ ap (λ c. ok (record { rows = rows; cursor = c; width = width; height = height }))
          (lone-cursor b.minibuffer h)

-- Drawing a session that shows one window gives the frame of drawing that window's buffer with the
-- window's point and the session's minibuffer, whatever point the buffer has, at every size and with
-- the minibuffer open or not.
pub render_session-lone :
    (w : WindowObservation) (buffers : List Str) (minibuffer prompt : Option Str) (width height : ℕ)
    (echo note : Str)
    → render_session (lone w buffers minibuffer prompt) width height echo note
      ≡ ok (render (alone w minibuffer prompt) width height echo note)
unfolding render_session render lone draw_single
render_session-lone w buffers minibuffer prompt width height echo note =
    elim (Bool-cases (height == 0)) [
      | inl e ↦ rw e
      | inr e ↦ elim (Bool-cases (height == 1)) [
        | inl f ↦ rw (e, f)
        | inr f ↦
            rw (e, f) (stack-lone w buffers minibuffer prompt width height note echo (ground arith))
      ]
    ]
