-- ===== src/Render/Examples.antt =====
-- Frames of small buffers.
use drei.Base.{arith, ◌≡◌, refl, codes, false, [], ◌∷◌, none, some, Returns, ok}
use drei.Render.{BufferObservation, WindowObservation, SessionObservation, render}
use drei.Render.Stack.{render_session}
use drei.Render.Panes.{IsDrawn, render_session-IsDrawn}
use drei.Render.Lone.{lone, alone, render_session-lone}

-- A tab, and two lines.
abbrev small : BufferObservation
small = record {
  buffer_id = codes "s";
  text = 9 ∷ 10 ∷ codes "ab";
  point = 1;
  file_path = none;
  modified = false;
  mark = none;
  minibuffer = none;
  minibuffer_prompt = none;
}

-- A window over it, further on than the buffer's own point.
abbrev shown : WindowObservation
shown = record { buffer = small; point = 3; mark = none }

-- The window alone, with a prompt open.
abbrev one_window : SessionObservation
one_window = lone shown (codes "s" ∷ codes "t" ∷ []) (some (codes "x")) (some (codes "Find file: "))

small_frame : render small 4 4 [] [] ≡ record {
  rows = codes "^I  " ∷ codes "ab  " ∷ codes "Drei" ∷ codes "    " ∷ [];
  cursor = (0, 2);
  width = 4;
  height = 4;
}
unfolding render
small_frame = refl

render_session-IsDrawn_example :
    Returns (render_session one_window 4 4 [] []) (λ f. IsDrawn 4 4 f.rows f.cursor)
unfolding lone
render_session-IsDrawn_example = render_session-IsDrawn one_window 4 4 [] [] (omega arith)

render_session-lone_example :
    render_session (lone shown (codes "s" ∷ codes "t" ∷ []) none none) 4 4 [] []
    ≡ ok (render (alone shown none none) 4 4 [] [])
render_session-lone_example =
    render_session-lone shown (codes "s" ∷ codes "t" ∷ []) none none 4 4 [] []
