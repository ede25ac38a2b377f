-- ===== src/Harness/Examples.antt =====
-- Keys to a new editor.
use drei.Base.{codes, Returns, ReturnsUnless, some, none}
use drei.Keys.Examples.{ascii_printable}
use drei.Session.Invariant.{IsValid}
use drei.Session.Minibuffer.{mode}
use drei.Session.Examples.{environment, begun, begun-IsValid}
use drei.Harness.{Harness, initialize_adapter, send_key}
use drei.Harness.Sends.{KeyRaises, key_command, send_key-Returns}
use drei.Harness.Frames.{render_frame, render_frame-IsDrawn}
use drei.Render.Panes.{IsDrawn}

-- A prefix is pending.
abbrev typing : Harness
typing = record (initialize_adapter 80 24 begun) { pending = some (codes "C-x") }

send_key-Returns_example :
    ReturnsUnless
      (KeyRaises
        (key_command ascii_printable (some (codes "C-x")) none (codes "C-s"))
        environment.files)
      (send_key environment ascii_printable (codes "C-s") typing)
      (λ r. IsValid r.0.session)
unfolding initialize_adapter mode
send_key-Returns_example =
    send_key-Returns environment ascii_printable typing (codes "C-s") begun-IsValid tt

render_frame-IsDrawn_example : Returns (render_frame typing) (λ f. IsDrawn 80 24 f.rows f.cursor)
unfolding initialize_adapter
render_frame-IsDrawn_example = render_frame-IsDrawn typing begun-IsValid
