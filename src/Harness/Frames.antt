-- ===== src/Harness/Frames.antt =====
-- The frame that the adapter draws from its session.
use drei.Base.{
  suc, ◌<◌, ◌≡◌, refl, ap, sym, subst, true, List, [], ◌∷◌, contains, contains-lookup, length,
  get_elem?-lt-length, All, Result, ◌>>=◌, Returns, Returns-bind,
}
use drei.Render.{Frame}
use drei.Render.Stack.{render_session}
use drei.Render.Panes.{IsDrawn, render_session-IsDrawn}
use drei.Session.State.{WindowValue, Session, entry_of}
use drei.Session.Invariant.{IsValid}
use drei.Session.Observation.{buffer_observation, observe_windows, session_observation}
use drei.Harness.{Harness}

-- `_render_frame`
unfoldable pub render_frame : Harness → Result Frame
unfolding session_observation render_session
render_frame h = do
  o ← session_observation h.session
  render_session o h.width h.height h.echo h.note

-- As many observations as there are windows.
observe_windows-Returns :
    (s : Session) (ws : List WindowValue)
    → All (λ (w : WindowValue). contains w.buffer_id s.buffers ≡ true) ws
    → Returns (observe_windows s ws) (λ os. length os ≡ length ws)
unfolding observe_windows buffer_observation entry_of
observe_windows-Returns s [] h = (_, refl, refl)
observe_windows-Returns s (w ∷ ws) (h, hs) =
    let (e, found) = contains-lookup w.buffer_id s.buffers h in
    rw found (
      Returns-bind (observe_windows s ws) _ (observe_windows-Returns s ws hs)
        (λ os q. (_, refl, ap suc q)))

-- Over a valid session the adapter's frame is drawn, at every size of the terminal, with the minibuffer
-- open or closed: it has as many rows as the terminal and each is as wide, no control character of a
-- buffer, a prompt or a message reaches it, and the cursor is within it.
pub render_frame-IsDrawn :
    (h : Harness)
    → IsValid h.session
    → Returns (render_frame h) (λ f. IsDrawn h.width h.height f.rows f.cursor)
unfolding render_frame session_observation
render_frame-IsDrawn h v =
    let s = h.session in
    let (w, at, _) = v.stored.focus_shows in
    Returns-bind (session_observation s) (λ o. render_session o h.width h.height h.echo h.note)
      (Returns-bind (observe_windows s s.windows) _
        (observe_windows-Returns s s.windows v.stored.windows_in)
        (λ os q. (
          _,
          refl,
          subst (λ n. s.focused < n) (sym q) (get_elem?-lt-length s.windows s.focused w at),
        )))
      (λ o q. render_session-IsDrawn o h.width h.height h.echo h.note q)
