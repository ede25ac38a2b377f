-- ===== src/Session/Exit.antt =====
-- The exit sequence: `_begin_exit`, `_advance_exit` and `_exit_prompt_key`.
use drei.Base.{
  ℕ, Str, codes, Assoc, Bool, true, false, ◌||◌, List, [], ◌∷◌, ◌++◌, Option, none, some, ◌==◌,
  if◌then◌else◌, Result, ok, raise, key_error, ◌>>=◌,
}
use drei.Commands.{editor_exited, exit_refused, save_declined, message, answer_y_or_n}
use drei.Session.State.{
  Entry, Environment, MinibufferKind, save_buffer, exit_anyway, Session, emit, close_minibuffer,
  open_prompt,
}
use drei.Session.Saving
use drei.Session.Choice.{drain_permission_queue}

unfoldable pub offer : Str → Option Str → List (Str × Str) → List (Str × Str)
offer buffer_id none rest = rest
offer buffer_id (some path) rest = (buffer_id, path) ∷ rest

-- The modified buffers that visit a file, in creation order, with their paths.
unfoldable pub at_risk : Assoc Entry → List (Str × Str)
unfolding offer
at_risk [] = []
at_risk ((buffer_id, e) ∷ rest) =
    let others = at_risk rest in
    if e.value.modified then offer buffer_id e.value.file_path others else others

unfoldable pub any_modified : Assoc Entry → Bool
any_modified [] = false
any_modified ((buffer_id, e) ∷ rest) = e.value.modified || any_modified rest

unfoldable pub save_prompt : Str → Str
save_prompt path = codes "Save file " ++ (path ++ codes "? (y or n) ")

unfoldable pub exit_prompt : Str
exit_prompt = codes "Modified buffers exist; exit anyway? (y or n) "

unfoldable pub advance_with : List (Str × Str) → Session → Session
unfolding any_modified save_prompt exit_prompt open_prompt emit
advance_with ((buffer_id, path) ∷ rest) s = open_prompt save_buffer (save_prompt path) s
advance_with [] s =
    if any_modified s.buffers then open_prompt exit_anyway exit_prompt s else emit editor_exited s

-- `_advance_exit`
unfoldable pub advance_exit : Session → Session
unfolding advance_with
advance_exit s = advance_with s.exit_pending s

-- `_begin_exit`
unfoldable pub begin_exit : Session → Session
unfolding at_risk advance_exit
begin_exit s = advance_exit (record s { exit_pending = at_risk s.buffers })

-- An answer to the last question.
unfoldable pub answer_exit : Environment → Bool → Session → Session
unfolding close_minibuffer emit drain_permission_queue
answer_exit env true s = emit editor_exited (close_minibuffer s)
answer_exit env false s = drain_permission_queue env (emit exit_refused (close_minibuffer s))

-- An answer to the offer to save the first pending buffer; `pop(0)` of an empty list raises.
unfoldable pub answer_save : Environment → Bool → List (Str × Str) → Session → Result Session
unfolding close_minibuffer emit advance_exit Saving.save_buffer
answer_save env yes_key [] s = raise key_error
answer_save env true ((buffer_id, path) ∷ rest) s = do
  s' ← Saving.save_buffer env.files buffer_id (record s { exit_pending = rest })
  ok (advance_exit (close_minibuffer s'))
answer_save env false ((buffer_id, path) ∷ rest) s = ok (
    advance_exit
      (close_minibuffer (emit (save_declined buffer_id) (record s { exit_pending = rest }))))

unfoldable pub answer : Environment → MinibufferKind → Bool → Session → Result Session
unfolding answer_exit answer_save
answer env exit_anyway key s = ok (answer_exit env key s)
answer env _ key s = answer_save env key s.exit_pending s

-- `_exit_prompt_key`
unfoldable pub exit_prompt_key : Environment → MinibufferKind → ℕ → Session → Result Session
unfolding answer emit
exit_prompt_key env kind char s =
    if char == b'y'
    then answer env kind true s
    else if char == b'n'
    then answer env kind false s
    else ok (emit (message answer_y_or_n) s)
