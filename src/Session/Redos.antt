-- ===== src/Session/Redos.antt =====
-- A command that is undone, and the undo undone after a motion: four dispatches (session.py).
use drei.Base.{
  ◌≡◌, ap, sym, ◌∙◌, Str, lookup, AllValues-lookup, true, false, List, none, some, ok, ◌>>=◌,
  Returns, Returns-bind, Returns_mono, refl,
}
use drei.Buffer.{BufferValue}
use drei.Commands.{Command, forward_char, backward_char, set_mark, keyboard_quit, undo}
use drei.Editing.Text.{Edit}
use drei.Editing.State.{UndoGroup, BufferState}
use drei.Editing.Bookkeeping.{make_group}
use drei.Editing.Restores.{editing, is_undo, after}
use drei.Editing.Again.{is_motion, undo-again}
use drei.Session.State.{Entry, Environment, Session}
use drei.Session.Dispatch.{dispatch}
use drei.Session.Invariant.{IsValid, EntryIsValid}
use drei.Session.Edits.{is_editing, Undone, dispatch-editing}

-- The current buffer, the kill ring, and the minibuffer closed.
record Stands (buffer_id : Str) (v : BufferValue) (st : BufferState) (ring : List Str) (t : Session)
    : Type 0 where
  current : t.current_id ≡ buffer_id
  entry : lookup buffer_id t.buffers ≡ some (record { value = v; state = st })
  ring_is : t.kill_ring ≡ ring
  shut : t.minibuffer ≡ none

motion-editing : (cmd : Command) → is_motion cmd ≡ true → is_editing cmd ≡ true
motion-editing forward_char h = refl
motion-editing backward_char h = refl
motion-editing set_mark h = refl
motion-editing keyboard_quit h = refl
motion-editing cmd h = cc

-- One more editing command.
dispatch-Stands :
    (env : Environment) (cmd : Command) (buffer_id : Str) (v : BufferValue) (st : BufferState)
    (ring : List Str) (t : Session) (e : Edit)
    → Stands buffer_id v st ring t
    → is_editing cmd ≡ true
    → editing cmd v st ring ≡ ok e
    → Returns (dispatch env cmd t) (Stands buffer_id e.value (after cmd v e) e.ring)
dispatch-Stands env cmd buffer_id v st ring t e s edits returned =
    Returns_mono (dispatch env cmd t)
      (dispatch-editing env cmd t (record { value = v; state = st }) e s.shut
        (ap (λ k. lookup k t.buffers) s.current ∙ s.entry) edits
        (ap (editing cmd v st) s.ring_is ∙ returned))
      (λ u did. record {
        current = did.current ∙ s.current;
        entry = ap (λ k. lookup k u.buffers) (sym s.current) ∙ did.entry;
        ring_is = did.ring;
        shut = did.shut ∙ s.shut;
      })

-- In a valid session with the minibuffer closed, let an editing command other than undo have an
-- effect that makes an undo group, and let the motion be `forward_char`, `backward_char`, `set_mark`
-- or `keyboard_quit`. When the command, undo, the motion and undo are dispatched in this order, all
-- four return, and the current buffer has the text, the point and the mark that the command had left.
pub dispatch-redo :
    (env : Environment) (cmd motion : Command) (s : Session) (entry : Entry) (e : Edit)
    (g : UndoGroup)
    → IsValid s
    → s.minibuffer ≡ none
    → lookup s.current_id s.buffers ≡ some entry
    → is_editing cmd ≡ true
    → is_undo cmd ≡ false
    → is_motion motion ≡ true
    → editing cmd entry.value entry.state s.kill_ring ≡ ok e
    → make_group entry.value e.events ≡ some g
    → Returns
        (dispatch env cmd s >>= dispatch env undo >>= dispatch env motion >>= dispatch env undo)
        (Undone e.value s.current_id)
dispatch-redo env cmd motion s entry e g v shut found edits forward moves returned group =
    let r =
      undo-again cmd motion entry.value entry.state s.kill_ring e g
        (AllValues-lookup EntryIsValid s.current_id s.buffers entry v.stored.entries found)
        v.stored.ring_bound forward moves returned group in
    let begun : Stands s.current_id entry.value entry.state s.kill_ring s = record {
      current = refl;
      entry = found;
      ring_is = refl;
      shut = shut;
    } in
    Returns-bind (dispatch env cmd s >>= dispatch env undo >>= dispatch env motion)
      (dispatch env undo)
      (Returns-bind (dispatch env cmd s >>= dispatch env undo) (dispatch env motion)
        (Returns-bind (dispatch env cmd s) (dispatch env undo)
          (dispatch-Stands env cmd s.current_id _ _ _ s e begun edits returned)
          (λ t stands.
            dispatch-Stands env undo s.current_id _ _ _ t r.undone stands refl r.undo_returned))
        (λ t stands.
          dispatch-Stands env motion s.current_id _ _ _ t r.moved stands
            (motion-editing motion moves) r.motion_returned))
      (λ t stands.
        Returns_mono (dispatch env undo t)
          (dispatch-Stands env undo s.current_id _ _ _ t r.redone stands refl r.redo_returned)
          (λ u last. record { entry = _; found = last.entry; back = r.again }))
