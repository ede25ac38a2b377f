-- ===== src/Editing/Moves.antt =====
-- Inserting text, and moving point and mark: the arms of `dispatch` (session.py).
use drei.Base.{
  ℕ, ◌+◌, ◌-◌, pos, negsuc, Str, true, List, [], ◌∷◌, Option, none, some, length, ◌==◌, min,
  if◌then◌else◌, Result, ok, ◌>>=◌,
}
use drei.Buffer.{BufferValue, checked, adjust_mark_insert}
use drei.Commands.{text_inserted, point_moved, mark_was_set, mark_exchanged, keyboard_quit_event}
use drei.Editing.State.{BufferState}
use drei.Editing.Text.{Edit, splice, unchanged}

module _ (current : BufferValue) (st : BufferState) (ring : List Str) where
  unfoldable pub insert_text_arm : Str → Result Edit
  unfolding splice
  insert_text_arm [] = ok (unchanged current st ring [])
  insert_text_arm (c ∷ cs) = do
    let text : Str = c ∷ cs
    let before = current.point
    let after = before + length text
    v ← checked (record current {
      text = splice current.text before before text;
      point = after;
      modified = true;
      mark = adjust_mark_insert current.mark before (length text);
    })
    ok (unchanged v st ring (text_inserted text before after ∷ []))

  unfoldable pub forward_char_arm : Result Edit
  forward_char_arm = do
    let new_point = min (current.point + 1) (length current.text)
    v ← checked (record current { point = new_point })
    ok (unchanged v st ring (point_moved (pos 1) (pos (new_point - current.point)) ∷ []))

  -- The move back is by -1 or by 0.
  unfoldable pub backward_char_arm : Result Edit
  backward_char_arm = do
    v ← checked (record current { point = current.point - 1 })
    ok (
        unchanged v st ring
          (point_moved (negsuc 0) (if current.point == 0 then pos 0 else negsuc 0) ∷ []))

  unfoldable pub set_mark_arm : Result Edit
  set_mark_arm = do
    v ← checked (record current { mark = some current.point })
    ok (unchanged v st ring (mark_was_set current.point ∷ []))

  unfoldable pub exchange_with : Option ℕ → Result Edit
  exchange_with none = ok (unchanged current st ring [])
  exchange_with (some mark) = do
    v ← checked (record current { point = mark; mark = some current.point })
    ok (unchanged v st ring (mark_exchanged current.point mark ∷ []))

  unfoldable pub exchange_arm : Result Edit
  unfolding exchange_with
  exchange_arm = exchange_with current.mark

  unfoldable pub keyboard_quit_arm : Result Edit
  keyboard_quit_arm = do
    v ← checked (record current { mark = none })
    ok (unchanged v st ring (keyboard_quit_event ∷ []))
