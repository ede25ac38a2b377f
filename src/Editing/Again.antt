-- ===== src/Editing/Again.antt =====
-- Undo in the other direction: the redo half of `_undo` (session.py).
use drei.Base.{
  ◌≡◌, refl, sym, ◌∙◌, subst, ◌+◌, ◌≤◌, false, true, Bool, Str, List, ◌∷◌, some, length, ok,
  Returns, Returns-ok, arith,
}
use drei.Buffer.{BufferValue}
use drei.Commands.{
  Command, undo, forward_char, backward_char, set_mark, keyboard_quit, Event, user_issued,
  is_message,
}
use drei.Editing.Text.{Edit, kill_ring_capacity, splice}
use drei.Editing.Moves.{forward_char_arm, backward_char_arm, set_mark_arm, keyboard_quit_arm}
use drei.Editing.Undos.{undo_group, redo_group, undo_newest, undo_step, undo_arm}
use drei.Editing.State.{UndoGroup, BufferState}
use drei.Editing.Bookkeeping.{
  make_group, group_of, push_group, undo_books, bookkeeping, intervened, any_acts,
}
use drei.Editing.Groups.{Patches, splice_undo, splice_redo}
use drei.Editing.Invariant.{IsValid}
use drei.Editing.Outcome.{checked-Returns}
use drei.Editing.Places.{ToPlace, checked-ends, editing-ToPlace}
use drei.Editing.Restores.{
  editing, IsBack, editing-Keeps, after, is_undo, bookkeeping-IsPushed, undo_arm-newest,
}

-- The text is as before the group, and the group is the newest to redo.
record IsUndone (g : UndoGroup) (before : Str) (r : Edit) : Type 0 where
  text : r.value.text ≡ before
  rest : List UndoGroup
  redo : r.state.undo_redo ≡ g ∷ rest

undo_group-IsUndone :
    (v : BufferValue) (st : BufferState) (ring : List Str) (g : UndoGroup) (older : List UndoGroup)
    (before : Str)
    → Patches g before v.text
    → Returns (undo_group v st ring g older) (IsUndone g before)
unfolding undo_group
undo_group-IsUndone v st ring g older before p =
    let t : splice v.text g.start (g.start + length g.inserted_text) g.removed_text ≡ before =
      splice_undo g p in
    checked-Returns _ _
      (record { point_in = rw t p.point_before_in; mark_in = rw t p.mark_before_in })
      (record { text = t; rest = st.undo_redo; redo = refl })

-- The bookkeeping of an undo leaves what can be redone.
undo-redo :
    (v : BufferValue) (events : List Event) (st : BufferState)
    → (bookkeeping undo v events st).undo_redo ≡ st.undo_redo
unfolding bookkeeping undo_books
undo-redo v events st = ground arith

-- The commands that act on point or mark alone.
abbrev pub is_motion : Command → Bool
is_motion forward_char = true
is_motion backward_char = true
is_motion set_mark = true
is_motion keyboard_quit = true
is_motion _ = false

-- A motion leaves the text and what can be redone, and turns the direction.
record IsTurned (cmd : Command) (v : BufferValue) (st : BufferState) (q : Edit) : Type 0 where
  text : q.value.text ≡ v.text
  redo : (after cmd v q).undo_redo ≡ st.undo_redo
  turned : (after cmd v q).undo_descending ≡ false

motion-IsTurned :
    (cmd : Command) (v : BufferValue) (st : BufferState) (ring : List Str) (q : Edit)
    → is_motion cmd ≡ true
    → editing cmd v st ring ≡ ok q
    → IsTurned cmd v st q
unfolding editing forward_char_arm backward_char_arm set_mark_arm keyboard_quit_arm bookkeeping
    undo_books push_group make_group group_of intervened any_acts user_issued is_message
motion-IsTurned forward_char v st ring q m h =
    checked-ends (IsTurned forward_char v st) _ _
      (record { text = refl; redo = refl; turned = refl }) h
motion-IsTurned backward_char v st ring q m h =
    checked-ends (IsTurned backward_char v st) _ _
      (record { text = refl; redo = refl; turned = refl }) h
motion-IsTurned set_mark v st ring q m h =
    checked-ends (IsTurned set_mark v st) _ _ (record { text = refl; redo = refl; turned = refl }) h
motion-IsTurned keyboard_quit v st ring q m h =
    checked-ends (IsTurned keyboard_quit v st) _ _
      (record { text = refl; redo = refl; turned = refl }) h
motion-IsTurned cmd v st ring q m h = cc

redo_group-again :
    (v next : BufferValue) (st : BufferState) (ring : List Str) (g : UndoGroup)
    (older : List UndoGroup)
    → Patches g v.text next.text
    → ToPlace next g
    → Returns (redo_group v st ring g older) (λ t. IsBack next t.value)
unfolding redo_group
redo_group-again v next st ring g older p place =
    let t : splice v.text g.start (g.start + length g.removed_text) g.inserted_text ≡ next.text =
      splice_redo g p in
    checked-Returns _ _
      (record { point_in = rw t p.point_after_in; mark_in = rw t p.mark_after_in })
      (record { text = t; point = place.point; mark = place.mark })

-- When it does not go down and something can be redone, undo does it again.
undo_arm-redo :
    (v : BufferValue) (st : BufferState) (ring : List Str) (g : UndoGroup) (older : List UndoGroup)
    → st.undo_descending ≡ false
    → st.undo_redo ≡ g ∷ older
    → undo_arm v st ring ≡ redo_group v st ring g older
unfolding undo_arm undo_step
undo_arm-redo v st ring g older d e = rw (d, e) refl

-- What follows a command: an undo, a motion, and an undo again, each with the bookkeeping of the one
-- before it; the last one ends where the command did.
pub record Replayed (cmd motion : Command) (current : BufferValue) (e : Edit) : Type 0 where
  pub undone : Edit
  pub moved : Edit
  pub redone : Edit
  pub undo_returned : editing undo e.value (after cmd current e) e.ring ≡ ok undone
  pub motion_returned :
      editing motion undone.value (after undo e.value undone) undone.ring ≡ ok moved
  pub redo_returned :
      editing undo moved.value (after motion undone.value moved) moved.ring ≡ ok redone
  pub again : IsBack e.value redone.value

-- When an editing command other than undo makes an undo group, an undo, a motion and an undo after it
-- return, and the last one ends at the text, the point and the mark that the command had left.
pub undo-again :
    (cmd motion : Command) (current : BufferValue) (st : BufferState) (ring : List Str) (e : Edit)
    (g : UndoGroup)
    → IsValid current st
    → length ring ≤ kill_ring_capacity
    → is_undo cmd ≡ false
    → is_motion motion ≡ true
    → editing cmd current st ring ≡ ok e
    → make_group current e.events ≡ some g
    → Replayed cmd motion current e
unfolding editing
undo-again cmd motion current st ring e g h room edits moves run group =
    let kept = Returns-ok (editing-Keeps cmd current st ring h room) run in
    let p : Patches g current.text e.value.text = kept.patched g group in
    let pushed = bookkeeping-IsPushed cmd current e.events e.state g edits group in
    let (r, undone, kept_r) =
      editing-Keeps undo e.value (after cmd current e) e.ring kept.valid kept.ring_bound in
    let done : Returns (undo_arm e.value (after cmd current e) e.ring) (IsUndone g current.text) =
      rw (undo_arm-newest e.value (after cmd current e) e.ring pushed.redo, pushed.history)
        (unfold undo_newest in
          undo_group-IsUndone e.value (after cmd current e) e.ring g _ current.text p) in
    let u = Returns-ok done undone in
    let (q, moved, kept_q) =
      editing-Keeps motion r.value (after undo e.value r) r.ring kept_r.valid kept_r.ring_bound in
    let m = motion-IsTurned motion r.value (after undo e.value r) r.ring q moves moved in
    let redo : (after motion r.value q).undo_redo ≡ g ∷ u.rest =
      m.redo ∙ undo-redo e.value r.events r.state ∙ u.redo in
    let last : Returns (undo_arm q.value (after motion r.value q) q.ring)
        (λ t. IsBack e.value t.value) =
      rw (undo_arm-redo q.value (after motion r.value q) q.ring g u.rest m.turned redo) (
        redo_group-again q.value e.value (after motion r.value q) q.ring g u.rest
          (subst (λ x. Patches g x e.value.text) (sym (m.text ∙ u.text)) p)
          (editing-ToPlace current st ring e cmd h edits run g group)) in
    let (t, returned, back) = last in
    record {
      undone = r;
      moved = q;
      redone = t;
      undo_returned = undone;
      motion_returned = moved;
      redo_returned = returned;
      again = back;
    }
