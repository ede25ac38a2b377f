-- ===== src/Editing/Keeps/Undos.antt =====
-- Undo and redo.
use drei.Base.{
  ◌+◌, ◌≤◌, ◌≡◌, refl, Str, List, [], ◌∷◌, Option, none, some, length, true, false, Bool, arith, ap,
  str_eq_iff,
}
use drei.Buffer.{BufferValue, InBounds}
use drei.Commands.{undo, user_issued, is_message}
use drei.Editing.Text.{kill_ring_capacity, splice}
use drei.Editing.Undos.{
  modified_after_undo, undo_group, redo_group, undo_newest, undo_step, undo_arm,
}
use drei.Editing.State.{UndoGroup, BufferState}
use drei.Editing.Bookkeeping.{
  bookkeeping, undo_books, yank_flag, make_group, group_of, is_text_yanked, is_text_yank_popped,
}
use drei.Editing.Groups.{CanUndo, CanRedo, splice_undo, splice_redo}
use drei.Editing.Invariant.{IsValid}
use drei.Editing.Valid.{IsQuiet-one}
use drei.Editing.Outcome.{Keeps, checked-Returns}
use drei.Editing.Keeps.Moves.{unchanged-Keeps}

-- A buffer that undo reports clean holds its saved text.
modified_after_undo-saved :
    (saved : Option Str) (text : Str) → modified_after_undo saved text ≡ false → saved ≡ some text
unfolding modified_after_undo
modified_after_undo-saved none text h = cc
modified_after_undo-saved (some saved) text h = ground (arith, str_eq_iff text saved)

module _ {current : BufferValue} {st : BufferState} (ring : List Str) (h : IsValid current st)
    (room : length ring ≤ kill_ring_capacity) where
  -- The values that a step down or up the history makes.
  abbrev undone : UndoGroup → BufferValue
  undone g =
      let text = splice current.text g.start (g.start + length g.inserted_text) g.removed_text in
      record current {
        text = text;
        point = g.point_before;
        mark = g.mark_before;
        modified = modified_after_undo st.saved_text text;
      }

  abbrev redone : UndoGroup → BufferValue
  redone g =
      let text = splice current.text g.start (g.start + length g.removed_text) g.inserted_text in
      record current {
        text = text;
        point = g.point_after;
        mark = g.mark_after;
        modified = modified_after_undo st.saved_text text;
      }

  undo_group-Keeps :
      (g : UndoGroup) (older : List UndoGroup)
      → st.undo_history ≡ g ∷ older
      → Keeps undo current (undo_group current st ring g older)
  unfolding undo_group bookkeeping undo_books yank_flag user_issued is_message
  undo_group-Keeps g older e =
      let can : CanUndo (g ∷ older) current.text = rw e at h.can_undo in
      let (u, p, rest) = can in
      let t : splice current.text g.start (g.start + length g.inserted_text) g.removed_text ≡ u =
        splice_undo g p in
      let b : InBounds (undone g) = record {
        point_in = rw t p.point_before_in;
        mark_in = rw t p.mark_before_in;
      } in
      checked-Returns _ _ b (record {
        valid = record {
          in_bounds = b;
          can_undo = rw t rest;
          can_redo = rw t (current.text, p, h.can_redo);
          capacity = omega (arith, h.capacity, ap length e);
          yank_in = λ a. cc;
          clean = λ k c. modified_after_undo-saved st.saved_text _ c;
        };
        ring_bound = room;
        patched = λ g e. unfold make_group group_of in cc;
      })

  redo_group-Keeps :
      (g : UndoGroup) (older : List UndoGroup)
      → st.undo_redo ≡ g ∷ older
      → Keeps undo current (redo_group current st ring g older)
  unfolding redo_group bookkeeping undo_books yank_flag user_issued is_message
  redo_group-Keeps g older e =
      let can : CanRedo (g ∷ older) current.text = rw e at h.can_redo in
      let (u, p, rest) = can in
      let t : splice current.text g.start (g.start + length g.removed_text) g.inserted_text ≡ u =
        splice_redo g p in
      let b : InBounds (redone g) = record {
        point_in = rw t p.point_after_in;
        mark_in = rw t p.mark_after_in;
      } in
      checked-Returns _ _ b (record {
        valid = record {
          in_bounds = b;
          can_undo = rw t (current.text, p, h.can_undo);
          can_redo = rw t rest;
          capacity = omega (arith, h.capacity, ap length e);
          yank_in = λ a. cc;
          clean = λ k c. modified_after_undo-saved st.saved_text _ c;
        };
        ring_bound = room;
        patched = λ g e. unfold make_group group_of in cc;
      })

  undo_newest-Keeps :
      (history : List UndoGroup)
      → st.undo_history ≡ history
      → Keeps undo current (undo_newest current st ring history)
  unfolding undo_newest group_of is_text_yanked is_text_yank_popped
  undo_newest-Keeps [] e = unchanged-Keeps ring h room undo _ (IsQuiet-one _ _ refl refl refl)
  undo_newest-Keeps (g ∷ older) e = undo_group-Keeps g older e

  undo_step-Keeps :
      (descending : Bool) (redo : List UndoGroup)
      → st.undo_redo ≡ redo
      → Keeps undo current (undo_step current st ring descending redo)
  unfolding undo_step
  undo_step-Keeps true redo e = undo_newest-Keeps _ refl
  undo_step-Keeps false [] e = undo_newest-Keeps _ refl
  undo_step-Keeps false (g ∷ older) e = redo_group-Keeps g older e

  pub undo-Keeps : Keeps undo current (undo_arm current st ring)
  unfolding undo_arm
  undo-Keeps = undo_step-Keeps st.undo_descending st.undo_redo refl
