-- ===== src/Editing/Keeps/Yanks.antt =====
-- Yanking, and replacing what was yanked.
use drei.Base.{
  ◌+◌, ◌-◌, ◌%◌, ◌≤◌, ◌≡◌, refl, Str, List, [], ◌∷◌, length, true, not, arith, get_elem?_lt, ltb,
  Returns-if,
}
use drei.Buffer.{
  BufferValue, InBounds, adjust_mark_insert, adjust_mark_delete, adjust_mark_insert-MarkIn,
  adjust_mark_delete-MarkIn,
}
use drei.Commands.{yank, yank_pop, user_issued, is_message}
use drei.Editing.Text.{kill_ring_capacity, splice, slice}
use drei.Editing.Yanks.{yank_entry, yank_arm, yank_pop_replace, yank_pop_arm}
use drei.Editing.State.{BufferState}
use drei.Editing.Bookkeeping.{
  bookkeeping, undo_books, push_group, make_group, group_of, is_text_yanked, is_text_yank_popped,
  yank_flag,
}
use drei.Editing.Groups.{Patches, length-slice}
use drei.Editing.Splice.{length-splice, Patches-splice}
use drei.Editing.Insertion.{inserted, insertion, inserted-InBounds, insertion-Patches}
use drei.Editing.Invariant.{IsValid}
use drei.Editing.Valid.{IsQuiet-none, IsQuiet-one, IsValid-patch}
use drei.Editing.Outcome.{Keeps, checked-Returns, one_group}
use drei.Editing.Keeps.Moves.{unchanged-Keeps}

module _ {current : BufferValue} {st : BufferState} (ring : List Str) (h : IsValid current st)
    (room : length ring ≤ kill_ring_capacity) where
  yank_entry-Keeps : (r : List Str) → r ≡ ring → Keeps yank current (yank_entry current st ring r)
  unfolding yank_entry
  yank_entry-Keeps [] e = unchanged-Keeps ring h room yank [] (IsQuiet-none current)
  yank_entry-Keeps (text ∷ older) e =
      let b : InBounds (inserted current text) = inserted-InBounds current text h.in_bounds in
      checked-Returns _ _ b (record {
        valid =
            unfold bookkeeping undo_books make_group group_of push_group yank_flag user_issued
              is_message in
            IsValid-patch current _ st _ (insertion current text) h
              (insertion-Patches current text h.in_bounds) b refl refl refl
              (λ a. (omega arith, b.point_in));
        ring_bound = room;
        patched = λ g e.
            unfold make_group group_of in one_group e (insertion-Patches current text h.in_bounds);
      })

  pub yank-Keeps : Keeps yank current (yank_arm current st ring)
  unfolding yank_arm
  yank-Keeps = yank_entry-Keeps ring refl

  -- The bounds of the last yank, while a yank-pop may use them.
  module _ (ordered : st.yank_start ≤ st.yank_end) (within : st.yank_end ≤ length current.text)
      (new : Str) where
    length-replaced :
        length (splice current.text st.yank_start st.yank_end new)
        ≡ length current.text - (st.yank_end - st.yank_start) + length new
    length-replaced = length-splice current.text st.yank_start st.yank_end new ordered within

    replaced-InBounds : InBounds (record current {
      text = splice current.text st.yank_start st.yank_end new;
      point = st.yank_start + length new;
      modified = true;
      mark =
          adjust_mark_insert
            (adjust_mark_delete current.mark st.yank_start st.yank_end)
            st.yank_start
            (length new);
    })
    replaced-InBounds = record {
      point_in = omega (arith, length-replaced);
      mark_in = rw length-replaced (
          adjust_mark_insert-MarkIn (adjust_mark_delete current.mark st.yank_start st.yank_end)
            st.yank_start (length new) (length current.text - (st.yank_end - st.yank_start))
            (adjust_mark_delete-MarkIn current.mark st.yank_start st.yank_end (length current.text)
              ordered within h.in_bounds.mark_in));
    }

    old_end : st.yank_start + length (slice current.text st.yank_start st.yank_end) ≡ st.yank_end
    old_end = omega (arith, length-slice current.text st.yank_start st.yank_end ordered within)

    replacement-Patches :
        Patches
          (record {
            start = st.yank_start;
            removed_text = slice current.text st.yank_start st.yank_end;
            inserted_text = new;
            point_before = current.point;
            point_after = st.yank_start + length new;
            mark_before = current.mark;
            mark_after =
                adjust_mark_insert
                  (adjust_mark_delete current.mark st.yank_start
                    (st.yank_start + length (slice current.text st.yank_start st.yank_end)))
                  st.yank_start
                  (length new);
          })
          current.text
          (splice current.text st.yank_start st.yank_end new)
    replacement-Patches =
        Patches-splice _ current.text st.yank_end ordered within refl h.in_bounds.point_in
          h.in_bounds.mark_in replaced-InBounds.point_in (rw old_end replaced-InBounds.mark_in)

  yank_pop_replace-Keeps :
      st.yank_active ≡ true
      → 2 ≤ length ring
      → Keeps yank_pop current (yank_pop_replace current st ring)
  unfolding yank_pop_replace
  yank_pop_replace-Keeps a two =
      let (ordered, within) = h.yank_in a in
      let (new, e) = get_elem?_lt ring ((st.yank_cursor + 1) % length ring) (grind arith) in
      let b = replaced-InBounds ordered within new in
      rw e (
        checked-Returns _ _ b (record {
          valid =
              unfold bookkeeping undo_books make_group group_of push_group yank_flag user_issued
                is_message in
              IsValid-patch current _ st _ _ h (replacement-Patches ordered within new) b refl refl
                refl (λ y. (omega arith, b.point_in));
          ring_bound = room;
          patched = λ g e.
              unfold make_group group_of in one_group e (replacement-Patches ordered within new);
        }))

  pub yank_pop-Keeps : Keeps yank_pop current (yank_pop_arm current st ring)
  unfolding yank_pop_arm group_of is_text_yanked is_text_yank_popped
  yank_pop-Keeps =
      Returns-if (not st.yank_active) _ _
        (λ idle. unchanged-Keeps ring h room yank_pop _ (IsQuiet-one _ _ refl refl refl))
        (λ active.
          Returns-if (ltb (length ring) 2) _ _
            (λ one. unchanged-Keeps ring h room yank_pop [] (IsQuiet-none current))
            (λ two. yank_pop_replace-Keeps (ground arith) (ground arith)))
