-- ===== src/Editing/Insertion.antt =====
-- The value that insertion at point makes (`InsertText`, `Yank`) and the group that undoes it.
use drei.Base.{◌+◌, ◌-◌, ◌≡◌, Str, true, [], length, arith}
use drei.Buffer.{BufferValue, InBounds, adjust_mark_insert, adjust_mark_insert-MarkIn}
use drei.Editing.Text.{splice, slice}
use drei.Editing.State.{UndoGroup}
use drei.Editing.Groups.{Patches}
use drei.Editing.Splice.{length-splice, Patches-splice}

module _ (current : BufferValue) (text : Str) where
  abbrev pub inserted : BufferValue
  inserted = record current {
    text = splice current.text current.point current.point text;
    point = current.point + length text;
    modified = true;
    mark = adjust_mark_insert current.mark current.point (length text);
  }

  abbrev pub insertion : UndoGroup
  insertion = record {
    start = current.point;
    removed_text = [];
    inserted_text = text;
    point_before = current.point;
    point_after = current.point + length text;
    mark_before = current.mark;
    mark_after = adjust_mark_insert current.mark current.point (length text);
  }

  module _ (b : InBounds current) where
    pub length-inserted : length inserted.text ≡ length current.text + length text
    length-inserted = omega (
      arith,
      length-splice current.text current.point current.point text (omega arith) b.point_in,
      b.point_in,
    )

    pub inserted-InBounds : InBounds inserted
    inserted-InBounds = record {
      point_in = omega (arith, length-inserted, b.point_in);
      mark_in = rw length-inserted (
          adjust_mark_insert-MarkIn current.mark current.point (length text) (length current.text)
            b.mark_in);
    }

    empty_slice : [] ≡ slice current.text current.point current.point
    unfolding slice
    empty_slice = let e : current.point - current.point ≡ 0 = omega arith in rw e

    pub insertion-Patches : Patches insertion current.text inserted.text
    insertion-Patches =
        Patches-splice insertion current.text current.point (omega arith) b.point_in empty_slice
          b.point_in b.mark_in inserted-InBounds.point_in inserted-InBounds.mark_in
