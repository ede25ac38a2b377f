-- ===== src/Editing/Deletion.antt =====
-- The group that undoes a deletion (`KillLine`, `KillRegion`).
use drei.Base.{ℕ, ◌-◌, ◌≤◌, ◌≡◌, refl, Option, [], length, arith}
use drei.Buffer.{BufferValue, InBounds, MarkIn}
use drei.Editing.Text.{splice, slice}
use drei.Editing.Groups.{Patches}
use drei.Editing.Splice.{length-splice, Patches-splice}

module _ (current : BufferValue) (start stop : ℕ) (b : InBounds current) (ordered : start ≤ stop)
    (within : stop ≤ length current.text) where
  pub length-deleted :
      length (splice current.text start stop []) ≡ length current.text - (stop - start)
  length-deleted = omega (arith, length-splice current.text start stop [] ordered within)

  pub deletion-Patches :
      (point_after : ℕ) (mark_after : Option ℕ)
      → point_after ≤ length (splice current.text start stop [])
      → MarkIn mark_after (length (splice current.text start stop []))
      → Patches
          (record {
            start = start;
            removed_text = slice current.text start stop;
            inserted_text = [];
            point_before = current.point;
            point_after = point_after;
            mark_before = current.mark;
            mark_after = mark_after;
          })
          current.text
          (splice current.text start stop [])
  deletion-Patches point_after mark_after p m =
      Patches-splice _ current.text stop ordered within refl b.point_in b.mark_in p m
