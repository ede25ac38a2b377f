-- ===== src/Editing/Reinsert.antt =====
-- `_yank` after `_kill_region` (session.py).
use drei.Base.{
  ℕ, ◌+◌, ◌-◌, ◌≤◌, ◌≡◌, ◌≢◌, sym, ap, ◌∙◌, min, max, Str, List, [], Option, none, some, false,
  subst, length, Result, Returns, ◌==◌, arith,
}
use drei.Buffer.{BufferValue, MarkIn, adjust_mark_insert}
use drei.Commands.{kill_region, yank}
use drei.Editing.Text.{Edit, splice, slice, push_kill}
use drei.Editing.Kills.{kill_region_from, kill_region_arm, with_region}
use drei.Editing.Yanks.{yank_entry, yank_arm}
use drei.Editing.State.{BufferState}
use drei.Editing.Deletion.{deletion-Patches, length-deleted}
use drei.Editing.Groups.{splice_undo, length-slice}
use drei.Editing.Invariant.{IsValid}
use drei.Editing.Outcome.{checked-Returns}
use drei.Editing.Restores.{editing, after}

-- The text is back, and point is at the end of the region.
pub record IsReinserted (v : BufferValue) (mark : ℕ) (r : Edit) : Type 0 where
  pub text : r.value.text ≡ v.text
  pub point : r.value.point ≡ max v.point mark

module _ {current : BufferValue} {st : BufferState} (ring : List Str) (h : IsValid current st)
    (mark : ℕ) (here : mark ≤ length current.text) where
  kill_region_from-yank : Returns (kill_region_from current st ring mark) (λ e.
      Returns (yank_arm e.value (after kill_region current e) e.ring) (IsReinserted current mark))
  unfolding kill_region_from yank_arm yank_entry push_kill adjust_mark_insert
  kill_region_from-yank =
      let lo = min current.point mark in
      let hi = max current.point mark in
      let ordered : lo ≤ hi = omega arith in
      let within : hi ≤ length current.text = omega (arith, h.in_bounds.point_in) in
      let killed = slice current.text lo hi in
      let shorter = length-deleted current lo hi h.in_bounds ordered within in
      let size : length killed ≡ hi - lo = length-slice current.text lo hi ordered within in
      let p : lo ≤ length (splice current.text lo hi []) = omega arith in
      let same : lo ≡ lo + 0 = omega arith in
      let back : splice (splice current.text lo hi []) lo lo killed ≡ current.text =
        ap (λ n. splice (splice current.text lo hi []) lo n killed) same
        ∙ splice_undo _ (deletion-Patches current lo hi h.in_bounds ordered within lo none p tt) in
      checked-Returns _ _ (record { point_in = p; mark_in = tt })
        (checked-Returns _ _ (record { point_in = rw back (omega arith); mark_in = tt })
          (record { text = back; point = omega arith }))

-- The guards of a region, past which a command works from the mark.
with_region-some :
    (current : BufferValue) (st : BufferState) (ring : List Str) (act : ℕ → Result Edit)
    (m : Option ℕ) (mark : ℕ)
    → m ≡ some mark
    → mark ≢ current.point
    → with_region current st ring act m ≡ act mark
unfolding with_region
with_region-some current st ring act none mark e apart = cc
with_region-some current st ring act (some n) mark e apart =
    let same : n ≡ mark = cc in
    let other : (n == current.point) ≡ false = ground (arith, apart) in rw other (ap act same)

-- A region that is not empty is killed, and a yank right after the kill puts it back: the text is
-- what it was, and point is at the end of the region.
pub kill_region-yank :
    (current : BufferValue) (st : BufferState) (ring : List Str) (mark : ℕ)
    → IsValid current st
    → current.mark ≡ some mark
    → mark ≢ current.point
    → Returns (editing kill_region current st ring) (λ e.
      Returns
        (editing yank e.value (after kill_region current e) e.ring)
        (IsReinserted current mark))
unfolding editing kill_region_arm
kill_region-yank current st ring mark h marked apart =
    let there : MarkIn (some mark) (length current.text) = rw marked at h.in_bounds.mark_in in
    subst
      (λ r. Returns r (λ e.
        Returns (yank_arm e.value (after kill_region current e) e.ring)
          (IsReinserted current mark)))
      (sym (
        with_region-some current st ring (kill_region_from current st ring) current.mark mark marked
          apart))
      (kill_region_from-yank ring h mark there)
