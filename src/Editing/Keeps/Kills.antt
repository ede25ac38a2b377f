-- ===== src/Editing/Keeps/Kills.antt =====
-- Killing and copying.
use drei.Base.{
  ℕ, suc, ◌-◌, ◌≤◌, ◌≡◌, refl, Str, List, [], ◌∷◌, Option, none, some, length, drop, true, false,
  Bool, arith, ap, min, max, length-take, length-drop, Bool-cases, ◌==◌, inl, inr, if◌then◌else◌,
}
use drei.Files.LineEndings.{newline}
use drei.Buffer.{BufferValue, InBounds, MarkIn, adjust_mark_delete, adjust_mark_delete-MarkIn}
use drei.Commands.{Command, kill_line, kill_region, copy_region_as_kill, user_issued, is_message}
use drei.Editing.Text.{kill_ring_capacity, splice, slice, push_kill, kill_entry, find_newline}
use drei.Editing.Kills.{
  kill_to, kill_line_arm, kill_region_from, copy_region_from, with_region, kill_region_arm,
  copy_region_arm,
}
use drei.Editing.State.{BufferState}
use drei.Editing.Bookkeeping.{
  bookkeeping, undo_books, push_group, make_group, group_of, is_text_yanked, is_text_yank_popped,
  yank_flag,
}
use drei.Editing.Deletion.{length-deleted, deletion-Patches}
use drei.Editing.Invariant.{IsValid}
use drei.Editing.Valid.{IsQuiet-none, IsQuiet-one, bookkeeping-quiet, IsValid-still, IsValid-patch}
use drei.Editing.Outcome.{Keeps, checked-Returns, one_group}
use drei.Editing.Keeps.Moves.{unchanged-Keeps}

pub push_kill-bound :
    (killed : Str) (ring : List Str) → length (push_kill killed ring) ≤ kill_ring_capacity
unfolding push_kill
push_kill-bound killed ring = omega (arith, length-take kill_ring_capacity (killed ∷ ring))

kill_entry-bound :
    (chain : Bool) (killed : Str) (ring : List Str)
    → length ring ≤ kill_ring_capacity
    → length (kill_entry chain killed ring) ≤ kill_ring_capacity
unfolding kill_entry
kill_entry-bound true killed [] h = push_kill-bound killed []
kill_entry-bound true killed (newest ∷ ring) h = h
kill_entry-bound false killed ring h = push_kill-bound killed ring

find_newline-le : (s : Str) → find_newline s ≤ length s
unfolding find_newline
find_newline-le [] = omega arith
find_newline-le (c ∷ s) = ground (arith, find_newline-le s)

module _ {current : BufferValue} {st : BufferState} (ring : List Str) (h : IsValid current st)
    (room : length ring ≤ kill_ring_capacity) where
  kill_to-Keeps :
      (stop : ℕ)
      → current.point ≤ stop
      → stop ≤ length current.text
      → Keeps kill_line current (kill_to current st ring stop)
  unfolding kill_to
  kill_to-Keeps stop ordered within =
      let n : length (splice current.text current.point stop [])
          ≡ length current.text - (stop - current.point) =
        length-deleted current current.point stop h.in_bounds ordered within in
      let p : current.point ≤ length (splice current.text current.point stop []) = omega arith in
      let m : MarkIn (adjust_mark_delete current.mark current.point stop)
          (length (splice current.text current.point stop [])) =
        rw n (
          adjust_mark_delete-MarkIn current.mark current.point stop (length current.text) ordered
            within h.in_bounds.mark_in) in
      checked-Returns _ _ (record { point_in = p; mark_in = m })
        (record {
          valid =
              unfold bookkeeping undo_books make_group group_of push_group yank_flag user_issued
                is_message in
              IsValid-patch current _ st _ _ h
                (deletion-Patches current current.point stop h.in_bounds ordered within
                  current.point _ p m)
                (record { point_in = p; mark_in = m }) refl refl refl (λ a. cc);
          ring_bound = kill_entry-bound st.last_was_kill _ ring room;
          patched = λ g e.
              unfold make_group group_of in
              one_group e (
                deletion-Patches current current.point stop h.in_bounds ordered within current.point
                  _ p m);
        })

  kill_line_at :
      (rest : Str)
      → drop current.point current.text ≡ rest
      → Keeps kill_line current (kill_line_arm current st ring)
  unfolding kill_line_arm group_of is_text_yanked is_text_yank_popped
  kill_line_at [] e =
      rw (e, kill_line_arm)
        (unchanged-Keeps ring h room kill_line _ (IsQuiet-one _ _ refl refl refl))
  kill_line_at (c ∷ rest) e =
      let n : length (drop current.point current.text) ≡ suc (length rest) = ap length e in
      let k : find_newline (c ∷ rest) ≤ suc (length rest) = find_newline-le (c ∷ rest) in
      let l : (if c == newline then 1 else find_newline (c ∷ rest)) ≤ suc (length rest) =
        ground arith in
      rw (e, kill_line_arm)
        (kill_to-Keeps _ (omega arith) (omega (arith, length-drop current.point current.text)))

  pub kill_line-Keeps : Keeps kill_line current (kill_line_arm current st ring)
  kill_line-Keeps = kill_line_at _ refl

  kill_region_from-Keeps :
      (mark : ℕ)
      → mark ≤ length current.text
      → Keeps kill_region current (kill_region_from current st ring mark)
  unfolding kill_region_from
  kill_region_from-Keeps mark i =
      let lo = min current.point mark in
      let hi = max current.point mark in
      let ordered : lo ≤ hi = omega arith in
      let within : hi ≤ length current.text = omega (arith, h.in_bounds.point_in) in
      let p : lo ≤ length (splice current.text lo hi []) =
        omega (arith, length-deleted current lo hi h.in_bounds ordered within) in
      checked-Returns _ _ (record { point_in = p; mark_in = tt })
        (record {
          valid =
              unfold bookkeeping undo_books make_group group_of push_group yank_flag user_issued
                is_message in
              IsValid-patch current _ st _ _ h
                (deletion-Patches current lo hi h.in_bounds ordered within lo none p tt)
                (record { point_in = p; mark_in = tt }) refl refl refl (λ a. cc);
          ring_bound = push_kill-bound (slice current.text lo hi) ring;
          patched = λ g e.
              unfold make_group group_of in
              one_group e (deletion-Patches current lo hi h.in_bounds ordered within lo none p tt);
        })

  copy_region_from-Keeps :
      (mark : ℕ) → Keeps copy_region_as_kill current (copy_region_from current st ring mark)
  unfolding copy_region_from group_of is_text_yanked is_text_yank_popped
  copy_region_from-Keeps mark =
      let b : InBounds _ = record { point_in = h.in_bounds.point_in; mark_in = tt } in
      checked-Returns _ _ b (record {
        valid =
            IsValid-still current _ st _ h
              (bookkeeping-quiet copy_region_as_kill current _ st (IsQuiet-one _ _ refl refl refl))
              b refl refl;
        ring_bound =
            push_kill-bound (slice current.text (min current.point mark) (max current.point mark))
              ring;
        patched = λ g e. unfold make_group group_of in cc;
      })

  with_region-Keeps :
      (cmd : Command) (act : ℕ → _) (m : Option ℕ)
      → MarkIn m (length current.text)
      → ((mark : ℕ) → mark ≤ length current.text → Keeps cmd current (act mark))
      → Keeps cmd current (with_region current st ring act m)
  unfolding with_region group_of is_text_yanked is_text_yank_popped
  with_region-Keeps cmd act none i k =
      unchanged-Keeps ring h room cmd _ (IsQuiet-one _ _ refl refl refl)
  with_region-Keeps cmd act (some mark) i k = elim (Bool-cases (mark == current.point)) [
    | inl e ↦ rw e (unchanged-Keeps ring h room cmd [] (IsQuiet-none current))
    | inr e ↦ rw e (k mark i)
  ]

  pub kill_region-Keeps : Keeps kill_region current (kill_region_arm current st ring)
  unfolding kill_region_arm
  kill_region-Keeps =
      with_region-Keeps kill_region _ current.mark h.in_bounds.mark_in kill_region_from-Keeps

  pub copy_region-Keeps : Keeps copy_region_as_kill current (copy_region_arm current st ring)
  unfolding copy_region_arm
  copy_region-Keeps =
      with_region-Keeps copy_region_as_kill _ current.mark h.in_bounds.mark_in
        (λ mark i. copy_region_from-Keeps mark)
