-- ===== src/Editing/Places.antt =====
-- The place that an undo group remembers for after its command: `_make_group` beside the arms of
-- `dispatch` (session.py).
use drei.Base.{
  ◌≡◌, refl, subst, sym, ◌+◌, ◌%◌, true, false, not, Str, List, [], ◌∷◌, none, some, Option, length,
  drop, get_elem?, required, ltb, ok, bind-ok, if-ok, ok-injective, arith, ◌>>=◌, if◌then◌else◌,
  ◌==◌,
}
use drei.Buffer.{BufferValue, checked, checked_same}
use drei.Commands.{
  Command, insert_text, forward_char, backward_char, kill_line, yank, yank_pop, set_mark,
  kill_region, copy_region_as_kill, exchange_point_and_mark, undo, keyboard_quit, Event, message,
  end_of_buffer, mark_not_set, previous_command_not_a_yank,
}
use drei.Editing.Text.{Edit, slice, unchanged, find_newline}
use drei.Files.LineEndings.{newline}
use drei.Editing.State.{UndoGroup, BufferState}
use drei.Editing.Moves.{
  insert_text_arm, exchange_with, forward_char_arm, backward_char_arm, set_mark_arm, exchange_arm,
  keyboard_quit_arm,
}
use drei.Editing.Kills.{
  kill_line_arm, kill_to, kill_region_from, copy_region_from, with_region, kill_region_arm,
  copy_region_arm,
}
use drei.Editing.Yanks.{yank_arm, yank_entry, yank_pop_arm, yank_pop_replace}
use drei.Editing.Bookkeeping.{make_group, group_of}
use drei.Editing.Groups.{length-slice}
use drei.Editing.Invariant.{IsValid}
use drei.Editing.Restores.{editing, is_undo}

-- The group leads to the point and the mark of `v`.
pub record ToPlace (v : BufferValue) (g : UndoGroup) : Type 0 where
  pub point : g.point_after ≡ v.point
  pub mark : g.mark_after ≡ v.mark

-- The group that an edit makes leads to where the edit is.
abbrev Placed : BufferValue → Edit → Type 0
Placed current e = (g : UndoGroup) → make_group current e.events ≡ some g → ToPlace e.value g

to_place :
    {v : BufferValue} (g' : UndoGroup) {g : UndoGroup}
    → ToPlace v g'
    → some g' ≡ some g
    → ToPlace v g
to_place {v} g' {g} p e = let same : g' ≡ g = cc in subst (ToPlace v) same p

-- An arm that ends in a checked value.
pub checked-ends :
    (P : Edit → Type 0) (v : BufferValue) (f : BufferValue → Edit) {e : Edit}
    → P (f v)
    → (checked v >>= λ w. ok (f w)) ≡ ok e
    → P e
checked-ends P v f p h =
    let (w, made, k) = bind-ok (checked v) _ h in
    let same : v ≡ w = sym (checked_same v w made) in
    subst P (ok-injective k) (subst (λ x. P (f x)) same p)

module _ (current : BufferValue) (st : BufferState) (ring : List Str) (e : Edit) where
  insert_text-Placed : (text : Str) → insert_text_arm current st ring text ≡ ok e → Placed current e
  unfolding insert_text_arm make_group group_of
  insert_text-Placed [] h = subst (Placed current) (ok-injective h) (λ g m. cc)
  insert_text-Placed (c ∷ cs) h =
      checked-ends (Placed current) _ _ (λ g m. to_place _ (record { point = refl; mark = refl }) m)
        h

  kill_to-Placed : (stop : _) → kill_to current st ring stop ≡ ok e → Placed current e
  unfolding kill_to make_group group_of
  kill_to-Placed stop h =
      checked-ends (Placed current) _ _ (λ g m. to_place _ (record { point = refl; mark = refl }) m)
        h

  kill_region_from-Placed :
      (mark : _) → kill_region_from current st ring mark ≡ ok e → Placed current e
  unfolding kill_region_from make_group group_of
  kill_region_from-Placed mark h =
      checked-ends (Placed current) _ _ (λ g m. to_place _ (record { point = refl; mark = refl }) m)
        h

  yank_entry-Placed : (r : List Str) → yank_entry current st ring r ≡ ok e → Placed current e
  unfolding yank_entry make_group group_of
  yank_entry-Placed [] h = subst (Placed current) (ok-injective h) (λ g m. cc)
  yank_entry-Placed (text ∷ older) h =
      checked-ends (Placed current) _ _ (λ g m. to_place _ (record { point = refl; mark = refl }) m)
        h

  yank_pop_replace-Placed :
      IsValid current st
      → st.yank_active ≡ true
      → yank_pop_replace current st ring ≡ ok e
      → Placed current e
  unfolding yank_pop_replace make_group group_of
  yank_pop_replace-Placed v active h =
      let (ordered, within) = v.yank_in active in
      let old_end : st.yank_start + length (slice current.text st.yank_start st.yank_end)
          ≡ st.yank_end =
        omega (arith, length-slice current.text st.yank_start st.yank_end ordered within) in
      let (new, _, k) =
        bind-ok (required (get_elem? ring ((st.yank_cursor + 1) % length ring))) _ h in
      checked-ends (Placed current) _ _
        (λ g m. to_place _ (record { point = refl; mark = rw old_end refl }) m) k

  -- Nothing done, and no group made.
  quiet-Placed :
      (events : List Event)
      → make_group current events ≡ none
      → ok (record { value = current; state = st; ring = ring; events = events }) ≡ ok e
      → Placed current e
  quiet-Placed events quiet h = subst (Placed current) (ok-injective h) (λ g m. cc)

  kill_line-Placed : kill_line_arm current st ring ≡ ok e → Placed current e
  unfolding kill_line_arm make_group group_of
  kill_line-Placed h = at_point (drop current.point current.text) h
    where
      at_point :
          (rest : Str)
          → (elim rest [
            | [] ↦ ok (unchanged current st ring (message end_of_buffer ∷ []))
            | c ∷ more ↦
                kill_to current st ring
                  (current.point + (if c == newline then 1 else find_newline (c ∷ more)))
          ])
            ≡ ok e
          → Placed current e
      at_point [] k = quiet-Placed (message end_of_buffer ∷ []) refl k
      at_point (c ∷ more) k = kill_to-Placed _ k

  kill_region-Placed :
      (mark : Option _)
      → with_region current st ring (kill_region_from current st ring) mark ≡ ok e
      → Placed current e
  unfolding with_region make_group group_of
  kill_region-Placed none h = quiet-Placed (message mark_not_set ∷ []) refl h
  kill_region-Placed (some mark) h =
      if-ok (Placed current e) (mark == current.point) _ _ (λ _ k. quiet-Placed [] refl k)
        (λ _ k. kill_region_from-Placed mark k) h

  copy_region-Placed :
      (mark : Option _)
      → with_region current st ring (copy_region_from current st ring) mark ≡ ok e
      → Placed current e
  unfolding with_region copy_region_from make_group group_of
  copy_region-Placed none h = quiet-Placed (message mark_not_set ∷ []) refl h
  copy_region-Placed (some mark) h =
      if-ok (Placed current e) (mark == current.point) _ _ (λ _ k. quiet-Placed [] refl k)
        (λ _ k. checked-ends (Placed current) _ _ (λ g m. cc) k) h

  exchange-Placed : (mark : Option _) → exchange_with current st ring mark ≡ ok e → Placed current e
  unfolding exchange_with make_group group_of
  exchange-Placed none h = quiet-Placed [] refl h
  exchange-Placed (some mark) h = checked-ends (Placed current) _ _ (λ g m. cc) h

  yank_pop-Placed : IsValid current st → yank_pop_arm current st ring ≡ ok e → Placed current e
  unfolding yank_pop_arm make_group group_of
  yank_pop-Placed v h =
      if-ok (Placed current e) (not st.yank_active) _ _
        (λ _ k. quiet-Placed (message previous_command_not_a_yank ∷ []) refl k)
        (λ active k.
          if-ok (Placed current e) (ltb (length ring) 2) _ _ (λ _ l. quiet-Placed [] refl l)
            (λ _ l. yank_pop_replace-Placed v (ground arith) l) k)
        h

  -- When an editing command other than undo makes an undo group, the group's place after the command
  -- is where the command has left point and mark.
  pub editing-ToPlace :
      (cmd : Command)
      → IsValid current st
      → is_undo cmd ≡ false
      → editing cmd current st ring ≡ ok e
      → (g : UndoGroup) → make_group current e.events ≡ some g
      → ToPlace e.value g
  unfolding editing yank_arm kill_region_arm copy_region_arm exchange_arm forward_char_arm
      backward_char_arm set_mark_arm keyboard_quit_arm make_group group_of
  editing-ToPlace (insert_text text) v u h = insert_text-Placed text h
  editing-ToPlace forward_char v u h = checked-ends (Placed current) _ _ (λ g m. cc) h
  editing-ToPlace backward_char v u h = checked-ends (Placed current) _ _ (λ g m. cc) h
  editing-ToPlace kill_line v u h = kill_line-Placed h
  editing-ToPlace yank v u h = yank_entry-Placed ring h
  editing-ToPlace yank_pop v u h = yank_pop-Placed v h
  editing-ToPlace set_mark v u h = checked-ends (Placed current) _ _ (λ g m. cc) h
  editing-ToPlace kill_region v u h = kill_region-Placed current.mark h
  editing-ToPlace copy_region_as_kill v u h = copy_region-Placed current.mark h
  editing-ToPlace exchange_point_and_mark v u h = exchange-Placed current.mark h
  editing-ToPlace undo v u h = cc
  editing-ToPlace keyboard_quit v u h = checked-ends (Placed current) _ _ (λ g m. cc) h
  editing-ToPlace cmd v u h = quiet-Placed [] refl h
