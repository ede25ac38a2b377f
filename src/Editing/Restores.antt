-- ===== src/Editing/Restores.antt =====
-- The editing commands of `dispatch` with an undo right after them (session.py).
use drei.Base.{
  ◌≤◌, ◌+◌, ◌≡◌, refl, Bool, true, false, Str, List, [], ◌∷◌, Option-cases, Bool-cases, inl, inr,
  some, length, Result, ok, Returns, subst, ◌∙◌, take, arith,
}
use drei.Buffer.{BufferValue}
use drei.Commands.{
  Command, insert_text, forward_char, backward_char, kill_line, yank, yank_pop, set_mark,
  kill_region, copy_region_as_kill, exchange_point_and_mark, undo, keyboard_quit, Event,
  text_inserted, text_killed, region_killed, text_yanked, text_yank_popped,
}
use drei.Editing.Text.{Edit, splice, kill_ring_capacity}
use drei.Editing.Moves.{
  insert_text_arm, forward_char_arm, backward_char_arm, set_mark_arm, exchange_arm,
  keyboard_quit_arm,
}
use drei.Editing.Kills.{kill_line_arm, kill_region_arm, copy_region_arm}
use drei.Editing.Yanks.{yank_arm, yank_pop_arm}
use drei.Editing.Undos.{undo_arm, undo_group, undo_newest, undo_step}
use drei.Editing.State.{UndoGroup, BufferState}
use drei.Editing.Bookkeeping.{
  group_of, make_group, push_group, undo_books, bookkeeping, undo_capacity,
}
use drei.Editing.Groups.{Patches, splice_undo}
use drei.Editing.Invariant.{IsValid}
use drei.Editing.Valid.{IsQuiet-none}
use drei.Editing.Outcome.{Keeps, IsKept, checked-Returns}
use drei.Editing.Keeps.Moves
use drei.Editing.Keeps.Kills
use drei.Editing.Keeps.Yanks
use drei.Editing.Keeps.Undos

-- The editing arms of `dispatch`; another command edits nothing.
unfoldable pub editing : Command → BufferValue → BufferState → List Str → Result Edit
editing (insert_text text) v st ring = insert_text_arm v st ring text
editing forward_char v st ring = forward_char_arm v st ring
editing backward_char v st ring = backward_char_arm v st ring
editing kill_line v st ring = kill_line_arm v st ring
editing yank v st ring = yank_arm v st ring
editing yank_pop v st ring = yank_pop_arm v st ring
editing set_mark v st ring = set_mark_arm v st ring
editing kill_region v st ring = kill_region_arm v st ring
editing copy_region_as_kill v st ring = copy_region_arm v st ring
editing exchange_point_and_mark v st ring = exchange_arm v st ring
editing undo v st ring = undo_arm v st ring
editing keyboard_quit v st ring = keyboard_quit_arm v st ring
editing _ v st ring = ok (record { value = v; state = st; ring = ring; events = [] })

abbrev pub is_undo : Command → Bool
is_undo undo = true
is_undo _ = false

-- On a valid buffer with at most sixty kills, every editing command returns; after its
-- bookkeeping the buffer is valid, there are at most sixty kills, and the undo group that its
-- events make, if any, leads from the old text to the new.
pub editing-Keeps :
    (cmd : Command) (current : BufferValue) (st : BufferState) (ring : List Str)
    → IsValid current st
    → length ring ≤ kill_ring_capacity
    → Keeps cmd current (editing cmd current st ring)
unfolding editing
editing-Keeps (insert_text text) current st ring h room = Moves.insert_text-Keeps ring h room text
editing-Keeps forward_char current st ring h room = Moves.forward_char-Keeps ring h room
editing-Keeps backward_char current st ring h room = Moves.backward_char-Keeps ring h room
editing-Keeps kill_line current st ring h room = Kills.kill_line-Keeps ring h room
editing-Keeps yank current st ring h room = Yanks.yank-Keeps ring h room
editing-Keeps yank_pop current st ring h room = Yanks.yank_pop-Keeps ring h room
editing-Keeps set_mark current st ring h room = Moves.set_mark-Keeps ring h room
editing-Keeps kill_region current st ring h room = Kills.kill_region-Keeps ring h room
editing-Keeps copy_region_as_kill current st ring h room = Kills.copy_region-Keeps ring h room
editing-Keeps exchange_point_and_mark current st ring h room = Moves.exchange-Keeps ring h room
editing-Keeps undo current st ring h room = Undos.undo-Keeps ring h room
editing-Keeps keyboard_quit current st ring h room = Moves.keyboard_quit-Keeps ring h room
editing-Keeps cmd current st ring h room =
    Moves.unchanged-Keeps ring h room cmd [] (IsQuiet-none current)

-- A group remembers the place before the command.
pub record FromPlace (v : BufferValue) (g : UndoGroup) : Type 0 where
  point : g.point_before ≡ v.point
  mark : g.mark_before ≡ v.mark

same_place :
    {v : BufferValue} (g' g : UndoGroup) → some g' ≡ some g → FromPlace v g' → FromPlace v g
same_place {v} g' g e p = let same : g' ≡ g = cc in subst (FromPlace v) same p

group_of-FromPlace :
    (v : BufferValue) (e : Event) (g : UndoGroup) → group_of v e ≡ some g → FromPlace v g
unfolding group_of
group_of-FromPlace v (text_inserted text before after) g h =
    same_place _ g h (record { point = refl; mark = refl })
group_of-FromPlace v (text_killed text before after direction) g h =
    same_place _ g h (record { point = refl; mark = refl })
group_of-FromPlace v (region_killed text before after direction) g h =
    same_place _ g h (record { point = refl; mark = refl })
group_of-FromPlace v (text_yanked text before after) g h =
    same_place _ g h (record { point = refl; mark = refl })
group_of-FromPlace v (text_yank_popped old new start after) g h =
    same_place _ g h (record { point = refl; mark = refl })
group_of-FromPlace v e g h = cc

pub make_group-FromPlace :
    (v : BufferValue) (events : List Event) (g : UndoGroup)
    → make_group v events ≡ some g
    → FromPlace v g
unfolding make_group
make_group-FromPlace v [] g h = cc
make_group-FromPlace v (e ∷ es) g h = elim (Option-cases (group_of v e)) [
  | inl nothing ↦ make_group-FromPlace v es g (rw (nothing, make_group) at h)
  | inr (g', found) ↦ group_of-FromPlace v e g (found ∙ (rw (found, make_group) at h))
]

-- After a command that is no undo, the history starts with its group and nothing can be redone.
pub record IsPushed (g : UndoGroup) (st st' : BufferState) : Type 0 where
  pub history : st'.undo_history ≡ take undo_capacity (g ∷ st.undo_history)
  pub redo : st'.undo_redo ≡ []

undo_books-IsPushed :
    (cmd : Command) (current : BufferValue) (events : List Event) (st : BufferState) (g : UndoGroup)
    → is_undo cmd ≡ false
    → make_group current events ≡ some g
    → IsPushed g st (undo_books cmd current events st)
unfolding undo_books push_group
undo_books-IsPushed undo current events st g edits e = cc
undo_books-IsPushed cmd current events st g edits e =
    rw e (record { history = ground arith; redo = ground arith })

pub bookkeeping-IsPushed :
    (cmd : Command) (current : BufferValue) (events : List Event) (st : BufferState) (g : UndoGroup)
    → is_undo cmd ≡ false
    → make_group current events ≡ some g
    → IsPushed g st (bookkeeping cmd current events st)
unfolding bookkeeping
bookkeeping-IsPushed cmd current events st g edits e =
    let p = undo_books-IsPushed cmd current events _ g edits e in
    record { history = p.history; redo = p.redo }

-- A buffer's value and state after a command that was carried out with its bookkeeping.
abbrev pub after : Command → BufferValue → Edit → BufferState
after cmd current e = bookkeeping cmd current e.events e.state

-- The text, the point and the mark are those of the value before.
pub record IsBack (v r : BufferValue) : Type 0 where
  pub text : r.text ≡ v.text
  pub point : r.point ≡ v.point
  pub mark : r.mark ≡ v.mark

-- A group that patched the buffer's text is taken back.
undo_group-IsBack :
    (v : BufferValue) (st : BufferState) (ring : List Str) (g : UndoGroup) (older : List UndoGroup)
    (before : BufferValue)
    → Patches g before.text v.text
    → FromPlace before g
    → Returns (undo_group v st ring g older) (λ r. IsBack before r.value)
unfolding undo_group
undo_group-IsBack v st ring g older before p place =
    let t : splice v.text g.start (g.start + length g.inserted_text) g.removed_text ≡ before.text =
      splice_undo g p in
    checked-Returns _ _
      (record { point_in = rw t p.point_before_in; mark_in = rw t p.mark_before_in })
      (record { text = t; point = place.point; mark = place.mark })

-- With nothing to redo, undo takes back the newest group, whichever way it was going.
pub undo_arm-newest :
    (v : BufferValue) (st : BufferState) (ring : List Str)
    → st.undo_redo ≡ []
    → undo_arm v st ring ≡ undo_newest v st ring st.undo_history
unfolding undo_arm undo_step
undo_arm-newest v st ring e = elim (Bool-cases st.undo_descending) [
  | inl down ↦ rw (e, down) refl
  | inr up ↦ rw (e, up) refl
]

-- When an editing command other than undo returns an edit that makes an undo group, an undo right
-- after it returns, and the buffer has its text, its point and its mark from before the command.
pub undo-restores :
    (cmd : Command) (current : BufferValue) (st : BufferState) (ring : List Str) (e : Edit)
    (g : UndoGroup)
    → IsValid current st
    → length ring ≤ kill_ring_capacity
    → is_undo cmd ≡ false
    → editing cmd current st ring ≡ ok e
    → make_group current e.events ≡ some g
    → Returns (editing undo e.value (after cmd current e) e.ring) (λ r. IsBack current r.value)
unfolding editing undo_newest
undo-restores cmd current st ring e g h room edits run group =
    let (e', run', kept) = editing-Keeps cmd current st ring h room in
    let same : e' ≡ e = cc in
    let p : Patches g current.text e.value.text =
      (subst (IsKept cmd current) same kept).patched g group in
    let pushed = bookkeeping-IsPushed cmd current e.events e.state g edits group in
    rw (undo_arm-newest e.value (after cmd current e) e.ring pushed.redo, pushed.history)
      (undo_group-IsBack e.value (after cmd current e) e.ring g _ current p
        (make_group-FromPlace current e.events g group))
