-- ===== src/Editing/Bookkeeping.antt =====
-- What `dispatch` does to the state of the buffer that a command ended on, after its arm:
-- `_make_group`, and the kill, yank and undo bookkeeping (session.py).
use drei.Base.{
  ℕ, ◌+◌, Bool, true, false, not, ◌&&◌, ◌||◌, List, [], ◌∷◌, Option, none, some, length, take,
  if◌then◌else◌,
}
use drei.Buffer.{BufferValue, adjust_mark_insert, adjust_mark_delete}
use drei.Commands.{
  Command, undo, kill_line, yank, yank_pop, user_issued, Event, text_inserted, text_killed,
  text_yanked, text_yank_popped, region_killed, is_message,
}
use drei.Editing.State.{UndoGroup, BufferState}

abbrev pub undo_capacity : ℕ
undo_capacity = 100

-- The group of an event that changed text, seen from the value before the command.
unfoldable pub group_of : BufferValue → Event → Option UndoGroup
group_of current (text_inserted text before after) = some (record {
  start = before;
  removed_text = [];
  inserted_text = text;
  point_before = current.point;
  point_after = before + length text;
  mark_before = current.mark;
  mark_after = adjust_mark_insert current.mark before (length text);
})
group_of current (text_killed killed before after direction) = some (record {
  start = before;
  removed_text = killed;
  inserted_text = [];
  point_before = current.point;
  point_after = current.point;
  mark_before = current.mark;
  mark_after = adjust_mark_delete current.mark before after;
})
group_of current (region_killed killed lo after direction) = some (record {
  start = lo;
  removed_text = killed;
  inserted_text = [];
  point_before = current.point;
  point_after = lo;
  mark_before = current.mark;
  mark_after = none;
})
group_of current (text_yanked text before after) = some (record {
  start = before;
  removed_text = [];
  inserted_text = text;
  point_before = current.point;
  point_after = before + length text;
  mark_before = current.mark;
  mark_after = adjust_mark_insert current.mark before (length text);
})
group_of current (text_yank_popped old new start after) = some (record {
  start = start;
  removed_text = old;
  inserted_text = new;
  point_before = current.point;
  point_after = after;
  mark_before = current.mark;
  mark_after =
      adjust_mark_insert (adjust_mark_delete current.mark start (start + length old)) start
        (length new);
})
group_of current _ = none

-- `_make_group`: the first event with a group gives it.
unfoldable pub make_group : BufferValue → List Event → Option UndoGroup
unfolding group_of
make_group current [] = none
make_group current (e ∷ es) = elim (group_of current e) [
  | some g ↦ some g
  | none ↦ make_group current es
]

unfoldable pub any_acts : List Event → Bool
unfolding is_message
any_acts [] = false
any_acts (e ∷ es) = not (is_message e) || any_acts es

unfoldable pub intervened : Command → List Event → Bool
unfolding any_acts user_issued
intervened cmd events = user_issued cmd && any_acts events

unfoldable pub is_text_killed : Event → Bool
is_text_killed (text_killed killed before after direction) = true
is_text_killed _ = false

unfoldable pub is_text_yanked : Event → Bool
is_text_yanked (text_yanked text before after) = true
is_text_yanked _ = false

unfoldable pub is_text_yank_popped : Event → Bool
is_text_yank_popped (text_yank_popped old new start after) = true
is_text_yank_popped _ = false

unfoldable pub any_event : (Event → Bool) → List Event → Bool
any_event p [] = false
any_event p (e ∷ es) = p e || any_event p es

unfoldable pub kill_flag : Command → List Event → Bool → Bool
unfolding any_event is_text_killed intervened
kill_flag kill_line events was = if any_event is_text_killed events then true else was
kill_flag cmd events was = if intervened cmd events then false else was

unfoldable pub yank_flag : Command → List Event → Bool → Bool
unfolding any_event is_text_yanked is_text_yank_popped intervened
yank_flag yank events was = any_event is_text_yanked events
yank_flag yank_pop events was = any_event is_text_yank_popped events
yank_flag cmd events was = if intervened cmd events then false else was

-- A group is pushed, the oldest beyond a hundred go, and the redo tail with them.
unfoldable pub push_group : Option UndoGroup → BufferState → BufferState
push_group none st = st
push_group (some g) st = record st {
  undo_history = take undo_capacity (g ∷ st.undo_history);
  undo_redo = [];
}

unfoldable pub undo_books : Command → BufferValue → List Event → BufferState → BufferState
unfolding push_group make_group intervened
undo_books undo current events st =
    if intervened undo events then record st { undo_descending = true } else st
undo_books cmd current events st =
    let pushed = push_group (make_group current events) st in
    if intervened cmd events then record pushed { undo_descending = false } else pushed

unfoldable pub bookkeeping : Command → BufferValue → List Event → BufferState → BufferState
unfolding kill_flag yank_flag undo_books
bookkeeping cmd current events st = undo_books cmd current events (record st {
  last_was_kill = kill_flag cmd events st.last_was_kill;
  yank_active = yank_flag cmd events st.yank_active;
})
