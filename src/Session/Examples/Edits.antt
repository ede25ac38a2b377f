-- ===== src/Session/Examples/Edits.antt =====
-- Two edits that are taken back, and the exit of a session without any.
use drei.Base.{
  arith, ℕ, ◌≡◌, refl, Str, codes, Bool, true, false, not, List, [], ◌∷◌, Option, none, some,
  Result, ok, raise, lookup, Returns, Returns-ok, ◌>>=◌, contains, ◌≢◌, Assoc, pos,
  AllValues-lookup,
}
use drei.Files.{FilePort, undecodable}
use drei.Files.LineEndings.{lf}
use drei.Buffer.{BufferValue}
use drei.Commands.{set_mark, insert_text, kill_region, yank, undo, exit_editor, text_inserted}
use drei.Genesis.{InitialBuffer, provided, unknown_frame, validated, genesis_of}
use drei.Editing.Text.{Edit}
use drei.Editing.State.{UndoGroup, new_state, ordinary}
use drei.Editing.Restores.{editing}
use drei.Session.Invariant.{EntryIsValid}
use drei.Editing.Invariant
use drei.Session.State.{Entry, Session}
use drei.Session.Start.{start}
use drei.Session.Dispatch.{dispatch}
use drei.Session.Begins.{start-IsValid}
use drei.Editing.Bookkeeping.{make_group}
use drei.Session.Exit.{any_modified}
use drei.Session.Exits.{has_exited, exit_editor-exited}
use drei.Session.Redos.{dispatch-redo}
use drei.Session.Edits.{Undone, Yanked, dispatch-undo, dispatch-kill_yank}
use drei.Session.Examples.{environment, begun, begun-IsValid}

abbrev scratch_entry : Entry
scratch_entry = record {
  value = record { text = []; point = 0; file_path = none; modified = false; mark = none };
  state = new_state (some []) lf ordinary;
}

abbrev edit : Edit
edit = record {
  value = record { text = codes "hi"; point = 2; file_path = none; modified = true; mark = none };
  state = scratch_entry.state;
  ring = [];
  events = text_inserted (codes "hi") 0 2 ∷ [];
}

abbrev group : UndoGroup
group = record {
  start = 0;
  removed_text = [];
  inserted_text = codes "hi";
  point_before = 0;
  point_after = 2;
  mark_before = none;
  mark_after = none;
}

scratch-found : lookup (codes "scratch") begun.buffers ≡ some scratch_entry
unfolding lookup drei.Base.str_eq
scratch-found = refl

scratch-IsValid : Invariant.IsValid scratch_entry.value scratch_entry.state
scratch-IsValid =
    AllValues-lookup EntryIsValid (codes "scratch") begun.buffers scratch_entry
      begun-IsValid.stored.entries scratch-found

editing-edit :
    editing (insert_text (codes "hi")) scratch_entry.value scratch_entry.state [] ≡ ok edit
unfolding editing drei.Editing.Moves.insert_text_arm drei.Buffer.checked
    drei.Buffer.adjust_mark_insert
editing-edit = refl

group-made : make_group scratch_entry.value edit.events ≡ some group
unfolding make_group drei.Buffer.adjust_mark_insert
group-made = refl

dispatch-undo_example :
    Returns
      (dispatch environment (insert_text (codes "hi")) begun >>= dispatch environment undo)
      (Undone scratch_entry.value (codes "scratch"))
dispatch-undo_example =
    dispatch-undo environment (insert_text (codes "hi")) begun scratch_entry edit group
      begun-IsValid refl scratch-found refl refl editing-edit group-made

-- The text is inserted, taken back, the mark set at the start, and the text inserted again.
dispatch-redo_example :
    Returns
      (dispatch environment (insert_text (codes "hi")) begun
        >>= dispatch environment undo
        >>= dispatch environment set_mark
        >>= dispatch environment undo)
      (Undone edit.value (codes "scratch"))
dispatch-redo_example =
    dispatch-redo environment (insert_text (codes "hi")) set_mark begun scratch_entry edit group
      begun-IsValid refl scratch-found refl refl refl editing-edit group-made

exit_editor-exited_example :
    Returns
      (dispatch environment exit_editor begun)
      (λ t. has_exited t.events ≡ not (any_modified begun.buffers))
exit_editor-exited_example = exit_editor-exited environment begun begun-IsValid refl

-- A provided buffer with a region from 1 to 4.
abbrev marked : InitialBuffer
marked = record {
  buffer_id = codes "notes";
  origin = provided;
  text = codes "hello";
  point = 4;
  mark = some 1;
  file_path = none;
  modified = false;
  saved_text = some (codes "hello");
  line_ending = lf;
}

abbrev marked_entry : Entry
marked_entry = record {
  value = record {
    text = codes "hello";
    point = 4;
    file_path = none;
    modified = false;
    mark = some 1;
  };
  state = new_state (some (codes "hello")) lf ordinary;
}

abbrev marked_session : Session
marked_session = record begun {
  buffers = (codes "notes", marked_entry) ∷ [];
  current_id = codes "notes";
  mru = codes "notes" ∷ [];
  windows = (record { buffer_id = codes "notes"; point = 4; mark = some 1 }) ∷ [];
}

marked_accepted : validated marked ≡ ok marked
unfolding validated drei.Buffer.mark_fits drei.Files.detect_line_ending drei.Base.str_eq
marked_accepted = refl

start-marked : start (genesis_of marked unknown_frame) ≡ ok marked_session
unfolding start drei.Buffer.checked genesis_of
start-marked = refl

marked-found : lookup (codes "notes") marked_session.buffers ≡ some marked_entry
unfolding lookup drei.Base.str_eq
marked-found = refl

dispatch-kill_yank_example :
    Returns
      (dispatch environment kill_region marked_session >>= dispatch environment yank)
      (Yanked marked_entry.value 1 (codes "notes"))
dispatch-kill_yank_example =
    dispatch-kill_yank environment marked_session marked_entry 1
      (Returns-ok (start-IsValid marked unknown_frame marked_accepted) start-marked) refl
      marked-found refl (λ e. omega arith)
