-- ===== src/Session/Buffers.antt =====
-- Creating, selecting and visiting buffers: `_create_buffer`, `_select_buffer` and `_open_file`.
use drei.Base.{
  Str, str_eq, Assoc, Bool, false, List, [], ◌∷◌, Option, none, some, length, set, if◌then◌else◌,
  Result, ok, required, ◌>>=◌,
}
use drei.Files.{FilePort, VisitResolution, opened, rejected, resolve_visit}
use drei.Genesis.{prepare_provided_buffer}
use drei.Buffer.{BufferValue, checked}
use drei.Commands.{buffer_created, buffer_selected, buffer_opened, open_failed}
use drei.Editing.State.{BufferState, BufferKind, ordinary, new_state, break_chains}
use drei.Session.State.{Entry, Session, emit, entry_of, put_entry}
use drei.Session.Names.{unique_name}

-- A name is taken out wherever it stands first.
unfoldable pub remove : Str → List Str → List Str
remove name [] = []
remove name (other ∷ rest) = if str_eq other name then rest else other ∷ remove name rest

-- self._mru.remove(name) if it is there; self._mru.insert(0, name)
unfoldable pub touch : Str → List Str → List Str
unfolding remove
touch name mru = name ∷ remove name mru

-- Chains end when focus leaves the current buffer.
unfoldable pub leave_current : Session → Result Session
unfolding entry_of put_entry
leave_current s = do
  e ← entry_of s s.current_id
  ok (put_entry s.current_id (record e { state = break_chains e.state }) s)

-- The new entry, from the caller's state or from the canonical form of the value.
unfoldable pub prepared_entry : Str → BufferValue → BufferKind → Option BufferState → Result Entry
prepared_entry buffer_id value kind (some state) = ok (record { value = value; state = state })
prepared_entry buffer_id value kind none = do
  prepared ← prepare_provided_buffer buffer_id value
  visited ← checked (record {
    text = prepared.text;
    point = prepared.point;
    file_path = prepared.file_path;
    modified = prepared.modified;
    mark = prepared.mark;
  })
  ok (record { value = visited; state = new_state prepared.saved_text prepared.line_ending kind })

-- The new buffer's name comes back beside the session.
unfoldable pub create_buffer :
    Str → BufferValue → BufferKind → Option BufferState → Session → Result (Session × Str)
unfolding prepared_entry put_entry emit
create_buffer name value kind prepared_state s = do
  buffer_id ← required (unique_name name s.buffers)
  e ← prepared_entry buffer_id value kind prepared_state
  ok (emit (buffer_created buffer_id e.value.file_path) (put_entry buffer_id e s), buffer_id)

unfoldable pub empty_value : BufferValue
empty_value = record { text = []; point = 0; file_path = none; modified = false; mark = none }

-- The focused window follows the switch, at the target's own point and mark.
unfoldable pub switch_focus : Str → BufferValue → Session → Session
unfolding touch emit
switch_focus buffer_id target s = emit (buffer_selected buffer_id) (record s {
  current_id = buffer_id;
  mru = touch buffer_id s.mru;
  windows =
      set s.windows s.focused
        (record { buffer_id = buffer_id; point = target.point; mark = target.mark });
})

unfoldable pub select_buffer : Str → Session → Result Session
unfolding leave_current entry_of switch_focus
select_buffer buffer_id s = if str_eq buffer_id s.current_id then ok s else do
  s' ← leave_current s
  target ← entry_of s' buffer_id
  ok (switch_focus buffer_id target.value s')

unfoldable pub path_is : Option Str → Str → Bool
path_is none path = false
path_is (some p) path = str_eq p path

-- The first buffer that visits the path.
unfoldable pub find_visiting : Str → Assoc Entry → Option Str
unfolding path_is
find_visiting path [] = none
find_visiting path ((buffer_id, e) ∷ rest) =
    if path_is e.value.file_path path then some buffer_id else find_visiting path rest

unfoldable pub visit_new : Str → VisitResolution → Session → Result Session
unfolding create_buffer select_buffer emit entry_of
visit_new path (rejected error) s = ok (emit (open_failed path error) s)
visit_new path (opened visit) s = do
  value ← checked (record {
    text = visit.text;
    point = 0;
    file_path = some visit.path;
    modified = false;
    mark = none;
  })
  (s', buffer_id) ←
      create_buffer visit.buffer_id value ordinary
        (some (new_state (some visit.saved_text) visit.line_ending ordinary)) s
  e ← entry_of s' buffer_id
  select_buffer buffer_id (emit (buffer_opened path (length e.value.text)) s')

unfoldable pub open_file : FilePort → Str → Session → Result Session
unfolding find_visiting select_buffer visit_new
open_file port path s = elim (find_visiting path s.buffers) [
  | some buffer_id ↦ select_buffer buffer_id s
  | none ↦ do visit ← resolve_visit port path; visit_new path visit s
]
