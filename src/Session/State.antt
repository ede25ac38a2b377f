-- ===== src/Session/State.antt =====
-- The state of `EditorSession`. The dicts `_buffers` and `_states` are always written together and
-- have the same keys, so one dict of entries stands for both. `events` holds the events of the
-- dispatch in progress, and after it those of its outcome. `written` is the trace of the file port:
-- the texts that it has accepted, oldest first.
use drei.Base.{
  ℕ, Str, Assoc, lookup, insert, List, [], ◌∷◌, ◌++◌, Option, none, some, Result, ok, required,
  ◌>>=◌,
}
use drei.Files.{FilePort}
use drei.Acp.Json.{JsonValue}
use drei.Process.{ProcessResult}
use drei.Buffer.{BufferValue}
use drei.Acp.Effects.{PermissionRequested}
use drei.Acp.Transcript.{TranscriptFold}
use drei.Commands.{Event}
use drei.Editing.State.{BufferState}

pub record Entry : Type 0 where
  pub value : BufferValue
  pub state : BufferState

-- `WindowValue`: a view of a buffer with its own point and mark.
pub record WindowValue : Type 0 where
  pub buffer_id : Str
  pub point : ℕ
  pub mark : Option ℕ

pub data MinibufferKind : Type 0 where
  find_file agent_prompt switch_buffer save_buffer exit_anyway : MinibufferKind

pub record FrameSize : Type 0 where
  pub width : ℕ
  pub height : ℕ

-- What a session calls outside this program: its file port, and Python's `str` of a JSON value
-- that is no text.
pub record Environment : Type 0 where
  pub files : FilePort
  pub show_json : JsonValue → Str

pub record Session : Type 0 where
  pub buffers : Assoc Entry
  pub current_id : Str
  pub frame_size : Option FrameSize
  pub process_log : List ProcessResult
  pub transcript : List Event
  pub kill_ring : List Str
  pub minibuffer : Option Str
  pub minibuffer_prompt : Str
  pub minibuffer_kind : Option MinibufferKind
  pub mru : List Str
  pub windows : List WindowValue
  pub focused : ℕ
  pub choice : Option PermissionRequested
  pub exit_pending : List (Str × Str)
  pub permission_queue : List PermissionRequested
  pub agent_folds : Assoc TranscriptFold
  pub agent_buffers : Assoc Str
  pub generated_buffers : Assoc Str
  pub events : List Event
  pub written : List (Str × Str)

-- events.append(event)
unfoldable pub emit : Event → Session → Session
emit event s = record s { events = s.events ++ event ∷ [] }

-- self._buffers[buffer_id], self._states[buffer_id]
unfoldable pub entry_of : Session → Str → Result Entry
entry_of s buffer_id = required (lookup buffer_id s.buffers)

unfoldable pub put_entry : Str → Entry → Session → Session
put_entry buffer_id e s = record s { buffers = insert buffer_id e s.buffers }

-- self._buffers[buffer_id].replace(value)
unfoldable pub replace_value : Session → Str → BufferValue → Result Session
unfolding entry_of put_entry
replace_value s buffer_id value = do
  e ← entry_of s buffer_id
  ok (put_entry buffer_id (record e { value = value }) s)

-- self.buffer.current
unfoldable pub current_value : Session → Result BufferValue
unfolding entry_of
current_value s = do e ← entry_of s s.current_id; ok e.value

-- The minibuffer closed: no input, no prompt, no kind.
unfoldable pub close_minibuffer : Session → Session
close_minibuffer s = record s { minibuffer = none; minibuffer_prompt = []; minibuffer_kind = none }

unfoldable pub open_prompt : MinibufferKind → Str → Session → Session
unfolding emit
open_prompt kind prompt s =
    emit (Event.minibuffer_opened prompt)
      (record s { minibuffer = some []; minibuffer_prompt = prompt; minibuffer_kind = some kind })
