-- ===== src/Session/Observation.antt =====
-- The read model of a session: `session_observation` of session.py.
use drei.Base.{Str, Assoc, List, [], ◌∷◌, Option, none, some, Result, ok, ◌>>=◌}
use drei.Render.{BufferObservation, WindowObservation, SessionObservation}
use drei.Session.State.{Entry, WindowValue, Session, entry_of}

-- The ids of the buffers.
unfoldable pub buffer_names : Assoc Entry → List Str
buffer_names [] = []
buffer_names ((buffer_id, _) ∷ rest) = buffer_id ∷ buffer_names rest

-- The prompt while the minibuffer is open, else None.
unfoldable pub shown_prompt : Option Str → Str → Option Str
shown_prompt none prompt = none
shown_prompt (some input) prompt = some prompt

unfoldable pub buffer_observation : Session → Str → Result BufferObservation
unfolding entry_of shown_prompt
buffer_observation s buffer_id = do
  e ← entry_of s buffer_id
  ok (record {
    buffer_id = buffer_id;
    text = e.value.text;
    point = e.value.point;
    file_path = e.value.file_path;
    modified = e.value.modified;
    mark = e.value.mark;
    minibuffer = s.minibuffer;
    minibuffer_prompt = shown_prompt s.minibuffer s.minibuffer_prompt;
  })

unfoldable pub observe_windows : Session → List WindowValue → Result (List WindowObservation)
unfolding buffer_observation
observe_windows s [] = ok []
observe_windows s (w ∷ ws) = do
  b ← buffer_observation s w.buffer_id
  rest ← observe_windows s ws
  ok ((record { buffer = b; point = w.point; mark = w.mark }) ∷ rest)

unfoldable pub session_observation : Session → Result SessionObservation
unfolding observe_windows buffer_names shown_prompt
session_observation s = do
  windows ← observe_windows s s.windows
  ok (record {
    buffers = buffer_names s.buffers;
    windows = windows;
    focused = s.focused;
    minibuffer = s.minibuffer;
    minibuffer_prompt = shown_prompt s.minibuffer s.minibuffer_prompt;
  })
