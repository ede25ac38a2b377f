-- ===== src/Session/Start.antt =====
-- `_initialize_from_genesis`: the session that a genesis begins.
use drei.Base.{[], ◌∷◌, Option, none, some, map, Result, ok, ◌>>=◌}
use drei.Buffer.{checked}
use drei.Genesis.{FrameGenesis, known_frame, unknown_frame, InitialWindow, SessionGenesis}
use drei.Editing.State.{ordinary, new_state}
use drei.Session.State.{WindowValue, FrameSize, Session}

unfoldable pub frame_of : FrameGenesis → Option FrameSize
frame_of (known_frame width height) = some (record { width = width; height = height })
frame_of unknown_frame = none

abbrev pub window_of : InitialWindow → WindowValue
window_of w = record { buffer_id = w.buffer_id; point = w.point; mark = w.mark }

unfoldable pub start : SessionGenesis → Result Session
unfolding frame_of
start genesis = do
  let initial = genesis.initial_buffer
  value ← checked (record {
    text = initial.text;
    point = initial.point;
    file_path = initial.file_path;
    modified = initial.modified;
    mark = initial.mark;
  })
  ok (record {
    buffers =
        (
          initial.buffer_id,
          record {
            value = value;
            state = new_state initial.saved_text initial.line_ending ordinary;
          },
        )
        ∷ [];
    current_id = initial.buffer_id;
    frame_size = frame_of genesis.frame;
    process_log = [];
    transcript = [];
    kill_ring = [];
    minibuffer = none;
    minibuffer_prompt = [];
    minibuffer_kind = none;
    mru = initial.buffer_id ∷ [];
    windows = map window_of genesis.initial_windows;
    focused = genesis.focused_window;
    choice = none;
    exit_pending = [];
    permission_queue = [];
    agent_folds = [];
    agent_buffers = [];
    generated_buffers = [];
    events = [];
    written = [];
  })
