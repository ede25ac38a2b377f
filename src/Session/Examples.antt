-- ===== src/Session/Examples.antt =====
-- A scratch session, and what follows from the start of it.
mod Runs
mod Edits
mod Prompts
mod Saves
mod Agents
use drei.Base.{
  arith, ℕ, ◌≡◌, refl, Str, codes, Bool, true, false, not, List, [], ◌∷◌, Option, none, some,
  Result, ok, raise, lookup, Returns, Returns-ok, ◌>>=◌, contains, ◌≢◌, Assoc, pos,
}
use drei.Files.{FilePort, undecodable, write_returns}
use drei.Files.LineEndings.{lf, crlf}
use drei.Acp.Json.{JsonValue, str, arr, obj, cons, nil, field, end}
use drei.Acp.Effects.{PermissionRequested, selected, number}
use drei.Buffer.{BufferValue}
use drei.Commands.{insert_text, save_buffer, kill_region, yank, undo, exit_editor, text_inserted}
use drei.Genesis.{InitialBuffer, scratch, provided, unknown_frame, validated, genesis_of}
use drei.Editing.Text.{Edit}
use drei.Editing.State.{UndoGroup, new_state, ordinary}
use drei.Editing.Restores.{editing}
use drei.Session.State.{Entry, Environment, Session}
use drei.Session.Start.{start}
use drei.Session.Dispatch.{dispatch}
use drei.Session.Invariant.{IsValid}
use drei.Session.Begins.{start-IsValid}
use drei.Editing.Bookkeeping.{make_group}
use drei.Session.Exit.{any_modified}
use drei.Session.Exits.{has_exited, exit_editor-exited}
use drei.Session.Saves.{Saved, save_buffer-Saved}
use drei.Session.Edits.{Edited, Undone, Yanked, dispatch-undo, dispatch-kill_yank}
use drei.Session.Names.{unique_name}
use drei.Session.Names.Fresh.{unique_name-unused}
use drei.Session.Choice.{choice_options, choice_key_to_decision}
use drei.Session.Choice.Consent.{kinds_of, IsOffered, choice_key-IsOffered}
use drei.Session.Keeps.Dispatch.{dispatch-Keeps}
use drei.Session.Runs.{here, by_command, reached-Returns}

-- A file port without files, that refuses no write.
abbrev pub environment : Environment
environment = record {
  files = record { read = λ path. undecodable; write = λ path text. write_returns };
  show_json = λ v. codes "?";
}

abbrev pub initial : InitialBuffer
initial = record {
  buffer_id = codes "scratch";
  origin = scratch;
  text = [];
  point = 0;
  mark = none;
  file_path = none;
  modified = false;
  saved_text = some [];
  line_ending = lf;
}

abbrev pub begun : Session
begun = record {
  buffers =
      (
        codes "scratch",
        record {
          value = record { text = []; point = 0; file_path = none; modified = false; mark = none };
          state = new_state (some []) lf ordinary;
        },
      )
      ∷ [];
  current_id = codes "scratch";
  frame_size = none;
  process_log = [];
  transcript = [];
  kill_ring = [];
  minibuffer = none;
  minibuffer_prompt = [];
  minibuffer_kind = none;
  mru = codes "scratch" ∷ [];
  windows = (record { buffer_id = codes "scratch"; point = 0; mark = none }) ∷ [];
  focused = 0;
  choice = none;
  exit_pending = [];
  permission_queue = [];
  agent_folds = [];
  agent_buffers = [];
  generated_buffers = [];
  events = [];
  written = [];
}

pub initial_accepted : validated initial ≡ ok initial
unfolding validated drei.Buffer.mark_fits drei.Files.detect_line_ending drei.Base.str_eq
initial_accepted = refl

pub start-begun : start (genesis_of initial unknown_frame) ≡ ok begun
unfolding start genesis_of drei.Buffer.checked
start-begun = refl

start-IsValid_example : Returns (start (genesis_of initial unknown_frame)) IsValid
start-IsValid_example = start-IsValid initial unknown_frame initial_accepted

pub begun-IsValid : IsValid begun
begun-IsValid = Returns-ok (start-IsValid initial unknown_frame initial_accepted) start-begun

abbrev pub or_begun : Result Session → Session
or_begun (ok s) = s
or_begun (raise e) = begun
