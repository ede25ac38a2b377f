-- ===== src/Harness.antt =====
-- The in-process adapter over the session and the resolver, harness.py. An outcome is the events of
-- its dispatch; the frame is drawn from the rest of the state and is left out, and so are the
-- observations. A message of the session has no subject.
mod Examples
pub mod Begin
pub mod Sends
pub mod Frames
use drei.Base.{
  ℕ, Str, codes, str_eq, Bool, true, false, List, [], ◌∷◌, ◌++◌, Option, none, some, if◌then◌else◌,
  Result, ok, ◌>>=◌,
}
use drei.Files.{
  ErrorToken, not_found, permission_denied, io_error, empty_basename, no_file, timeout,
}
use drei.Commands.{
  Command, minibuffer_accept, minibuffer_backspace, minibuffer_abort, minibuffer_input, Event,
  MessageToken, end_of_buffer, no_further_undo, mark_not_set, previous_command_not_a_yank,
  too_small_for_splitting, answer_y_or_n, keyboard_quit_event, minibuffer_aborted, buffer_saved,
  save_failed, open_failed, message, frame_resized,
}
use drei.Keys.{Resolution, resolved, unresolved_key, pending_key, resolve}
use drei.Session.State.{Environment, Session}
use drei.Session.Dispatch.{dispatch}

unfoldable pub error_text : ErrorToken → Str
error_text not_found = codes "not-found"
error_text permission_denied = codes "permission-denied"
error_text io_error = codes "io-error"
error_text empty_basename = codes "empty-basename"
error_text no_file = codes "no-file"
error_text timeout = codes "timeout"

-- _MESSAGE_TEXT
unfoldable pub message_text : MessageToken → Str
message_text answer_y_or_n = codes "Please answer y or n"
message_text end_of_buffer = codes "End of buffer"
message_text mark_not_set = codes "The mark is not set now, or there is no region"
message_text no_further_undo = codes "No further undo information"
message_text previous_command_not_a_yank = codes "Previous command was not a yank"
message_text too_small_for_splitting = codes "Too small for splitting"

unfoldable pub failure_text : ErrorToken → Str → Str
unfolding error_text
failure_text error path = path ++ (codes ": " ++ error_text error)

-- `_echo_for`
unfoldable pub echo_for : List Event → Str
unfolding failure_text message_text
echo_for [] = []
echo_for (keyboard_quit_event ∷ events) = codes "Quit"
echo_for (minibuffer_aborted ∷ events) = codes "Quit"
echo_for (buffer_saved path ∷ events) = codes "Wrote " ++ path
echo_for (save_failed path error ∷ events) = failure_text error path
echo_for (open_failed path error ∷ events) = failure_text error path
echo_for (message token ∷ events) = message_text token
echo_for (_ ∷ events) = echo_for events

unfoldable pub note_text : List Event → Str
unfolding failure_text message_text
note_text [] = []
note_text (save_failed path error ∷ events) = failure_text error path
note_text (open_failed path error ∷ events) = failure_text error path
note_text (message token ∷ events) = message_text token
note_text (_ ∷ events) = note_text events

-- `_note_for`: nothing rides a closed prompt.
unfoldable pub note_for : Option Str → List Event → Str
unfolding note_text
note_for none events = []
note_for (some input) events = note_text events

pub record Harness : Type 0 where
  pub session : Session
  pub width : ℕ
  pub height : ℕ
  pub pending : Option Str
  pub outcomes : List (List Event)
  pub unresolved : List Str
  pub echo : Str
  pub note : Str

-- The adapter over a session, `_initialize_adapter`.
unfoldable pub initialize_adapter : ℕ → ℕ → Session → Harness
initialize_adapter width height s = record {
  session = s;
  width = width;
  height = height;
  pending = none;
  outcomes = [];
  unresolved = [];
  echo = [];
  note = [];
}

-- The size that the last `FrameResized` says.
unfoldable pub sized : List Event → Harness → Harness
sized [] h = h
sized (frame_resized width height ∷ events) h =
    sized events (record h { width = width; height = height })
sized (_ ∷ events) h = sized events h

-- The outcome of a dispatch in the log.
unfoldable pub logged : Session → Harness → Harness
logged s h = record h { session = s; outcomes = h.outcomes ++ s.events ∷ [] }

-- After a key's command: the echo and the note are the outcome's.
unfoldable pub spoken : Session → Harness → Harness
unfolding logged echo_for note_for
spoken s h = record (logged s h) {
  pending = none;
  echo = echo_for s.events;
  note = note_for s.minibuffer s.events;
}

module _ (is_printable : ℕ → Bool) where
  unfoldable pub one_character : Str → Option Command
  one_character (c ∷ []) = if is_printable c then some (minibuffer_input c) else none
  one_character key = none

  -- `_minibuffer_command`
  unfoldable pub minibuffer_command : Str → Option Command
  unfolding one_character
  minibuffer_command key =
      if str_eq key (codes "RET")
      then some minibuffer_accept
      else if str_eq key (codes "DEL")
      then some minibuffer_backspace
      else if str_eq key (codes "C-g")
      then some minibuffer_abort
      else one_character key

module _ (env : Environment) where
  -- A key's command, dispatched.
  unfoldable pub perform : Command → Harness → Result (Harness × Option (List Event))
  unfolding dispatch spoken
  perform command h = do s ← dispatch env command h.session; ok (spoken s h, some s.events)

  unfoldable pub perform_some : Option Command → Harness → Result (Harness × Option (List Event))
  unfolding perform
  perform_some none h = ok (record h { pending = none }, none)
  perform_some (some command) h = perform command h

  unfoldable pub react : Resolution → Harness → Result (Harness × Option (List Event))
  unfolding perform
  react (pending_key prefix) h = ok (record h { pending = some prefix }, none)
  react (unresolved_key key) h = ok (
    record h {
      pending = none;
      unresolved = h.unresolved ++ key ∷ [];
      echo = key ++ codes " is undefined";
    },
    none,
  )
  react (resolved command) h = perform command h

  unfoldable pub resize : ℕ → ℕ → Harness → Result Harness
  unfolding dispatch sized logged
  resize width height h = do
    s ← dispatch env (Command.resize_frame width height) h.session
    ok (sized s.events (logged s h))

  -- A command that did not come from a key.
  unfoldable pub apply : Command → Harness → Result Harness
  unfolding dispatch logged
  apply command h = do s ← dispatch env command h.session; ok (logged s h)

  module _ (is_printable : ℕ → Bool) where
    -- One key: to the minibuffer while it is open, which drops a prefix, or through the resolver.
    unfoldable pub route : Option Str → Str → Harness → Result (Harness × Option (List Event))
    unfolding perform_some minibuffer_command react resolve
    route (some input) key h = perform_some (minibuffer_command is_printable key) h
    route none key h = react (resolve is_printable h.pending key) h

    unfoldable pub send_key : Str → Harness → Result (Harness × Option (List Event))
    unfolding route
    send_key key h = route h.session.minibuffer key h
