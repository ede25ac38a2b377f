-- ===== src/Acp/Machine.antt =====
-- The client's side of an ACP session, acp/machine.py: `AcpMachine`, and the requests that start,
-- new_session and prompt send. A transition is a function from machines to machines; it raises
-- `state_error` where the source raises `AcpStateError`, whose text is left out.
pub mod Options
pub mod Answers
pub mod Responses
pub mod Inbound
pub mod Invariant
pub mod Resolved
pub mod Unchanged
pub mod Keeps
pub mod Reached
pub mod Consent
pub mod Once
pub mod Errors
pub mod Moves
pub mod Arrivals
pub mod Sweeps
use drei.Base.{
  ℕ, ◌+◌, pos, Str, codes, str_eq, Bool, true, false, List, [], ◌∷◌, Option, none, some,
  if◌then◌else◌, Result, ok, raise, state_error,
}
use drei.Acp.Json.{JsonValue, null, int, str, arr, obj, nil, cons, Fields, end, field}
use drei.Acp.Effects.{RequestId, number, SessionEffect}
use drei.Acp.Ids.{IdDict, id_insert}
use drei.Acp.Messages.{Message, request}

pub data Phase : Type 0 where
  disconnected initializing ready session_active prompt_in_flight : Phase

unfoldable pub phase_eq : Phase → Phase → Bool
phase_eq disconnected disconnected = true
phase_eq initializing initializing = true
phase_eq ready ready = true
phase_eq session_active session_active = true
phase_eq prompt_in_flight prompt_in_flight = true
phase_eq _ _ = false

pub record AcpMachine : Type 0 where
  pub phase : Phase
  pub agent_capabilities : JsonValue
  pub session_id : Option Str
  pub next_request_id : ℕ
  pub in_flight_outgoing : IdDict Str
  pub in_flight_incoming : IdDict Str
  pub auto_approvals : List Str
  pub request_params : IdDict JsonValue

abbrev pub new_machine : AcpMachine
new_machine = record {
  phase = disconnected;
  agent_capabilities = null;
  session_id = none;
  next_request_id = 0;
  in_flight_outgoing = [];
  in_flight_incoming = [];
  auto_approvals = [];
  request_params = [];
}

-- The new machine, the messages to send, and the effects observed.
abbrev pub Turn : Type 0
Turn = AcpMachine × List Message × List SessionEffect

abbrev pub initialize : Str
initialize = codes "initialize"

abbrev pub session_new : Str
session_new = codes "session/new"

abbrev pub session_prompt : Str
session_prompt = codes "session/prompt"

unfoldable pub next_id : AcpMachine → RequestId
next_id m = number (pos m.next_request_id)

-- The request with the next id, and the machine that waits for its answer in `phase`.
unfoldable pub send : AcpMachine → Phase → Str → JsonValue → AcpMachine × Message
unfolding next_id
send m phase method params = (
  record m {
    phase = phase;
    next_request_id = m.next_request_id + 1;
    in_flight_outgoing = id_insert (next_id m) method m.in_flight_outgoing;
  },
  request (next_id m) method params,
)

abbrev pub hello : JsonValue
hello = obj (
    field (codes "protocolVersion") (int (pos 1)) (
      field (codes "clientCapabilities") (obj end) (
        field (codes "clientInfo")
          (obj (
            field (codes "name") (str (codes "drei"))
              (field (codes "version") (str (codes "0.0.0")) end)))
          end)))

unfoldable pub start_machine : AcpMachine → Result (AcpMachine × Message)
unfolding phase_eq send
start_machine m =
    if phase_eq m.phase disconnected
    then ok (send m initializing initialize hello)
    else raise state_error

-- `machine or AcpMachine()`: a machine is always true.
unfoldable pub start : Option AcpMachine → Result (AcpMachine × Message)
unfolding start_machine
start none = start_machine new_machine
start (some m) = start_machine m

unfoldable pub session_params : Str → JsonValue
session_params cwd = obj (field (codes "cwd") (str cwd) (field (codes "mcpServers") (arr nil) end))

unfoldable pub new_session : AcpMachine → Str → Result (AcpMachine × Message)
unfolding phase_eq send session_params
new_session m cwd =
    if phase_eq m.phase ready
    then ok (send (record m { auto_approvals = [] }) ready session_new (session_params cwd))
    else raise state_error

unfoldable pub optional_text : Option Str → JsonValue
optional_text none = null
optional_text (some s) = str s

-- The session, and one block of text.
unfoldable pub prompt_params : AcpMachine → Str → JsonValue
unfolding optional_text
prompt_params m text = obj (
    field (codes "sessionId") (optional_text m.session_id) (
      field (codes "prompt")
        (arr (
          cons
            (obj (field (codes "type") (str (codes "text")) (field (codes "text") (str text) end)))
            nil))
        end))

unfoldable pub prompt : AcpMachine → Str → Result (AcpMachine × Message)
unfolding phase_eq send prompt_params
prompt m text =
    if phase_eq m.phase session_active
    then ok (send m prompt_in_flight session_prompt (prompt_params m text))
    else raise state_error
