-- ===== src/Acp/Examples.antt =====
-- Small messages, and a client in the middle of a turn.
mod Wire
mod Client
use drei.Base.{ℕ, pos, Str, codes, List, [], ◌∷◌, Option, none, some}
use drei.Acp.Json.{JsonValue, null, str, arr, obj, nil, cons, end, field}
use drei.Acp.Effects.{RequestId, number}
use drei.Acp.Messages.{Message, request}
use drei.Acp.Machine.{AcpMachine, Phase, prompt_in_flight, session_active, session_prompt}

abbrev pub permission : Str
permission = codes "session/request_permission"

abbrev pub agent_id : RequestId
agent_id = number (pos 7)

-- One option, which lasts for the session.
abbrev pub offered : JsonValue
offered = obj (
    field (codes "options")
      (arr (
        cons
          (obj (
            field (codes "optionId") (str (codes "s"))
              (field (codes "kind") (str (codes "allow_session")) end)))
          nil))
      end)

abbrev pub asking : Message
asking = request agent_id permission offered

-- A turn in flight, and nothing asked yet.
abbrev pub talking : AcpMachine
talking = record {
  phase = prompt_in_flight;
  agent_capabilities = null;
  session_id = some (codes "x");
  next_request_id = 3;
  in_flight_outgoing = (number (pos 2), session_prompt) ∷ [];
  in_flight_incoming = [];
  auto_approvals = [];
  request_params = [];
}

abbrev pub asked : AcpMachine
asked = record talking {
  in_flight_incoming = (agent_id, permission) ∷ [];
  request_params = (agent_id, offered) ∷ [];
}
