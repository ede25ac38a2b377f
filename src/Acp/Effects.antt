-- ===== src/Acp/Effects.antt =====
-- The typed observations that the protocol machine hands to the editor: the effect and decision
-- classes of acp/machine.py, and `RequestId` of acp/messages.py.
use drei.Base.{Str, ℤ, Bool}
use drei.Acp.Json.{JsonValue}

pub data RequestId : Type 0 where
  number : ℤ → RequestId
  name : Str → RequestId

pub data PermissionDecision : Type 0 where
  selected : Str → PermissionDecision
  cancelled : PermissionDecision

pub record PermissionRequested : Type 0 where
  pub request_id : RequestId
  pub params : JsonValue

-- The text of a chunk is annotated `str`, but it is what the peer sent: `handle` passes
-- `content.get("text", "")` on as it is.
pub data SessionEffect : Type 0 where
  initialized : JsonValue → SessionEffect
  session_established : Str → SessionEffect
  agent_text_chunk : JsonValue → SessionEffect
  thought_chunk : JsonValue → SessionEffect
  tool_call_started : JsonValue → SessionEffect
  tool_call_updated : JsonValue → SessionEffect
  plan_updated : JsonValue → SessionEffect
  prompt_completed : Str → SessionEffect
  permission_requested : PermissionRequested → SessionEffect
  permission_resolved : RequestId → PermissionDecision → Bool → SessionEffect
  protocol_error : Str → SessionEffect
