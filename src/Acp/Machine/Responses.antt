-- ===== src/Acp/Machine/Responses.antt =====
-- Answers to the client's own requests, `_handle_response` of acp/machine.py. `repr` stands for
-- Python's `repr` of a value.
use drei.Base.{
  ℤ, Str, codes, str_eq, is_empty, List, [], ◌∷◌, ◌++◌, Option, none, some, if◌then◌else◌,
}
use drei.Acp.Json.{JsonValue, str, Fields, get, as_dict}
use drei.Acp.Effects.{
  RequestId, SessionEffect, initialized, session_established, prompt_completed, protocol_error,
}
use drei.Acp.Ids.{id_lookup, id_remove}
use drei.Acp.Format.{show_int}
use drei.Acp.Messages.{id_json}
use drei.Acp.Machine.{
  Phase, disconnected, initializing, ready, session_active, prompt_in_flight, AcpMachine, Turn,
  initialize, session_new, session_prompt,
}
use drei.Acp.Machine.Options.{text_in}

unfoldable pub phase_name : Phase → Str
phase_name disconnected = codes "DISCONNECTED"
phase_name initializing = codes "INITIALIZING"
phase_name ready = codes "READY"
phase_name session_active = codes "SESSION_ACTIVE"
phase_name prompt_in_flight = codes "PROMPT_IN_FLIGHT"

-- Nothing to send, and one effect.
unfoldable pub observed : AcpMachine → SessionEffect → Turn
observed m effect = (m, [], effect ∷ [])

unfoldable pub complain : AcpMachine → Str → Turn
unfolding observed
complain m detail = observed m (protocol_error detail)

unfoldable pub recovery : Str → Phase → Phase
recovery method phase =
    if str_eq method initialize
    then disconnected
    else if str_eq method session_new
    then ready
    else if str_eq method session_prompt
    then session_active
    else phase

unfoldable pub request_failed : AcpMachine → Str → ℤ → Str → Turn
unfolding recovery complain show_int
request_failed m method code text =
    complain (record m { phase = recovery method m.phase })
      (method ++ (codes " failed: " ++ (show_int code ++ (codes " " ++ text))))

unfoldable pub on_initialized : AcpMachine → Fields → Turn
unfolding observed
on_initialized m result =
    let caps = get result (codes "agentCapabilities") in
    observed (record m { phase = ready; agent_capabilities = caps }) (initialized caps)

unfoldable pub on_established : AcpMachine → JsonValue → Turn
unfolding observed complain
on_established m (str session_id) =
    if is_empty session_id
    then complain m (codes "session/new response missing sessionId")
    else observed (record m { phase = session_active; session_id = some session_id })
        (session_established session_id)
on_established m _ = complain m (codes "session/new response missing sessionId")

abbrev pub stop_reasons : List Str
stop_reasons =
    codes "end_turn"
    ∷ codes "max_tokens"
    ∷ codes "max_turn_requests"
    ∷ codes "refusal"
    ∷ codes "cancelled"
    ∷ []

-- A text that is one of the reasons.
unfoldable pub stop_reason : JsonValue → Option Str
unfolding text_in
stop_reason (str s) = if text_in s stop_reasons then some s else none
stop_reason _ = none

module _ (repr : JsonValue → Str) where
  unfoldable pub on_prompt_answered : AcpMachine → JsonValue → Turn
  unfolding stop_reason observed complain
  on_prompt_answered m stop = elim (stop_reason stop) [
    | none ↦ complain m (codes "session/prompt bad stopReason " ++ repr stop)
    | some reason ↦ observed (record m { phase = session_active }) (prompt_completed reason)
  ]

  unfoldable pub succeeded : AcpMachine → Str → Fields → Turn
  unfolding on_initialized on_established on_prompt_answered
  succeeded m method result =
      if str_eq method initialize
      then on_initialized m result
      else if str_eq method session_new
      then on_established m (get result (codes "sessionId"))
      else if str_eq method session_prompt
      then on_prompt_answered m (get result (codes "stopReason"))
      else (m, [], [])

  -- An answer to a request in flight, which is taken off; an answer to no request is reported.
  unfoldable pub attributed : AcpMachine → RequestId → (AcpMachine → Str → Turn) → Turn
  unfolding id_lookup id_remove complain id_json
  attributed m i next = elim (id_lookup i m.in_flight_outgoing) [
    | none ↦ complain m (codes "response for unknown/duplicate id " ++ repr (id_json i))
    | some method ↦ next (record m { in_flight_outgoing = id_remove i m.in_flight_outgoing }) method
  ]

  unfoldable pub handle_error : AcpMachine → Option RequestId → ℤ → Str → Turn
  unfolding attributed request_failed complain show_int
  handle_error m none code text =
      complain m
        (codes "agent reported an unattributable error: " ++ (show_int code ++ (codes " " ++ text)))
  handle_error m (some i) code text =
      attributed m i (λ after method. request_failed after method code text)

  unfoldable pub handle_result : AcpMachine → RequestId → JsonValue → Turn
  unfolding attributed succeeded as_dict
  handle_result m i result =
      attributed m i (λ after method. succeeded after method (as_dict result))
