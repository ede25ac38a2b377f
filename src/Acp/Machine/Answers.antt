-- ===== src/Acp/Machine/Answers.antt =====
-- `resolve_permission` and `cancel` of acp/machine.py.
use drei.Base.{
  Str, codes, Bool, false, List, [], ◌∷◌, ◌++◌, Option, none, some, if◌then◌else◌, Result, ok,
  raise, state_error, ◌>>=◌,
}
use drei.Acp.Json.{JsonValue, null, str, obj, end, field}
use drei.Acp.Effects.{RequestId, PermissionDecision, selected, cancelled, permission_resolved}
use drei.Acp.Ids.{IdDict, id_contains, id_lookup, id_remove}
use drei.Acp.Messages.{Message, notification, response}
use drei.Acp.Machine.{AcpMachine, Turn, phase_eq, prompt_in_flight, optional_text}
use drei.Acp.Machine.Options.{
  text_in, allow_kinds, cacheable_kinds, kind_among, permission_identity, chosen_kind,
}

unfoldable pub outcome_json : PermissionDecision → JsonValue
outcome_json (selected option_id) = obj (
    field (codes "outcome")
      (obj (
        field (codes "outcome") (str (codes "selected"))
          (field (codes "optionId") (str option_id) end)))
      end)
outcome_json cancelled =
    obj (field (codes "outcome") (obj (field (codes "outcome") (str (codes "cancelled")) end)) end)

-- The machine without the request.
unfoldable pub forget : RequestId → AcpMachine → AcpMachine
unfolding id_remove
forget i m = record m {
  in_flight_incoming = id_remove i m.in_flight_incoming;
  request_params = id_remove i m.request_params;
}

unfoldable pub or_null : Option JsonValue → JsonValue
or_null none = null
or_null (some v) = v

unfoldable pub keys : IdDict Str → List RequestId
keys [] = []
keys ((i, _) ∷ d) = i ∷ keys d

-- The response, and the effect that records it.
unfoldable pub answered_turn : RequestId → PermissionDecision → AcpMachine × Bool → Turn
unfolding outcome_json
answered_turn i decision (after, granted) =
    (after, response i (outcome_json decision) ∷ [], permission_resolved i decision granted ∷ [])

unfoldable pub goodbye : AcpMachine → Message
unfolding optional_text
goodbye m =
    notification (codes "session/cancel")
      (obj (field (codes "sessionId") (optional_text m.session_id) end))

module _ (canonical : JsonValue → Option Str) where
  unfoldable pub remember : JsonValue → AcpMachine → AcpMachine
  unfolding text_in permission_identity
  remember params m =
      let identity = permission_identity canonical params in
      if text_in identity m.auto_approvals
      then m
      else record m { auto_approvals = m.auto_approvals ++ identity ∷ [] }

  -- The machine with the approval that the decision gives, and whether the call is granted.
  unfoldable pub record_decision :
      PermissionDecision → JsonValue → AcpMachine → Result (AcpMachine × Bool)
  unfolding kind_among chosen_kind remember
  record_decision (selected option_id) params m = do
    let kind = chosen_kind option_id params
    granted ← kind_among kind allow_kinds
    cacheable ← kind_among kind cacheable_kinds
    ok (if cacheable then remember params m else m, granted)
  record_decision cancelled params m = ok (m, false)

  unfoldable pub answer_pending : AcpMachine → RequestId → PermissionDecision → Result Turn
  unfolding id_lookup or_null forget record_decision answered_turn
  answer_pending m i decision =
      record_decision decision (or_null (id_lookup i m.request_params)) (forget i m) >>= λ outcome.
      ok (answered_turn i decision outcome)

  unfoldable pub resolve_permission : AcpMachine → RequestId → PermissionDecision → Result Turn
  unfolding id_contains answer_pending
  resolve_permission m i decision =
      if id_contains i m.in_flight_incoming then answer_pending m i decision else raise state_error

  -- The loop of `cancel`: each request is answered with the outcome `cancelled`.
  unfoldable pub sweep : AcpMachine → List RequestId → Result Turn
  unfolding resolve_permission
  sweep m [] = ok (m, [], [])
  sweep m (i ∷ is) = do
    (after, responses, resolved) ← resolve_permission m i cancelled
    (last, out, effects) ← sweep after is
    ok (last, responses ++ out, resolved ++ effects)

  unfoldable pub sweep_all : AcpMachine → Result Turn
  unfolding sweep keys goodbye
  sweep_all m = do
    (after, out, effects) ← sweep m (keys m.in_flight_incoming)
    ok (after, goodbye m ∷ out, effects)

  unfoldable pub cancel : AcpMachine → Result Turn
  unfolding phase_eq sweep_all
  cancel m = if phase_eq m.phase prompt_in_flight then sweep_all m else raise state_error
