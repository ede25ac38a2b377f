-- ===== src/Acp/Machine/Once.antt =====
-- A permission request is resolved once.
use drei.Base.{Str, ◌≡◌, refl, true, [], ◌∷◌, Option, ok, raise, state_error, inl, inr}
use drei.Acp.Json.{JsonValue}
use drei.Acp.Effects.{RequestId, PermissionDecision}
use drei.Acp.Ids.{id_eq_iff, id_contains, id_contains-remove, id_lookup}
use drei.Acp.Messages.{response}
use drei.Acp.Machine.{AcpMachine, Turn}
use drei.Acp.Machine.Answers.{outcome_json, forget, or_null, resolve_permission}
use drei.Acp.Machine.Resolved.{resolve_permission-Resolved, Growth, record_decision-Growth}

module _ (canonical : JsonValue → Option Str) (m : AcpMachine) where
  -- One answer to a request that waited; what the decision may add; and no second answer.
  pub record Once (i : RequestId) (decision again : PermissionDecision) (t : Turn) : Type 0 where
    pub waited : id_contains i m.in_flight_incoming ≡ true
    pub sent : t.1 ≡ response i (outcome_json decision) ∷ []
    pub grown : Growth canonical (forget i m) decision (or_null (id_lookup i m.request_params)) t.0
    pub over : resolve_permission canonical t.0 i again ≡ raise state_error

  gone_lem :
      (i : RequestId) (decision again : PermissionDecision) (params : JsonValue)
      (after : AcpMachine)
      → Growth canonical (forget i m) decision params after
      → resolve_permission canonical after i again ≡ raise state_error
  unfolding Growth resolve_permission forget
  gone_lem i decision again params after (inl e) =
      rw (e, id_contains-remove i i m.in_flight_incoming, (id_eq_iff i i).1 refl)
  gone_lem i decision again params after (inr (_, _, _, _, e)) =
      rw (e, id_contains-remove i i m.in_flight_incoming, (id_eq_iff i i).1 refl)

  -- A decision that is accepted was on a request that waited; exactly one response is sent, with
  -- that decision; the approvals grow at most by the identity of the request, and only when the
  -- human selected an option of a kind that lasts for the session; and a second decision on the same
  -- request, whatever it is, is refused.
  pub resolve_permission-Once :
      (i : RequestId) (decision again : PermissionDecision) (t : Turn)
      → resolve_permission canonical m i decision ≡ ok t
      → Once i decision again t
  resolve_permission-Once i decision again t h =
      let r = resolve_permission-Resolved canonical m i decision t h in
      let g = record_decision-Growth canonical decision _ (forget i m) _ r.decided in
      record {
        waited = r.pending;
        sent = r.sent;
        grown = g;
        over = gone_lem i decision again _ t.0 g;
      }
