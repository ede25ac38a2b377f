-- ===== src/Acp/Machine/Keeps.antt =====
-- The invariant of `AcpMachine` through its operations.
use drei.Base.{
  arith, Str, codes, str_eq, str_eq_iff, ◌≡◌, sym, true, List, [], ◌∷◌, ◌++◌, Option, none, some,
  ok, ◌>>=◌, bind-ok, ok-injective, Bool-cases, if-holds, Option-cases, inl, inr, subst, ℤ,
  is_empty,
}
use drei.Acp.Json.{JsonValue, str, Fields, get, as_dict}
use drei.Acp.Effects.{RequestId, PermissionDecision, cancelled}
use drei.Acp.Ids.{id_lookup, id_remove}
use drei.Acp.Machine.{
  AcpMachine, Turn, ready, session_active, initialize, session_new, session_prompt,
}
use drei.Acp.Machine.Answers.{forget, resolve_permission, sweep}
use drei.Acp.Machine.Responses.{
  recovery, request_failed, on_initialized, on_established, on_prompt_answered, stop_reason,
  succeeded, attributed, handle_error, handle_result, complain, observed,
}
use drei.Acp.Machine.Invariant.{
  IsValid, IsSent, in_session, is_some, responded-IsValid, moved-IsValid, opened-IsValid,
  forget-IsValid, approvals-IsValid,
}
use drei.Acp.Machine.Resolved.{resolve_permission-Resolved, Growth, record_decision-Growth}

abbrev pub IsValidTurn : Turn → Type 0
IsValidTurn t = IsValid t.0

prompt-session :
    (session_id : Option Str) → IsSent session_id session_prompt → is_some session_id ≡ true
prompt-session session_id (inl e) = cc
prompt-session session_id (inr (inl e)) = cc
prompt-session session_id (inr (inr (_, e))) = e

module _ (m : AcpMachine) (v : IsValid m) where
  recovery-session :
      (method : Str)
      → IsSent m.session_id method
      → in_session (recovery method m.phase) ≡ true
      → is_some m.session_id ≡ true
  unfolding recovery in_session
  recovery-session method s h = elim (Bool-cases (str_eq method session_prompt)) [
    | inl e ↦
        prompt-session m.session_id
          (subst (IsSent m.session_id) ((str_eq_iff method session_prompt).0 e) s)
    | inr e ↦ ground (arith, v.established)
  ]

  request_failed-IsValid :
      (method : Str) (code : ℤ) (text : Str)
      → IsSent m.session_id method
      → IsValid (request_failed m method code text).0
  unfolding request_failed complain observed
  request_failed-IsValid method code text s =
      moved-IsValid m v _ m.agent_capabilities (recovery-session method s)

  on_established-IsValid : (id : JsonValue) → IsValid (on_established m id).0
  unfolding on_established complain observed
  on_established-IsValid (str s) = elim (Bool-cases (is_empty s)) [
    | inl e ↦ rw e v
    | inr e ↦ rw e (opened-IsValid m v session_active s)
  ]
  on_established-IsValid w = v

  on_prompt_answered-IsValid :
      (repr : JsonValue → Str) (stop : JsonValue)
      → is_some m.session_id ≡ true
      → IsValid (on_prompt_answered repr m stop).0
  unfolding on_prompt_answered complain observed
  on_prompt_answered-IsValid repr stop s = elim (Option-cases (stop_reason stop)) [
    | inl e ↦ rw (e, on_prompt_answered) v
    | inr (reason, e) ↦
        rw (e, on_prompt_answered) (moved-IsValid m v session_active m.agent_capabilities (λ _. s))
  ]

  succeeded-IsValid :
      (repr : JsonValue → Str) (method : Str) (result : Fields)
      → IsSent m.session_id method
      → IsValid (succeeded repr m method result).0
  unfolding succeeded on_initialized observed in_session str_eq
  succeeded-IsValid repr method result s =
      if-holds IsValidTurn (str_eq method initialize) _ _
        (λ _. moved-IsValid m v ready (get result (codes "agentCapabilities")) (λ h. ground arith))
        (λ _.
          if-holds IsValidTurn (str_eq method session_new) _ _
            (λ _. on_established-IsValid (get result (codes "sessionId")))
            (λ _.
              if-holds IsValidTurn (str_eq method session_prompt) _ _
                (λ e. on_prompt_answered-IsValid repr (get result (codes "stopReason")) (
                  prompt-session m.session_id
                    (subst (IsSent m.session_id) ((str_eq_iff method session_prompt).0 e) s)))
                (λ _. v)))

  attributed-IsValid :
      (repr : JsonValue → Str) (i : RequestId) (next : AcpMachine → Str → Turn)
      → ((after : AcpMachine) (method : Str)
          → IsValid after
          → IsSent after.session_id method
          → IsValidTurn (next after method))
      → IsValidTurn (attributed repr m i next)
  unfolding attributed complain observed
  attributed-IsValid repr i next k = elim (Option-cases (id_lookup i m.in_flight_outgoing)) [
    | inl e ↦ rw (e, attributed) v
    | inr (method, e) ↦
        rw (e, attributed)
          (k (record m { in_flight_outgoing = id_remove i m.in_flight_outgoing }) method
            (responded-IsValid m v i) (v.sent i method e))
  ]

module _ (m : AcpMachine) (v : IsValid m) where
  pub handle_error-IsValid :
      (repr : JsonValue → Str) (i : Option RequestId) (code : ℤ) (text : Str)
      → IsValidTurn (handle_error repr m i code text)
  unfolding handle_error complain observed
  handle_error-IsValid repr none code text = v
  handle_error-IsValid repr (some i) code text =
      attributed-IsValid m v repr i (λ after method. request_failed after method code text)
        (λ after method w s. request_failed-IsValid after w method code text s)

  pub handle_result-IsValid :
      (repr : JsonValue → Str) (i : RequestId) (result : JsonValue)
      → IsValidTurn (handle_result repr m i result)
  unfolding handle_result
  handle_result-IsValid repr i result =
      attributed-IsValid m v repr i (λ after method. succeeded repr after method (as_dict result))
        (λ after method w s. succeeded-IsValid after w repr method (as_dict result) s)

module _ (canonical : JsonValue → Option Str) (m : AcpMachine) (v : IsValid m) where
  Growth-IsValid :
      (decision : PermissionDecision) (params : JsonValue) (after : AcpMachine)
      → Growth canonical m decision params after
      → IsValid after
  unfolding Growth
  Growth-IsValid decision params after (inl e) = subst IsValid (sym e) v
  Growth-IsValid decision params after (inr (_, _, _, _, e)) =
      subst IsValid (sym e) (approvals-IsValid m v _)

pub resolve_permission-IsValid :
    (canonical : JsonValue → Option Str) (m : AcpMachine) (v : IsValid m) (i : RequestId)
    (decision : PermissionDecision) (t : Turn)
    → resolve_permission canonical m i decision ≡ ok t
    → IsValidTurn t
resolve_permission-IsValid canonical m v i decision t h =
    let r = resolve_permission-Resolved canonical m i decision t h in
    Growth-IsValid canonical (forget i m) (forget-IsValid m v i) decision _ t.0
      (record_decision-Growth canonical decision _ (forget i m) _ r.decided)

pub sweep-IsValid :
    (canonical : JsonValue → Option Str) (m : AcpMachine) (v : IsValid m) (is : List RequestId)
    (t : Turn)
    → sweep canonical m is ≡ ok t
    → IsValidTurn t
unfolding sweep
sweep-IsValid canonical m v [] t h = subst IsValidTurn (ok-injective h) v
sweep-IsValid canonical m v (i ∷ is) t h =
    let ((after, responses, resolved), e, g) =
      bind-ok (resolve_permission canonical m i cancelled)
        (λ (after, responses, resolved). sweep canonical after is >>= λ (last, out, effects).
          ok (last, responses ++ out, resolved ++ effects))
        h in
    let ((last, out, effects), d, k) =
      bind-ok (sweep canonical after is)
        (λ (last, out, effects). ok (last, responses ++ out, resolved ++ effects)) g in
    let w = resolve_permission-IsValid canonical m v i cancelled _ e in
    subst IsValidTurn (ok-injective k) (sweep-IsValid canonical after w is _ d)
