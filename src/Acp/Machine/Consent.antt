-- ===== src/Acp/Machine/Consent.antt =====
-- What the client answers without asking the human.
use drei.Base.{
  arith, ℤ, Str, codes, str_eq, str_eq_iff, is_empty, ◌≡◌, refl, ap, sym, true, false, ◌||◌, List,
  [], ◌∷◌, Option, none, some, ok, bind-ok, if-ok, ok-injective, inl, inr, ◌⊎◌, subst, if-holds,
  Option-cases,
}
use drei.Acp.Json.{JsonValue, str, Fields, get, as_dict}
use drei.Acp.Effects.{RequestId, PermissionDecision, selected}
use drei.Acp.Ids.{id_lookup, id_eq_iff, id_remove, id_lookup-insert}
use drei.Acp.Messages.{Message, request, notification, response, response_error}
use drei.Acp.Machine.{AcpMachine, Turn, initialize, session_new, session_prompt}
use drei.Acp.Machine.Options.{permission_options, select_auto_option, text_in, permission_identity}
use drei.Acp.Machine.Answers.{forget, or_null}
use drei.Acp.Machine.Responses.{
  request_failed, on_initialized, on_established, on_prompt_answered, stop_reason, succeeded,
  attributed, handle_error, handle_result, complain, observed,
}
use drei.Acp.Machine.Inbound.{
  track, ask_human, answer_with, approved, request_permission, refuse_request, refuse, starts_with,
  handle_request, handle,
}
use drei.Acp.Machine.Resolved.{resolve_permission-Resolved, Growth, record_decision-Growth}
use drei.Acp.Machine.Unchanged.{Silent, handle_notification-Silent}

-- The successful answers among the messages.
unfoldable pub responses : List Message → List Message
responses [] = []
responses (response i result ∷ ms) = response i result ∷ responses ms
responses (_ ∷ ms) = responses ms

-- The approvals are the same, and no request of the agent is granted or denied.
abbrev pub Asks : AcpMachine → Turn → Type 0
Asks m t = (t.0.auto_approvals ≡ m.auto_approvals) × (responses t.1 ≡ [])

module _ (m : AcpMachine) where
  on_established-Asks : (id : JsonValue) → Asks m (on_established m id)
  unfolding on_established complain observed responses
  on_established-Asks (str s) =
      if-holds (Asks m) (is_empty s) _ _ (λ _. (refl, refl)) (λ _. (refl, refl))
  on_established-Asks w = (refl, refl)

  on_prompt_answered-Asks :
      (repr : JsonValue → Str) (stop : JsonValue) → Asks m (on_prompt_answered repr m stop)
  unfolding on_prompt_answered complain observed responses
  on_prompt_answered-Asks repr stop = elim (Option-cases (stop_reason stop)) [
    | inl e ↦ rw (e, on_prompt_answered) (refl, refl)
    | inr (reason, e) ↦ rw (e, on_prompt_answered) (refl, refl)
  ]

  succeeded-Asks :
      (repr : JsonValue → Str) (method : Str) (result : Fields)
      → Asks m (succeeded repr m method result)
  unfolding succeeded on_initialized observed responses
  succeeded-Asks repr method result =
      if-holds (Asks m) (str_eq method initialize) _ _ (λ _. (refl, refl))
        (λ _.
          if-holds (Asks m) (str_eq method session_new) _ _
            (λ _. on_established-Asks (get result (codes "sessionId")))
            (λ _.
              if-holds (Asks m) (str_eq method session_prompt) _ _
                (λ _. on_prompt_answered-Asks repr (get result (codes "stopReason")))
                (λ _. (refl, refl))))

module _ (m : AcpMachine) where
  attributed-Asks :
      (repr : JsonValue → Str) (i : RequestId) (next : AcpMachine → Str → Turn)
      → ((after : AcpMachine) (method : Str) → Asks after (next after method))
      → Asks m (attributed repr m i next)
  unfolding attributed complain observed responses
  attributed-Asks repr i next k = elim (Option-cases (id_lookup i m.in_flight_outgoing)) [
    | inl e ↦ rw (e, attributed) (refl, refl)
    | inr (method, e) ↦
        rw (e, attributed)
          (k (record m { in_flight_outgoing = id_remove i m.in_flight_outgoing }) method)
  ]

  handle_error-Asks :
      (repr : JsonValue → Str) (i : Option RequestId) (code : ℤ) (text : Str)
      → Asks m (handle_error repr m i code text)
  unfolding handle_error complain observed request_failed responses
  handle_error-Asks repr none code text = (refl, refl)
  handle_error-Asks repr (some i) code text =
      attributed-Asks repr i (λ after method. request_failed after method code text)
        (λ after method. (refl, refl))

  handle_result-Asks :
      (repr : JsonValue → Str) (i : RequestId) (result : JsonValue)
      → Asks m (handle_result repr m i result)
  unfolding handle_result
  handle_result-Asks repr i result =
      attributed-Asks repr i (λ after method. succeeded repr after method (as_dict result))
        (λ after method. succeeded-Asks after repr method (as_dict result))

  refuse_request-Asks : (i : RequestId) (method : Str) → Asks m (refuse_request m i method)
  unfolding refuse_request refuse responses
  refuse_request-Asks i method =
      if-holds (Asks m)
        (str_eq method (codes "fs/read_text_file")
          || str_eq method (codes "fs/write_text_file")
          || starts_with (codes "terminal/") method)
        _ _ (λ _. (refl, refl)) (λ _. (refl, refl))

  track-params :
      (i : RequestId) (params : JsonValue)
      → or_null (id_lookup i (track i params m).request_params) ≡ params
  unfolding track or_null
  track-params i params =
      ground (arith, id_lookup-insert i i params m.request_params, id_eq_iff i i)

module _ (canonical : JsonValue → Option Str) (m : AcpMachine) where
  remembered-approvals :
      (i : RequestId) (params : JsonValue) (decision : PermissionDecision) (after : AcpMachine)
      → text_in (permission_identity canonical params) m.auto_approvals ≡ true
      → Growth canonical (forget i (track i params m)) decision params after
      → after.auto_approvals ≡ m.auto_approvals
  unfolding Growth forget track
  remembered-approvals i params decision after p (inl e) =
      ap (λ (r : AcpMachine). r.auto_approvals) e
  remembered-approvals i params decision after p (inr (_, _, _, new, _)) = cc

  -- An automatic answer that leaves the approvals as they are.
  answer_with-approvals :
      (i : RequestId) (params : JsonValue) (choice : Option Str) (t : Turn)
      → text_in (permission_identity canonical params) m.auto_approvals ≡ true
      → answer_with canonical m i params choice ≡ ok t
      → t.0.auto_approvals ≡ m.auto_approvals
  unfolding answer_with ask_human observed
  answer_with-approvals i params none t p h =
      ap (λ (r : Turn). r.0.auto_approvals) (sym (ok-injective h))
  answer_with-approvals i params (some option_id) t p h =
      let r = resolve_permission-Resolved canonical (track i params m) i (selected option_id) t h in
      let g =
        record_decision-Growth canonical (selected option_id) _ (forget i (track i params m)) _
          r.decided in
      remembered-approvals i params (selected option_id) t.0 p (
        subst (λ q. Growth canonical (forget i (track i params m)) (selected option_id) q t.0)
          (track-params m i params) g)

  approved-approvals :
      (i : RequestId) (params : JsonValue) (t : Turn)
      → text_in (permission_identity canonical params) m.auto_approvals ≡ true
      → approved canonical m i params ≡ ok t
      → t.0.auto_approvals ≡ m.auto_approvals
  unfolding approved
  approved-approvals i params t p h =
      let (choice, _, k) =
        bind-ok (select_auto_option (permission_options params))
          (λ choice. answer_with canonical m i params choice) h in
      answer_with-approvals i params choice t p k

  -- The message asks for a permission that the human gave before.
  unfoldable pub IsApproved : Message → Type 0
  unfolding text_in permission_identity
  IsApproved (request i method params) =
      (method ≡ codes "session/request_permission")
      × (text_in (permission_identity canonical params) m.auto_approvals ≡ true)
  IsApproved _ = true ≡ false

  pub Consented : Message → Turn → Type 0
  unfolding responses IsApproved
  Consented message t =
      (t.0.auto_approvals ≡ m.auto_approvals) × ((responses t.1 ≡ []) ⊎ IsApproved message)

  request_permission-Consented :
      (repr : JsonValue → Str) (i : RequestId) (method : Str) (params : JsonValue) (t : Turn)
      → method ≡ codes "session/request_permission"
      → request_permission repr canonical m i params ≡ ok t
      → Consented (request i method params) t
  unfolding Consented IsApproved request_permission complain observed ask_human responses track
  request_permission-Consented repr i method params t e h =
      ground (arith, approved-approvals i params t)

  -- What an inbound message makes the client do without the human: the approvals never grow, and a
  -- request of the agent is answered only if the human gave its identity an approval before.
  pub handle-Consented :
      (repr : JsonValue → Str) (message : Message) (t : Turn)
      → handle repr canonical m message ≡ ok t
      → Consented message t
  unfolding Consented IsApproved handle handle_request Silent
  handle-Consented repr (request i method params) t h =
      if-ok (Consented (request i method params) t)
        (str_eq method (codes "session/request_permission"))
        (request_permission repr canonical m i params) (ok (refuse_request m i method))
        (λ e.
          request_permission-Consented repr i method params t
            ((str_eq_iff method (codes "session/request_permission")).0 e))
        (λ _ e.
          let (same, none_sent) =
            subst (Asks m) (ok-injective e) (refuse_request-Asks m i method) in
          (same, inl none_sent))
        h
  handle-Consented repr (notification method params) t h =
      let (same, none_sent) = handle_notification-Silent repr m method params t h in
      (ap (λ (r : AcpMachine). r.auto_approvals) same, inl (ap responses none_sent))
  handle-Consented repr (response i result) t h =
      let (same, none_sent) =
        subst (Asks m) (ok-injective h) (handle_result-Asks m repr i result) in
      (same, inl none_sent)
  handle-Consented repr (response_error i code text _) t h =
      let (same, none_sent) =
        subst (Asks m) (ok-injective h) (handle_error-Asks m repr i code text) in
      (same, inl none_sent)
