-- ===== src/Acp/Machine/Moves.antt =====
-- The phases that an inbound message moves the client to.
use drei.Base.{
  arith, Str, codes, str_eq, ◌≡◌, refl, ap, sym, ◌∙◌, Option, none, some, ok, bind-ok, if-ok,
  ok-injective, inl, inr, ◌⊎◌, subst, Option-cases,
}
use drei.Acp.Json.{JsonValue, as_dict}
use drei.Acp.Effects.{RequestId, PermissionDecision, selected}
use drei.Acp.Ids.{id_lookup, id_remove}
use drei.Acp.Messages.{Message, request, notification, response, response_error}
use drei.Acp.Machine.{AcpMachine, Turn}
use drei.Acp.Machine.Options.{permission_options, select_auto_option}
use drei.Acp.Machine.Invariant.{IsSent, IsValid}
use drei.Acp.Machine.Answers.{forget, resolve_permission}
use drei.Acp.Machine.Responses.{
  request_failed, succeeded, attributed, handle_error, handle_result, complain, observed,
}
use drei.Acp.Machine.Inbound.{
  track, ask_human, answer_with, approved, request_permission, refuse_request, handle_request,
  handle,
}
use drei.Acp.Machine.Resolved.{resolve_permission-Resolved, Growth, record_decision-Growth}
use drei.Acp.Machine.Unchanged.{Silent, handle_notification-Silent, refuse_request-same}
use drei.Acp.Machine.Arrivals.{Arrives, succeeded-Arrives, request_failed-Arrives}

unfoldable pub answered_id : Message → Option RequestId
answered_id (response i _) = some i
answered_id (response_error i _ _ _) = i
answered_id _ = none

-- The message answers no request in flight and the phase is the same, or it answers one, and the
-- phase is the one that the answer leads to.
unfoldable pub PhaseStep : AcpMachine → Message → Turn → Type 0
unfolding answered_id
PhaseStep m message t =
    (((i : RequestId) → answered_id message ≡ some i → id_lookup i m.in_flight_outgoing ≡ none)
      × (t.0.phase ≡ m.phase))
    ⊎ ((i : RequestId) × (method : Str) × (answered_id message ≡ some i)
        × (id_lookup i m.in_flight_outgoing ≡ some method)
        × Arrives method message m.phase t.0.phase)

module _ (m : AcpMachine) where
  attributed-PhaseStep :
      (repr : JsonValue → Str) (i : RequestId) (message : Message) (next : AcpMachine → Str → Turn)
      → IsValid m
      → answered_id message ≡ some i
      → ((after : AcpMachine) (method : Str)
          → IsSent m.session_id method
          → Arrives method message after.phase (next after method).0.phase)
      → PhaseStep m message (attributed repr m i next)
  unfolding PhaseStep attributed complain observed
  attributed-PhaseStep repr i message next v a k =
      elim (Option-cases (id_lookup i m.in_flight_outgoing)) [
        | inl e ↦
            rw (e, attributed)
              (inl (
                (λ j b.
                    let same : i ≡ j = cc in
                    subst (λ k. id_lookup k m.in_flight_outgoing ≡ none) same e),
                refl,
              ))
        | inr (method, e) ↦
            let after = record m { in_flight_outgoing = id_remove i m.in_flight_outgoing } in
            rw (e, attributed) (inr (i, method, a, e, k after method (v.sent i method e)))
      ]

  grown-phase :
      (canonical : JsonValue → Option Str) (decision : PermissionDecision) (params : JsonValue)
      (after : AcpMachine)
      → Growth canonical m decision params after
      → after.phase ≡ m.phase
  unfolding Growth
  grown-phase canonical decision params after (inl e) = ap (λ (r : AcpMachine). r.phase) e
  grown-phase canonical decision params after (inr (_, _, _, _, e)) =
      ap (λ (r : AcpMachine). r.phase) e

module _ (m : AcpMachine) where
  resolve_permission-phase :
      (canonical : JsonValue → Option Str) (i : RequestId) (decision : PermissionDecision)
      (t : Turn)
      → resolve_permission canonical m i decision ≡ ok t
      → t.0.phase ≡ m.phase
  unfolding forget
  resolve_permission-phase canonical i decision t h =
      let r = resolve_permission-Resolved canonical m i decision t h in
      grown-phase (forget i m) canonical decision _ t.0
        (record_decision-Growth canonical decision _ (forget i m) _ r.decided)

module _ (m : AcpMachine) (canonical : JsonValue → Option Str) where
  answer_with-phase :
      (i : RequestId) (params : JsonValue) (choice : Option Str) (t : Turn)
      → answer_with canonical m i params choice ≡ ok t
      → t.0.phase ≡ m.phase
  unfolding answer_with ask_human observed track
  answer_with-phase i params none t h = ap (λ (r : Turn). r.0.phase) (sym (ok-injective h))
  answer_with-phase i params (some option_id) t h =
      resolve_permission-phase (track i params m) canonical i (selected option_id) t h

  approved-phase :
      (i : RequestId) (params : JsonValue) (t : Turn)
      → approved canonical m i params ≡ ok t
      → t.0.phase ≡ m.phase
  unfolding approved
  approved-phase i params t h =
      let (choice, _, k) =
        bind-ok (select_auto_option (permission_options params))
          (λ choice. answer_with canonical m i params choice) h in
      answer_with-phase i params choice t k

  request_permission-phase :
      (repr : JsonValue → Str) (i : RequestId) (params : JsonValue) (t : Turn)
      → request_permission repr canonical m i params ≡ ok t
      → t.0.phase ≡ m.phase
  unfolding request_permission complain observed ask_human track
  request_permission-phase repr i params t h = ground (arith, approved-phase i params t)

  -- An inbound message of which a valid client made a turn either answers no request of the client
  -- that is in flight, and leaves the phase as it is, or answers one. Then an error leads from
  -- `initialize` to DISCONNECTED, from `session/new` to READY and from `session/prompt` to
  -- SESSION_ACTIVE; a result leads from `initialize` to READY, from `session/new` with a sessionId
  -- that is a text and not empty and from `session/prompt` with a known stopReason to
  -- SESSION_ACTIVE, and without one it leaves the phase as it is.
  pub handle-PhaseStep :
      (repr : JsonValue → Str) (message : Message) (t : Turn)
      → IsValid m
      → handle repr canonical m message ≡ ok t
      → PhaseStep m message t
  unfolding handle handle_request handle_result handle_error PhaseStep answered_id complain observed
      Silent
  handle-PhaseStep repr (request i method params) t v h =
      if-ok (PhaseStep m (request i method params) t)
        (str_eq method (codes "session/request_permission"))
        (request_permission repr canonical m i params) (ok (refuse_request m i method))
        (λ _ e. inl ((λ j a. cc), request_permission-phase repr i params t e))
        (λ _ e. inl (
          (λ j a. cc),
          ap (λ (r : Turn). r.0.phase) (sym (ok-injective e))
              ∙ ap (λ (r : AcpMachine). r.phase) (refuse_request-same m i method),
        ))
        h
  handle-PhaseStep repr (notification method params) t v h = inl (
    (λ j a. cc),
    ap (λ (r : AcpMachine). r.phase) (handle_notification-Silent repr m method params t h).0,
  )
  handle-PhaseStep repr (response i result) t v h =
      subst (PhaseStep m (response i result)) (ok-injective h) (
        attributed-PhaseStep m repr i (response i result)
          (λ after method. succeeded repr after method (as_dict result)) v refl
          (λ after method known. succeeded-Arrives after m.session_id method known repr i result))
  handle-PhaseStep repr (response_error none code text details) t v h =
      inl ((λ j a. cc), ap (λ (r : Turn). r.0.phase) (sym (ok-injective h)))
  handle-PhaseStep repr (response_error (some i) code text details) t v h =
      subst (PhaseStep m (response_error (some i) code text details)) (ok-injective h) (
        attributed-PhaseStep m repr i (response_error (some i) code text details)
          (λ after method. request_failed after method code text) v refl
          (λ after method known.
            request_failed-Arrives after m.session_id method known (some i) code text details))
