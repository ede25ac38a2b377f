-- ===== src/Acp/Machine/Reached.antt =====
-- The machines that the client's operations reach.
use drei.Base.{
  arith, Str, codes, str_eq, ◌≡◌, refl, sym, true, [], ◌∷◌, Option, none, some, ok, state_error,
  bind-ok, guarded-ok, if-ok, ok-injective, inl, inr, subst,
}
use drei.Acp.Json.{JsonValue}
use drei.Acp.Effects.{RequestId, PermissionDecision, selected}
use drei.Acp.Messages.{Message, request, notification, response, response_error}
use drei.Acp.Machine.{
  AcpMachine, Turn, Phase, phase_eq, disconnected, initializing, ready, session_active,
  prompt_in_flight, initialize, session_new, session_prompt, new_machine, send, start_machine,
  start, new_session, prompt, hello, session_params, prompt_params,
}
use drei.Acp.Machine.Options.{permission_options, select_auto_option}
use drei.Acp.Machine.Answers.{resolve_permission, sweep, sweep_all, cancel, keys, goodbye}
use drei.Acp.Machine.Responses.{complain, observed}
use drei.Acp.Machine.Inbound.{
  track, ask_human, answer_with, approved, request_permission, refuse_request, handle_request,
  handle,
}
use drei.Acp.Machine.Invariant.{
  IsValid, in_session, send-IsValid, track-IsValid, approvals-IsValid, new_machine-IsValid,
}
use drei.Acp.Machine.Unchanged.{Silent, refuse_request-same, handle_notification-Silent}
use drei.Acp.Machine.Keeps.{
  IsValidTurn, resolve_permission-IsValid, sweep-IsValid, handle_error-IsValid,
  handle_result-IsValid,
}

active-in_session : (phase : Phase) → phase_eq phase session_active ≡ true → in_session phase ≡ true
unfolding phase_eq in_session
active-in_session session_active h = refl
active-in_session phase h = cc

module _ (m : AcpMachine) (v : IsValid m) where
  start-IsValid :
      (after : AcpMachine) (sent : Message) → start (some m) ≡ ok (after, sent) → IsValid after
  unfolding start start_machine in_session
  start-IsValid after sent h =
      let (p, e) =
        guarded-ok (phase_eq m.phase disconnected) (ok (send m initializing initialize hello))
          state_error h in
      subst (λ (r : AcpMachine × Message). IsValid r.0) (ok-injective e)
        (send-IsValid m v initializing initialize hello (inl refl) (λ q. ground arith))

  prompt-IsValid :
      (text : Str) (after : AcpMachine) (sent : Message)
      → prompt m text ≡ ok (after, sent)
      → IsValid after
  unfolding prompt in_session
  prompt-IsValid text after sent h =
      let (p, e) =
        guarded-ok (phase_eq m.phase session_active)
          (ok (send m prompt_in_flight session_prompt (prompt_params m text))) state_error h in
      let there = v.established (active-in_session m.phase p) in
      subst (λ (r : AcpMachine × Message). IsValid r.0) (ok-injective e)
        (send-IsValid m v prompt_in_flight session_prompt (prompt_params m text)
          (inr (inr (refl, there))) (λ q. there))

  new_session-IsValid :
      (cwd : Str) (after : AcpMachine) (sent : Message)
      → new_session m cwd ≡ ok (after, sent)
      → IsValid after
  unfolding new_session in_session
  new_session-IsValid cwd after sent h =
      let params = session_params cwd in
      let cleared = record m { auto_approvals = [] } in
      let (p, e) =
        guarded-ok (phase_eq m.phase ready) (ok (send cleared ready session_new params)) state_error
          h in
      subst (λ (r : AcpMachine × Message). IsValid r.0) (ok-injective e)
        (send-IsValid cleared (approvals-IsValid m v []) ready session_new params (inr (inl refl))
          (λ q. ground arith))

  module _ (canonical : JsonValue → Option Str) where
    cancel-IsValid : (t : Turn) → cancel canonical m ≡ ok t → IsValidTurn t
    unfolding cancel sweep_all
    cancel-IsValid t h =
        let (_, g) =
          guarded-ok (phase_eq m.phase prompt_in_flight) (sweep_all canonical m) state_error h in
        let ((after, out, effects), e, k) =
          bind-ok (sweep canonical m (keys m.in_flight_incoming))
            (λ (after, out, effects). ok (after, goodbye m ∷ out, effects)) g in
        subst IsValidTurn (ok-injective k)
          (sweep-IsValid canonical m v (keys m.in_flight_incoming) _ e)

    answer_with-IsValid :
        (i : RequestId) (params : JsonValue) (choice : Option Str) (t : Turn)
        → answer_with canonical m i params choice ≡ ok t
        → IsValidTurn t
    unfolding answer_with ask_human observed
    answer_with-IsValid i params none t h =
        subst IsValidTurn (ok-injective h) (track-IsValid m v i params)
    answer_with-IsValid i params (some option_id) t h =
        resolve_permission-IsValid canonical (track i params m) (track-IsValid m v i params) i
          (selected option_id) t h

    approved-IsValid :
        (i : RequestId) (params : JsonValue) (t : Turn)
        → approved canonical m i params ≡ ok t
        → IsValidTurn t
    unfolding approved
    approved-IsValid i params t h =
        let (choice, _, k) =
          bind-ok (select_auto_option (permission_options params))
            (λ choice. answer_with canonical m i params choice) h in
        answer_with-IsValid i params choice t k

    module _ (repr : JsonValue → Str) where
      request_permission-IsValid :
          (i : RequestId) (params : JsonValue) (t : Turn)
          → request_permission repr canonical m i params ≡ ok t
          → IsValidTurn t
      unfolding request_permission complain observed ask_human
      request_permission-IsValid i params t h =
          ground (arith, approved-IsValid i params t, track-IsValid m v i params)

      handle-IsValid :
          (message : Message) (t : Turn) → handle repr canonical m message ≡ ok t → IsValidTurn t
      unfolding handle handle_request Silent
      handle-IsValid (request i method params) t h =
          if-ok (IsValidTurn t) (str_eq method (codes "session/request_permission"))
            (request_permission repr canonical m i params) (ok (refuse_request m i method))
            (λ _. request_permission-IsValid i params t)
            (λ _ e.
              subst IsValidTurn (ok-injective e)
                (subst IsValid (sym (refuse_request-same m i method)) v))
            h
      handle-IsValid (notification method params) t h =
          subst IsValid (sym (handle_notification-Silent repr m method params t h).0) v
      handle-IsValid (response i result) t h =
          subst IsValidTurn (ok-injective h) (handle_result-IsValid m v repr i result)
      handle-IsValid (response_error i code text _) t h =
          subst IsValidTurn (ok-injective h) (handle_error-IsValid m v repr i code text)

-- A machine that a client has after a sequence of operations that returned.
pub data Reached (repr : JsonValue → Str) (canonical : JsonValue → Option Str)
    : AcpMachine → Type 0 where
  fresh : Reached repr canonical new_machine
  started :
      {m after : AcpMachine} {sent : Message}
      → Reached repr canonical m
      → start (some m) ≡ ok (after, sent)
      → Reached repr canonical after
  opened :
      {m after : AcpMachine} {sent : Message} (cwd : Str)
      → Reached repr canonical m
      → new_session m cwd ≡ ok (after, sent)
      → Reached repr canonical after
  prompted :
      {m after : AcpMachine} {sent : Message} (text : Str)
      → Reached repr canonical m
      → prompt m text ≡ ok (after, sent)
      → Reached repr canonical after
  aborted :
      {m : AcpMachine} {t : Turn}
      → Reached repr canonical m
      → cancel canonical m ≡ ok t
      → Reached repr canonical t.0
  resolved :
      {m : AcpMachine} {t : Turn} (i : RequestId) (decision : PermissionDecision)
      → Reached repr canonical m
      → resolve_permission canonical m i decision ≡ ok t
      → Reached repr canonical t.0
  handled :
      {m : AcpMachine} {t : Turn} (message : Message)
      → Reached repr canonical m
      → handle repr canonical m message ≡ ok t
      → Reached repr canonical t.0

module _ (repr : JsonValue → Str) (canonical : JsonValue → Option Str) where
  -- Every machine that the operations reach from a new one is valid: the requests in flight are the
  -- client's own, with ids given out before, the agent's requests and their params have the same
  -- ids, each once, and a session that is active has an id.
  pub Reached-IsValid : {m : AcpMachine} → Reached repr canonical m → IsValid m
  Reached-IsValid fresh = new_machine-IsValid
  Reached-IsValid (started r h) = start-IsValid _ (Reached-IsValid r) _ _ h
  Reached-IsValid (opened cwd r h) = new_session-IsValid _ (Reached-IsValid r) cwd _ _ h
  Reached-IsValid (prompted text r h) = prompt-IsValid _ (Reached-IsValid r) text _ _ h
  Reached-IsValid (aborted r h) = cancel-IsValid _ (Reached-IsValid r) canonical _ h
  Reached-IsValid (resolved i decision r h) =
      resolve_permission-IsValid canonical _ (Reached-IsValid r) i decision _ h
  Reached-IsValid (handled message r h) =
      handle-IsValid _ (Reached-IsValid r) canonical repr message _ h
