-- ===== src/Acp/Machine/Arrivals.antt =====
-- The phase that an answer to a request of the client leads to, `_handle_response` of
-- acp/machine.py.
use drei.Base.{
  false, [], ◌∷◌, Bool-cases, ℤ, Str, codes, str_eq, is_empty, ◌≡◌, refl, true, Option, inl, inr,
  subst,
}
use drei.Acp.Json.{JsonValue, str, get, as_dict}
use drei.Acp.Effects.{RequestId}
use drei.Acp.Messages.{Message, response, response_error}
use drei.Acp.Machine.{
  AcpMachine, Phase, disconnected, ready, session_active, initialize, session_new, session_prompt,
}
use drei.Acp.Machine.Options.{text_in}
use drei.Acp.Machine.Invariant.{IsSent}
use drei.Acp.Machine.Responses.{
  stop_reasons, recovery, request_failed, on_initialized, on_established, on_prompt_answered,
  stop_reason, succeeded, complain, observed,
}

-- From which phase to which an answer to a request of this method leads. A result moves the client
-- on when it has what the method asks for, and leaves the phase as it is when it has not; an error
-- leads back to where the request can be made again.
pub data Arrives : Str → Message → Phase → Phase → Type 0 where
  handshake_done :
      (i : RequestId) (result : JsonValue) (p : Phase)
      → Arrives initialize (response i result) p ready
  handshake_failed :
      (i : Option RequestId) (code : ℤ) (text : Str) (details : JsonValue) (p : Phase)
      → Arrives initialize (response_error i code text details) p disconnected
  session_opened :
      (i : RequestId) (result : JsonValue) (p : Phase) (name : Str)
      → get (as_dict result) (codes "sessionId") ≡ str name
      → is_empty name ≡ false
      → Arrives session_new (response i result) p session_active
  session_refused :
      (i : RequestId) (result : JsonValue) (p : Phase)
      → ((name : Str) → get (as_dict result) (codes "sessionId") ≡ str name → is_empty name ≡ true)
      → Arrives session_new (response i result) p p
  session_failed :
      (i : Option RequestId) (code : ℤ) (text : Str) (details : JsonValue) (p : Phase)
      → Arrives session_new (response_error i code text details) p ready
  turn_ended :
      (i : RequestId) (result : JsonValue) (p : Phase) (reason : Str)
      → get (as_dict result) (codes "stopReason") ≡ str reason
      → text_in reason stop_reasons ≡ true
      → Arrives session_prompt (response i result) p session_active
  turn_unclear :
      (i : RequestId) (result : JsonValue) (p : Phase)
      → ((reason : Str)
          → get (as_dict result) (codes "stopReason") ≡ str reason
          → text_in reason stop_reasons ≡ false)
      → Arrives session_prompt (response i result) p p
  turn_failed :
      (i : Option RequestId) (code : ℤ) (text : Str) (details : JsonValue) (p : Phase)
      → Arrives session_prompt (response_error i code text details) p session_active

module _ (m : AcpMachine) (i : RequestId) (result : JsonValue) where
  on_established-Arrives :
      (name : JsonValue)
      → get (as_dict result) (codes "sessionId") ≡ name
      → Arrives session_new (response i result) m.phase (on_established m name).0.phase
  unfolding on_established complain observed
  on_established-Arrives (str []) e =
      session_refused i result m.phase
        (λ name same. let empty : [] ≡ name = cc in subst (λ s. is_empty s ≡ true) empty refl)
  on_established-Arrives (str (c ∷ cs)) e = session_opened i result m.phase (c ∷ cs) e refl
  on_established-Arrives w e = session_refused i result m.phase (λ name same. cc)

  reasoned-Arrives :
      (repr : JsonValue → Str) (reason : Str)
      → get (as_dict result) (codes "stopReason") ≡ str reason
      → Arrives session_prompt
          (response i result)
          m.phase
          (on_prompt_answered repr m (str reason)).0.phase
  unfolding on_prompt_answered stop_reason complain observed
  reasoned-Arrives repr reason e = elim (Bool-cases (text_in reason stop_reasons)) [
    | inl known ↦
        rw (known, on_prompt_answered, stop_reason) (turn_ended i result m.phase reason e known)
    | inr unknown ↦
        rw (unknown, on_prompt_answered, stop_reason)
          (turn_unclear i result m.phase (λ other same.
            let named : reason ≡ other = cc in
            subst (λ s. text_in s stop_reasons ≡ false) named unknown))
  ]

  on_prompt_answered-Arrives :
      (repr : JsonValue → Str) (stop : JsonValue)
      → get (as_dict result) (codes "stopReason") ≡ stop
      → Arrives session_prompt (response i result) m.phase (on_prompt_answered repr m stop).0.phase
  unfolding on_prompt_answered stop_reason complain observed
  on_prompt_answered-Arrives repr (str reason) e = reasoned-Arrives repr reason e
  on_prompt_answered-Arrives repr w e = turn_unclear i result m.phase (λ reason same. cc)

module _ (m : AcpMachine) (session_id : Option Str) (method : Str)
    (known : IsSent session_id method) where
  pub succeeded-Arrives :
      (repr : JsonValue → Str) (i : RequestId) (result : JsonValue)
      → Arrives method
          (response i result)
          m.phase
          (succeeded repr m method (as_dict result)).0.phase
  unfolding succeeded on_initialized observed str_eq
  succeeded-Arrives repr i result = elim known [
    | inl e ↦ rw (e, succeeded) (handshake_done i result m.phase)
    | inr (inl e) ↦ rw (e, succeeded) (on_established-Arrives m i result _ refl)
    | inr (inr (e, there)) ↦ rw (e, succeeded) (on_prompt_answered-Arrives m i result repr _ refl)
  ]

  pub request_failed-Arrives :
      (i : Option RequestId) (code : ℤ) (text : Str) (details : JsonValue)
      → Arrives method
          (response_error i code text details)
          m.phase
          (request_failed m method code text).0.phase
  unfolding request_failed recovery complain observed str_eq
  request_failed-Arrives i code text details = elim known [
    | inl e ↦ rw (e, request_failed, recovery) (handshake_failed i code text details m.phase)
    | inr (inl e) ↦ rw (e, request_failed, recovery) (session_failed i code text details m.phase)
    | inr (inr (e, there)) ↦
        rw (e, request_failed, recovery) (turn_failed i code text details m.phase)
  ]
