-- ===== src/Acp/Machine/Resolved.antt =====
-- What a `resolve_permission` that returns has done.
use drei.Base.{
  Str, ◌≡◌, refl, ap, sym, ◌⊎◌, Bool, true, false, [], ◌∷◌, ◌++◌, Option, if◌then◌else◌, Result, ok,
  state_error, ◌>>=◌, bind-ok, guarded-ok, ok-injective, subst, Bool-cases, inl, inr,
}
use drei.Acp.Json.{JsonValue}
use drei.Acp.Effects.{RequestId, PermissionDecision, selected, cancelled, permission_resolved}
use drei.Acp.Ids.{id_contains, id_lookup}
use drei.Acp.Messages.{response}
use drei.Acp.Machine.{AcpMachine, Turn}
use drei.Acp.Machine.Options.{
  text_in, allow_kinds, cacheable_kinds, kind_among, permission_identity, chosen_kind,
}
use drei.Acp.Machine.Answers.{
  outcome_json, forget, or_null, remember, record_decision, resolve_permission, answer_pending,
  answered_turn,
}

module _ (canonical : JsonValue → Option Str) where
  -- The machine after a decision on the request with these params: one approval may be new.
  pub record Resolved (m : AcpMachine) (i : RequestId) (decision : PermissionDecision) (t : Turn)
      : Type 0 where
    pub granted : Bool
    pub pending : id_contains i m.in_flight_incoming ≡ true
    pub decided :
        record_decision canonical decision (or_null (id_lookup i m.request_params)) (forget i m)
        ≡ ok (t.0, granted)
    pub sent : t.1 ≡ response i (outcome_json decision) ∷ []
    pub seen : t.2 ≡ permission_resolved i decision granted ∷ []

  pub resolve_permission-Resolved :
      (m : AcpMachine) (i : RequestId) (decision : PermissionDecision) (t : Turn)
      → resolve_permission canonical m i decision ≡ ok t
      → Resolved m i decision t
  unfolding resolve_permission answer_pending answered_turn
  resolve_permission-Resolved m i decision t h =
      let (p, g) =
        guarded-ok (id_contains i m.in_flight_incoming) (answer_pending canonical m i decision)
          state_error h in
      let decide =
        record_decision canonical decision (or_null (id_lookup i m.request_params)) (forget i m) in
      let ((after, granted), e, k) =
        bind-ok decide (λ outcome. ok (answered_turn i decision outcome)) g in
      subst (Resolved m i decision) (ok-injective k)
        (record { granted = granted; pending = p; decided = e; sent = refl; seen = refl })

  -- A decision adds the identity of the request to the approvals, or changes nothing.
  unfoldable pub Growth : AcpMachine → PermissionDecision → JsonValue → AcpMachine → Type 0
  unfolding chosen_kind permission_identity kind_among
  Growth m decision params after =
      (after ≡ m)
      ⊎ ((option_id : Str) × (decision ≡ selected option_id)
          × (kind_among (chosen_kind option_id params) cacheable_kinds ≡ ok true)
          × (text_in (permission_identity canonical params) m.auto_approvals ≡ false)
          × (after ≡ record m {
            auto_approvals = m.auto_approvals ++ permission_identity canonical params ∷ [];
          }))

  remember-Growth :
      (m : AcpMachine) (option_id : Str) (params : JsonValue)
      → kind_among (chosen_kind option_id params) cacheable_kinds ≡ ok true
      → Growth m (selected option_id) params (remember canonical params m)
  unfolding Growth remember
  remember-Growth m option_id params k =
      elim (Bool-cases (text_in (permission_identity canonical params) m.auto_approvals)) [
        | inl e ↦ inl (rw e)
        | inr e ↦ inr (option_id, refl, k, e, rw e)
      ]

  recorded-Growth :
      (c granted : Bool) (m : AcpMachine) (option_id : Str) (params : JsonValue)
      (out : AcpMachine × Bool)
      → kind_among (chosen_kind option_id params) cacheable_kinds ≡ ok c
      → ok (if c then remember canonical params m else m, granted) ≡ ok out
      → Growth m (selected option_id) params out.0
  unfolding Growth
  recorded-Growth true granted m option_id params out k h =
      subst (λ (r : AcpMachine × Bool). Growth m (selected option_id) params r.0) (ok-injective h)
        (remember-Growth m option_id params k)
  recorded-Growth false granted m option_id params out k h =
      inl (sym (ap (λ r. r.0) (ok-injective h)))

  pub record_decision-Growth :
      (decision : PermissionDecision) (params : JsonValue) (m : AcpMachine)
      (out : AcpMachine × Bool)
      → record_decision canonical decision params m ≡ ok out
      → Growth m decision params out.0
  unfolding record_decision Growth
  record_decision-Growth cancelled params m out h = inl (sym (ap (λ r. r.0) (ok-injective h)))
  record_decision-Growth (selected option_id) params m out h =
      let kind = chosen_kind option_id params in
      let finish : Bool → Bool → Result (AcpMachine × Bool) =
        λ granted c. ok (if c then remember canonical params m else m, granted) in
      let (granted, _, g) =
        bind-ok (kind_among kind allow_kinds)
          (λ granted. kind_among kind cacheable_kinds >>= λ c. finish granted c) h in
      let (c, e, k) = bind-ok (kind_among kind cacheable_kinds) (finish granted) g in
      recorded-Growth c granted m option_id params out e k
