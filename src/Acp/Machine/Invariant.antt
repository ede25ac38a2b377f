-- ===== src/Acp/Machine/Invariant.antt =====
-- The invariant of `AcpMachine`.
use drei.Base.{
  arith, ℕ, ◌<◌, ◌+◌, ◌≤◌, pos, Str, codes, ◌≡◌, refl, ◌⊎◌, inl, inr, Bool, true, false, List, [],
  ◌∷◌, Option, none, some, not, ◌&&◌, subst, negsuc,
}
use drei.Acp.Json.{JsonValue}
use drei.Acp.Effects.{RequestId, number, name}
use drei.Acp.Ids.{
  IdDict, id_eq_iff, id_contains, id_lookup, id_insert, id_remove, id_contains-insert,
  id_contains-remove, id_insert-cases, id_remove-kept,
}
use drei.Acp.Machine.{
  AcpMachine, Phase, session_active, prompt_in_flight, initialize, session_new, session_prompt,
  new_machine, send, next_id,
}
use drei.Acp.Machine.Answers.{forget}
use drei.Acp.Machine.Inbound.{track}

unfoldable pub is_some {ℓ} : {A : Type ℓ} → Option A → Bool
is_some none = false
is_some (some a) = true

-- A session is open in this phase.
unfoldable pub in_session : Phase → Bool
in_session session_active = true
in_session prompt_in_flight = true
in_session _ = false

-- An id that the client has given out before the id `n`.
unfoldable pub IsUsed : ℕ → RequestId → Type 0
IsUsed n (number (pos k)) = k < n
IsUsed n _ = 1 ≤ 0

-- What a request in flight can be: one of the three that the client sends, and a prompt only when
-- there is a session.
abbrev pub IsSent : Option Str → Str → Type 0
IsSent session_id method =
    (method ≡ initialize)
    ⊎ ((method ≡ session_new) ⊎ ((method ≡ session_prompt) × (is_some session_id ≡ true)))

-- No id stands twice.
unfoldable pub is_distinct {ℓ} : {V : Type ℓ} → IdDict V → Bool
unfolding id_contains
is_distinct [] = true
is_distinct ((i, v) ∷ d) = not (id_contains i d) && is_distinct d

pub record IsValid (m : AcpMachine) : Type 0 where
  pub used :
      (i : RequestId) (method : Str)
      → id_lookup i m.in_flight_outgoing ≡ some method
      → IsUsed m.next_request_id i
  pub sent :
      (i : RequestId) (method : Str)
      → id_lookup i m.in_flight_outgoing ≡ some method
      → IsSent m.session_id method
  pub paired : (i : RequestId) → id_contains i m.request_params ≡ id_contains i m.in_flight_incoming
  pub distinct : is_distinct m.in_flight_incoming ≡ true
  pub established : in_session m.phase ≡ true → is_some m.session_id ≡ true

module _ {ℓ} {V : Type ℓ} where
  pub is_distinct-insert :
      (i : RequestId) (v : V) (d : IdDict V)
      → is_distinct d ≡ true
      → is_distinct (id_insert i v d) ≡ true
  unfolding is_distinct id_insert id_contains
  is_distinct-insert i v [] h = refl
  is_distinct-insert i v ((j, w) ∷ d) h =
      ground
        (arith, is_distinct-insert i v d, id_contains-insert i j v d, id_eq_iff j i, id_eq_iff i j)

  pub is_distinct-remove :
      (i : RequestId) (d : IdDict V) → is_distinct d ≡ true → is_distinct (id_remove i d) ≡ true
  unfolding is_distinct id_remove id_contains
  is_distinct-remove i [] h = refl
  is_distinct-remove i ((j, w) ∷ d) h =
      ground (arith, is_distinct-remove i d, id_contains-remove i j d, id_eq_iff j i, id_eq_iff i j)

pub new_machine-IsValid : IsValid new_machine
unfolding id_lookup id_contains is_distinct in_session
new_machine-IsValid = record {
  used = λ i method h. ground arith;
  sent = λ i method h. ground arith;
  paired = λ i. refl;
  distinct = refl;
  established = λ h. ground arith;
}

IsUsed-next : (n : ℕ) (i : RequestId) → IsUsed n i → IsUsed (n + 1) i
unfolding IsUsed
IsUsed-next n (number (pos k)) h = omega arith
IsUsed-next n (number (negsuc k)) h = h
IsUsed-next n (name s) h = h

module _ (m : AcpMachine) (v : IsValid m) where
  -- A request that is sent moves the machine to a phase that has a session only when it has one.
  pub send-IsValid :
      (phase : Phase) (method : Str) (params : JsonValue)
      → IsSent m.session_id method
      → (in_session phase ≡ true → is_some m.session_id ≡ true)
      → IsValid (send m phase method params).0
  unfolding send next_id IsUsed
  send-IsValid phase method params s p = record {
    used = λ i method' h. elim (id_insert-cases _ _ _ _ _ h) [
      | inl (e, _) ↦ subst (IsUsed (m.next_request_id + 1)) e (omega arith)
      | inr g ↦ IsUsed-next m.next_request_id i (v.used i method' g)
    ];
    sent = λ i method' h. elim (id_insert-cases _ _ _ _ _ h) [
      | inl (_, e) ↦ subst (IsSent m.session_id) e s
      | inr g ↦ v.sent i method' g
    ];
    paired = v.paired;
    distinct = v.distinct;
    established = p;
  }

  pub responded-IsValid :
      (i : RequestId) → IsValid (record m { in_flight_outgoing = id_remove i m.in_flight_outgoing })
  responded-IsValid i = record {
    used = λ j method h. v.used j method (id_remove-kept i j method _ h);
    sent = λ j method h. v.sent j method (id_remove-kept i j method _ h);
    paired = v.paired;
    distinct = v.distinct;
    established = v.established;
  }

  -- A phase that has no session, or a session that is there.
  pub moved-IsValid :
      (phase : Phase) (capabilities : JsonValue)
      → (in_session phase ≡ true → is_some m.session_id ≡ true)
      → IsValid (record m { phase = phase; agent_capabilities = capabilities })
  moved-IsValid phase capabilities p = record {
    used = v.used;
    sent = v.sent;
    paired = v.paired;
    distinct = v.distinct;
    established = p;
  }

  pub opened-IsValid :
      (phase : Phase) (session_id : Str)
      → IsValid (record m { phase = phase; session_id = some session_id })
  unfolding is_some
  opened-IsValid phase session_id = record {
    used = v.used;
    sent = λ i method h. elim (v.sent i method h) [
      | inl e ↦ inl e
      | inr (inl e) ↦ inr (inl e)
      | inr (inr (e, _)) ↦ inr (inr (e, refl))
    ];
    paired = v.paired;
    distinct = v.distinct;
    established = λ _. refl;
  }

  pub track-IsValid : (i : RequestId) (params : JsonValue) → IsValid (track i params m)
  unfolding track
  track-IsValid i params =
      let method = codes "session/request_permission" in
      record {
        used = v.used;
        sent = v.sent;
        paired = λ j. ground (
          arith,
          v.paired j,
          id_contains-insert i j params m.request_params,
          id_contains-insert i j method m.in_flight_incoming,
        );
        distinct = is_distinct-insert i method m.in_flight_incoming v.distinct;
        established = v.established;
      }

  pub forget-IsValid : (i : RequestId) → IsValid (forget i m)
  unfolding forget
  forget-IsValid i = record {
    used = v.used;
    sent = v.sent;
    paired = λ j. ground (
      arith,
      v.paired j,
      id_contains-remove i j m.request_params,
      id_contains-remove i j m.in_flight_incoming,
    );
    distinct = is_distinct-remove i m.in_flight_incoming v.distinct;
    established = v.established;
  }

  pub approvals-IsValid : (approvals : List Str) → IsValid (record m { auto_approvals = approvals })
  approvals-IsValid approvals = record {
    used = v.used;
    sent = v.sent;
    paired = v.paired;
    distinct = v.distinct;
    established = v.established;
  }
