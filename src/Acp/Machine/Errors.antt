-- ===== src/Acp/Machine/Errors.antt =====
-- How an inbound message can fail.
use drei.Base.{
  arith, Str, codes, str_eq, is_empty, ◌≡◌, refl, ◌∙◌, Bool, true, false, not, ◌||◌, List, [], ◌∷◌,
  Option, none, some, if◌then◌else◌, Result, ok, raise, type_error, ◌>>=◌, inl, inr, ◌⊎◌, if-holds,
}
use drei.Acp.Json.{JsonValue, null, bool, int, float, str, arr, obj, Fields, get, as_dict, as_str}
use drei.Acp.Effects.{RequestId, PermissionDecision, selected, cancelled}
use drei.Acp.Ids.{id_eq_iff, id_contains, id_contains-insert, id_lookup}
use drei.Acp.Messages.{Message, request, notification, response, response_error, is_text}
use drei.Acp.Machine.{AcpMachine, phase_eq, session_active, prompt_in_flight}
use drei.Acp.Machine.Options.{
  kind_among, allow_kinds, cacheable_kinds, chosen_kind, id_of_kind, found_or, or_else,
  select_auto_option, permission_options, text_in, permission_identity,
}
use drei.Acp.Machine.Answers.{
  forget, or_null, record_decision, answer_pending, answered_turn, resolve_permission, remember,
}
use drei.Acp.Machine.Inbound.{
  turn_update_kinds, gated_update, fold_update, session_update, handle_notification, track,
  answer_with, approved, request_permission, handle_request, handle,
}

-- It returns, or raises TypeError.
abbrev pub Settles {ℓ} : {A : Type ℓ} → Result A → Type ℓ
Settles {A} r = ((a : A) × (r ≡ ok a)) ⊎ (r ≡ raise type_error)

module _ {ℓ} {A : Type ℓ} where
  Settles-bind {κ} :
      {B : Type κ} (r : Result B) (f : B → Result A)
      → Settles r
      → ((b : B) → Settles (f b))
      → Settles (r >>= f)
  Settles-bind r f (inl (b, e)) k = rw e (k b)
  Settles-bind r f (inr e) k = rw e (inr refl)

  Settles-if :
      (b : Bool) (x y : Result A)
      → (b ≡ true → Settles x)
      → (b ≡ false → Settles y)
      → Settles (if b then x else y)
  Settles-if b x y f g = if-holds (λ (r : Result A). Settles r) b x y f g

kind_among-Settles : (kind : JsonValue) (kinds : List Str) → Settles (kind_among kind kinds)
unfolding kind_among
kind_among-Settles null kinds = inl (_, refl)
kind_among-Settles (bool b) kinds = inl (_, refl)
kind_among-Settles (int n) kinds = inl (_, refl)
kind_among-Settles (float b s) kinds = inl (_, refl)
kind_among-Settles (str s) kinds = inl (_, refl)
kind_among-Settles (arr vs) kinds = inr refl
kind_among-Settles (obj fs) kinds = inr refl

found_or-Settles :
    (found : Option Str) (other : Result (Option Str))
    → Settles other
    → Settles (found_or found other)
unfolding found_or
found_or-Settles none other h = h
found_or-Settles (some option_id) other h = inl (_, refl)

or_else-Settles :
    (found : Option Str) (other : Result (Option Str))
    → Settles other
    → Settles (or_else found other)
unfolding or_else
or_else-Settles none other h = h
or_else-Settles (some s) other h =
    Settles-if (is_empty s) other (ok (some s)) (λ _. h) (λ _. inl (_, refl))

id_of_kind-Settles : (kinds : List Str) (options : List Fields) → Settles (id_of_kind kinds options)
unfolding id_of_kind
id_of_kind-Settles kinds [] = inl (_, refl)
id_of_kind-Settles kinds (option ∷ rest) =
    let other = id_of_kind kinds rest in
    let id = as_str (get option (codes "optionId")) in
    Settles-bind (kind_among (get option (codes "kind")) kinds)
      (λ found. if found then found_or id other else other)
      (kind_among-Settles (get option (codes "kind")) kinds)
      (λ found.
        Settles-if found (found_or id other) other
          (λ _. found_or-Settles id other (id_of_kind-Settles kinds rest))
          (λ _. id_of_kind-Settles kinds rest))

select_auto_option-Settles : (options : List Fields) → Settles (select_auto_option options)
unfolding select_auto_option
select_auto_option-Settles options =
    let once = id_of_kind (codes "allow_once" ∷ []) options in
    Settles-bind (id_of_kind cacheable_kinds options) (λ broad. or_else broad once)
      (id_of_kind-Settles cacheable_kinds options)
      (λ broad. or_else-Settles broad once (id_of_kind-Settles (codes "allow_once" ∷ []) options))

module _ (canonical : JsonValue → Option Str) where
  record_decision-Settles :
      (decision : PermissionDecision) (params : JsonValue) (m : AcpMachine)
      → Settles (record_decision canonical decision params m)
  unfolding record_decision
  record_decision-Settles cancelled params m = inl (_, refl)
  record_decision-Settles (selected option_id) params m =
      let kind = chosen_kind option_id params in
      let finish : Bool → Bool → Result (AcpMachine × Bool) =
        λ granted c. ok (if c then remember canonical params m else m, granted) in
      Settles-bind (kind_among kind allow_kinds)
        (λ granted. kind_among kind cacheable_kinds >>= λ c. finish granted c)
        (kind_among-Settles kind allow_kinds)
        (λ granted.
          Settles-bind (kind_among kind cacheable_kinds) (finish granted)
            (kind_among-Settles kind cacheable_kinds) (λ c. inl (_, refl)))

  -- A request that waits is resolved.
  resolve_permission-Settles :
      (m : AcpMachine) (i : RequestId) (decision : PermissionDecision)
      → id_contains i m.in_flight_incoming ≡ true
      → Settles (resolve_permission canonical m i decision)
  unfolding resolve_permission answer_pending
  resolve_permission-Settles m i decision h = rw h (
      Settles-bind
        (record_decision canonical decision (or_null (id_lookup i m.request_params)) (forget i m))
        (λ outcome. ok (answered_turn i decision outcome))
        (record_decision-Settles decision _ (forget i m)) (λ outcome. inl (_, refl)))

  module _ (m : AcpMachine) where
    answer_with-Settles :
        (i : RequestId) (params : JsonValue) (choice : Option Str)
        → Settles (answer_with canonical m i params choice)
    unfolding answer_with track
    answer_with-Settles i params none = inl (_, refl)
    answer_with-Settles i params (some option_id) =
        resolve_permission-Settles (track i params m) i (selected option_id) (
          id_contains-insert i i (codes "session/request_permission") m.in_flight_incoming
          ∙ ground (arith, id_eq_iff i i))

    request_permission-Settles :
        (repr : JsonValue → Str) (i : RequestId) (params : JsonValue)
        → Settles (request_permission repr canonical m i params)
    unfolding request_permission approved
    request_permission-Settles repr i params =
        Settles-if (not (phase_eq m.phase session_active || phase_eq m.phase prompt_in_flight)) _ _
          (λ _. inl (_, refl))
          (λ _.
            Settles-if (id_contains i m.in_flight_incoming) _ _ (λ _. inl (_, refl))
              (λ _.
                Settles-if (text_in (permission_identity canonical params) m.auto_approvals) _ _
                  (λ _.
                    Settles-bind (select_auto_option (permission_options params))
                      (λ choice. answer_with canonical m i params choice)
                      (select_auto_option-Settles (permission_options params))
                      (answer_with-Settles i params))
                  (λ _. inl (_, refl))))

    fold_update-Settles : (repr : JsonValue → Str) (v : JsonValue) → Settles (fold_update repr m v)
    unfolding fold_update
    fold_update-Settles repr (obj update) =
        let kind = get update (codes "sessionUpdate") in
        Settles-bind (kind_among kind turn_update_kinds)
          (λ b. ok (gated_update repr m update kind b)) (kind_among-Settles kind turn_update_kinds)
          (λ b. inl (_, refl))
    fold_update-Settles repr v = inl (_, refl)

    session_update-Settles :
        (repr : JsonValue → Str) (session_id : Option Str) (params : Fields)
        → Settles (session_update repr m session_id params)
    unfolding session_update
    session_update-Settles repr none params = inl (_, refl)
    session_update-Settles repr (some session_id) params =
        Settles-if (is_text session_id (get params (codes "sessionId"))) _ _
          (λ _. fold_update-Settles repr (get params (codes "update"))) (λ _. inl (_, refl))

    -- Whatever message the agent sends, and in whatever phase, the client's fold returns or raises
    -- a TypeError; it never raises an `AcpStateError`.
    pub handle-Settles :
        (repr : JsonValue → Str) (message : Message) → Settles (handle repr canonical m message)
    unfolding handle handle_request handle_notification
    handle-Settles repr (request i method params) =
        Settles-if (str_eq method (codes "session/request_permission")) _ _
          (λ _. request_permission-Settles repr i params) (λ _. inl (_, refl))
    handle-Settles repr (notification method params) =
        Settles-if (str_eq method (codes "session/update")) _ _
          (λ _. session_update-Settles repr m.session_id (as_dict params)) (λ _. inl (_, refl))
    handle-Settles repr (response i result) = inl (_, refl)
    handle-Settles repr (response_error i code text _) = inl (_, refl)
