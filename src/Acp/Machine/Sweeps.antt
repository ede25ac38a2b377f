-- ===== src/Acp/Machine/Sweeps.antt =====
-- What `cancel` sends, and what it leaves behind.
use drei.Base.{
  arith, Str, ◌≡◌, refl, sym, ◌∙◌, Bool, true, false, not, ◌&&◌, List, [], ◌∷◌, Option,
  if◌then◌else◌, ok,
}
use drei.Acp.Json.{JsonValue}
use drei.Acp.Effects.{RequestId, cancelled, SessionEffect, permission_resolved}
use drei.Acp.Ids.{IdDict, id_eq, id_eq_iff, id_contains, id_remove, id_contains-remove}
use drei.Acp.Messages.{Message, response}
use drei.Acp.Machine.{AcpMachine, phase_eq, prompt_in_flight}
use drei.Acp.Machine.Answers.{
  outcome_json, forget, record_decision, answer_pending, answered_turn, resolve_permission, sweep,
  sweep_all, cancel, keys, goodbye,
}
use drei.Acp.Machine.Invariant.{IsValid, is_distinct}

-- The response `cancelled` to each request, and its effect.
unfoldable pub cancelled_responses : List RequestId → List Message
unfolding outcome_json
cancelled_responses [] = []
cancelled_responses (i ∷ is) = response i (outcome_json cancelled) ∷ cancelled_responses is

unfoldable pub cancelled_effects : List RequestId → List SessionEffect
cancelled_effects [] = []
cancelled_effects (i ∷ is) = permission_resolved i cancelled false ∷ cancelled_effects is

id_in : RequestId → List RequestId → Bool
id_in i [] = false
id_in i (j ∷ js) = if id_eq j i then true else id_in i js

distinct_ids : List RequestId → Bool
unfolding id_in
distinct_ids [] = true
distinct_ids (i ∷ is) = not (id_in i is) && distinct_ids is

forget_all : List RequestId → AcpMachine → AcpMachine
unfolding forget
forget_all [] m = m
forget_all (i ∷ is) m = forget_all is (forget i m)

module _ {ℓ} {V : Type ℓ} where
  remove_all : List RequestId → IdDict V → IdDict V
  remove_all [] d = d
  remove_all (i ∷ is) d = remove_all is (id_remove i d)

  contains-remove_all :
      (is : List RequestId) (j : RequestId) (d : IdDict V)
      → id_contains j (remove_all is d) ≡ (if id_in j is then false else id_contains j d)
  unfolding remove_all id_in
  contains-remove_all [] j d = refl
  contains-remove_all (i ∷ is) j d =
      ground (arith, contains-remove_all is j (id_remove i d), id_contains-remove i j d)

  empty_lem : (d : IdDict V) → ((j : RequestId) → id_contains j d ≡ false) → d ≡ []
  unfolding id_contains
  empty_lem [] h = refl
  empty_lem ((i, v) ∷ d) h = ground (arith, h i, id_eq_iff i i)

keys-contains : (j : RequestId) (d : IdDict Str) → id_in j (keys d) ≡ id_contains j d
unfolding id_in keys id_contains
keys-contains j [] = refl
keys-contains j ((i, v) ∷ d) = ground (arith, keys-contains j d)

keys-distinct : (d : IdDict Str) → is_distinct d ≡ true → distinct_ids (keys d) ≡ true
unfolding is_distinct distinct_ids keys
keys-distinct [] h = refl
keys-distinct ((i, v) ∷ d) h = ground (arith, keys-distinct d, keys-contains i d)

forget_all-rest :
    (is : List RequestId) (m : AcpMachine)
    → forget_all is m ≡ record m {
      in_flight_incoming = remove_all is m.in_flight_incoming;
      request_params = remove_all is m.request_params;
    }
unfolding forget_all remove_all forget
forget_all-rest [] m = refl
forget_all-rest (i ∷ is) m = forget_all-rest is (forget i m)

remove_all-keys :
    {V : Type 0} (d : IdDict Str) (e : IdDict V)
    → ((j : RequestId) → id_contains j e ≡ id_contains j d)
    → remove_all (keys d) e ≡ []
remove_all-keys d e h =
    empty_lem (remove_all (keys d) e)
      (λ j. ground (arith, contains-remove_all (keys d) j e, keys-contains j d, h j))

module _ (canonical : JsonValue → Option Str) where
  sweep-forget_all :
      (is : List RequestId) (m : AcpMachine)
      → distinct_ids is ≡ true
      → ((j : RequestId) → id_in j is ≡ true → id_contains j m.in_flight_incoming ≡ true)
      → sweep canonical m is ≡ ok (forget_all is m, cancelled_responses is, cancelled_effects is)
  unfolding sweep forget_all cancelled_responses cancelled_effects resolve_permission distinct_ids
      id_in answer_pending record_decision answered_turn forget
  sweep-forget_all [] m d h = refl
  sweep-forget_all (i ∷ is) m d h = rw (
    h i (ground (arith, id_eq_iff i i)),
    sweep-forget_all is (forget i m) (ground arith)
        (λ j q. ground (arith, h j, id_contains-remove i j m.in_flight_incoming, id_eq_iff i j)),
  )

  -- A turn in flight that is cancelled, in a valid machine: `cancel` returns, tells the agent, and
  -- answers every request that waits, each once and in order, with the outcome `cancelled`; no
  -- request is left, and nothing else of the machine changes.
  pub cancel-answers :
      (m : AcpMachine)
      → IsValid m
      → phase_eq m.phase prompt_in_flight ≡ true
      → cancel canonical m
        ≡ ok (
          record m { in_flight_incoming = []; request_params = [] },
          goodbye m ∷ cancelled_responses (keys m.in_flight_incoming),
          cancelled_effects (keys m.in_flight_incoming),
        )
  unfolding cancel sweep_all
  cancel-answers m v p =
      let ids = keys m.in_flight_incoming in
      rw (
        p,
        sweep-forget_all ids m (keys-distinct m.in_flight_incoming v.distinct)
            (λ j q. sym (keys-contains j m.in_flight_incoming) ∙ q),
        forget_all-rest ids m,
        remove_all-keys m.in_flight_incoming m.in_flight_incoming (λ j. refl),
        remove_all-keys m.in_flight_incoming m.request_params v.paired,
      )
