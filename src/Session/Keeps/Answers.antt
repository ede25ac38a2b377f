-- ===== src/Session/Keeps/Answers.antt =====
-- Answering a permission prompt: which keys can raise.
use drei.Base.{
  ℕ, refl, Str, codes, Bool, true, false, List, [], ◌∷◌, Option, none, some, ◌==◌, if◌then◌else◌,
  All, Result, ok, Returns, Returns-bind, Returns-if,
}
use drei.Acp.Json.{JsonValue, str, arr, obj, Fields, get, as_str}
use drei.Acp.Effects.{PermissionRequested}
use drei.Session.Choice.{choice_options, is_reject_kind, first_reject, choice_key_to_decision}
use drei.Session.Minibuffer.{Mode, choosing}

-- A kind that Python can look for in a set.
abbrev pub IsHashable : JsonValue → Type 0
IsHashable (arr vs) = ⊥
IsHashable (obj fs) = ⊥
IsHashable _ = Unit

-- The kinds of the options of a standing permission prompt can be looked up.
abbrev pub Answerable : Mode → Type 0
Answerable (choosing request) =
    All (λ (o : Fields). IsHashable (get o (codes "kind"))) (choice_options request)
Answerable _ = Unit

is_reject_kind-Returns : (v : JsonValue) → IsHashable v → Returns (is_reject_kind v) (λ b. Unit {0})
unfolding is_reject_kind
is_reject_kind-Returns (str s) h = (_, refl, tt)
is_reject_kind-Returns (arr vs) h = absurd h
is_reject_kind-Returns (obj fs) h = absurd h
is_reject_kind-Returns _ h = (_, refl, tt)

-- One step of the search, from the rest of it.
reject_step :
    (rejects : Bool) (id : Option Str) (other : Result (Option Str))
    → Returns other (λ r. Unit {0})
    → Returns
        (if rejects
          then (elim id [ none ↦ other | some option_id ↦ ok (some option_id) ])
          else other)
        (λ r. Unit {0})
reject_step true none other h = h
reject_step true (some i) other h = (_, refl, tt)
reject_step false id other h = h

first_reject-Returns :
    (options : List Fields)
    → All (λ (o : Fields). IsHashable (get o (codes "kind"))) options
    → Returns (first_reject options) (λ r. Unit {0})
unfolding first_reject
first_reject-Returns [] h = (_, refl, tt)
first_reject-Returns (o ∷ rest) h =
    Returns-bind (is_reject_kind (get o (codes "kind"))) _ (is_reject_kind-Returns _ h.0)
      (λ rejects u.
        reject_step rejects (as_str (get o (codes "optionId"))) (first_reject rest)
          (first_reject-Returns rest h.1))

pub choice_key_to_decision-Returns :
    (request : PermissionRequested) (char : ℕ)
    → All (λ (o : Fields). IsHashable (get o (codes "kind"))) (choice_options request)
    → Returns (choice_key_to_decision request char) (λ d. Unit {0})
unfolding choice_key_to_decision
choice_key_to_decision-Returns request char h =
    Returns-if (char == b'y') _ _ (λ a. (_, refl, tt))
      (λ a.
        Returns-if (char == b's') _ _ (λ b. (_, refl, tt))
          (λ b.
            Returns-if (char == b'a') _ _ (λ c. (_, refl, tt))
              (λ c.
                Returns-if (char == b'n') _ _
                  (λ d.
                    Returns-bind (first_reject (choice_options request)) _
                      (first_reject-Returns _ h) (λ r u. (_, refl, tt)))
                  (λ d. (_, refl, tt)))))
