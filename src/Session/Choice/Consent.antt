-- ===== src/Session/Choice/Consent.antt =====
-- What a key at a permission prompt can choose.
use mathlib.Core.List.{Memᴰ}
use drei.Base.{
  ℕ, ◌≡◌, refl, ap, ◌∙◌, Str, codes, str_eq, str_eq_iff, Bool, Bool-cases, inl, inr, ◌⊎◌, Error,
  true, false, ◌||◌, List, [], ◌∷◌, Option, Option-cases, none, some, ◌==◌, if◌then◌else◌, Result,
  ok, raise, ◌>>=◌,
}
use drei.Acp.Json.{JsonValue, str, arr, obj, Fields, get, as_str}
use drei.Acp.Effects.{PermissionRequested, selected}
use drei.Session.Choice.{
  choice_options, kind_is, is_reject_kind, first_option, first_reject, selected_or_cancelled,
  selected_or_none, choice_key_to_decision,
}

-- The kinds of option that a key stands for.
abbrev pub kinds_of : ℕ → List Str
kinds_of char =
    if char == b'y'
    then codes "allow_once" ∷ []
    else if char == b's'
    then codes "allow_session" ∷ []
    else if char == b'a'
    then codes "allow_always" ∷ []
    else if char == b'n'
    then codes "reject_once" ∷ codes "reject_always" ∷ []
    else []

-- The option was offered, has the id, and is of one of the kinds.
pub record IsOffered (kinds : List Str) (option_id : Str) (options : List Fields) : Type 0 where
  pub option : Fields
  pub offered : Memᴰ option options
  pub has_id : get option (codes "optionId") ≡ str option_id
  pub kind : Str
  pub kind_in : Memᴰ kind kinds
  pub has_kind : get option (codes "kind") ≡ str kind

-- An option that was offered among the later ones.
later :
    (kinds : List Str) (o : Fields) (option_id : Str) (rest : List Fields)
    → IsOffered kinds option_id rest
    → IsOffered kinds option_id (o ∷ rest)
later kinds o option_id rest f = record {
  option = f.option;
  offered = Memᴰ.tail f.offered;
  has_id = f.has_id;
  kind = f.kind;
  kind_in = f.kind_in;
  has_kind = f.has_kind;
}

as_str-str : (v : JsonValue) (s : Str) → as_str v ≡ some s → v ≡ str s
unfolding as_str
as_str-str (str t) s h = let same : t ≡ s = cc in ap str same
as_str-str _ s h = cc

kind_is-str : (kind : Str) (v : JsonValue) → kind_is kind v ≡ true → v ≡ str kind
unfolding kind_is
kind_is-str kind (str s) h = ap str ((str_eq_iff s kind).0 h)
kind_is-str kind _ h = cc

first_option-IsOffered :
    (kind : Str) (options : List Fields) (option_id : Str)
    → first_option (kind_is kind) options ≡ some option_id
    → IsOffered (kind ∷ []) option_id options
unfolding first_option
first_option-IsOffered kind [] option_id h = cc
first_option-IsOffered kind (o ∷ rest) option_id h =
    elim (Bool-cases (kind_is kind (get o (codes "kind")))) [
      | inr other ↦
          later _ o option_id rest
            (first_option-IsOffered kind rest option_id (rw (other, first_option) at h))
      | inl right ↦ elim (Option-cases (as_str (get o (codes "optionId")))) [
        | inl nothing ↦
            later _ o option_id rest
              (first_option-IsOffered kind rest option_id (rw (right, nothing, first_option) at h))
        | inr (found, e) ↦
            let same : found ≡ option_id = cc (rw (right, e, first_option) at h) in
            record {
              option = o;
              offered = Memᴰ.head refl;
              has_id = as_str-str _ option_id (e ∙ ap some same);
              kind = kind;
              kind_in = Memᴰ.head refl;
              has_kind = kind_is-str kind _ right;
            }
      ]
    ]

abbrev reject_kinds : List Str
reject_kinds = codes "reject_once" ∷ codes "reject_always" ∷ []

second_holds : (a b : Bool) → ok (a || b) ≡ ok true → a ≡ false → b ≡ true
second_holds true b h q = cc
second_holds false b h q = cc

is_reject-str :
    (v : JsonValue)
    → is_reject_kind v ≡ ok true
    → (kind : Str) × Memᴰ kind reject_kinds × (v ≡ str kind)
unfolding is_reject_kind
is_reject-str (str s) h = elim (Bool-cases (str_eq s (codes "reject_once"))) [
  | inl once ↦ (s, Memᴰ.head ((str_eq_iff s _).0 once), refl)
  | inr other ↦
      let always : str_eq s (codes "reject_always") ≡ true = second_holds _ _ h other in
      (s, Memᴰ.tail (Memᴰ.head ((str_eq_iff s _).0 always)), refl)
]
is_reject-str (arr vs) h = cc
is_reject-str (obj fs) h = cc
is_reject-str _ h = cc

Result-cases : (r : Result Bool) → (r ≡ ok true) ⊎ ((r ≡ ok false) ⊎ ((e : Error) × (r ≡ raise e)))
Result-cases (ok true) = inl refl
Result-cases (ok false) = inr (inl refl)
Result-cases (raise e) = inr (inr (e, refl))

first_reject-IsOffered :
    (options : List Fields) (option_id : Str)
    → first_reject options ≡ ok (some option_id)
    → IsOffered reject_kinds option_id options
unfolding first_reject
first_reject-IsOffered [] option_id h = cc
first_reject-IsOffered (o ∷ rest) option_id h =
    elim (Result-cases (is_reject_kind (get o (codes "kind")))) [
      | inr (inr (e, raised)) ↦ cc (rw (raised, first_reject) at h)
      | inr (inl other) ↦
          later _ o option_id rest
            (first_reject-IsOffered rest option_id (rw (other, first_reject) at h))
      | inl right ↦ elim (Option-cases (as_str (get o (codes "optionId")))) [
        | inl nothing ↦
            later _ o option_id rest
              (first_reject-IsOffered rest option_id (rw (right, nothing, first_reject) at h))
        | inr (found, e) ↦
            let same : found ≡ option_id = cc (rw (right, e, first_reject) at h) in
            let (kind, kind_in, has_kind) = is_reject-str _ right in
            record {
              option = o;
              offered = Memᴰ.head refl;
              has_id = as_str-str _ option_id (e ∙ ap some same);
              kind = kind;
              kind_in = kind_in;
              has_kind = has_kind;
            }
      ]
    ]

granted :
    (found : Option Str) (option_id : Str)
    → ok (selected_or_none found) ≡ ok (some (selected option_id))
    → found ≡ some option_id
unfolding selected_or_none
granted none option_id h = cc
granted (some found) option_id h = cc

rejected :
    (r : Result (Option Str)) (option_id : Str)
    → (r >>= λ o. ok (some (selected_or_cancelled o))) ≡ ok (some (selected option_id))
    → r ≡ ok (some option_id)
unfolding selected_or_cancelled
rejected (raise e) option_id h = cc
rejected (ok none) option_id h = cc
rejected (ok (some found)) option_id h = cc

-- An option that a key at a permission prompt selects is one that the request offers, under that
-- id, and its kind is one that the key stands for: y, s and a grant once, for the session and for
-- always, n rejects, and no other key selects.
pub choice_key-IsOffered :
    (request : PermissionRequested) (char : ℕ) (option_id : Str)
    → choice_key_to_decision request char ≡ ok (some (selected option_id))
    → IsOffered (kinds_of char) option_id (choice_options request)
unfolding choice_key_to_decision
choice_key-IsOffered request char option_id h = elim (Bool-cases (char == b'y')) [
  | inl y ↦ rw y (first_option-IsOffered _ _ option_id (granted _ option_id (rw y at h)))
  | inr not_y ↦ elim (Bool-cases (char == b's')) [
    | inl session ↦
        rw (not_y, session)
          (first_option-IsOffered _ _ option_id (granted _ option_id (rw (not_y, session) at h)))
    | inr not_s ↦ elim (Bool-cases (char == b'a')) [
      | inl always ↦
          rw (not_y, not_s, always)
            (first_option-IsOffered _ _ option_id
              (granted _ option_id (rw (not_y, not_s, always) at h)))
      | inr not_a ↦ elim (Bool-cases (char == b'n')) [
        | inl deny ↦
            rw (not_y, not_s, not_a, deny)
              (first_reject-IsOffered _ option_id
                (rejected _ option_id (rw (not_y, not_s, not_a, deny) at h)))
        | inr other ↦ cc (rw (not_y, not_s, not_a, other) at h)
      ]
    ]
  ]
]
