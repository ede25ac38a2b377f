-- ===== src/Acp/Ids.antt =====
-- Request ids (`RequestId` of acp/messages.py), and the dicts that acp/machine.py keys by them.
use drei.Base.{
  ℤ, pos, negsuc, str_eq, str_eq_iff, ◌≡◌, ◌↔◌, ◌⊎◌, refl, Bool, true, false, List, [], ◌∷◌, Option,
  none, some, ◌==◌, if◌then◌else◌, arith,
}
use drei.Acp.Effects.{RequestId, number, name}

unfoldable pub int_eq : ℤ → ℤ → Bool
int_eq (pos a) (pos b) = a == b
int_eq (negsuc a) (negsuc b) = a == b
int_eq _ _ = false

-- An int and a str are never equal.
unfoldable pub id_eq : RequestId → RequestId → Bool
unfolding int_eq
id_eq (number a) (number b) = int_eq a b
id_eq (name s) (name t) = str_eq s t
id_eq _ _ = false

int_eq_iff : (a b : ℤ) → (int_eq a b ≡ true) ↔ (a ≡ b)
unfolding int_eq
int_eq_iff (pos a) (pos b) = ground arith
int_eq_iff (negsuc a) (negsuc b) = ground arith
int_eq_iff (pos a) (negsuc b) = ground arith
int_eq_iff (negsuc a) (pos b) = ground arith

pub id_eq_iff : (i j : RequestId) → (id_eq i j ≡ true) ↔ (i ≡ j)
unfolding id_eq
id_eq_iff (number a) (number b) = ground (arith, int_eq_iff a b)
id_eq_iff (name s) (name t) = ground (arith, str_eq_iff s t)
id_eq_iff (number a) (name t) = ground arith
id_eq_iff (name s) (number b) = ground arith

abbrev pub IdDict {ℓ} : Type ℓ → Type ℓ
IdDict V = List (RequestId × V)

module _ {ℓ} {V : Type ℓ} where
  -- d.get(i)
  unfoldable pub id_lookup : RequestId → IdDict V → Option V
  id_lookup i [] = none
  id_lookup i ((j, v) ∷ d) = if id_eq j i then some v else id_lookup i d

  -- i in d
  unfoldable pub id_contains : RequestId → IdDict V → Bool
  id_contains i [] = false
  id_contains i ((j, v) ∷ d) = if id_eq j i then true else id_contains i d

  -- {**d, i: v}
  unfoldable pub id_insert : RequestId → V → IdDict V → IdDict V
  id_insert i v [] = (i, v) ∷ []
  id_insert i v ((j, w) ∷ d) = if id_eq j i then (j, v) ∷ d else (j, w) ∷ id_insert i v d

  -- {k: v for k, v in d.items() if k != i}
  unfoldable pub id_remove : RequestId → IdDict V → IdDict V
  id_remove i [] = []
  id_remove i ((j, v) ∷ d) = let rest = id_remove i d in if id_eq j i then rest else (j, v) ∷ rest

  pub id_lookup-remove :
      (i j : RequestId) (d : IdDict V)
      → id_lookup j (id_remove i d) ≡ (if id_eq i j then none else id_lookup j d)
  unfolding id_lookup id_remove
  id_lookup-remove i j [] = ground arith
  id_lookup-remove i j ((k, v) ∷ d) =
      ground (arith, id_lookup-remove i j d, id_eq_iff k i, id_eq_iff k j, id_eq_iff i j)

  pub id_lookup-insert :
      (i j : RequestId) (v : V) (d : IdDict V)
      → id_lookup j (id_insert i v d) ≡ (if id_eq i j then some v else id_lookup j d)
  unfolding id_lookup id_insert
  id_lookup-insert i j v [] = refl
  id_lookup-insert i j v ((k, w) ∷ d) =
      ground (arith, id_lookup-insert i j v d, id_eq_iff k i, id_eq_iff k j, id_eq_iff i j)

  pub id_contains-remove :
      (i j : RequestId) (d : IdDict V)
      → id_contains j (id_remove i d) ≡ (if id_eq i j then false else id_contains j d)
  unfolding id_contains id_remove
  id_contains-remove i j [] = ground arith
  id_contains-remove i j ((k, v) ∷ d) =
      ground (arith, id_contains-remove i j d, id_eq_iff k i, id_eq_iff k j, id_eq_iff i j)

  pub id_contains-insert :
      (i j : RequestId) (v : V) (d : IdDict V)
      → id_contains j (id_insert i v d) ≡ (if id_eq i j then true else id_contains j d)
  unfolding id_contains id_insert
  id_contains-insert i j v [] = refl
  id_contains-insert i j v ((k, w) ∷ d) =
      ground (arith, id_contains-insert i j v d, id_eq_iff k i, id_eq_iff k j, id_eq_iff i j)

  -- Where a value that is looked up after an insertion or a removal comes from.
  pub id_insert-cases :
      (i j : RequestId) (v w : V) (d : IdDict V)
      → id_lookup j (id_insert i v d) ≡ some w
      → ((i ≡ j) × (v ≡ w)) ⊎ (id_lookup j d ≡ some w)
  id_insert-cases i j v w d h = ground (arith, id_lookup-insert i j v d, id_eq_iff i j)

  pub id_remove-kept :
      (i j : RequestId) (w : V) (d : IdDict V)
      → id_lookup j (id_remove i d) ≡ some w
      → id_lookup j d ≡ some w
  id_remove-kept i j w d h = ground (arith, id_lookup-remove i j d)
