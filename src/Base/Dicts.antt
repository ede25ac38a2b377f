-- ===== src/Base/Dicts.antt =====
-- A Python dict with str keys: entries in insertion order.
use mathlib.Core.Path.{◌≡◌, refl, subst, ap}
use mathlib.Core.Bool.{Bool, true, false}
use mathlib.Core.Option.{Option, none, some}
use mathlib.Core.List.{List, [], ◌∷◌}
use native.Mathlib.Omega.{arith}
use drei.Base.Tests.{if◌then◌else◌, Bool-cases}
use drei.Base.Lists.{All}
use drei.Base.Text.{Str, str_eq, str_eq_iff, str_eq_refl}
use mathlib.Core.Logic.{inl, inr}

abbrev pub Assoc {ℓ} : Type ℓ → Type ℓ
Assoc V = List (Str × V)

module _ {ℓ} {V : Type ℓ} where
  -- d.get(k)
  unfoldable pub lookup : Str → Assoc V → Option V
  lookup k [] = none
  lookup k ((j, v) ∷ l) = if str_eq j k then some v else lookup k l

  -- k in d
  unfoldable pub contains : Str → Assoc V → Bool
  contains k [] = false
  contains k ((j, v) ∷ l) = if str_eq j k then true else contains k l

  -- d[k] = v: a key keeps its place, a new one goes last.
  unfoldable pub insert : Str → V → Assoc V → Assoc V
  insert k v [] = (k, v) ∷ []
  insert k v ((j, w) ∷ l) = if str_eq j k then (j, v) ∷ l else (j, w) ∷ insert k v l

  pub lookup-insert :
      (k j : Str) (v : V) (l : Assoc V)
      → lookup j (insert k v l) ≡ (if str_eq k j then some v else lookup j l)
  unfolding lookup insert
  lookup-insert k j v [] = refl
  lookup-insert k j v ((i, w) ∷ l) =
      ground (arith, str_eq_iff k j, str_eq_iff i k, str_eq_iff i j, lookup-insert k j v l)

  pub lookup-insert_self : (k : Str) (v : V) (l : Assoc V) → lookup k (insert k v l) ≡ some v
  lookup-insert_self k v l = rw (lookup-insert, str_eq_refl) refl

  pub lookup-insert_ne :
      (k j : Str) (v : V) (l : Assoc V) → str_eq k j ≡ false → lookup j (insert k v l) ≡ lookup j l
  lookup-insert_ne k j v l h = rw (lookup-insert, h) refl

  pub contains-insert :
      (k j : Str) (v : V) (l : Assoc V)
      → contains j (insert k v l) ≡ (if str_eq k j then true else contains j l)
  unfolding contains insert
  contains-insert k j v [] = refl
  contains-insert k j v ((i, w) ∷ l) =
      ground (arith, str_eq_iff k j, str_eq_iff i k, str_eq_iff i j, contains-insert k j v l)

  -- A key stays when another entry is written.
  pub contains-insert_mono :
      (k j : Str) (v : V) (l : Assoc V) → contains j l ≡ true → contains j (insert k v l) ≡ true
  contains-insert_mono k j v l h = rw contains-insert (ground arith)

  pub contains-insert_self : (k : Str) (v : V) (l : Assoc V) → contains k (insert k v l) ≡ true
  contains-insert_self k v l = rw (contains-insert, str_eq_refl) refl

  pub contains-lookup :
      (k : Str) (l : Assoc V) → contains k l ≡ true → (v : V) × (lookup k l ≡ some v)
  unfolding contains lookup
  contains-lookup k [] h = cc
  contains-lookup k ((j, v) ∷ l) h = elim (Bool-cases (str_eq j k)) [
    | inl e ↦ (v, rw e refl)
    | inr e ↦ let (w, p) = contains-lookup k l (rw e at h) in (w, rw e p)
  ]

  pub lookup-contains : (k : Str) (l : Assoc V) (v : V) → lookup k l ≡ some v → contains k l ≡ true
  unfolding contains lookup
  lookup-contains k [] v h = cc
  lookup-contains k ((j, w) ∷ l) v h = ground (arith, lookup-contains k l v)

-- The values of a dict, one by one.
abbrev pub AllValues {ℓ κ} : {V : Type ℓ} → (V → Type κ) → Assoc V → Type κ
AllValues P = All (λ e. P (e.1))

module _ {ℓ κ} {V : Type ℓ} (P : V → Type κ) where
  pub AllValues-lookup : (k : Str) (l : Assoc V) (v : V) → AllValues P l → lookup k l ≡ some v → P v
  unfolding lookup
  AllValues-lookup k [] v h e = cc
  AllValues-lookup k ((j, w) ∷ l) v h e = elim (Bool-cases (str_eq j k)) [
    | inl p ↦ let e' : some w ≡ some v = rw p at e in let q : w ≡ v = cc in subst P q h.0
    | inr p ↦ AllValues-lookup k l v h.1 (rw p at e)
  ]

  pub AllValues-insert :
      (k : Str) (v : V) (l : Assoc V) → AllValues P l → P v → AllValues P (insert k v l)
  unfolding insert
  AllValues-insert k v [] h hv = (hv, tt)
  AllValues-insert k v ((j, w) ∷ l) h hv = elim (Bool-cases (str_eq j k)) [
    | inl p ↦ rw p (hv, h.1)
    | inr p ↦ rw p (h.0, AllValues-insert k v l h.1 hv)
  ]

module _ {ℓ} {V : Type ℓ} where
  -- The last write to a key is the one that counts.
  pub insert-insert : (k : Str) (v w : V) (l : Assoc V) → insert k v (insert k w l) ≡ insert k v l
  unfolding insert
  insert-insert k v w [] = rw str_eq_refl refl
  insert-insert k v w ((j, u) ∷ l) = elim (Bool-cases (str_eq j k)) [
    | inl e ↦ rw (e, e) refl
    | inr e ↦ rw (e, e) (ap (λ r. (j, u) ∷ r) (insert-insert k v w l))
  ]
