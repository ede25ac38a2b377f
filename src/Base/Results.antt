-- ===== src/Base/Results.antt =====
-- Python exceptions as values. `key_error` also stands for an index out of range, `state_error` is
-- `AcpStateError`, and `port_error` is what a file port raises that no caller catches.
use mathlib.Core.Logic.{◌⊎◌, inl, inr}
use mathlib.Core.Path.{◌≡◌, refl, subst}
use mathlib.Core.Bool.{Bool, true, false}
use drei.Base.Tests.{if◌then◌else◌}
use mathlib.Core.Option.{Option, none, some}

pub data Error : Type 0 where
  value_error type_error key_error state_error port_error : Error

pub data Result {ℓ} (A : Type ℓ) : Type ℓ where
  ok : A → Result A
  raise : Error → Result A

infixl 5 ◌>>=◌
abbrev pub ◌>>=◌ {ℓ κ} : {A : Type ℓ} {B : Type κ} → Result A → (A → Result B) → Result B
ok value >>= next = next value
raise error >>= next = raise error

-- d[k], l[i]
abbrev pub required {ℓ} : {A : Type ℓ} → Option A → Result A
required none = raise key_error
required (some a) = ok a

-- `r` returns, with a value that satisfies `P`.
abbrev pub Returns {ℓ κ} : {A : Type ℓ} → Result A → (A → Type κ) → Type (ℓ ⊔ κ)
Returns {A} r P = (a : A) × (r ≡ ok a) × P a

-- `r` returns with a value that satisfies `P`, or the port raised, as `R` says, and `r` passes it on.
abbrev pub ReturnsUnless {ℓ κ μ} :
    Type μ → {A : Type ℓ} → Result A → (A → Type κ) → Type (ℓ ⊔ κ ⊔ μ)
ReturnsUnless R {A} r P = Returns r P ⊎ (R × (r ≡ raise port_error))

module _ {ℓ κ μ ν} {A : Type ℓ} {B : Type κ} {P : A → Type μ} {Q : B → Type ν} where
  pub Returns-bind :
      (m : Result A) (f : A → Result B)
      → Returns m P
      → ((a : A) → P a → Returns (f a) Q)
      → Returns (m >>= f) Q
  Returns-bind m f (a, e, p) k = rw e (k a p)

  pub ReturnsUnless-bind {ρ} :
      {R : Type ρ} (m : Result A) (f : A → Result B)
      → ReturnsUnless R m P
      → ((a : A) → P a → ReturnsUnless R (f a) Q)
      → ReturnsUnless R (m >>= f) Q
  ReturnsUnless-bind m f (inl (a, e, p)) k = rw e (k a p)
  ReturnsUnless-bind m f (inr (raised, e)) k = rw e (inr (raised, refl))

module _ {ℓ κ} {A : Type ℓ} {B : Type κ} where
  -- A chain that returns, returned at its first link.
  pub bind-ok :
      (first : Result A) (next : A → Result B) {end : B}
      → (first >>= next) ≡ ok end
      → (value : A) × (first ≡ ok value) × (next value ≡ ok end)
  bind-ok (ok a) f h = (a, refl, h)
  bind-ok (raise e) f h = cc

module _ {ℓ κ μ} {A : Type ℓ} {P : A → Type κ} {Q : A → Type μ} where
  pub Returns_mono : (m : Result A) → Returns m P → ((a : A) → P a → Q a) → Returns m Q
  Returns_mono m (a, e, p) k = (a, e, k a p)

  pub ReturnsUnless_mono {ρ ν} :
      {R : Type ρ} {S : Type ν} (m : Result A)
      → ReturnsUnless R m P
      → (R → S)
      → ((a : A) → P a → Q a)
      → ReturnsUnless S m Q
  ReturnsUnless_mono m (inl r) g k = inl (Returns_mono m r k)
  ReturnsUnless_mono m (inr (raised, e)) g k = inr (g raised, e)

module _ {ℓ κ} {A : Type ℓ} {P : A → Type κ} where
  pub Returns-ok : {r : Result A} {u : A} → Returns r P → r ≡ ok u → P u
  Returns-ok {r} {u} (a, e, p) q = let same : a ≡ u = cc in subst P same p

  -- A branch returns when both of its arms do, each with what the test showed.
  pub Returns-if :
      (b : Bool) (x y : Result A)
      → (b ≡ true → Returns x P)
      → (b ≡ false → Returns y P)
      → Returns (if b then x else y) P
  Returns-if true x y f g = f refl
  Returns-if false x y f g = g refl

  pub ReturnsUnless-if {ρ} :
      {R : Type ρ} (b : Bool) (x y : Result A)
      → (b ≡ true → ReturnsUnless R x P)
      → (b ≡ false → ReturnsUnless R y P)
      → ReturnsUnless R (if b then x else y) P
  ReturnsUnless-if true x y f g = f refl
  ReturnsUnless-if false x y f g = g refl

  pub ReturnsUnless-ok {ρ} :
      {R : Type ρ} {r : Result A} {u : A} → ReturnsUnless R r P → r ≡ ok u → P u
  ReturnsUnless-ok (inl r) q = Returns-ok r q
  ReturnsUnless-ok (inr (raised, e)) q = cc

  -- Where the port cannot raise.
  pub ReturnsUnless-never : {r : Result A} → ReturnsUnless ⊥ r P → Returns r P
  ReturnsUnless-never (inl r) = r
  ReturnsUnless-never (inr (raised, e)) = absurd raised

module _ {ℓ} {A : Type ℓ} where
  -- A guard that was passed.
  pub guarded-ok :
      (b : Bool) (r : Result A) (error : Error) {end : A}
      → (if b then r else raise error) ≡ ok end
      → (b ≡ true) × (r ≡ ok end)
  guarded-ok true r error h = (refl, h)
  guarded-ok false r error h = cc

  pub ok-injective : {x y : A} → ok x ≡ ok y → x ≡ y
  ok-injective h = cc

  -- A conditional that returned: one of its arms did.
  pub if-ok {κ} :
      (P : Type κ) (b : Bool) (x y : Result A) {end : A}
      → (b ≡ true → x ≡ ok end → P)
      → (b ≡ false → y ≡ ok end → P)
      → (if b then x else y) ≡ ok end
      → P
  if-ok P true x y f g h = f refl h
  if-ok P false x y f g h = g refl h
