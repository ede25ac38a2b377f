-- ===== src/Session/Names/Fresh.antt =====
-- The search for the name of a new buffer in `_create_buffer` (session.py).
use drei.Base.{
  ℕ, zero, suc, ◌+◌, ◌-◌, ◌*◌, ◌/◌, ◌%◌, ◌≤◌, ◌<◌, ◌≡◌, ◌≢◌, refl, sym, ap, ◌∙◌, Str, codes, str_eq,
  str_eq_iff, show_digits, show_nat, Assoc, contains, true, false, Bool-cases, inl, inr, [], ◌∷◌,
  ◌++◌, some, length, length-append, drop, drop-append, if◌then◌else◌, arith, ltb,
}
use drei.Session.Names.{numbered, try_names, unique_name}

-- The value of a text of digits, from what was read before.
read : ℕ → Str → ℕ
read v [] = v
read v (d ∷ ds) = read (v * 10 + (d - 48)) ds

read-append : (v : ℕ) (s t : Str) → read v (s ++ t) ≡ read (read v s) t
unfolding read
read-append v [] t = refl
read-append v (d ∷ s) t = read-append (v * 10 + (d - 48)) s t

read-show_digits :
    (fuel n : ℕ) (acc : Str) → n < fuel → read 0 (show_digits fuel n acc) ≡ read n acc
unfolding read show_digits
read-show_digits zero n acc h = elim h [ ]
read-show_digits (suc fuel) n acc h = elim (Bool-cases (ltb n 10)) [
  | inl small ↦ rw small (ap (λ v. read v acc) (omega arith))
  | inr large ↦ rw large (
      read-show_digits fuel (n / 10) ((48 + n % 10) ∷ acc) (ground arith)
      ∙ ap (λ v. read v acc) (omega arith))
]

-- str(n) can be read back.
read-show_nat : (n : ℕ) → read 0 (show_nat n) ≡ n
unfolding show_nat read
read-show_nat n = read-show_digits (suc n) n [] (omega arith)

-- What a numbered name says of its number.
number_of : ℕ → Str → ℕ
number_of size s = read 0 (drop 1 (drop size s))

number_of-numbered : (name : Str) (i : ℕ) → number_of (length name) (numbered name i) ≡ i * 10 + 14
unfolding number_of numbered
number_of-numbered name i =
    rw
      (
        drop-append name (codes "<" ++ (show_nat i ++ codes ">")) (length name) refl,
        read-append 0 (show_nat i) (codes ">"),
        read-show_nat i,
      )
      (unfold read in refl)

numbered_inj : (name : Str) (i j : ℕ) → numbered name i ≡ numbered name j → i ≡ j
numbered_inj name i j e =
    omega
      (arith, number_of-numbered name i, number_of-numbered name j, ap (number_of (length name)) e)

numbered_longer : (name : Str) (i : ℕ) → name ≢ numbered name i
unfolding numbered
numbered_longer name i e =
    absurd (omega (arith, ap length e, length-append name (codes "<" ++ (show_nat i ++ codes ">"))))

module _ {ℓ} {V : Type ℓ} where
  without : Str → Assoc V → Assoc V
  without k [] = []
  without k ((j, v) ∷ l) = let rest = without k l in if str_eq j k then rest else (j, v) ∷ rest

  length-without_le : (k : Str) (l : Assoc V) → length (without k l) ≤ length l
  unfolding without
  length-without_le k [] = omega arith
  length-without_le k ((j, v) ∷ l) = ground (arith, length-without_le k l)

  length-without : (k : Str) (l : Assoc V) → contains k l ≡ true → length (without k l) < length l
  unfolding without contains
  length-without k [] h = cc
  length-without k ((j, v) ∷ l) h = ground (arith, length-without k l, length-without_le k l)

  contains-without : (k j : Str) (l : Assoc V) → k ≢ j → contains j (without k l) ≡ contains j l
  unfolding without contains
  contains-without k j [] h = refl
  contains-without k j ((i, v) ∷ l) h =
      ground (arith, str_eq_iff i k, str_eq_iff i j, contains-without k j l h)

  -- A name that is never tried does not matter.
  try_names-without :
      (fuel : ℕ) (name : Str) (suffix : ℕ) (candidate skipped : Str) (used : Assoc V)
      → skipped ≢ candidate
      → ((j : ℕ) → suffix ≤ j → skipped ≢ numbered name j)
      → try_names fuel name suffix candidate (without skipped used)
        ≡ try_names fuel name suffix candidate used
  unfolding try_names
  try_names-without zero name suffix candidate skipped used h k = refl
  try_names-without (suc fuel) name suffix candidate skipped used h k =
      rw
        (
          contains-without skipped candidate used h,
          try_names-without fuel name (suffix + 1) (numbered name suffix) skipped used
              (k suffix (omega arith)) (λ j le. k j (omega arith)),
        )
        refl

  try_names-total :
      (fuel : ℕ) (name : Str) (suffix : ℕ) (candidate : Str) (used : Assoc V)
      → length used < fuel
      → ((j : ℕ) → suffix ≤ j → candidate ≢ numbered name j)
      → (found : Str) × (try_names fuel name suffix candidate used ≡ some found)
  unfolding try_names
  try_names-total zero name suffix candidate used h k = elim h [ ]
  try_names-total (suc fuel) name suffix candidate used h k =
      elim (Bool-cases (contains candidate used)) [
        | inr free ↦ (candidate, rw free)
        | inl taken ↦
            let less : length (without candidate used) < length used =
              length-without candidate used taken in
            let (found, e) =
              try_names-total fuel name (suffix + 1) (numbered name suffix) (without candidate used)
                (omega arith)
                (λ j le same. absurd (omega (arith, numbered_inj name suffix j same))) in
            (
              found,
              rw taken (
                  sym (
                    try_names-without fuel name (suffix + 1) (numbered name suffix) candidate used
                      (k suffix (omega arith)) (λ j le. k j (omega arith)))
                  ∙ e),
            )
      ]

  try_names-free :
      (fuel : ℕ) (name : Str) (suffix : ℕ) (candidate : Str) (used : Assoc V) (found : Str)
      → try_names fuel name suffix candidate used ≡ some found
      → contains found used ≡ false
  unfolding try_names
  try_names-free zero name suffix candidate used found h = cc
  try_names-free (suc fuel) name suffix candidate used found h =
      ground (arith, try_names-free fuel name (suffix + 1) (numbered name suffix) used found)

  try_names-nonempty :
      (fuel : ℕ) (c : ℕ) (name : Str) (suffix : ℕ) (candidate : Str) (used : Assoc V) (found : Str)
      → candidate ≢ []
      → try_names fuel (c ∷ name) suffix candidate used ≡ some found
      → found ≢ []
  unfolding try_names numbered
  try_names-nonempty zero c name suffix candidate used found h e = cc
  try_names-nonempty (suc fuel) c name suffix candidate used found h e =
      elim (Bool-cases (contains candidate used)) [
        | inr free ↦ let e' : some candidate ≡ some found = rw free at e in λ p. h (cc)
        | inl taken ↦
            try_names-nonempty fuel c name (suffix + 1) (numbered (c ∷ name) suffix) used found
              (λ p. cc) (rw taken at e)
      ]

  pub unique_name-fresh :
      (name : Str) (used : Assoc V)
      → (found : Str) × (unique_name name used ≡ some found)
        × (contains found used ≡ false)
        × (name ≢ [] → found ≢ [])
  unfolding unique_name
  unique_name-fresh name used =
      let (found, e) =
        try_names-total (length used + 1) name 2 name used (omega arith)
          (λ j le. numbered_longer name j) in
      (found, e, try_names-free _ name 2 name used found e, nonempty name e)
    where
      nonempty :
          {found : Str} (n : Str)
          → try_names (length used + 1) n 2 n used ≡ some found
          → n ≢ []
          → found ≢ []
      nonempty [] e h = absurd (h refl)
      nonempty {found} (c ∷ cs) e h = try_names-nonempty _ c cs 2 (c ∷ cs) used found h e

  -- However many buffers there are, the loop ends with a name; no buffer has that name, and it is
  -- not empty when the requested one is not.
  pub unique_name-unused :
      (name : Str) (used : Assoc V)
      → name ≢ []
      → (found : Str) × (unique_name name used ≡ some found)
        × (contains found used ≡ false)
        × (found ≢ [])
  unique_name-unused name used named =
      let (found, e, unused, kept) = unique_name-fresh name used in (found, e, unused, kept named)
