-- ===== src/Acp/Codec/Bytes.antt =====
-- The drained buffer, against a reading of the wire byte by byte.
use drei.Base.{
  arith, ℕ, suc, zero, ◌+◌, ◌≤◌, ◌≡◌, refl, sym, false, List, [], ◌∷◌, ◌++◌, append-nil,
  append_assoc, length, take, drop, take-append, drop-append, drop-drop, length-append, Option,
  none, some, ◌==◌, if◌then◌else◌, Bool-cases, inl, inr, ==_iff,
}
use drei.Acp.Json.{JsonValue}
use drei.Acp.Codec.{DecodeResult, newline_index, decode_line, drain}

pub newline_index-none-append :
    (p bs : List ℕ) → newline_index p ≡ none → newline_index (p ++ 10 ∷ bs) ≡ some (length p)
unfolding newline_index
newline_index-none-append [] bs h = refl
newline_index-none-append (c ∷ p) bs h = ground (arith, newline_index-none-append p bs)

pub newline_index-snoc :
    (p : List ℕ) (c : ℕ)
    → newline_index p ≡ none
    → (c == 10) ≡ false
    → newline_index (p ++ c ∷ []) ≡ none
unfolding newline_index
newline_index-snoc [] c h e = ground arith
newline_index-snoc (d ∷ p) c h e = ground (arith, newline_index-snoc p c)

module _ (loads : List ℕ → Option JsonValue) where
  -- The results of the bytes that follow an unfinished line, and the line left unfinished.
  unfoldable pub read_bytes : List ℕ → List ℕ → List DecodeResult × List ℕ
  read_bytes line [] = ([], line)
  read_bytes line (c ∷ bs) =
      let (out, rest) = read_bytes [] bs in
      let longer = read_bytes (line ++ c ∷ []) bs in
      if c == 10 then (decode_line loads line ++ out, rest) else longer

  pub read_bytes-unfinished :
      (line bs : List ℕ) → newline_index line ≡ none → newline_index (read_bytes line bs).1 ≡ none
  unfolding read_bytes newline_index
  read_bytes-unfinished line [] h = h
  read_bytes-unfinished line (c ∷ bs) h = elim (Bool-cases (c == 10)) [
    | inl e ↦ rw e (read_bytes-unfinished [] bs refl)
    | inr e ↦ rw e (read_bytes-unfinished (line ++ c ∷ []) bs (newline_index-snoc line c h e))
  ]

  pub drain-done :
      (fuel : ℕ) (line : List ℕ) → newline_index line ≡ none → drain loads fuel line ≡ ([], line)
  unfolding drain
  drain-done zero line h = refl
  drain-done (suc fuel) line h = rw (h, drain)

  drain-step :
      (fuel : ℕ) (b : List ℕ) (i : ℕ)
      → newline_index b ≡ some i
      → drain loads (suc fuel) b ≡ (
        decode_line loads (take i b) ++ (drain loads fuel (drop (i + 1) b)).0,
        (drain loads fuel (drop (i + 1) b)).1,
      )
  unfolding drain
  drain-step fuel b i h = rw (h, drain)

  drain-line :
      (fuel : ℕ) (line bs : List ℕ)
      → newline_index line ≡ none
      → drain loads (suc fuel) (line ++ 10 ∷ bs)
        ≡ (decode_line loads line ++ (drain loads fuel bs).0, (drain loads fuel bs).1)
  drain-line fuel line bs h = rw (
    drain-step fuel (line ++ 10 ∷ bs) (length line) (newline_index-none-append line bs h),
    take-append line (10 ∷ bs) (length line) refl,
    sym (drop-drop (length line) 1 (length line + 1) (line ++ 10 ∷ bs) refl),
    drop-append line (10 ∷ bs) (length line) refl,
  )

  pub drain-read_bytes :
      (fuel : ℕ) (line bs : List ℕ)
      → newline_index line ≡ none
      → length bs ≤ fuel
      → drain loads fuel (line ++ bs) ≡ read_bytes line bs
  unfolding read_bytes newline_index
  drain-read_bytes fuel line [] h n = rw (append-nil line) (drain-done fuel line h)
  drain-read_bytes (suc fuel) line (c ∷ bs) h n = elim (Bool-cases (c == 10)) [
    | inl e ↦ rw (
      e,
      (==_iff c 10).0 e,
      drain-line fuel line bs h,
      drain-read_bytes fuel [] bs refl (omega arith),
    )
    | inr e ↦
        rw (e, sym (append_assoc line (c ∷ []) bs))
          (drain-read_bytes (suc fuel) (line ++ c ∷ []) bs (newline_index-snoc line c h e)
            (omega arith))
  ]
  drain-read_bytes zero line (c ∷ bs) h n = ground arith

  -- A line, from its first byte to its newline.
  pub read_bytes-line :
      (line bs : List ℕ)
      → newline_index line ≡ none
      → read_bytes [] (line ++ 10 ∷ bs)
        ≡ (decode_line loads line ++ (read_bytes [] bs).0, (read_bytes [] bs).1)
  unfolding newline_index
  read_bytes-line line bs h = rw (
    sym (
        drain-read_bytes (suc (length (line ++ bs))) [] (line ++ 10 ∷ bs) refl
          (ground (arith, length-append line (10 ∷ bs), length-append line bs))),
    drain-line (length (line ++ bs)) line bs h,
    drain-read_bytes (length (line ++ bs)) [] bs refl (ground (arith, length-append line bs)),
  )
