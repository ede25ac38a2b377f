-- ===== src/Render/Rows.antt =====
-- Rows: how wide they are, and what they are made of.
use drei.Base.{
  arith, ℕ, zero, suc, ◌+◌, ◌-◌, ◌≤◌, Str, ◌≡◌, refl, ap, Bool, true, not, ◌&&◌, List, [], ◌∷◌,
  ◌==◌, ltb, leb, length, take, length-append, length-take, All, All-append, if-holds,
}
use drei.Render.{
  sanitize, spaces, ljust, clip, split_lines, body_rows, render_body, seek, cursor_position,
}

-- No control character: the terminal shows it as one cell.
unfoldable pub is_plain : ℕ → Bool
is_plain c = leb 32 c && not (c == 127) && not (leb 128 c && leb c 159)

abbrev pub IsPlain : Str → Type 0
IsPlain s = All (λ c. is_plain c ≡ true) s

sanitize-IsPlain : (s : Str) → IsPlain (sanitize s)
unfolding sanitize is_plain
sanitize-IsPlain [] = tt
sanitize-IsPlain (c ∷ s) =
    if-holds IsPlain (ltb c 32) _ _ (λ h. (ground arith, (ground arith, sanitize-IsPlain s)))
      (λ h.
        if-holds IsPlain (c == 127) _ _ (λ _. (refl, (refl, sanitize-IsPlain s)))
          (λ k.
            if-holds IsPlain (leb 128 c && leb c 159) _ _
              (λ l. (refl, (ground arith, sanitize-IsPlain s)))
              (λ l. (ground arith, sanitize-IsPlain s))))

take-IsPlain : (n : ℕ) (s : Str) → IsPlain s → IsPlain (take n s)
take-IsPlain zero s h = tt
take-IsPlain (suc n) [] h = tt
take-IsPlain (suc n) (c ∷ s) h = (h.0, take-IsPlain n s h.1)

spaces-IsPlain : (n : ℕ) → IsPlain (spaces n)
unfolding spaces is_plain
spaces-IsPlain zero = tt
spaces-IsPlain (suc n) = (refl, spaces-IsPlain n)

length-spaces : (n : ℕ) → length (spaces n) ≡ n
unfolding spaces
length-spaces zero = refl
length-spaces (suc n) = ap suc (length-spaces n)

-- A row of the frame: `width` cells, none of them a control character.
pub record IsRow (width : ℕ) (row : Str) : Type 0 where
  pub wide : length row ≡ width
  pub plain : IsPlain row

pub clip-IsRow : (text : Str) (width : ℕ) → IsRow width (clip text width)
unfolding clip ljust
clip-IsRow text width =
    let shown = take width (sanitize text) in
    if-holds (IsRow width) (width == 0) _ _ (λ h. record { wide = ground arith; plain = tt })
      (λ h. record {
        wide = ground (
          arith,
          length-append shown (spaces (width - length shown)),
          length-spaces (width - length shown),
          length-take width (sanitize text),
        );
        plain =
            All-append _ shown (spaces (width - length shown))
              (take-IsPlain width (sanitize text) (sanitize-IsPlain text))
              (spaces-IsPlain (width - length shown));
      })

body_rows-IsRow :
    (width : ℕ) (lines : List Str) (n : ℕ) → All (IsRow width) (body_rows width lines n)
unfolding body_rows
body_rows-IsRow width lines zero = tt
body_rows-IsRow width [] (suc n) = (clip-IsRow [] width, body_rows-IsRow width [] n)
body_rows-IsRow width (line ∷ lines) (suc n) =
    (clip-IsRow line width, body_rows-IsRow width lines n)

length-body_rows : (width : ℕ) (lines : List Str) (n : ℕ) → length (body_rows width lines n) ≡ n
unfolding body_rows
length-body_rows width lines zero = refl
length-body_rows width [] (suc n) = ap suc (length-body_rows width [] n)
length-body_rows width (line ∷ lines) (suc n) = ap suc (length-body_rows width lines n)

pub render_body-IsRow : (text : Str) (width n : ℕ) → All (IsRow width) (render_body text width n)
unfolding render_body
render_body-IsRow text width n = body_rows-IsRow width (split_lines text) n

pub length-render_body : (text : Str) (width n : ℕ) → length (render_body text width n) ≡ n
unfolding render_body
length-render_body text width n = length-body_rows width (split_lines text) n

-- Within a body of `height` rows of `width` cells, or at the origin when there is none.
abbrev pub IsWithin : ℕ → ℕ → ℕ × ℕ → Type 0
IsWithin width height c = (c.0 ≤ height - 1) × (c.1 ≤ width - 1)

seek-IsWithin :
    (lines : List Str) (row remaining width height : ℕ)
    → IsWithin width height (seek lines row remaining width height)
unfolding seek
seek-IsWithin [] row remaining width height = (omega arith, omega arith)
seek-IsWithin (line ∷ lines) row remaining width height =
    if-holds (IsWithin width height) (leb remaining (length line)) _ _
      (λ _. (omega arith, omega arith))
      (λ _. seek-IsWithin lines (row + 1) (remaining - (length line + 1)) width height)

pub cursor_position-IsWithin :
    (text : Str) (point width height : ℕ)
    → IsWithin width height (cursor_position text point width height)
unfolding cursor_position
cursor_position-IsWithin text point width height =
    if-holds (IsWithin width height) (height == 0) _ _ (λ _. (omega arith, omega arith))
      (λ _.
        if-holds (IsWithin width height) (width == 0) _ _ (λ _. (omega arith, omega arith))
          (λ _. seek-IsWithin (split_lines text) 0 point width height))
