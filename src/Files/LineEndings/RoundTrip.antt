-- ===== src/Files/LineEndings/RoundTrip.antt =====
-- Reading a file into a buffer and writing the buffer back (drei/files.py).
use drei.Base.{
  ◌≡◌, refl, ap, Str, Bool, Bool-cases, inl, inr, true, false, ◌||◌, ◌&&◌, [], ◌∷◌, ◌==◌,
  if◌then◌else◌, arith,
}
use drei.Files.LineEndings.{
  LineEnding, lf, crlf, carriage_return, newline, replace_crlf, has_crlf, has_break, expand_lf,
  detect_line_ending, to_buffer_text, to_file_text,
}

-- A text with a carriage return in it.
unfoldable pub has_return : Str → Bool
has_return [] = false
has_return (c ∷ s) = c == carriage_return || has_return s

replace-no_return : (by s : Str) → has_return s ≡ false → replace_crlf by s ≡ s
unfolding has_return replace_crlf
replace-no_return by [] h = refl
replace-no_return by (c ∷ []) h = refl
replace-no_return by (c ∷ d ∷ s) h = elim (Bool-cases (c == carriage_return && d == newline)) [
  | inl pair ↦ ground (arith, pair)
  | inr other ↦ rw (other, replace_crlf) (ap (c ∷◌) (replace-no_return by (d ∷ s) (ground arith)))
]

-- When every carriage return and every newline of a text is in a pair, what the pairs become has
-- no carriage return.
pub paired-no_return :
    (s : Str)
    → has_break (replace_crlf [] s) ≡ false
    → has_return (replace_crlf (newline ∷ []) s) ≡ false
unfolding has_break replace_crlf has_return
paired-no_return [] h = refl
paired-no_return (c ∷ []) h = ground arith
paired-no_return (c ∷ d ∷ s) h = elim (Bool-cases (c == carriage_return && d == newline)) [
  | inl pair ↦ rw (pair, replace_crlf) (paired-no_return s (rw (pair, replace_crlf) at h))
  | inr other ↦
      let k : has_break (c ∷ replace_crlf [] (d ∷ s)) ≡ false = rw (other, replace_crlf) at h in
      rw (other, replace_crlf) (ground (arith, paired-no_return (d ∷ s)))
]

expand-paired :
    (s : Str)
    → has_break (replace_crlf [] s) ≡ false
    → expand_lf (replace_crlf (newline ∷ []) s) ≡ s
unfolding has_break replace_crlf expand_lf
expand-paired [] h = refl
expand-paired (c ∷ []) h = ground arith
expand-paired (c ∷ d ∷ s) h = elim (Bool-cases (c == carriage_return && d == newline)) [
  | inl pair ↦
      let c_is : c ≡ carriage_return = ground (arith, pair) in
      let d_is : d ≡ newline = ground (arith, pair) in
      let rest : expand_lf (replace_crlf (newline ∷ []) s) ≡ s =
        expand-paired s (rw (pair, replace_crlf) at h) in
      rw (pair, replace_crlf) (rw (rest, c_is, d_is) refl)
  | inr other ↦
      let k : has_break (c ∷ replace_crlf [] (d ∷ s)) ≡ false = rw (other, replace_crlf) at h in
      let plain : (c == newline) ≡ false = ground (arith, k) in
      let rest : expand_lf (replace_crlf (newline ∷ []) (d ∷ s)) ≡ d ∷ s =
        expand-paired (d ∷ s) (ground (arith, k)) in
      rw (other, replace_crlf) (rw plain (ap (c ∷◌) rest))
]

only_pairs :
    (pairs other : Bool)
    → (if pairs then (if other then lf else crlf) else lf) ≡ crlf
    → other ≡ false
only_pairs true true h = cc
only_pairs true false h = refl
only_pairs false other h = cc

pub crlf-paired : (t : Str) → detect_line_ending t ≡ crlf → has_break (replace_crlf [] t) ≡ false
unfolding detect_line_ending
crlf-paired t h = only_pairs (has_crlf t) _ h

written_back :
    (t : Str) (e : LineEnding) → detect_line_ending t ≡ e → to_file_text (to_buffer_text t e) e ≡ t
unfolding to_file_text to_buffer_text
written_back t lf h = refl
written_back t crlf h =
    let paired = crlf-paired t h in
    rw
      (replace-no_return (newline ∷ []) (replace_crlf (newline ∷ []) t) (paired-no_return t paired))
      (expand-paired t paired)

-- A file's text, taken into a buffer under the line ending that is detected in it and written back
-- under that line ending, is the file's text.
pub to_file_text-to_buffer_text :
    (t : Str) → to_file_text (to_buffer_text t (detect_line_ending t)) (detect_line_ending t) ≡ t
to_file_text-to_buffer_text t = written_back t (detect_line_ending t) refl
