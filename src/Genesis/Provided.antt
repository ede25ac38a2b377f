-- ===== src/Genesis/Provided.antt =====
-- `prepare_provided_buffer` on the buffers that a host provides (genesis.py).
use drei.Base.{
  ℕ, zero, suc, ◌-◌, ◌≤◌, ◌≡◌, ◌≢◌, refl, ap, Str, str_eq, str_eq_iff, str_eq_refl, is_empty, Bool,
  Bool-cases, inl, inr, true, false, not, ◌&&◌, ◌||◌, [], ◌∷◌, Option, none, some, length, take,
  le→leb, ◌==◌, if◌then◌else◌, ok, Returns, arith,
}
use drei.Files.LineEndings.{
  LineEnding, lf, crlf, carriage_return, newline, replace_crlf, has_crlf, detect_line_ending,
  to_buffer_text, to_file_text,
}
use drei.Files.LineEndings.RoundTrip.{
  has_return, paired-no_return, crlf-paired, to_file_text-to_buffer_text,
}
use drei.Buffer.{BufferValue, InBounds, MarkIn, mark_fits}
use drei.Genesis.{
  InitialBuffer, provided, validated, in_text, is_canonical, origin_valid, clean_basis, saved_is,
  is_none, is_crlf, count_crlf, shift_index, shift_mark, prepare_provided_buffer,
}

-- An index that is shifted over the pairs before it lies in the text without their returns.
shift-le :
    (t : Str) (i : ℕ)
    → i ≤ length t
    → i - count_crlf (take i t) ≤ length (replace_crlf (newline ∷ []) t)
unfolding count_crlf replace_crlf
shift-le [] i h = omega arith
shift-le (c ∷ []) i h = omega arith
shift-le (c ∷ d ∷ s) zero h = omega arith
shift-le (c ∷ d ∷ s) (suc zero) h = elim (Bool-cases (c == carriage_return && d == newline)) [
  | inl pair ↦ rw (pair, replace_crlf) (omega arith)
  | inr other ↦ rw (other, replace_crlf) (omega arith)
]
shift-le (c ∷ d ∷ s) (suc (suc i)) h = elim (Bool-cases (c == carriage_return && d == newline)) [
  | inl pair ↦ rw (pair, replace_crlf, count_crlf) (omega (arith, shift-le s i (omega arith)))
  | inr other ↦
      rw (other, replace_crlf, count_crlf) (omega (arith, shift-le (d ∷ s) (suc i) (omega arith)))
]

no_return-no_crlf : (s : Str) → has_return s ≡ false → has_crlf s ≡ false
unfolding has_return has_crlf
no_return-no_crlf [] h = refl
no_return-no_crlf (c ∷ []) h = refl
no_return-no_crlf (c ∷ d ∷ s) h = ground (arith, no_return-no_crlf (d ∷ s))

shift-in :
    (t : Str) (e : LineEnding) (i : ℕ)
    → i ≤ length t
    → (if str_eq (to_buffer_text t e) t then i else shift_index t i) ≤ length (to_buffer_text t e)
unfolding to_buffer_text shift_index
shift-in t lf i h = rw (str_eq_refl t) h
shift-in t crlf i h = elim (Bool-cases (str_eq (replace_crlf (newline ∷ []) t) t)) [
  | inl same ↦
      rw same (omega (arith, ap length ((str_eq_iff (replace_crlf (newline ∷ []) t) t).0 same)))
  | inr other ↦ rw other (shift-le t i h)
]

detect-no_crlf : (s : Str) → has_crlf s ≡ false → detect_line_ending s ≡ lf
unfolding detect_line_ending
detect-no_crlf s h = rw h refl

canonical_lem :
    (t : Str) (e : LineEnding)
    → detect_line_ending t ≡ e
    → (is_crlf (detect_line_ending (to_buffer_text t e))
        || (is_crlf e && has_crlf (to_buffer_text t e)))
      ≡ false
unfolding to_buffer_text is_crlf
canonical_lem t lf h = rw h refl
canonical_lem t crlf h =
    let none_left : has_crlf (replace_crlf (newline ∷ []) t) ≡ false =
      no_return-no_crlf (replace_crlf (newline ∷ []) t) (paired-no_return t (crlf-paired t h)) in
    rw (detect-no_crlf (replace_crlf (newline ∷ []) t) none_left, none_left) refl

named_lem : (name : Str) → name ≢ [] → is_empty name ≡ false
named_lem [] h = absurd (h refl)
named_lem (c ∷ cs) h = refl

shift_mark-fits :
    (t : Str) (e : LineEnding) (m : Option ℕ)
    → MarkIn m (length t)
    → mark_fits
        (shift_mark (λ i. if str_eq (to_buffer_text t e) t then i else shift_index t i) m)
        (length (to_buffer_text t e))
      ≡ true
unfolding mark_fits shift_mark
shift_mark-fits t e none h = refl
shift_mark-fits t e (some m) h = le→leb _ _ (shift-in t e m h)

origin_lem :
    (modified : Bool) (text : Str)
    → (if modified
        then is_none (if modified then none else some text)
        else not modified && saved_is (if modified then none else some text) text)
      ≡ true
unfolding is_none saved_is
origin_lem true text = refl
origin_lem false text = str_eq_refl text

-- What a host's buffer becomes.
pub record IsPrepared (raw : BufferValue) (b : InitialBuffer) : Type 0 where
  pub accepted : validated b ≡ ok b
  pub written_back : to_file_text b.text b.line_ending ≡ raw.text
  pub flag : b.modified ≡ raw.modified

-- The buffer that is handed to the constructor.
abbrev prepared : Str → BufferValue → InitialBuffer
prepared buffer_id raw =
    let e = detect_line_ending raw.text in
    let text = to_buffer_text raw.text e in
    let shift : ℕ → ℕ = (λ i. if str_eq text raw.text then i else shift_index raw.text i) in
    record {
      buffer_id = buffer_id;
      origin = provided;
      text = text;
      point = shift raw.point;
      mark = shift_mark shift raw.mark;
      file_path = raw.file_path;
      modified = raw.modified;
      saved_text = if raw.modified then none else some text;
      line_ending = e;
    }

prepared_accepted :
    (buffer_id : Str) (raw : BufferValue)
    → buffer_id ≢ []
    → InBounds raw
    → validated (prepared buffer_id raw) ≡ ok (prepared buffer_id raw)
unfolding validated in_text is_canonical origin_valid clean_basis
prepared_accepted buffer_id raw named b =
    let e = detect_line_ending raw.text in
    let name_in = named_lem buffer_id named in
    let point_in = le→leb _ _ (shift-in raw.text e raw.point b.point_in) in
    let mark_in = shift_mark-fits raw.text e raw.mark b.mark_in in
    let canonical = canonical_lem raw.text e refl in
    let origin = origin_lem raw.modified (to_buffer_text raw.text e) in
    rw (name_in, point_in, mark_in, canonical, origin) refl

-- A provided buffer with a name, whose point and mark lie in its text, is accepted: the initial
-- buffer passes the constructor's checks, written back it is the provided text, and it is modified
-- just when the provided one is.
pub prepare_provided_buffer-IsPrepared :
    (buffer_id : Str) (raw : BufferValue)
    → buffer_id ≢ []
    → InBounds raw
    → Returns (prepare_provided_buffer buffer_id raw) (IsPrepared raw)
unfolding prepare_provided_buffer
prepare_provided_buffer-IsPrepared buffer_id raw named b =
    let accepted = prepared_accepted buffer_id raw named b in
    (
      prepared buffer_id raw,
      accepted,
      record {
        accepted = accepted;
        written_back = to_file_text-to_buffer_text raw.text;
        flag = refl;
      },
    )
