-- ===== src/Genesis.antt =====
-- The evidence from which a session begins, drei/genesis.py. The run-time type checks of the
-- constructors are the types here; an empty buffer name is what is left of them.
pub mod Provided
mod Examples
use drei.Base.{
  ℕ, suc, ◌-◌, Str, codes, str_eq, is_empty, Bool, true, false, not, ◌&&◌, ◌||◌, List, [], ◌∷◌,
  Option, none, some, length, take, leb, ◌==◌, if◌then◌else◌, Result, ok, raise, value_error,
  type_error, ◌>>=◌,
}
use drei.Files.{VisitOpened, Origin}
use drei.Files.LineEndings.{
  LineEnding, lf, crlf, carriage_return, newline, has_crlf, detect_line_ending, to_buffer_text,
}
use drei.Buffer.{BufferValue, mark_fits}

pub data FrameGenesis : Type 0 where
  known_frame : ℕ → ℕ → FrameGenesis
  unknown_frame : FrameGenesis

pub data BufferOrigin : Type 0 where
  scratch existing_file missing_file provided : BufferOrigin

-- `kind` is "ordinary" in every genesis.
pub record InitialBuffer : Type 0 where
  pub buffer_id : Str
  pub origin : BufferOrigin
  pub text : Str
  pub point : ℕ
  pub mark : Option ℕ
  pub file_path : Option Str
  pub modified : Bool
  pub saved_text : Option Str
  pub line_ending : LineEnding

pub record InitialWindow : Type 0 where
  pub buffer_id : Str
  pub point : ℕ
  pub mark : Option ℕ

pub record SessionGenesis : Type 0 where
  pub initial_buffer : InitialBuffer
  pub initial_windows : List InitialWindow
  pub focused_window : ℕ
  pub frame : FrameGenesis

unfoldable pub is_crlf : LineEnding → Bool
is_crlf crlf = true
is_crlf lf = false

unfoldable pub saved_is : Option Str → Str → Bool
saved_is none text = false
saved_is (some saved) text = str_eq saved text

unfoldable pub has_path : Option Str → Bool
has_path none = false
has_path (some path) = not (is_empty path)

unfoldable pub is_none {ℓ} : {A : Type ℓ} → Option A → Bool
is_none none = true
is_none (some a) = false

-- not modified and saved_text == text
unfoldable pub clean_basis : InitialBuffer → Bool
unfolding saved_is
clean_basis b = not b.modified && saved_is b.saved_text b.text

unfoldable pub origin_valid : BufferOrigin → InitialBuffer → Bool
unfolding clean_basis is_none has_path is_crlf
origin_valid scratch b =
    str_eq b.buffer_id (codes "scratch")
    && (is_none b.file_path && (is_empty b.text && (clean_basis b && not (is_crlf b.line_ending))))
origin_valid existing_file b = has_path b.file_path && clean_basis b
origin_valid missing_file b =
    has_path b.file_path && (is_empty b.text && (clean_basis b && not (is_crlf b.line_ending)))
origin_valid provided b = if b.modified then is_none b.saved_text else clean_basis b

unfoldable pub in_text : InitialBuffer → Bool
in_text b = leb b.point (length b.text) && mark_fits b.mark (length b.text)

-- The text has no CRLF that the line ending stands for.
unfoldable pub is_canonical : InitialBuffer → Bool
unfolding is_crlf
is_canonical b =
    not (is_crlf (detect_line_ending b.text) || (is_crlf b.line_ending && has_crlf b.text))

-- `InitialBufferGenesis.__post_init__`
unfoldable pub validated : InitialBuffer → Result InitialBuffer
unfolding in_text is_canonical origin_valid
validated b =
    if is_empty b.buffer_id
    then raise type_error
    else if in_text b && (is_canonical b && origin_valid b.origin b)
    then ok b
    else raise value_error

-- text.count(CRLF)
unfoldable pub count_crlf : Str → ℕ
count_crlf [] = 0
count_crlf (c ∷ []) = 0
count_crlf (c ∷ d ∷ s) = elim (c == carriage_return && d == newline) [
  | true ↦ suc (count_crlf s)
  | false ↦ count_crlf (d ∷ s)
]

-- `_shift_index`
unfoldable pub shift_index : Str → ℕ → ℕ
unfolding count_crlf
shift_index file_text index = index - count_crlf (take index file_text)

unfoldable pub shift_mark : (ℕ → ℕ) → Option ℕ → Option ℕ
shift_mark shift none = none
shift_mark shift (some mark) = some (shift mark)

unfoldable pub prepare_provided_buffer : Str → BufferValue → Result InitialBuffer
unfolding shift_mark validated
prepare_provided_buffer buffer_id raw =
    let line_ending = detect_line_ending raw.text in
    let text = to_buffer_text raw.text line_ending in
    let shift : ℕ → ℕ =
      (λ index. if str_eq text raw.text then index else shift_index raw.text index) in
    validated (record {
      buffer_id = buffer_id;
      origin = provided;
      text = text;
      point = shift raw.point;
      mark = shift_mark shift raw.mark;
      file_path = raw.file_path;
      modified = raw.modified;
      saved_text = if raw.modified then none else some text;
      line_ending = line_ending;
    })

-- `_genesis`: the one window shows the buffer at its own place.
unfoldable pub genesis_of : InitialBuffer → FrameGenesis → SessionGenesis
genesis_of initial frame = record {
  initial_buffer = initial;
  initial_windows =
      (record { buffer_id = initial.buffer_id; point = initial.point; mark = initial.mark }) ∷ [];
  focused_window = 0;
  frame = frame;
}

unfoldable pub scratch_genesis : FrameGenesis → Result SessionGenesis
unfolding validated genesis_of
scratch_genesis frame = do
  initial ← validated (record {
    buffer_id = codes "scratch";
    origin = scratch;
    text = [];
    point = 0;
    mark = none;
    file_path = none;
    modified = false;
    saved_text = some [];
    line_ending = lf;
  })
  ok (genesis_of initial frame)

unfoldable pub origin_of : Origin → BufferOrigin
origin_of Origin.existing_file = existing_file
origin_of Origin.missing_file = missing_file

unfoldable pub opened_genesis : VisitOpened → FrameGenesis → Result SessionGenesis
unfolding validated genesis_of origin_of
opened_genesis visit frame = do
  initial ← validated (record {
    buffer_id = visit.buffer_id;
    origin = origin_of visit.origin;
    text = visit.text;
    point = 0;
    mark = none;
    file_path = some visit.path;
    modified = false;
    saved_text = some visit.saved_text;
    line_ending = visit.line_ending;
  })
  ok (genesis_of initial frame)

unfoldable pub provided_genesis : Str → BufferValue → FrameGenesis → Result SessionGenesis
unfolding prepare_provided_buffer genesis_of
provided_genesis buffer_id value frame = do
  initial ← prepare_provided_buffer buffer_id value
  ok (genesis_of initial frame)
