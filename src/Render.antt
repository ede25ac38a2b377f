-- ===== src/Render.antt =====
-- Rows and the frame of one buffer, render.py, with the observations of
-- commands.py. A row is its code points; a size is a number of cells that is not negative.
pub mod Stack
pub mod Heights
pub mod Rows
pub mod Panes
mod Examples
pub mod Lone
use drei.Base.{
  ℕ, zero, suc, ◌+◌, ◌-◌, ◌*◌, ◌/◌, min, max, Str, codes, is_empty, Bool, true, false, ◌&&◌, List,
  [], ◌∷◌, ◌++◌, Option, none, some, if◌then◌else◌, ◌==◌, ltb, leb, length, take, get_elem?, Result,
  ok, required, ◌>>=◌,
}

pub record BufferObservation : Type 0 where
  pub buffer_id : Str
  pub text : Str
  pub point : ℕ
  pub file_path : Option Str
  pub modified : Bool
  pub mark : Option ℕ
  pub minibuffer : Option Str
  pub minibuffer_prompt : Option Str

pub record WindowObservation : Type 0 where
  pub buffer : BufferObservation
  pub point : ℕ
  pub mark : Option ℕ

pub record SessionObservation : Type 0 where
  pub buffers : List Str
  pub windows : List WindowObservation
  pub focused : ℕ
  pub minibuffer : Option Str
  pub minibuffer_prompt : Option Str

pub record Frame : Type 0 where
  pub rows : List Str
  pub cursor : ℕ × ℕ
  pub width : ℕ
  pub height : ℕ

-- Caret notation for control characters.
unfoldable pub sanitize : Str → Str
sanitize [] = []
sanitize (c ∷ s) =
    let rest = sanitize s in
    if ltb c 32
    then 94 ∷ (c + 64) ∷ rest
    else if c == 127
    then 94 ∷ 63 ∷ rest
    else if leb 128 c && leb c 159
    then 94 ∷ (c - 64) ∷ rest
    else c ∷ rest

unfoldable pub spaces : ℕ → Str
spaces zero = []
spaces (suc n) = 32 ∷ spaces n

-- text.ljust(width)
unfoldable pub ljust : ℕ → Str → Str
unfolding spaces
ljust width s = s ++ spaces (width - length s)

unfoldable pub clip : Str → ℕ → Str
unfolding sanitize ljust
clip text width = if width == 0 then [] else ljust width (take width (sanitize text))

-- A character before the lines that follow it.
unfoldable pub onto_first : ℕ → List Str → List Str
onto_first c [] = (c ∷ []) ∷ []
onto_first c (line ∷ lines) = (c ∷ line) ∷ lines

-- text.split("\n")
unfoldable pub split_lines : Str → List Str
unfolding onto_first
split_lines [] = [] ∷ []
split_lines (c ∷ s) =
    let lines = split_lines s in if c == 10 then [] ∷ lines else onto_first c lines

-- One row for each line, and blank rows after the last.
unfoldable pub body_rows : ℕ → List Str → ℕ → List Str
unfolding clip
body_rows width lines zero = []
body_rows width [] (suc n) = clip [] width ∷ body_rows width [] n
body_rows width (line ∷ lines) (suc n) = clip line width ∷ body_rows width lines n

unfoldable pub render_body : Str → ℕ → ℕ → List Str
unfolding body_rows split_lines
render_body text width body_height = body_rows width (split_lines text) body_height

unfoldable pub modeline : BufferObservation → Str
modeline o =
    codes "Drei: "
    ++ (o.buffer_id ++ (codes " " ++ (if o.modified then codes "**" else codes "--")))

-- The loop of `_cursor_position` over the lines.
unfoldable pub seek : List Str → ℕ → ℕ → ℕ → ℕ → ℕ × ℕ
unfolding sanitize
seek [] row remaining width body_height = (body_height - 1, 0)
seek (line ∷ lines) row remaining width body_height =
    let further = seek lines (row + 1) (remaining - (length line + 1)) width body_height in
    if leb remaining (length line)
    then (min row (body_height - 1), min (length (sanitize (take remaining line))) (width - 1))
    else further

unfoldable pub cursor_position : Str → ℕ → ℕ → ℕ → ℕ × ℕ
unfolding seek split_lines
cursor_position text point width body_height =
    if body_height == 0
    then (0, 0)
    else if width == 0
    then (0, 0)
    else seek (split_lines text) 0 point width body_height

unfoldable pub or_empty : Option Str → Str
or_empty none = []
or_empty (some s) = s

unfoldable pub noted_prompt : Str → Str → Str
noted_prompt prompt note =
    if is_empty note then prompt else prompt ++ (codes "[" ++ (note ++ codes "]"))

-- The prompt with its note, and the input.
unfoldable pub prompt_row : Option Str → Str → Str → Str
unfolding noted_prompt or_empty
prompt_row prompt note input = noted_prompt (or_empty prompt) note ++ input

-- The end of the prompt, within the row.
unfoldable pub prompt_column : Str → ℕ → ℕ
unfolding sanitize
prompt_column content width = min (length (sanitize content)) (width - 1)

unfoldable pub render_single_row :
    BufferObservation → ℕ → Str → Str → Option Str → Option Str → Frame
unfolding prompt_row prompt_column clip modeline
render_single_row o width echo note (some input) prompt =
    let content = prompt_row prompt note input in
    record {
      rows = clip content width ∷ [];
      cursor = (0, prompt_column content width);
      width = width;
      height = 1;
    }
render_single_row o width echo note none prompt =
    let content = if is_empty echo then modeline o else echo in
    record { rows = clip content width ∷ []; cursor = (0, 0); width = width; height = 1 }

unfoldable pub echo_row : Option Str → Option Str → Str → Str → ℕ → Str
unfolding clip prompt_row
echo_row (some input) prompt echo note width = clip (prompt_row prompt note input) width
echo_row none prompt echo note width = clip echo width

-- The cursor on the echo row while the minibuffer is open.
unfoldable pub first_cursor : Option Str → Option Str → Str → ℕ → ℕ → ℕ × ℕ
unfolding prompt_row prompt_column
first_cursor (some input) prompt note width height =
    (height - 1, prompt_column (prompt_row prompt note input) width)
first_cursor none prompt note width height = (0, 0)

abbrev pub no_rows : ℕ → ℕ → Frame
no_rows width height = record { rows = []; cursor = (0, 0); width = width; height = height }

-- The frame of one buffer.
unfoldable pub body_cursor : BufferObservation → ℕ → ℕ → Str → ℕ × ℕ
unfolding render_body cursor_position prompt_row prompt_column
body_cursor o width height note = elim o.minibuffer [
  | none ↦ cursor_position o.text o.point width (height - 2)
  | some input ↦ (
    length (render_body o.text width (height - 2)) + 1,
    prompt_column (prompt_row o.minibuffer_prompt note input) width,
  )
]

unfoldable pub render : BufferObservation → ℕ → ℕ → Str → Str → Frame
unfolding render_single_row render_body clip modeline echo_row body_cursor
render o width height echo note =
    if height == 0
    then no_rows width height
    else if height == 1
    then render_single_row o width echo note o.minibuffer o.minibuffer_prompt
    else record {
      rows =
          render_body o.text width (height - 2)
          ++ clip (modeline o) width
            ∷ echo_row o.minibuffer o.minibuffer_prompt echo note width
            ∷ [];
      cursor = body_cursor o width height note;
      width = width;
      height = height;
    }
