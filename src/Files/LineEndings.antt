-- ===== src/Files/LineEndings.antt =====
-- Line endings: `detect_line_ending`, `to_buffer_text` and `to_file_text` of drei/files.py.
pub mod RoundTrip
mod Examples
use drei.Base.{ℕ, Str, Bool, true, false, ◌||◌, ◌&&◌, List, [], ◌∷◌, ◌++◌, ◌==◌, if◌then◌else◌}

pub data LineEnding : Type 0 where
  lf crlf : LineEnding

abbrev pub carriage_return : ℕ
carriage_return = 13

abbrev pub newline : ℕ
newline = 10

-- text.replace(CRLF, by)
unfoldable pub replace_crlf : Str → Str → Str
replace_crlf by [] = []
replace_crlf by (c ∷ []) = c ∷ []
replace_crlf by (c ∷ d ∷ s) = elim (c == carriage_return && d == newline) [
  | true ↦ by ++ replace_crlf by s
  | false ↦ c ∷ replace_crlf by (d ∷ s)
]

-- CRLF in text
unfoldable pub has_crlf : Str → Bool
has_crlf [] = false
has_crlf (c ∷ []) = false
has_crlf (c ∷ d ∷ s) = (c == carriage_return && d == newline) || has_crlf (d ∷ s)

-- "\r" in rest or "\n" in rest
unfoldable pub has_break : Str → Bool
has_break [] = false
has_break (c ∷ s) = (c == carriage_return || c == newline) || has_break s

-- text.replace(LF, CRLF)
unfoldable pub expand_lf : Str → Str
expand_lf [] = []
expand_lf (c ∷ s) =
    if c == newline then carriage_return ∷ newline ∷ expand_lf s else c ∷ expand_lf s

unfoldable pub detect_line_ending : Str → LineEnding
unfolding has_crlf replace_crlf has_break
detect_line_ending text =
    if has_crlf text then (if has_break (replace_crlf [] text) then lf else crlf) else lf

unfoldable pub to_buffer_text : Str → LineEnding → Str
unfolding replace_crlf
to_buffer_text file_text crlf = replace_crlf (newline ∷ []) file_text
to_buffer_text file_text lf = file_text

unfoldable pub to_file_text : Str → LineEnding → Str
unfolding replace_crlf expand_lf
to_file_text buffer_text lf = buffer_text
to_file_text buffer_text crlf = expand_lf (replace_crlf (newline ∷ []) buffer_text)
