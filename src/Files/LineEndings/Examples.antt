-- ===== src/Files/LineEndings/Examples.antt =====
-- Line endings of small texts.
use drei.Base.{◌≡◌, refl, Str, [], ◌∷◌}
use drei.Files.LineEndings.{crlf, detect_line_ending, to_buffer_text, to_file_text}
use drei.Files.LineEndings.RoundTrip.{to_file_text-to_buffer_text}

-- "a\r\nb\r\n"
abbrev dos_text : Str
dos_text = 97 ∷ 13 ∷ 10 ∷ 98 ∷ 13 ∷ 10 ∷ []

dos_text-crlf : detect_line_ending dos_text ≡ crlf
unfolding detect_line_ending
dos_text-crlf = refl

to_file_text-to_buffer_text_example :
    to_file_text
      (to_buffer_text dos_text (detect_line_ending dos_text))
      (detect_line_ending dos_text)
    ≡ dos_text
to_file_text-to_buffer_text_example = to_file_text-to_buffer_text dos_text
