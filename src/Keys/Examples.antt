-- ===== src/Keys/Examples.antt =====
-- Chords.
use drei.Base.{ℕ, ◌≡◌, refl, Str, codes, Bool, true, false, none, some, leb}
use drei.Commands.{keyboard_quit, save_buffer}
use drei.Keys.{resolved, pending_key, resolve}
use drei.Keys.Chords.{is_pending, resolve-is_pending}

abbrev pub ascii_printable : ℕ → Bool
ascii_printable c = leb 32 c

begins_chord : resolve ascii_printable none (codes "C-x") ≡ pending_key (codes "C-x")
unfolding resolve drei.Base.str_eq
begins_chord = refl

ends_chord : resolve ascii_printable (some (codes "C-x")) (codes "C-s") ≡ resolved save_buffer
unfolding resolve drei.Base.str_eq
ends_chord = refl

resolve-is_pending_example :
    (is_pending (resolve ascii_printable (some (codes "C-x")) (codes "q")) ≡ false)
    × (resolve ascii_printable (some (codes "C-c")) (codes "C-g") ≡ resolved keyboard_quit)
resolve-is_pending_example =
    resolve-is_pending ascii_printable (codes "C-x") (codes "q") (some (codes "C-c"))
