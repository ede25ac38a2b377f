-- ===== src/Genesis/Examples.antt =====
-- A provided buffer with carriage returns.
use drei.Base.{codes, false, [], ◌∷◌, some, none, Returns, arith}
use drei.Buffer.{BufferValue}
use drei.Genesis.{prepare_provided_buffer}
use drei.Genesis.Provided.{IsPrepared, prepare_provided_buffer-IsPrepared}

-- "a\r\nb\r\n", with point after the first pair and the mark at the end.
abbrev dos_value : BufferValue
dos_value = record {
  text = 97 ∷ 13 ∷ 10 ∷ 98 ∷ 13 ∷ 10 ∷ [];
  point = 3;
  file_path = none;
  modified = false;
  mark = some 6;
}

prepare_provided_buffer-IsPrepared_example :
    Returns (prepare_provided_buffer (codes "notes") dos_value) (IsPrepared dos_value)
prepare_provided_buffer-IsPrepared_example =
    prepare_provided_buffer-IsPrepared (codes "notes") dos_value (λ e. cc)
      (record { point_in = omega arith; mark_in = omega arith })
