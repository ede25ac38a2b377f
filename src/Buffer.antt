-- ===== src/Buffer.antt =====
-- A buffer's value, drei/model.py, and the marker rules of session.py. The shell `Buffer` is a
-- mutable cell with an identity; a session keeps its value under its name (Session.antt).
use drei.Base.{
  ℕ, ◌+◌, ◌-◌, ◌≤◌, ◌≡◌, refl, Str, Bool, true, ◌&&◌, Option, none, some, length, leb, ltb,
  if◌then◌else◌, Result, ok, raise, value_error, le→leb, arith, false,
}

pub record BufferValue : Type 0 where
  pub text : Str
  pub point : ℕ
  pub file_path : Option Str
  pub modified : Bool
  pub mark : Option ℕ

unfoldable pub mark_fits : Option ℕ → ℕ → Bool
mark_fits none n = true
mark_fits (some m) n = leb m n

-- `__post_init__`: building a value outside its text raises.
unfoldable pub checked : BufferValue → Result BufferValue
unfolding mark_fits
checked v =
    if leb v.point (length v.text) && mark_fits v.mark (length v.text)
    then ok v
    else raise value_error

unfoldable pub adjust_mark_insert : Option ℕ → ℕ → ℕ → Option ℕ
adjust_mark_insert none at count = none
adjust_mark_insert (some mark) at count = some (if ltb at mark then mark + count else mark)

unfoldable pub adjust_mark_delete : Option ℕ → ℕ → ℕ → Option ℕ
adjust_mark_delete none start stop = none
adjust_mark_delete (some mark) start stop =
    some (if leb stop mark then mark - (stop - start) else if ltb start mark then start else mark)

-- A mark, if there is one, lies within a text of the given length.
abbrev pub MarkIn : Option ℕ → ℕ → Type 0
MarkIn none n = Unit
MarkIn (some m) n = m ≤ n

-- The invariant that `__post_init__` enforces.
pub record InBounds (v : BufferValue) : Type 0 where
  pub point_in : v.point ≤ length v.text
  pub mark_in : MarkIn v.mark (length v.text)

MarkIn-mark_fits : (m : Option ℕ) (n : ℕ) → MarkIn m n → mark_fits m n ≡ true
unfolding mark_fits
MarkIn-mark_fits none n h = refl
MarkIn-mark_fits (some m) n h = le→leb m n h

pub checked-ok : (v : BufferValue) → InBounds v → checked v ≡ ok v
unfolding checked
checked-ok v h = ground (arith, MarkIn-mark_fits v.mark (length v.text) h.mark_in, h.point_in)

-- The marker stays in the text that insertion makes.
pub adjust_mark_insert-MarkIn :
    (m : Option ℕ) (at count n : ℕ)
    → MarkIn m n
    → MarkIn (adjust_mark_insert m at count) (n + count)
unfolding adjust_mark_insert
adjust_mark_insert-MarkIn none at count n h = tt
adjust_mark_insert-MarkIn (some m) at count n h = ground arith

-- The marker stays in the text that deletion leaves.
pub adjust_mark_delete-MarkIn :
    (m : Option ℕ) (start stop n : ℕ)
    → start ≤ stop
    → stop ≤ n
    → MarkIn m n
    → MarkIn (adjust_mark_delete m start stop) (n - (stop - start))
unfolding adjust_mark_delete
adjust_mark_delete-MarkIn none start stop n p q h = tt
adjust_mark_delete-MarkIn (some m) start stop n p q h = ground arith

only_ok :
    (fits : Bool) (v w : BufferValue) → (if fits then ok v else raise value_error) ≡ ok w → w ≡ v
only_ok true v w h = cc
only_ok false v w h = cc

-- Building a value changes nothing of it.
pub checked_same : (v w : BufferValue) → checked v ≡ ok w → w ≡ v
unfolding checked
checked_same v w h = only_ok _ v w h
