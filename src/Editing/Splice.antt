-- ===== src/Editing/Splice.antt =====
-- Lengths and patches of `splice`.
use drei.Base.{
  ℕ, ◌+◌, ◌-◌, ◌≤◌, ◌≡◌, refl, Str, ◌++◌, length, take, drop, length-append, length-take,
  length-drop, arith,
}
use drei.Buffer.{MarkIn}
use drei.Editing.Text.{splice, slice}
use drei.Editing.State.{UndoGroup}
use drei.Editing.Groups.{Patches, cut}

pub length-splice :
    (text : Str) (start stop : ℕ) (new : Str)
    → start ≤ stop
    → stop ≤ length text
    → length (splice text start stop new) ≡ length text - (stop - start) + length new
unfolding splice
length-splice text start stop new h k = omega (
  arith,
  length-append (take start text) (new ++ drop stop text),
  length-append new (drop stop text),
  length-take start text,
  length-drop stop text,
)

-- A group whose removed text is what stands between two places patches the text there.
pub Patches-splice :
    (g : UndoGroup) (text : Str) (stop : ℕ)
    → g.start ≤ stop
    → stop ≤ length text
    → g.removed_text ≡ slice text g.start stop
    → g.point_before ≤ length text
    → MarkIn g.mark_before (length text)
    → g.point_after ≤ length (splice text g.start stop g.inserted_text)
    → MarkIn g.mark_after (length (splice text g.start stop g.inserted_text))
    → Patches g text (splice text g.start stop g.inserted_text)
Patches-splice g text stop h k removed pb mb pa ma = record {
  left = take g.start text;
  right = drop stop text;
  before_eq = rw removed (cut text g.start stop h);
  after_eq = unfold splice in refl;
  left_length = omega (arith, length-take g.start text);
  point_before_in = pb;
  mark_before_in = mb;
  point_after_in = pa;
  mark_after_in = ma;
}
