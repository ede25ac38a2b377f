-- ===== src/Editing/Groups.antt =====
-- Undo groups as patches of a text: what `splice` does at the place of a group, and stacks of
-- groups that fit the text.
use drei.Base.{
  ℕ, zero, suc, ◌+◌, ◌-◌, ◌≤◌, ◌≡◌, refl, sym, Str, List, [], ◌∷◌, ◌++◌, Option, none, some, length,
  length-drop, take, drop, take-append, drop-append, drop-drop, take-append-drop, length-append,
  length-take, append_assoc, arith,
}
use drei.Buffer.{MarkIn}
use drei.Editing.Text.{splice, slice}
use drei.Editing.State.{UndoGroup}

-- `g` takes the text `before` to the text `after`, and both its points and marks lie in them.
pub record Patches (g : UndoGroup) (before after : Str) : Type 0 where
  pub left : Str
  pub right : Str
  pub before_eq : before ≡ left ++ (g.removed_text ++ right)
  pub after_eq : after ≡ left ++ (g.inserted_text ++ right)
  pub left_length : length left ≡ g.start
  pub point_before_in : g.point_before ≤ length before
  pub mark_before_in : MarkIn g.mark_before (length before)
  pub point_after_in : g.point_after ≤ length after
  pub mark_after_in : MarkIn g.mark_after (length after)

-- The groups can be undone one by one, newest first.
abbrev pub CanUndo : List UndoGroup → Str → Type 0
CanUndo [] t = Unit
CanUndo (g ∷ gs) t = (u : Str) × Patches g u t × CanUndo gs u

-- The groups can be redone one by one, newest first.
abbrev pub CanRedo : List UndoGroup → Str → Type 0
CanRedo [] t = Unit
CanRedo (g ∷ gs) t = (u : Str) × Patches g t u × CanRedo gs u

pub splice-parts :
    (left middle right new : Str) (start stop : ℕ)
    → length left ≡ start
    → start + length middle ≡ stop
    → splice (left ++ (middle ++ right)) start stop new ≡ left ++ (new ++ right)
unfolding splice
splice-parts left middle right new start stop p q = rw (
  take-append left (middle ++ right) start p,
  ← drop-drop start (length middle) stop (left ++ (middle ++ right)) q,
  drop-append left (middle ++ right) start p,
  drop-append middle right (length middle) refl,
)

pub slice-parts :
    (left middle right : Str) (start stop : ℕ)
    → length left ≡ start
    → start + length middle ≡ stop
    → slice (left ++ (middle ++ right)) start stop ≡ middle
unfolding slice
slice-parts left middle right start stop p q =
    rw (drop-append left (middle ++ right) start p)
      (take-append middle right (stop - start) (omega arith))

-- A text is cut at two places.
pub cut :
    (text : Str) (start stop : ℕ)
    → start ≤ stop
    → text ≡ take start text ++ (slice text start stop ++ drop stop text)
unfolding slice
cut text start stop h = rw (
  ← drop-drop start (stop - start) stop text (omega arith),
  take-append-drop (stop - start) (drop start text),
  take-append-drop start text,
)

pub length-slice :
    (text : Str) (start stop : ℕ)
    → start ≤ stop
    → stop ≤ length text
    → length (slice text start stop) ≡ stop - start
unfolding slice
length-slice text start stop h k =
    omega (arith, length-take (stop - start) (drop start text), length-drop start text)

module _ (g : UndoGroup) {before after : Str} (p : Patches g before after) where
  pub splice_undo : splice after g.start (g.start + length g.inserted_text) g.removed_text ≡ before
  splice_undo =
      rw
        (
          p.after_eq,
          splice-parts p.left g.inserted_text p.right g.removed_text _ _ p.left_length refl,
        )
        (sym p.before_eq)

  pub splice_redo : splice before g.start (g.start + length g.removed_text) g.inserted_text ≡ after
  splice_redo =
      rw
        (
          p.before_eq,
          splice-parts p.left g.removed_text p.right g.inserted_text _ _ p.left_length refl,
        )
        (sym p.after_eq)

pub MarkIn-mono : (m : Option ℕ) (n k : ℕ) → n ≤ k → MarkIn m n → MarkIn m k
MarkIn-mono none n k h i = tt
MarkIn-mono (some m) n k h i = omega arith

-- Text that is appended to both sides is no concern of a group.
pub Patches-append :
    (g : UndoGroup) {before after : Str} (suffix : Str)
    → Patches g before after
    → Patches g (before ++ suffix) (after ++ suffix)
Patches-append g {before} {after} suffix p = record {
  left = p.left;
  right = p.right ++ suffix;
  before_eq = rw p.before_eq (simp append_assoc);
  after_eq = rw p.after_eq (simp append_assoc);
  left_length = p.left_length;
  point_before_in = omega (arith, length-append before suffix, p.point_before_in);
  mark_before_in =
      MarkIn-mono g.mark_before _ _ (omega (arith, length-append before suffix)) p.mark_before_in;
  point_after_in = omega (arith, length-append after suffix, p.point_after_in);
  mark_after_in =
      MarkIn-mono g.mark_after _ _ (omega (arith, length-append after suffix)) p.mark_after_in;
}

pub CanUndo-append :
    (gs : List UndoGroup) (t suffix : Str) → CanUndo gs t → CanUndo gs (t ++ suffix)
CanUndo-append [] t suffix h = tt
CanUndo-append (g ∷ gs) t suffix (u, p, rest) =
    (u ++ suffix, Patches-append g suffix p, CanUndo-append gs u suffix rest)

pub CanRedo-append :
    (gs : List UndoGroup) (t suffix : Str) → CanRedo gs t → CanRedo gs (t ++ suffix)
CanRedo-append [] t suffix h = tt
CanRedo-append (g ∷ gs) t suffix (u, p, rest) =
    (u ++ suffix, Patches-append g suffix p, CanRedo-append gs u suffix rest)

-- Forgetting the oldest groups leaves the others.
pub CanUndo-take : (n : ℕ) (gs : List UndoGroup) (t : Str) → CanUndo gs t → CanUndo (take n gs) t
CanUndo-take zero gs t h = tt
CanUndo-take (suc n) [] t h = tt
CanUndo-take (suc n) (g ∷ gs) t (u, p, rest) = (u, p, CanUndo-take n gs u rest)
