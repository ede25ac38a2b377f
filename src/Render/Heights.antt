-- ===== src/Render/Heights.antt =====
-- The heights of the panes.
use drei.Base.{
  arith, ℕ, zero, suc, ◌+◌, ◌-◌, ◌*◌, ◌/◌, ◌%◌, ◌≤◌, ◌<◌, ◌≡◌, refl, ap, ◌∙◌, List, [], ◌∷◌, length,
  All,
}
use drei.Render.Stack.{heights_from, window_heights}

unfoldable pub total_height : List ℕ → ℕ
total_height [] = 0
total_height (h ∷ hs) = h + total_height hs

heights_from-total :
    (base last n : ℕ) → total_height (heights_from base last (suc n)) ≡ base * n + last
unfolding total_height heights_from
heights_from-total base last zero = omega arith
heights_from-total base last (suc n) = ground (arith, heights_from-total base last n)

length-heights_from : (base last n : ℕ) → length (heights_from base last n) ≡ n
unfolding heights_from
length-heights_from base last zero = refl
length-heights_from base last (suc zero) = refl
length-heights_from base last (suc (suc n)) = ap suc (length-heights_from base last (suc n))

heights_from-positive :
    (base last n : ℕ) → 1 ≤ base → 1 ≤ last → All (λ h. 1 ≤ h) (heights_from base last n)
unfolding heights_from
heights_from-positive base last zero b l = tt
heights_from-positive base last (suc zero) b l = (l, tt)
heights_from-positive base last (suc (suc n)) b l = (b, heights_from-positive base last (suc n) b l)

quotient_lem : (a b q r : ℕ) → a ≡ b * q + r → r < b → b ≤ a → 1 ≤ q
quotient_lem a b zero r h k l = omega arith
quotient_lem a b (suc q) r h k l = omega arith

remainder_lem : (a n q r : ℕ) → a ≡ suc n * q + r → q * n + (q + (a - q * suc n)) ≡ a
remainder_lem a n q r h = grind arith

-- The panes' heights fill the rows above the echo row, and each pane has a modeline.
pub window_heights-fill :
    (budget n : ℕ)
    → suc n ≤ budget
    → (total_height (window_heights budget (suc n)) ≡ budget)
      × (length (window_heights budget (suc n)) ≡ suc n)
      × All (λ h. 1 ≤ h) (window_heights budget (suc n))
unfolding window_heights
window_heights-fill budget n h =
    let base = budget / suc n in
    let last = base + (budget - base * suc n) in
    let some_rows : 1 ≤ base =
      quotient_lem budget (suc n) base (budget % suc n) (omega arith) (omega arith) h in
    (
      heights_from-total base last n ∙ remainder_lem budget n base (budget % suc n) (omega arith),
      length-heights_from base last (suc n),
      heights_from-positive base last (suc n) some_rows (omega arith),
    )
