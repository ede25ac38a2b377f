-- ===== src/Editing/Outcome.antt =====
-- The outcome of an editing command with its bookkeeping, as the modules of Keeps state it.
use drei.Base.{◌≡◌, ◌≤◌, refl, List, Str, length, Result, ok, Returns, ◌>>=◌, some, none, subst}
use drei.Buffer.{BufferValue, InBounds, checked, checked-ok}
use drei.Commands.{Command, Event}
use drei.Editing.Text.{Edit, kill_ring_capacity}
use drei.Editing.Bookkeeping.{bookkeeping, make_group}
use drei.Editing.Groups.{Patches}
use drei.Editing.Invariant.{IsValid}
use drei.Editing.State.{UndoGroup}

pub record IsKept (cmd : Command) (current : BufferValue) (e : Edit) : Type 0 where
  pub valid : IsValid e.value (bookkeeping cmd current e.events e.state)
  pub ring_bound : length e.ring ≤ kill_ring_capacity
  pub patched :
      (g : UndoGroup) → make_group current e.events ≡ some g → Patches g current.text e.value.text

-- The one group of an event.
pub one_group :
    {g g' : UndoGroup} {before after : Str}
    → some g ≡ some g'
    → Patches g before after
    → Patches g' before after
one_group {g} {g'} {before} {after} e p =
    let same : g ≡ g' = cc in subst (λ x. Patches x before after) same p

pub no_patch :
    (current : BufferValue) (events : List Event) {g : UndoGroup} {before after : Str}
    → make_group current events ≡ none
    → make_group current events ≡ some g
    → Patches g before after
no_patch current events p q = cc

abbrev pub Keeps : Command → BufferValue → Result Edit → Type 0
Keeps cmd current r = Returns r (IsKept cmd current)

-- An arm that builds its new value in bounds returns.
pub checked-Returns {ℓ κ} :
    {A : Type ℓ} {P : A → Type κ} (v : BufferValue) (f : BufferValue → A)
    → InBounds v
    → P (f v)
    → Returns (checked v >>= λ w. ok (f w)) P
checked-Returns v f b p = (f v, rw (checked-ok v b) refl, p)
