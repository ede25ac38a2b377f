-- ===== src/Input.antt =====
-- The event queue of input.py as a state that its operations pass on. A wait is a result,
-- `blocked`: the lock and the threads are left out, and each operation is one step.
mod Examples
pub mod Lanes
use drei.Base.{ℕ, ℤ, Str, Bool, true, false, List, [], ◌∷◌, ◌++◌, Option, none, some, if◌then◌else◌}

pub data InputEvent : Type 0 where
  key : Str → InputEvent
  resize : ℕ → ℕ → InputEvent
  agent_bytes : List ℕ → InputEvent
  agent_stderr : List ℕ → InputEvent
  agent_exited : Option ℤ → InputEvent

-- An event, or the report of a producer that died; the exception is what it carries.
pub data Item (Failure : Type 0) : Type 0 where
  event : InputEvent → Item Failure
  producer_failed : Failure → Item Failure

-- isinstance(event, _PRIORITY)
unfoldable pub is_priority : InputEvent → Bool
is_priority (key char) = true
is_priority (resize width height) = true
is_priority _ = false

module _ (Failure : Type 0) where
  pub record EventQueue : Type 0 where
    pub priority : List (Item Failure)
    pub background : List InputEvent
    pub closed : Bool

  abbrev pub new_queue : EventQueue
  new_queue = record { priority = []; background = []; closed = false }

  unfoldable pub put : InputEvent → EventQueue → EventQueue
  unfolding is_priority
  put e q =
      if q.closed
      then q
      else if is_priority e
      then record q { priority = q.priority ++ event e ∷ [] }
      else record q { background = q.background ++ e ∷ [] }

  unfoldable pub fail : Failure → EventQueue → EventQueue
  fail error q =
      if q.closed then q else record q { priority = q.priority ++ producer_failed error ∷ [] }

  -- What `next_event` does: it returns an event, raises what a producer reported, raises
  -- `EndOfInput`, or waits.
  pub data Next : Type 0 where
    returned : InputEvent → Next
    raised : Failure → Next
    end_of_input blocked : Next

  unfoldable pub of_item : Item Failure → Next
  of_item (event e) = returned e
  of_item (producer_failed error) = raised error

  unfoldable pub take_next : List (Item Failure) → List InputEvent → Bool → EventQueue × Next
  unfolding of_item
  take_next (item ∷ items) events c =
      (record { priority = items; background = events; closed = c }, of_item item)
  take_next [] (e ∷ events) c =
      (record { priority = []; background = events; closed = c }, returned e)
  take_next [] [] true = (record { priority = []; background = []; closed = true }, end_of_input)
  take_next [] [] false = (record { priority = []; background = []; closed = false }, blocked)

  unfoldable pub next_event : EventQueue → EventQueue × Next
  unfolding take_next
  next_event q = take_next q.priority q.background q.closed

  unfoldable pub close : EventQueue → EventQueue
  close q = record q { closed = true }
