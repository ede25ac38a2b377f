-- ===== src/Editing/Text.antt =====
-- What the editing commands share: an edit, pieces of a text, and the kill ring (session.py).
use drei.Base.{
  ℕ, suc, ◌-◌, Str, Bool, true, false, List, [], ◌∷◌, ◌++◌, take, drop, ◌==◌, if◌then◌else◌,
}
use drei.Files.LineEndings.{newline}
use drei.Buffer.{BufferValue}
use drei.Commands.{Event}
use drei.Editing.State.{BufferState}

pub record Edit : Type 0 where
  pub value : BufferValue
  pub state : BufferState
  pub ring : List Str
  pub events : List Event

abbrev pub kill_ring_capacity : ℕ
kill_ring_capacity = 60

-- text[:start] + new + text[stop:]
unfoldable pub splice : Str → ℕ → ℕ → Str → Str
splice text start stop new = take start text ++ (new ++ drop stop text)

-- text[start:stop]
unfoldable pub slice : Str → ℕ → ℕ → Str
slice text start stop = take (stop - start) (drop start text)

-- A result that changes nothing but the value and the events.
abbrev pub unchanged : BufferValue → BufferState → List Str → List Event → Edit
unchanged v st ring events = record { value = v; state = st; ring = ring; events = events }

-- A new entry in front of the ring, which holds at most sixty.
unfoldable pub push_kill : Str → List Str → List Str
push_kill killed ring = take kill_ring_capacity (killed ∷ ring)

-- A kill that continues a chain goes to the end of the newest entry.
unfoldable pub kill_entry : Bool → Str → List Str → List Str
unfolding push_kill
kill_entry true killed (newest ∷ ring) = (newest ++ killed) ∷ ring
kill_entry true killed [] = push_kill killed []
kill_entry false killed ring = push_kill killed ring

-- The distance to the next newline, or to the end: `text.find("\n", point)` from `point`.
unfoldable pub find_newline : Str → ℕ
find_newline [] = 0
find_newline (c ∷ s) = if c == newline then 0 else suc (find_newline s)
