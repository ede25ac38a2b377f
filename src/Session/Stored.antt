-- ===== src/Session/Stored.antt =====
-- What keeps `IsStored`: writing an entry, adding one, changing the layout.
use drei.Base.{
  ℕ, ◌≤◌, ◌≡◌, Str, str_eq, str_eq_iff, Assoc, AllValues-insert, All, All-mono, contains,
  contains-insert_mono, lookup, lookup-insert, insert, true, List, some, length, get_elem?,
  Bool-cases, inl, inr, contains-lookup,
}
use drei.Editing.Text.{kill_ring_capacity}
use drei.Session.State.{Entry, WindowValue}
use drei.Session.Invariant.{EntryIsValid, IsGenerated, IsStored}

-- An entry that keeps the kind of the one that it replaces, if there is one.
abbrev pub KeepsKind : Str → Entry → Assoc Entry → Type 0
KeepsKind k e buffers = (old : Entry) → lookup k buffers ≡ some old → e.state.kind ≡ old.state.kind

pub IsGenerated-insert :
    (k : Str) (e : Entry) (buffers : Assoc Entry) (buffer_id : Str)
    → KeepsKind k e buffers
    → IsGenerated buffers buffer_id
    → IsGenerated (insert k e buffers) buffer_id
IsGenerated-insert k e buffers buffer_id same (old, found, kind) =
    elim (Bool-cases (str_eq k buffer_id)) [
      | inl eq ↦
          let k_is : k ≡ buffer_id = (str_eq_iff k buffer_id).0 eq in
          let found' : lookup k buffers ≡ some old = rw k_is found in
          (e, rw (lookup-insert, eq), cc (same old found'))
      | inr ne ↦ (old, rw (lookup-insert, ne) found, kind)
    ]

pub IsStored-insert :
    (k : Str) (e : Entry) {buffers : Assoc Entry} {current_id : Str} {windows : List WindowValue}
    {focused : ℕ} {ring : List Str} {agents names : Assoc Str}
    → IsStored buffers current_id windows focused ring agents names
    → EntryIsValid e
    → KeepsKind k e buffers
    → IsStored (insert k e buffers) current_id windows focused ring agents names
IsStored-insert k e {buffers} {windows = windows} {agents = agents} {names = names} h v same =
    record {
      entries = AllValues-insert EntryIsValid k e buffers h.entries v;
      current_in = contains-insert_mono k _ e buffers h.current_in;
      windows_in =
          All-mono _ windows (λ w. contains-insert_mono k w.buffer_id e buffers) h.windows_in;
      focus_shows = h.focus_shows;
      ring_bound = h.ring_bound;
      agents_in = All-mono _ agents (λ p. IsGenerated-insert k e buffers p.1 same) h.agents_in;
      generated_in = All-mono _ names (λ p. IsGenerated-insert k e buffers p.1 same) h.generated_in;
    }

pub IsStored-ring :
    {buffers : Assoc Entry} {current_id : Str} {windows : List WindowValue} {focused : ℕ}
    {ring ring' : List Str} {agents names : Assoc Str}
    → IsStored buffers current_id windows focused ring agents names
    → length ring' ≤ kill_ring_capacity
    → IsStored buffers current_id windows focused ring' agents names
IsStored-ring h b = record {
  entries = h.entries;
  current_in = h.current_in;
  windows_in = h.windows_in;
  focus_shows = h.focus_shows;
  ring_bound = b;
  agents_in = h.agents_in;
  generated_in = h.generated_in;
}

pub IsStored-layout :
    {buffers : Assoc Entry} {current_id current_id' : Str} {windows windows' : List WindowValue}
    {focused focused' : ℕ} {ring : List Str} {agents names : Assoc Str}
    → IsStored buffers current_id windows focused ring agents names
    → contains current_id' buffers ≡ true
    → All (λ (w : WindowValue). contains w.buffer_id buffers ≡ true) windows'
    → (w : WindowValue) × (get_elem? windows' focused' ≡ some w) × (w.buffer_id ≡ current_id')
    → IsStored buffers current_id' windows' focused' ring agents names
IsStored-layout h c w f = record {
  entries = h.entries;
  current_in = c;
  windows_in = w;
  focus_shows = f;
  ring_bound = h.ring_bound;
  agents_in = h.agents_in;
  generated_in = h.generated_in;
}

-- The current buffer has an entry.
pub current_entry :
    {buffers : Assoc Entry} {current_id : Str} {windows : List WindowValue} {focused : ℕ}
    {ring : List Str} {agents names : Assoc Str}
    → IsStored buffers current_id windows focused ring agents names
    → (e : Entry) × (lookup current_id buffers ≡ some e)
current_entry h = contains-lookup _ _ h.current_in
