-- ===== src/Session/Invariant.antt =====
-- The invariant of a session: what is stored, and what the minibuffer is doing.
use drei.Base.{
  ℕ, ◌≤◌, ◌≡◌, ◌≢◌, Str, Assoc, AllValues, All, contains, lookup, true, List, [], Option, none,
  some, length, get_elem?,
}
use drei.Acp.Effects.{PermissionRequested}
use drei.Editing.Text.{kill_ring_capacity}
use drei.Editing.State.{generated}
use drei.Editing.Invariant
use drei.Session.State.{Entry, WindowValue, MinibufferKind, save_buffer, Session}

abbrev pub EntryIsValid : Entry → Type 0
EntryIsValid e = Invariant.IsValid e.value e.state

-- The buffer exists and was generated.
abbrev pub IsGenerated : Assoc Entry → Str → Type 0
IsGenerated buffers buffer_id =
    (e : Entry) × (lookup buffer_id buffers ≡ some e) × (e.state.kind ≡ generated)

-- Every buffer is valid; the current one exists; every window shows one that exists, the focused
-- one the current buffer; the kill ring is bounded; what is bound to the agent is generated.
pub record IsStored (buffers : Assoc Entry) (current_id : Str) (windows : List WindowValue)
    (focused : ℕ) (ring : List Str) (agents generated_names : Assoc Str) : Type 0 where
  pub entries : AllValues EntryIsValid buffers
  pub current_in : contains current_id buffers ≡ true
  pub windows_in : All (λ (w : WindowValue). contains w.buffer_id buffers ≡ true) windows
  pub focus_shows :
      (w : WindowValue) × (get_elem? windows focused ≡ some w) × (w.buffer_id ≡ current_id)
  pub ring_bound : length ring ≤ kill_ring_capacity
  pub agents_in : AllValues (IsGenerated buffers) agents
  pub generated_in : AllValues (IsGenerated buffers) generated_names

-- A permission prompt has the minibuffer to itself; a text or exit prompt has its kind; buffers
-- are pending exactly while an offer to save one stands.
abbrev pub IsPrompted :
    Option PermissionRequested → Option Str → Option MinibufferKind → List (Str × Str) → Type 0
IsPrompted (some request) minibuffer kind pending =
    (minibuffer ≡ some []) × (kind ≡ none) × (pending ≡ [])
IsPrompted none none kind pending = (kind ≡ none) × (pending ≡ [])
IsPrompted none (some input) none pending = ⊥
IsPrompted none (some input) (some save_buffer) pending = pending ≢ []
IsPrompted none (some input) (some kind) pending = pending ≡ []

pub record IsValid (s : Session) : Type 0 where
  pub stored :
      IsStored s.buffers s.current_id s.windows s.focused s.kill_ring s.agent_buffers
        s.generated_buffers
  pub prompted : IsPrompted s.choice s.minibuffer s.minibuffer_kind s.exit_pending
  pub pending_in : All (λ (p : Str × Str). contains p.0 s.buffers ≡ true) s.exit_pending
