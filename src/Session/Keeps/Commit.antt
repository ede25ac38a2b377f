-- ===== src/Session/Keeps/Commit.antt =====
-- The end of a dispatch: the bookkeeping and the commit, from what an arm has left.
use drei.Base.{
  ℕ, zero, suc, ◌≡◌, refl, ◌∙◌, lookup-insert_self, ap, Str, str_eq, All, All-mono, contains,
  contains-insert_mono, lookup, insert, insert-insert, Bool, true, false, List, [], ◌∷◌, ◌++◌,
  Option, none, some, get_elem?, Result, Returns, arith,
}
use drei.Buffer.{BufferValue}
use drei.Commands.{Command, undo, Event}
use drei.Editing.Text.{Edit}
use drei.Editing.State.{BufferState}
use drei.Editing.Bookkeeping.{bookkeeping, undo_books, push_group}
use drei.Editing.Valid.{bookkeeping-quiet, IsValid-still}
use drei.Editing.Keeps.Kinds.{KindStays}
use drei.Editing.Outcome.{Keeps}
use drei.Session.State.{Entry, WindowValue, Session, entry_of, put_entry}
use drei.Session.Dispatch.{edit_arm, or_current, place_window, track_focus, commit}
use drei.Session.Invariant.{EntryIsValid, IsStored, IsValid}
use drei.Session.Stored.{IsStored-insert, IsStored-ring, IsStored-layout}
use drei.Session.Working.{IsWorking, Prompted, AllQuiet-IsQuiet, Replaces, Replaces-valid}
use drei.Session.Keeps.Buffers.{KeepsKind-same, entry_valid}

-- What the commit needs of an arm's result: the entry that it writes completes the invariant.
pub record Ready (cmd : Command) (current : BufferValue) (pinned : Option Str)
    (r : Session × BufferValue) : Type 0 where
  pub entry : Entry
  pub found : lookup (or_current pinned r.0) r.0.buffers ≡ some entry
  pub stored :
      IsStored
        (insert
          (or_current pinned r.0)
          (record { value = r.1; state = bookkeeping cmd current r.0.events entry.state })
          r.0.buffers)
        r.0.current_id
        r.0.windows
        r.0.focused
        r.0.kill_ring
        r.0.agent_buffers
        r.0.generated_buffers
  pub prompted : Prompted r.0
  pub pending_in : All (λ (p : Str × Str). contains p.0 r.0.buffers ≡ true) r.0.exit_pending

place_window-All :
    (P : Str → Type 0) (ws : List WindowValue) (i point : ℕ) (mark : Option ℕ)
    → All (λ (w : WindowValue). P w.buffer_id) ws
    → All (λ (w : WindowValue). P w.buffer_id) (place_window ws i point mark)
unfolding place_window
place_window-All P [] i point mark h = tt
place_window-All P (w ∷ ws) zero point mark h = h
place_window-All P (w ∷ ws) (suc i) point mark h = (h.0, place_window-All P ws i point mark h.1)

-- The focused window still shows its buffer.
place_window-shows :
    (ws : List WindowValue) (i point : ℕ) (mark : Option ℕ) (w : WindowValue)
    → get_elem? ws i ≡ some w
    → get_elem? (place_window ws i point mark) i ≡ some (record w { point = point; mark = mark })
unfolding place_window
place_window-shows [] i point mark w h = cc
place_window-shows (v ∷ ws) zero point mark w h =
    let e : v ≡ w = cc in ap (λ (x : WindowValue). some (record x { point = point; mark = mark })) e
place_window-shows (v ∷ ws) (suc i) point mark w h = place_window-shows ws i point mark w h

module _ (cmd : Command) (current : BufferValue) (pinned : Option Str) (s : Session)
    (v : BufferValue) (h : Ready cmd current pinned (s, v)) where
  abbrev committed : Entry
  committed = record { value = v; state = bookkeeping cmd current s.events h.entry.state }

  committed-IsValid :
      (windows : List WindowValue)
      → All
          (λ (w : WindowValue).
            contains w.buffer_id (insert (or_current pinned s) committed s.buffers) ≡ true)
          windows
      → (w : WindowValue) × (get_elem? windows s.focused ≡ some w) × (w.buffer_id ≡ s.current_id)
      → IsValid (record (put_entry (or_current pinned s) committed s) {
        windows = windows;
        transcript = s.transcript ++ s.events;
      })
  unfolding put_entry
  committed-IsValid windows a f = record {
    stored = IsStored-layout h.stored h.stored.current_in a f;
    prompted = h.prompted;
    pending_in =
        All-mono _ s.exit_pending
          (λ p. contains-insert_mono (or_current pinned s) p.0 committed s.buffers) h.pending_in;
  }

  tracked-IsValid :
      (here : Bool)
      → str_eq (or_current pinned s) s.current_id ≡ here
      → IsValid (
          let s' =
            track_focus (or_current pinned s) v (put_entry (or_current pinned s) committed s) in
          record s' { transcript = s'.transcript ++ s'.events })
  unfolding track_focus put_entry
  tracked-IsValid true e =
      let (w, found, shows) = h.stored.focus_shows in
      rw e (
        committed-IsValid (place_window s.windows s.focused v.point v.mark)
          (place_window-All _ s.windows s.focused v.point v.mark h.stored.windows_in)
          (_, place_window-shows s.windows s.focused v.point v.mark w found, shows))
  tracked-IsValid false e =
      rw e (committed-IsValid s.windows h.stored.windows_in h.stored.focus_shows)

  pub commit-Keeps : Returns (commit cmd current pinned s v) IsValid
  unfolding commit entry_of
  commit-Keeps = (_, rw h.found refl, tracked-IsValid _ refl)

-- An arm that changes no text: the value that comes back fits the entry that it is written to.
pub record Lands (pinned : Option Str) (r : Session × BufferValue) : Type 0 where
  pub working : IsWorking r.0
  pub entry : Entry
  pub found : lookup (or_current pinned r.0) r.0.buffers ≡ some entry
  pub fits : Replaces entry r.1

pub Lands-Ready :
    (cmd : Command) (current : BufferValue) (pinned : Option Str) (r : Session × BufferValue)
    → Lands pinned r
    → Ready cmd current pinned r
Lands-Ready cmd current pinned (s, v) l =
    let e = l.entry in
    let v' : EntryIsValid (record e { value = v }) =
      Replaces-valid e v (entry_valid s (or_current pinned s) e l.working.base l.found) l.fits in
    let same =
      bookkeeping-quiet cmd current s.events e.state
        (AllQuiet-IsQuiet current s.events l.working.base.quiet) in
    let st = bookkeeping cmd current s.events e.state in
    record {
      entry = e;
      found = l.found;
      stored =
          IsStored-insert (or_current pinned s) (record { value = v; state = st })
            l.working.base.stored (IsValid-still v v e.state st v' same v'.in_bounds refl refl)
            (KeepsKind-same (or_current pinned s) (record { value = v; state = st }) e s.buffers
              l.found same.kind);
      prompted = l.working.prompted;
      pending_in = l.working.base.pending_in;
    }

-- The kind of a buffer never changes.
bookkeeping-kind :
    (cmd : Command) (current : BufferValue) (events : List Event) (st : BufferState)
    → (bookkeeping cmd current events st).kind ≡ st.kind
unfolding bookkeeping undo_books push_group
bookkeeping-kind undo current events st = ground arith
bookkeeping-kind cmd current events st = ground arith

-- An editing arm, from what is known of it as an edit of one buffer.
pub edit_arm-Ready :
    (cmd : Command) (act : BufferValue → BufferState → List Str → Result Edit) (s : Session)
    (e : Entry)
    → IsWorking s
    → s.events ≡ []
    → lookup s.current_id s.buffers ≡ some e
    → Keeps cmd e.value (act e.value e.state s.kill_ring)
    → KindStays e.state (act e.value e.state s.kill_ring)
    → Returns (edit_arm act e.value s) (Ready cmd e.value none)
unfolding edit_arm entry_of put_entry or_current
edit_arm-Ready cmd act s e h quiet found (r, returned, kept) kind =
    let st = bookkeeping cmd e.value r.events r.state in
    let middle : Entry = record e { state = r.state } in
    let new : Entry = record { value = r.value; state = st } in
    let events : s.events ++ r.events ≡ r.events = ap (λ (xs : List Event). xs ++ r.events) quiet in
    let k : st.kind ≡ e.state.kind =
      bookkeeping-kind cmd e.value r.events r.state ∙ kind r returned in
    (
      (
        record s {
          buffers = insert s.current_id middle s.buffers;
          kill_ring = r.ring;
          events = s.events ++ r.events;
        },
        r.value,
      ),
      rw (found, returned) refl,
      record {
        entry = middle;
        found = lookup-insert_self s.current_id middle s.buffers;
        stored =
            rw (events, insert-insert)
              (IsStored-ring
                (IsStored-insert s.current_id new h.base.stored kept.valid
                  (KeepsKind-same s.current_id new e s.buffers found k))
                kept.ring_bound);
        prompted = h.prompted;
        pending_in =
            All-mono _ s.exit_pending (λ p. contains-insert_mono s.current_id p.0 middle s.buffers)
              h.base.pending_in;
      },
    )
