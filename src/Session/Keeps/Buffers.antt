-- ===== src/Session/Keeps/Buffers.antt =====
-- Creating, selecting and visiting buffers.
use drei.Base.{
  AllValues-lookup, ◌≡◌, refl, subst, Str, str_eq, Assoc, All-set, All-mono, contains,
  contains-insert_mono, contains-lookup, lookup, true, some, get_elem?-set_self,
  get_elem?-lt-length, Returns, Returns-if, Returns-bind,
}
use drei.Buffer.{BufferValue}
use drei.Commands.{buffer_selected}
use drei.Editing.State.{break_chains}
use drei.Editing.Valid.{IsValid-still}
use drei.Session.State.{Entry, WindowValue, Session, entry_of, put_entry}
use drei.Session.Buffers.{leave_current, switch_focus, select_buffer}
use drei.Session.Invariant.{EntryIsValid}
use drei.Session.Stored.{KeepsKind, IsStored-insert, IsStored-layout, current_entry}
use drei.Session.Working.{IsBase, SamePrompt-refl, Carries, Carries-trans, emit-Carries}

pub IsBase-Carries : (s : Session) → IsBase s → Carries s s
IsBase-Carries s h = record { base = h; same = SamePrompt-refl s }

-- Writing an entry.
pub put_entry-Carries :
    (k : Str) (e : Entry) (s : Session)
    → IsBase s
    → EntryIsValid e
    → KeepsKind k e s.buffers
    → Carries s (put_entry k e s)
unfolding put_entry
put_entry-Carries k e s h v same = record {
  base = record {
    stored = IsStored-insert k e h.stored v same;
    pending_in =
        All-mono _ s.exit_pending (λ p. contains-insert_mono k p.0 e s.buffers) h.pending_in;
    quiet = h.quiet;
  };
  same = record { choice = refl; minibuffer = refl; kind = refl; pending = refl };
}

-- An entry in place of one of the same kind.
pub KeepsKind-same :
    (k : Str) (e old : Entry) (buffers : Assoc Entry)
    → lookup k buffers ≡ some old
    → e.state.kind ≡ old.state.kind
    → KeepsKind k e buffers
KeepsKind-same k e old buffers found same other found' =
    let p : some old ≡ some other = cc in
    let q : old ≡ other = cc in subst (λ (x : Entry). e.state.kind ≡ x.state.kind) q same

pub break_chains-valid :
    (e : Entry) → EntryIsValid e → EntryIsValid (record e { state = break_chains e.state })
unfolding break_chains
break_chains-valid e h =
    IsValid-still e.value e.value e.state _ h
      (record {
        history = refl;
        redo = refl;
        yank = λ a. cc;
        start = refl;
        stop = refl;
        saved = refl;
        kind = refl;
      })
      h.in_bounds refl refl

pub entry_valid :
    (s : Session) (k : Str) (e : Entry) → IsBase s → lookup k s.buffers ≡ some e → EntryIsValid e
entry_valid s k e h found = AllValues-lookup EntryIsValid k s.buffers e h.stored.entries found

-- Leaving the current buffer keeps everything but the chains: the buffers that exist, the layout.
pub record Left (s s' : Session) : Type 0 where
  pub carries : Carries s s'
  pub names : (k : Str) → contains k s.buffers ≡ true → contains k s'.buffers ≡ true
  pub windows : s'.windows ≡ s.windows
  pub focused : s'.focused ≡ s.focused

pub leave_current-Keeps : (s : Session) → IsBase s → Returns (leave_current s) (Left s)
unfolding leave_current entry_of
leave_current-Keeps s h =
    let (e, found) = current_entry h.stored in
    (
      put_entry s.current_id (record e { state = break_chains e.state }) s,
      rw found refl,
      record {
        carries =
            put_entry-Carries s.current_id _ s h (break_chains-valid e (entry_valid s _ e h found))
              (KeepsKind-same s.current_id (record e { state = break_chains e.state }) e s.buffers
                found (unfold break_chains in refl));
        names = λ k c. unfold put_entry in contains-insert_mono s.current_id k _ s.buffers c;
        windows = unfold put_entry in refl;
        focused = unfold put_entry in refl;
      },
    )

-- The layout after a switch.
switch_focus-Carries :
    (k : Str) (target : BufferValue) (s : Session)
    → IsBase s
    → contains k s.buffers ≡ true
    → Carries s (switch_focus k target s)
unfolding switch_focus
switch_focus-Carries k target s h c =
    let w : WindowValue = record { buffer_id = k; point = target.point; mark = target.mark } in
    let (old, found, shows) = h.stored.focus_shows in
    emit-Carries (buffer_selected k) refl (record {
      base = record {
        stored =
            IsStored-layout h.stored c (All-set _ s.windows s.focused w h.stored.windows_in c) (
              w,
              get_elem?-set_self s.windows s.focused w
                  (get_elem?-lt-length s.windows s.focused old found),
              refl,
            );
        pending_in = h.pending_in;
        quiet = h.quiet;
      };
      same = record { choice = refl; minibuffer = refl; kind = refl; pending = refl };
    })

pub select_buffer-Keeps :
    (k : Str) (s : Session)
    → IsBase s
    → contains k s.buffers ≡ true
    → Returns (select_buffer k s) (Carries s)
unfolding select_buffer entry_of
select_buffer-Keeps k s h c =
    Returns-if (str_eq k s.current_id) _ _ (λ same. (s, refl, IsBase-Carries s h))
      (λ other. Returns-bind (leave_current s) _ (leave_current-Keeps s h) (λ s' l.
        let (target, found) = contains-lookup k s'.buffers (l.names k c) in
        (
          switch_focus k target.value s',
          rw found refl,
          Carries-trans l.carries
              (switch_focus-Carries k target.value s' l.carries.base (l.names k c)),
        )))
