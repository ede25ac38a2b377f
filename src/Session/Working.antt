-- ===== src/Session/Working.antt =====
-- The invariant in the middle of a dispatch, and its frame lemmas: the parts that an arm leaves
-- alone, the events so far, and what the commit needs of an arm's result.
use drei.Base.{
  ◌≡◌, refl, ◌∙◌, Str, All, All-append, contains, Bool, true, false, List, [], ◌∷◌, ◌++◌, Option,
  none, some, arith,
}
use drei.Buffer.{BufferValue, InBounds}
use drei.Acp.Effects.{PermissionRequested}
use drei.Commands.{Event, text_inserted, text_killed, text_yanked, text_yank_popped, region_killed}
use drei.Editing.State.{ordinary}
use drei.Editing.Bookkeeping.{make_group, group_of, any_event, is_text_yanked, is_text_yank_popped}
use drei.Editing.Valid.{IsQuiet}
use drei.Session.State.{Entry, MinibufferKind, Session, emit}
use drei.Session.Invariant.{EntryIsValid, IsStored, IsPrompted}

-- Every event but the five that change text.
abbrev pub is_quiet : Event → Bool
is_quiet (text_inserted text before after) = false
is_quiet (text_killed text before after direction) = false
is_quiet (region_killed text before after direction) = false
is_quiet (text_yanked text before after) = false
is_quiet (text_yank_popped old new before after) = false
is_quiet _ = true

abbrev pub AllQuiet : List Event → Type 0
AllQuiet events = All (λ e. is_quiet e ≡ true) events

quiet_event :
    (v : BufferValue) (e : Event)
    → is_quiet e ≡ true
    → (group_of v e ≡ none) × (is_text_yanked e ≡ false) × (is_text_yank_popped e ≡ false)
unfolding group_of is_text_yanked is_text_yank_popped
quiet_event v (text_inserted text before after) h = cc
quiet_event v (text_killed text before after direction) h = cc
quiet_event v (region_killed text before after direction) h = cc
quiet_event v (text_yanked text before after) h = cc
quiet_event v (text_yank_popped old new before after) h = cc
quiet_event v e h = (refl, refl, refl)

pub AllQuiet-IsQuiet : (v : BufferValue) (events : List Event) → AllQuiet events → IsQuiet v events
unfolding make_group any_event
AllQuiet-IsQuiet v [] h = record { no_group = refl; no_yank = refl; no_pop = refl }
AllQuiet-IsQuiet v (e ∷ es) (q, rest) =
    let (g, y, p) = quiet_event v e q in
    let ih = AllQuiet-IsQuiet v es rest in
    record {
      no_group = ground (arith, g, ih.no_group);
      no_yank = ground (arith, y, ih.no_yank);
      no_pop = ground (arith, p, ih.no_pop);
    }

-- All but the prompts.
pub record IsBase (s : Session) : Type 0 where
  pub stored :
      IsStored s.buffers s.current_id s.windows s.focused s.kill_ring s.agent_buffers
        s.generated_buffers
  pub pending_in : All (λ (p : Str × Str). contains p.0 s.buffers ≡ true) s.exit_pending
  pub quiet : AllQuiet s.events

abbrev pub Prompted : Session → Type 0
Prompted s = IsPrompted s.choice s.minibuffer s.minibuffer_kind s.exit_pending

pub record IsWorking (s : Session) : Type 0 where
  pub base : IsBase s
  pub prompted : Prompted s

pub record SamePrompt (s s' : Session) : Type 0 where
  pub choice : s'.choice ≡ s.choice
  pub minibuffer : s'.minibuffer ≡ s.minibuffer
  pub kind : s'.minibuffer_kind ≡ s.minibuffer_kind
  pub pending : s'.exit_pending ≡ s.exit_pending

pub SamePrompt-Prompted : {s s' : Session} → SamePrompt s s' → Prompted s → Prompted s'
SamePrompt-Prompted same p = rw (same.choice, same.minibuffer, same.kind, same.pending) p

pub SamePrompt-refl : (s : Session) → SamePrompt s s
SamePrompt-refl s = record { choice = refl; minibuffer = refl; kind = refl; pending = refl }

pub SamePrompt-trans : {a b c : Session} → SamePrompt a b → SamePrompt b c → SamePrompt a c
SamePrompt-trans p q = record {
  choice = q.choice ∙ p.choice;
  minibuffer = q.minibuffer ∙ p.minibuffer;
  kind = q.kind ∙ p.kind;
  pending = q.pending ∙ p.pending;
}

-- The base invariant, with the prompts as they were.
pub record Carries (s s' : Session) : Type 0 where
  pub base : IsBase s'
  pub same : SamePrompt s s'

pub Carries-IsWorking : {s s' : Session} → Carries s s' → Prompted s → IsWorking s'
Carries-IsWorking c p = record { base = c.base; prompted = SamePrompt-Prompted c.same p }

pub Carries-trans : {a b c : Session} → Carries a b → Carries b c → Carries a c
Carries-trans p q = record { base = q.base; same = SamePrompt-trans p.same q.same }

pub quiet_emit :
    (e : Event) (events : List Event)
    → is_quiet e ≡ true
    → AllQuiet events
    → AllQuiet (events ++ e ∷ [])
quiet_emit e events q h = All-append _ events (e ∷ []) h (q, tt)

pub emit-IsBase : (e : Event) {s : Session} → is_quiet e ≡ true → IsBase s → IsBase (emit e s)
unfolding emit
emit-IsBase e {s} q h = record {
  stored = h.stored;
  pending_in = h.pending_in;
  quiet = quiet_emit e s.events q h.quiet;
}

pub emit-IsWorking :
    (e : Event) {s : Session} → is_quiet e ≡ true → IsWorking s → IsWorking (emit e s)
unfolding emit
emit-IsWorking e q h = record {
  base = unfold emit in emit-IsBase e q h.base;
  prompted = h.prompted;
}

pub emit-Carries :
    (e : Event) {s s' : Session} → is_quiet e ≡ true → Carries s s' → Carries s (emit e s')
unfolding emit
emit-Carries e q c = record {
  base = unfold emit in emit-IsBase e q c.base;
  same = record {
    choice = c.same.choice;
    minibuffer = c.same.minibuffer;
    kind = c.same.kind;
    pending = c.same.pending;
  };
}

-- A closed minibuffer: no choice, no kind, nothing pending.
pub closed_lem :
    (c : Option PermissionRequested) (m : Option Str) (k : Option MinibufferKind)
    (p : List (Str × Str))
    → IsPrompted c m k p
    → m ≡ none
    → (c ≡ none) × (k ≡ none) × (p ≡ [])
closed_lem (some r) m k p h e = cc (h.0)
closed_lem none none k p h e = (refl, h.0, h.1)
closed_lem none (some i) k p h e = cc

-- What may replace the value of an entry at the commit.
pub record Replaces (e : Entry) (v : BufferValue) : Type 0 where
  pub text : v.text ≡ e.value.text
  pub bounds : InBounds v
  pub clean : e.state.kind ≡ ordinary → v.modified ≡ false → e.state.saved_text ≡ some v.text

pub Replaces-self : (e : Entry) → EntryIsValid e → Replaces e e.value
Replaces-self e h = record { text = refl; bounds = h.in_bounds; clean = h.clean }

pub Replaces-valid :
    (e : Entry) (v : BufferValue)
    → EntryIsValid e
    → Replaces e v
    → EntryIsValid (record e { value = v })
Replaces-valid e v h r = record {
  in_bounds = r.bounds;
  can_undo = rw r.text h.can_undo;
  can_redo = rw r.text h.can_redo;
  capacity = h.capacity;
  yank_in = λ a. rw r.text (h.yank_in a);
  clean = r.clean;
}

-- The trace of the file port is no part of the invariant.
pub written-Carries :
    {s s' : Session} (written : List (Str × Str))
    → Carries s s'
    → Carries s (record s' { written = written })
written-Carries written c = record {
  base = record { stored = c.base.stored; pending_in = c.base.pending_in; quiet = c.base.quiet };
  same = record {
    choice = c.same.choice;
    minibuffer = c.same.minibuffer;
    kind = c.same.kind;
    pending = c.same.pending;
  };
}
