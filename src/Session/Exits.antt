-- ===== src/Session/Exits.antt =====
-- When `exit_editor` ends the session at once, and when it asks first (session.py).
use drei.Base.{
  ReturnsUnless-never, ◌≡◌, refl, sym, ◌∙◌, Str, str_eq, Assoc, Bool, Bool-cases, true, false, not,
  ◌&&◌, List, [], ◌∷◌, Option, none, some, lookup, inl, inr, if◌then◌else◌, Result, ok, Returns,
  Returns-ok, bind-ok, required, ap, arith,
}
use drei.Buffer.{BufferValue}
use drei.Commands.{Command, exit_editor, Event, editor_exited}
use drei.Session.State.{Entry, Environment, Session, emit, entry_of, put_entry, open_prompt}
use drei.Session.Exit.{at_risk, any_modified, advance_with, advance_exit, begin_exit}
use drei.Session.Agent.{pinned_target}
use drei.Session.Dispatch.{
  passes_gate, is_open, arm, or_current, track_focus, commit, run, dispatch,
}
use drei.Session.Invariant.{IsValid}
use drei.Session.Keeps.Dispatch.{dispatch-Keeps}

-- The editor has exited, by the events of a dispatch.
unfoldable pub has_exited : List Event → Bool
has_exited [] = false
has_exited (editor_exited ∷ es) = true
has_exited (_ ∷ es) = has_exited es

-- Without a modified buffer, none is offered to be saved.
at_risk-clean : (l : Assoc Entry) → any_modified l ≡ false → at_risk l ≡ []
unfolding at_risk any_modified
at_risk-clean [] h = refl
at_risk-clean ((j, e) ∷ l) h =
    let clean : e.value.modified ≡ false = ground (arith, h) in
    rw clean (at_risk-clean l (ground (arith, h)))

-- While a modified buffer is left, a question is asked.
advance_with-dirty :
    (l : List (Str × Str)) (s : Session)
    → s.events ≡ []
    → any_modified s.buffers ≡ true
    → has_exited (advance_with l s).events ≡ false
unfolding advance_with open_prompt emit has_exited
advance_with-dirty [] s h dirty = rw (dirty, h) refl
advance_with-dirty ((buffer_id, path) ∷ rest) s h dirty = rw h refl

advance_with-clean :
    (s : Session)
    → s.events ≡ []
    → any_modified s.buffers ≡ false
    → has_exited (advance_with [] s).events ≡ true
unfolding advance_with emit has_exited
advance_with-clean s h clean = rw (clean, h) refl

begin_exit-exited :
    (s : Session) (dirty : Bool)
    → s.events ≡ []
    → any_modified s.buffers ≡ dirty
    → has_exited (begin_exit s).events ≡ not dirty
unfolding begin_exit advance_exit
begin_exit-exited s false h clean =
    rw (at_risk-clean s.buffers clean) (advance_with-clean (record s { exit_pending = [] }) h clean)
begin_exit-exited s true h dirty =
    advance_with-dirty (at_risk s.buffers) (record s { exit_pending = at_risk s.buffers }) h dirty

track_focus-events :
    (commit_id : Str) (v : BufferValue) (s : Session)
    → (track_focus commit_id v s).events ≡ s.events
unfolding track_focus
track_focus-events commit_id v s = elim (Bool-cases (str_eq commit_id s.current_id)) [
  | inl same ↦ rw same refl
  | inr other ↦ rw other refl
]

-- The commit adds no events.
commit-events :
    (cmd : Command) (current v : BufferValue) (s t : Session) (pinned : Option Str)
    → commit cmd current pinned s v ≡ ok t
    → t.events ≡ s.events
unfolding commit entry_of put_entry
commit-events cmd current v s t pinned h =
    let (e, found, k) = bind-ok (required (lookup (or_current pinned s) s.buffers)) _ h in
    Returns-ok {P = λ u. u.events ≡ s.events}
      (_, refl, track_focus-events (or_current pinned s) v _) k

run-exit :
    (env : Environment) (s t : Session)
    → run env exit_editor s ≡ ok t
    → t.events ≡ (begin_exit s).events
unfolding run entry_of or_current pinned_target arm
run-exit env s t h =
    let (e, found, k) = bind-ok (required (lookup s.current_id s.buffers)) _ h in
    commit-events exit_editor e.value e.value (begin_exit s) t none k

pub closed-dispatch :
    (m : Option Str) (passes : Bool) (x y : Result Session)
    → m ≡ none
    → (if is_open m && not passes then x else y) ≡ y
unfolding is_open
closed-dispatch none passes x y h = refl
closed-dispatch (some input) passes x y h = cc

-- In a valid session with the minibuffer closed, `exit_editor` returns, and its events say that the
-- editor has exited exactly when no buffer is modified.
pub exit_editor-exited :
    (env : Environment) (s : Session)
    → IsValid s
    → s.minibuffer ≡ none
    → Returns (dispatch env exit_editor s) (λ t. has_exited t.events ≡ not (any_modified s.buffers))
unfolding dispatch
exit_editor-exited env s v shut =
    let (t, e, valid) =
      ReturnsUnless-never {r = dispatch env exit_editor s}
        (dispatch-Keeps env exit_editor s v tt) in
    let gate =
      closed-dispatch s.minibuffer (passes_gate exit_editor) _
        (run env exit_editor (record s { events = [] })) shut in
    (
      t,
      e,
      ap has_exited (run-exit env _ t (sym gate ∙ e))
          ∙ begin_exit-exited (record s { events = [] }) _ refl refl,
    )
