-- ===== src/Session/Appends.antt =====
-- What `InsertAgentText` does to a session: `_append_agent_text` and the commit (session.py).
use drei.Base.{
  ReturnsUnless-never, ◌≡◌, ◌≢◌, refl, ap, sym, ◌∙◌, subst, Str, str_eq, str_eq_iff, lookup,
  lookup-insert_self, lookup-insert_ne, true, false, not, ◌&&◌, Bool, [], ◌∷◌, ◌++◌, ◌+◌,
  append-nil, some, Result, ok, ◌>>=◌, bind-ok, Returns, Returns-ok, if◌then◌else◌, arith, length,
}
use drei.Buffer.{BufferValue, checked, checked_same}
use drei.Commands.{Command, insert_agent_text, Event, agent_text_inserted}
use drei.Editing.State.{generated}
use drei.Editing.Bookkeeping.{bookkeeping, group_of, is_text_yanked, is_text_yank_popped}
use drei.Editing.Valid.{IsQuiet, IsQuiet-none, IsQuiet-one, bookkeeping-quiet}
use drei.Session.State.{Entry, Environment, Session, entry_of, put_entry, emit}
use drei.Session.Agent.{pinned_target, append_agent_text, tail_follow_windows}
use drei.Session.Dispatch.{passes_gate, is_open, arm, or_current, commit, run, dispatch}
use drei.Session.Invariant.{IsValid}
use drei.Session.Edits.{track_focus-windows}
use drei.Session.Keeps.Run.{accepts-generated}
use drei.Session.Keeps.Dispatch.{dispatch-Keeps}

-- The old text with more after it, under the same flag, with the same history to undo and redo.
pub record IsGrown (old : Entry) (text : Str) (new : Entry) : Type 0 where
  pub grown : new.value.text ≡ old.value.text ++ text
  pub flag : new.value.modified ≡ old.value.modified
  pub history : new.state.undo_history ≡ old.state.undo_history
  pub redo : new.state.undo_redo ≡ old.state.undo_redo

-- The target has grown; the other buffer, the current buffer's name, the kill ring, the minibuffer
-- and the writes are what they were.
pub record Appended (target other text : Str) (old : Entry) (s t : Session) : Type 0 where
  pub entry : Entry
  pub found : lookup target t.buffers ≡ some entry
  pub grows : IsGrown old text entry
  pub others : lookup other t.buffers ≡ lookup other s.buffers
  pub current : t.current_id ≡ s.current_id
  pub ring : t.kill_ring ≡ s.kill_ring
  pub minibuffer : t.minibuffer ≡ s.minibuffer
  pub written : t.written ≡ s.written

-- What the arm leaves, before the commit.
record IsAppended (old : Entry) (text : Str) (s s' : Session) (w : BufferValue) : Type 0 where
  rest : s' ≡ record s { windows = s'.windows; events = s'.events }
  grown : w.text ≡ old.value.text ++ text
  flag : w.modified ≡ old.value.modified
  quiet : IsQuiet old.value s'.events

unwrap : {a b : Session × BufferValue} → ok a ≡ ok b → a ≡ b
unwrap h = cc

append-IsAppended :
    (old : Entry) (text target : Str) (s : Session) (r : Session × BufferValue)
    → s.events ≡ []
    → append_agent_text old.value text target s ≡ ok r
    → IsAppended old text s r.0 r.1
unfolding append_agent_text
append-IsAppended old [] target s r fresh h =
    let same : (s, old.value) ≡ r = cc in
    subst (λ (x : Session × BufferValue). IsAppended old [] s x.0 x.1) same
      (record {
        rest = refl;
        grown = sym (append-nil old.value.text);
        flag = refl;
        quiet = rw fresh (IsQuiet-none old.value);
      })
append-IsAppended old (c ∷ cs) target s r fresh h =
    let (w, made, k) = bind-ok (checked _) _ h in
    let before = length old.value.text in
    let inserted : Event = agent_text_inserted (c ∷ cs) before (before + length (c ∷ cs)) target in
    let quiet : IsQuiet old.value (s.events ++ inserted ∷ []) = rw fresh (
      unfold group_of is_text_yanked is_text_yank_popped in
      IsQuiet-one old.value inserted refl refl refl) in
    let made_it = checked_same _ w made in
    subst (λ (x : Session × BufferValue). IsAppended old (c ∷ cs) s x.0 x.1) (unwrap k)
      (record {
        rest = unfold emit tail_follow_windows in refl;
        grown = ap (λ (v : BufferValue). v.text) made_it;
        flag = ap (λ (v : BufferValue). v.modified) made_it;
        quiet = unfold emit tail_follow_windows in quiet;
      })

-- The commit of the target.
commit-Appended :
    (cmd : Command) (target other text : Str) (old : Entry) (s s' t : Session) (w : BufferValue)
    → lookup target s.buffers ≡ some old
    → target ≢ other
    → IsAppended old text s s' w
    → commit cmd old.value (some target) s' w ≡ ok t
    → Appended target other text old s t
unfolding commit entry_of or_current put_entry
commit-Appended cmd target other text old s s' t w found apart a h =
    let buffers : s'.buffers ≡ s.buffers = ap (λ (x : Session). x.buffers) a.rest in
    let st = bookkeeping cmd old.value s'.events old.state in
    let new : Entry = record { value = w; state = st } in
    let stored : Session = put_entry target new s' in
    let books = bookkeeping-quiet cmd old.value s'.events old.state a.quiet in
    let same = track_focus-windows target w stored in
    let here : lookup target s'.buffers ≡ some old = ap (lookup target) buffers ∙ found in
    let differ : str_eq target other ≡ false = ground (arith, apart, str_eq_iff target other) in
    let done : Returns (commit cmd old.value (some target) s' w)
        (Appended target other text old s) =
      rw here (
        _,
        refl,
        record {
          entry = new;
          found =
              ap (λ (x : Session). lookup target x.buffers) same
              ∙ lookup-insert_self target new s'.buffers;
          grows = record {
            grown = a.grown;
            flag = a.flag;
            history = books.history;
            redo = books.redo;
          };
          others =
              ap (λ (x : Session). lookup other x.buffers) same
              ∙ lookup-insert_ne target other new s'.buffers differ
              ∙ ap (lookup other) buffers;
          current =
              ap (λ (x : Session). x.current_id) same ∙ ap (λ (x : Session). x.current_id) a.rest;
          ring = ap (λ (x : Session). x.kill_ring) same ∙ ap (λ (x : Session). x.kill_ring) a.rest;
          minibuffer =
              ap (λ (x : Session). x.minibuffer) same ∙ ap (λ (x : Session). x.minibuffer) a.rest;
          written = ap (λ (x : Session). x.written) same ∙ ap (λ (x : Session). x.written) a.rest;
        },
      ) in
    Returns-ok done h

-- A command that passes the gate runs, whether the minibuffer is open or not.
passing-dispatch :
    (is_shown : Bool) (x y : Result Session) → (if is_shown && not true then x else y) ≡ y
passing-dispatch true x y = refl
passing-dispatch false x y = refl

run-Appended :
    (env : Environment) (text target other : Str) (s t : Session) (old : Entry)
    → s.events ≡ []
    → lookup target s.buffers ≡ some old
    → old.state.kind ≡ generated
    → target ≢ other
    → run env (insert_agent_text text target) s ≡ ok t
    → Appended target other text old s t
unfolding run entry_of or_current arm
run-Appended env text target other s t old fresh found kind apart h =
    let pinned : pinned_target (insert_agent_text text target) s ≡ ok (s, some target) =
      unfold pinned_target in rw (found, accepts-generated target old kind) refl in
    let steps : run env (insert_agent_text text target) s ≡ (
        append_agent_text old.value text target s >>= λ r.
        commit (insert_agent_text text target) old.value (some target) r.0 r.1) =
      rw (pinned, found) refl in
    let (r, appended, k) = bind-ok (append_agent_text old.value text target s) _ (sym steps ∙ h) in
    commit-Appended (insert_agent_text text target) target other text old s r.0 t r.1 found apart
      (append-IsAppended old text target s r fresh appended) k

-- In a valid session, text from the agent is inserted into a generated buffer: the command returns,
-- and the text stands at the end of that buffer, whose modified flag and history to undo and redo
-- are what they were. So are any other buffer, the name of the current buffer, the kill ring, the
-- minibuffer and the writes.
pub insert_agent_text-Appended :
    (env : Environment) (text target other : Str) (s : Session) (old : Entry)
    → IsValid s
    → lookup target s.buffers ≡ some old
    → old.state.kind ≡ generated
    → target ≢ other
    → Returns (dispatch env (insert_agent_text text target) s) (Appended target other text old s)
unfolding dispatch passes_gate
insert_agent_text-Appended env text target other s old v found kind apart =
    let (t, dispatched, valid) =
      ReturnsUnless-never
        (dispatch-Keeps env (insert_agent_text text target) s v (old, found, kind)) in
    let s' = record s { events = [] } in
    let ran : run env (insert_agent_text text target) s' ≡ ok t =
      sym (passing-dispatch (is_open s.minibuffer) _ (run env (insert_agent_text text target) s'))
      ∙ dispatched in
    let a = run-Appended env text target other s' t old refl found kind apart ran in
    (
      t,
      dispatched,
      record {
        entry = a.entry;
        found = a.found;
        grows = a.grows;
        others = a.others;
        current = a.current;
        ring = a.ring;
        minibuffer = a.minibuffer;
        written = a.written;
      },
    )
