-- ===== src/Session/Edits.antt =====
-- Editing commands, dispatched alone and one after another (session.py).
use drei.Base.{
  ℕ, max, ◌≢◌, ◌≡◌, refl, ap, sym, ◌∙◌, Str, str_eq, lookup, lookup-insert_self, AllValues-lookup,
  Bool, Bool-cases, inl, inr, true, false, List, [], ◌++◌, Option, none, some, ok, ◌>>=◌, Returns,
  Returns-bind, Returns_mono,
}
use drei.Buffer.{BufferValue}
use drei.Commands.{
  Command, insert_text, forward_char, backward_char, kill_line, yank, yank_pop, set_mark,
  kill_region, deliver_session_effects, insert_agent_text, create_generated_buffer,
  create_agent_buffer, copy_region_as_kill, exchange_point_and_mark, undo, keyboard_quit, Event,
}
use drei.Editing.Text.{Edit}
use drei.Editing.State.{UndoGroup}
use drei.Editing.Bookkeeping.{make_group, bookkeeping}
use drei.Editing.Restores.{editing, is_undo, after, IsBack, undo-restores}
use drei.Editing.Reinsert.{kill_region-yank}
use drei.Session.State.{Entry, Environment, Session, entry_of, put_entry}
use drei.Session.Agent.{pinned_target}
use drei.Session.Dispatch.{
  passes_gate, arm, edit_arm, or_current, track_focus, commit, run, dispatch,
}
use drei.Session.Invariant.{IsValid, EntryIsValid}
use drei.Session.Exits.{closed-dispatch}

-- The editing commands.
abbrev pub is_editing : Command → Bool
is_editing (insert_text text) = true
is_editing forward_char = true
is_editing backward_char = true
is_editing kill_line = true
is_editing yank = true
is_editing yank_pop = true
is_editing set_mark = true
is_editing kill_region = true
is_editing copy_region_as_kill = true
is_editing exchange_point_and_mark = true
is_editing undo = true
is_editing keyboard_quit = true
is_editing _ = false

-- What the editing of `e` from the value `v` leaves in the session.
pub record Edited (cmd : Command) (v : BufferValue) (e : Edit) (current_id : Str)
    (minibuffer : Option Str) (t : Session) : Type 0 where
  pub current : t.current_id ≡ current_id
  pub entry : lookup current_id t.buffers ≡ some (record { value = e.value; state = after cmd v e })
  pub ring : t.kill_ring ≡ e.ring
  pub shut : t.minibuffer ≡ minibuffer
  pub events : t.events ≡ e.events

-- Only the windows are touched.
pub track_focus-windows :
    (commit_id : Str) (v : BufferValue) (s : Session)
    → track_focus commit_id v s ≡ record s { windows = (track_focus commit_id v s).windows }
unfolding track_focus
track_focus-windows commit_id v s = elim (Bool-cases (str_eq commit_id s.current_id)) [
  | inl same ↦ rw same refl
  | inr other ↦ rw other refl
]

arm-editing :
    (env : Environment) (cmd : Command) (v : BufferValue) (s : Session)
    → is_editing cmd ≡ true
    → arm env cmd v s ≡ edit_arm (editing cmd) v s
unfolding arm edit_arm editing
arm-editing env (insert_text text) v s h = refl
arm-editing env forward_char v s h = refl
arm-editing env backward_char v s h = refl
arm-editing env kill_line v s h = refl
arm-editing env yank v s h = refl
arm-editing env yank_pop v s h = refl
arm-editing env set_mark v s h = refl
arm-editing env kill_region v s h = refl
arm-editing env copy_region_as_kill v s h = refl
arm-editing env exchange_point_and_mark v s h = refl
arm-editing env undo v s h = refl
arm-editing env keyboard_quit v s h = refl
arm-editing env cmd v s h = cc

editing-target :
    (cmd : Command) (s : Session) → is_editing cmd ≡ true → pinned_target cmd s ≡ ok (s, none)
unfolding pinned_target
editing-target (deliver_session_effects effects target) s h = cc
editing-target (insert_agent_text text target) s h = cc
editing-target (create_generated_buffer name) s h = cc
editing-target (create_agent_buffer session_id) s h = cc
editing-target cmd s h = refl

module _ (env : Environment) (cmd : Command) (s : Session) (entry : Entry) (e : Edit)
    (fresh : s.events ≡ []) (found : lookup s.current_id s.buffers ≡ some entry)
    (edits : is_editing cmd ≡ true)
    (returned : editing cmd entry.value entry.state s.kill_ring ≡ ok e) where
  abbrev middle : Session
  middle = record (put_entry s.current_id (record entry { state = e.state }) s) {
    kill_ring = e.ring;
    events = s.events ++ e.events;
  }

  arm-edited : arm env cmd entry.value s ≡ ok (middle, e.value)
  unfolding edit_arm entry_of
  arm-edited = arm-editing env cmd entry.value s edits ∙ rw (found, returned) refl

  commit-Edited :
      Returns
        (commit cmd entry.value none middle e.value)
        (Edited cmd entry.value e s.current_id s.minibuffer)
  unfolding commit entry_of or_current put_entry
  commit-Edited =
      let st = bookkeeping cmd entry.value (s.events ++ e.events) e.state in
      let written : Session =
        put_entry s.current_id (record { value = e.value; state = st }) middle in
      let same = track_focus-windows s.current_id e.value written in
      let events : s.events ++ e.events ≡ e.events =
        ap (λ (xs : List Event). xs ++ e.events) fresh in
      let stored : List Event → Option Entry =
        (λ xs. some (record { value = e.value; state = bookkeeping cmd entry.value xs e.state })) in
      rw (lookup-insert_self s.current_id (record entry { state = e.state }) s.buffers) (
        _,
        refl,
        record {
          current = ap (λ (x : Session). x.current_id) same;
          entry =
              ap (λ (x : Session). lookup s.current_id x.buffers) same
              ∙ lookup-insert_self s.current_id (record { value = e.value; state = st })
                  middle.buffers
              ∙ ap stored events;
          ring = ap (λ (x : Session). x.kill_ring) same;
          shut = ap (λ (x : Session). x.minibuffer) same;
          events = ap (λ (x : Session). x.events) same ∙ events;
        },
      )

  run-Edited : Returns (run env cmd s) (Edited cmd entry.value e s.current_id s.minibuffer)
  unfolding run entry_of or_current
  run-Edited = rw (editing-target cmd s edits, found, arm-edited) commit-Edited

-- An editing command that is dispatched while the minibuffer is closed does to the current buffer
-- and the kill ring what its arm does to them, with the arm's events and the bookkeeping on them;
-- the same buffer stays current, and the minibuffer closed.
pub dispatch-editing :
    (env : Environment) (cmd : Command) (s : Session) (entry : Entry) (e : Edit)
    → s.minibuffer ≡ none
    → lookup s.current_id s.buffers ≡ some entry
    → is_editing cmd ≡ true
    → editing cmd entry.value entry.state s.kill_ring ≡ ok e
    → Returns (dispatch env cmd s) (Edited cmd entry.value e s.current_id s.minibuffer)
unfolding dispatch
dispatch-editing env cmd s entry e shut found edits returned =
    rw
      (closed-dispatch s.minibuffer (passes_gate cmd) _ (run env cmd (record s { events = [] }))
        shut)
      (run-Edited env cmd (record s { events = [] }) entry e refl found edits returned)

-- Two editing commands, one after the other, as their arms.
dispatch-twice :
    (env : Environment) (first second : Command) (s : Session) (entry : Entry) (e r : Edit)
    → s.minibuffer ≡ none
    → lookup s.current_id s.buffers ≡ some entry
    → is_editing first ≡ true
    → is_editing second ≡ true
    → editing first entry.value entry.state s.kill_ring ≡ ok e
    → editing second e.value (after first entry.value e) e.ring ≡ ok r
    → Returns (dispatch env first s >>= dispatch env second) (λ u.
      lookup s.current_id u.buffers
      ≡ some (record { value = r.value; state = after second e.value r }))
dispatch-twice env first second s entry e r shut found edits edits' returned returned' =
    Returns-bind (dispatch env first s) (dispatch env second)
      (dispatch-editing env first s entry e shut found edits returned)
      (λ t did.
        Returns_mono (dispatch env second t)
          (dispatch-editing env second t
            (record { value = e.value; state = after first entry.value e }) r (did.shut ∙ shut)
            (ap (λ k. lookup k t.buffers) did.current ∙ did.entry) edits'
            (ap (editing second e.value (after first entry.value e)) did.ring ∙ returned'))
          (λ u undid. ap (λ k. lookup k u.buffers) (sym did.current) ∙ undid.entry))

-- What `undo` has brought back: a value with the text, the point and the mark of `v`.
pub record Undone (v : BufferValue) (buffer_id : Str) (t : Session) : Type 0 where
  pub entry : Entry
  pub found : lookup buffer_id t.buffers ≡ some entry
  pub back : IsBack v entry.value

-- In a valid session with the minibuffer closed, let an editing command other than undo have an
-- effect that makes an undo group. When it is dispatched and then undo is, both return, and the
-- current buffer has its text, its point and its mark from before.
pub dispatch-undo :
    (env : Environment) (cmd : Command) (s : Session) (entry : Entry) (e : Edit) (g : UndoGroup)
    → IsValid s
    → s.minibuffer ≡ none
    → lookup s.current_id s.buffers ≡ some entry
    → is_editing cmd ≡ true
    → is_undo cmd ≡ false
    → editing cmd entry.value entry.state s.kill_ring ≡ ok e
    → make_group entry.value e.events ≡ some g
    → Returns (dispatch env cmd s >>= dispatch env undo) (Undone entry.value s.current_id)
dispatch-undo env cmd s entry e g v shut found edits forward returned group =
    let (r, undone, back) =
      undo-restores cmd entry.value entry.state s.kill_ring e g
        (AllValues-lookup EntryIsValid s.current_id s.buffers entry v.stored.entries found)
        v.stored.ring_bound forward returned group in
    Returns_mono (dispatch env cmd s >>= dispatch env undo)
      (dispatch-twice env cmd undo s entry e r shut found edits refl returned undone)
      (λ u stored. record { entry = _; found = stored; back = back })

-- What a kill and a yank have left of the value `v`: its text, and point at the end of the region.
pub record Yanked (v : BufferValue) (mark : ℕ) (buffer_id : Str) (t : Session) : Type 0 where
  pub entry : Entry
  pub found : lookup buffer_id t.buffers ≡ some entry
  pub text : entry.value.text ≡ v.text
  pub point : entry.value.point ≡ max v.point mark

-- In a valid session with the minibuffer closed, let the current buffer's mark be set elsewhere than
-- its point. When `kill_region` is dispatched and then `yank` is, both return, and the buffer has
-- its text from before, with point at the end of the region.
pub dispatch-kill_yank :
    (env : Environment) (s : Session) (entry : Entry) (mark : ℕ)
    → IsValid s
    → s.minibuffer ≡ none
    → lookup s.current_id s.buffers ≡ some entry
    → entry.value.mark ≡ some mark
    → mark ≢ entry.value.point
    → Returns
        (dispatch env kill_region s >>= dispatch env yank)
        (Yanked entry.value mark s.current_id)
dispatch-kill_yank env s entry mark v shut found marked apart =
    let (e, killed, (r, yanked, back)) =
      kill_region-yank entry.value entry.state s.kill_ring mark
        (AllValues-lookup EntryIsValid s.current_id s.buffers entry v.stored.entries found) marked
        apart in
    Returns_mono (dispatch env kill_region s >>= dispatch env yank)
      (dispatch-twice env kill_region yank s entry e r shut found refl refl killed yanked)
      (λ u stored. record { entry = _; found = stored; text = back.text; point = back.point })
