-- ===== src/Session/Saves.antt =====
-- What `save_buffer` writes, and what it leaves in the session (session.py).
use drei.Base.{
  ◌≡◌, refl, ap, ◌∙◌, Str, lookup, lookup-insert_self, AllValues-lookup, false, List, [], ◌∷◌, ◌++◌,
  none, some, Returns, Returns_mono, ReturnsUnless, inl, inr, ◌>>=◌,
}
use drei.Buffer.{BufferValue, InBounds, checked-ok}
use drei.Commands
use drei.Commands.{Command, Event, buffer_saved, save_failed}
use drei.Editing.State.{BufferState}
use drei.Editing.Bookkeeping.{bookkeeping, group_of, is_text_yanked, is_text_yank_popped}
use drei.Editing.Valid.{bookkeeping-quiet, IsQuiet-one}
use drei.Files.{
  WriteResult, write_returns, write_error, write_raises, ErrorToken, normalize_os_error,
}
use drei.Files.LineEndings.{to_file_text}
use drei.Session.State.{Entry, Environment, Session, entry_of, put_entry, emit}
use drei.Session.Agent.{pinned_target}
use drei.Session.Saving.{save, save_to, after_write}
use drei.Session.Dispatch.{passes_gate, arm, or_current, commit, run, dispatch}
use drei.Session.Invariant.{IsValid, EntryIsValid}
use drei.Session.Edits.{track_focus-windows}
use drei.Session.Exits.{closed-dispatch}

-- The buffer after a save, by what the port did: a success clears the flag, moves the clean text and
-- is the newest write; an error is reported, and leaves the value, the clean text and the writes.
-- After any other raise there is no session.
abbrev pub SavedAs : WriteResult → Str → Entry → List (Str × Str) → Entry → Session → Type 0
SavedAs write_returns path old written new t =
    (new.value ≡ record (old.value) { modified = false })
    × (new.state.saved_text ≡ some old.value.text)
    × (t.written ≡ written ++ (path, to_file_text old.value.text old.state.eol) ∷ [])
    × (t.events ≡ buffer_saved path ∷ [])
SavedAs (write_error error) path old written new t =
    (new.value ≡ old.value)
    × (new.state.saved_text ≡ old.state.saved_text)
    × (t.written ≡ written)
    × (t.events ≡ save_failed path (normalize_os_error error) ∷ [])
SavedAs write_raises path old written new t = ⊥

pub record Saved (answer : WriteResult) (path : Str) (old : Entry) (buffer_id : Str)
    (written : List (Str × Str)) (t : Session) : Type 0 where
  pub entry : Entry
  pub found : lookup buffer_id t.buffers ≡ some entry
  pub outcome : SavedAs answer path old written entry t

-- What the commit stores in the current buffer.
record Committed (current_id : Str) (new : Entry) (s' t : Session) : Type 0 where
  found : lookup current_id t.buffers ≡ some new
  written : t.written ≡ s'.written
  events : t.events ≡ s'.events

commit-Committed :
    (cmd : Command) (current w : BufferValue) (s' : Session) (e : Entry)
    → lookup s'.current_id s'.buffers ≡ some e
    → Returns (commit cmd current none s' w) (
        Committed s'.current_id
          (record { value = w; state = bookkeeping cmd current s'.events e.state })
          s')
unfolding commit entry_of or_current put_entry
commit-Committed cmd current w s' e found =
    let new : Entry = record { value = w; state = bookkeeping cmd current s'.events e.state } in
    let same = track_focus-windows s'.current_id w (put_entry s'.current_id new s') in
    rw found (
      _,
      refl,
      record {
        found =
            ap (λ (x : Session). lookup s'.current_id x.buffers) same
            ∙ lookup-insert_self s'.current_id new s'.buffers;
        written = ap (λ (x : Session). x.written) same;
        events = ap (λ (x : Session). x.events) same;
      },
    )

-- The books of a save leave the clean text alone.
saved-books :
    (current : BufferValue) (st : BufferState) (path : Str)
    → (bookkeeping Commands.save_buffer current (buffer_saved path ∷ []) st).saved_text
      ≡ st.saved_text
unfolding group_of is_text_yanked is_text_yank_popped
saved-books current st path =
    (bookkeeping-quiet _ current _ st (IsQuiet-one _ _ refl refl refl)).saved

failed-books :
    (current : BufferValue) (st : BufferState) (path : Str) (token : ErrorToken)
    → (bookkeeping Commands.save_buffer current (save_failed path token ∷ []) st).saved_text
      ≡ st.saved_text
unfolding group_of is_text_yanked is_text_yank_popped
failed-books current st path token =
    (bookkeeping-quiet _ current _ st (IsQuiet-one _ _ refl refl refl)).saved

-- The port raised what is not caught, when it was given the buffer.
abbrev pub Raised : Environment → Str → Entry → Type 0
Raised env path old =
    env.files.write path (to_file_text old.value.text old.state.eol) ≡ write_raises

module _ (env : Environment) (s : Session) (old : Entry) (path : Str) (fresh : s.events ≡ [])
    (bounds : InBounds old.value) (found : lookup s.current_id s.buffers ≡ some old)
    (visits : old.value.file_path ≡ some path) where
  -- From the answer of the port to the end of the dispatch.
  answered :
      (answer : WriteResult)
      → ReturnsUnless
          (answer ≡ write_raises)
          (do
            (s', w) ←
                after_write s.current_id path
                  (to_file_text old.value.text old.state.eol)
                  old
                  old.value
                  s
                  answer
            commit Commands.save_buffer old.value none s' w)
          (Saved answer path old s.current_id s.written)
  unfolding after_write emit put_entry
  answered write_returns =
      let clean : Entry = record old {
        state = record (old.state) { saved_text = some old.value.text };
      } in
      let events : s.events ++ buffer_saved path ∷ [] ≡ buffer_saved path ∷ [] =
        ap (λ (xs : List Event). xs ++ buffer_saved path ∷ []) fresh in
      inl (
        Returns_mono _
          (commit-Committed Commands.save_buffer old.value _ _ clean
            (lookup-insert_self s.current_id clean s.buffers))
          (λ t c. record {
            entry = _;
            found = c.found;
            outcome = (
              refl,
              rw events (saved-books old.value clean.state path),
              c.written,
              c.events ∙ events,
            );
          }))
  answered write_raises = inr (refl, refl)
  answered (write_error error) =
      let token = normalize_os_error error in
      let events : s.events ++ save_failed path token ∷ [] ≡ save_failed path token ∷ [] =
        ap (λ (xs : List Event). xs ++ save_failed path token ∷ []) fresh in
      inl (
        Returns_mono _ (commit-Committed Commands.save_buffer old.value _ _ old found) (λ t c.
          record {
            entry = _;
            found = c.found;
            outcome = (
              refl,
              rw events (failed-books old.value old.state path token),
              c.written,
              c.events ∙ events,
            );
          }))

  save-written :
      save env.files old.value s.current_id s
      ≡ after_write s.current_id path
          (to_file_text old.value.text old.state.eol)
          old
          old.value
          s
          (env.files.write path (to_file_text old.value.text old.state.eol))
  unfolding save entry_of
  save-written =
      ap (save_to env.files s.current_id old.value s) visits
      ∙ unfold save_to in rw (found, checked-ok _ (cleared)) refl
    where
      cleared : InBounds (record (old.value) { modified = false })
      cleared = record { point_in = bounds.point_in; mark_in = bounds.mark_in }

  run-Saved : ReturnsUnless (Raised env path old) (run env Commands.save_buffer s) (
      Saved
        (env.files.write path (to_file_text old.value.text old.state.eol))
        path
        old
        s.current_id
        s.written)
  unfolding run entry_of or_current pinned_target arm
  run-Saved = rw (found, save-written) (answered _)

-- In a valid session with the minibuffer closed, whose current buffer visits a file, `save_buffer`
-- gives the port the buffer's text with the buffer's line endings, for the buffer's path. When the
-- port accepts, the dispatch returns, that write is the newest, the buffer is unmodified, its text is
-- the clean text, and the only event says so. When the port raises an OSError, the dispatch returns,
-- the only event carries the error's token, and the buffer's value, the clean text and the writes are
-- what they were (the bookkeeping of the command may still break a chain of kills, yanks or undos).
-- When the port raises anything else, the dispatch raises it.
pub save_buffer-Saved :
    (env : Environment) (s : Session) (old : Entry) (path : Str)
    → IsValid s
    → s.minibuffer ≡ none
    → lookup s.current_id s.buffers ≡ some old
    → old.value.file_path ≡ some path
    → ReturnsUnless (Raised env path old) (dispatch env Commands.save_buffer s) (
        Saved
          (env.files.write path (to_file_text old.value.text old.state.eol))
          path
          old
          s.current_id
          s.written)
unfolding dispatch
save_buffer-Saved env s old path v shut found visits =
    let valid : EntryIsValid old =
      AllValues-lookup EntryIsValid s.current_id s.buffers old v.stored.entries found in
    let s' = record s { events = [] } in
    rw
      (closed-dispatch s.minibuffer (passes_gate Commands.save_buffer) _
        (run env Commands.save_buffer s') shut)
      (run-Saved env s' old path refl valid.in_bounds found visits)
