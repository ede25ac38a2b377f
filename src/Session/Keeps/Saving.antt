-- ===== src/Session/Keeps/Saving.antt =====
-- The invariant when a buffer is written, by the answers of the port.
use drei.Base.{
  ◌≡◌, refl, Str, contains, contains-lookup, lookup, lookup-insert_self, true, false, [], ◌∷◌, ◌++◌,
  Option, none, some, ReturnsUnless, ReturnsUnless-bind, ReturnsUnless_mono, inl, inr,
}
use drei.Files.{
  FilePort, WriteResult, write_returns, write_error, write_raises, no_file, normalize_os_error,
}
use drei.Files.LineEndings.{to_file_text}
use drei.Buffer.{BufferValue, InBounds, checked-ok}
use drei.Commands.{buffer_saved, save_failed}
use drei.Session.State.{Entry, Session, emit, entry_of, put_entry, replace_value}
use drei.Session.Saving.{after_write, save_to, save, save_buffer}
use drei.Session.Invariant.{EntryIsValid}
use drei.Session.Working.{
  IsBase, Carries, Carries-trans, emit-Carries, Replaces, Replaces-self, Replaces-valid,
  written-Carries,
}
use drei.Session.Keeps.Buffers.{put_entry-Carries, KeepsKind-same, entry_valid, IsBase-Carries}

-- A write of this port raises what is not caught.
abbrev pub WriteRaises : FilePort → Type 0
WriteRaises port = (path text : Str) × (port.write path text ≡ write_raises)

-- The session carries on, and the value that comes back fits the entry that is left.
pub record Saved (buffer_id : Str) (s : Session) (r : Session × BufferValue) : Type 0 where
  pub carries : Carries s r.0
  pub current : r.0.current_id ≡ s.current_id
  pub entry : Entry
  pub found : lookup buffer_id r.0.buffers ≡ some entry
  pub fits : Replaces entry r.1

module _ (buffer_id : Str) (s : Session) (h : IsBase s) (e : Entry)
    (found : lookup buffer_id s.buffers ≡ some e) where
  valid : EntryIsValid e
  valid = entry_valid s buffer_id e h found

  abbrev cleared : BufferValue
  cleared = record (e.value) { modified = false }

  cleared-InBounds : InBounds cleared
  cleared-InBounds = record {
    point_in = valid.in_bounds.point_in;
    mark_in = valid.in_bounds.mark_in;
  }

  -- The entry after a write: the same value, the clean text moved up.
  abbrev saved_entry : Entry
  saved_entry = record e { state = record (e.state) { saved_text = some e.value.text } }

  saved_entry-valid : EntryIsValid saved_entry
  saved_entry-valid = record {
    in_bounds = valid.in_bounds;
    can_undo = valid.can_undo;
    can_redo = valid.can_redo;
    capacity = valid.capacity;
    yank_in = valid.yank_in;
    clean = λ o c. refl;
  }

  after_write-Saved :
      (path text : Str) (answer : WriteResult)
      → ReturnsUnless
          (answer ≡ write_raises)
          (after_write buffer_id path text e e.value s answer)
          (Saved buffer_id s)
  unfolding after_write
  after_write-Saved path text (write_error error) = inl (
    _,
    refl,
    record {
      carries =
          emit-Carries (save_failed path (normalize_os_error error)) refl (IsBase-Carries s h);
      current = unfold emit in refl;
      entry = e;
      found = unfold emit in found;
      fits = Replaces-self e valid;
    },
  )
  after_write-Saved path text write_raises = inr (refl, refl)
  after_write-Saved path text write_returns = inl (
    _,
    refl,
    record {
      carries =
          unfold emit put_entry in
          written-Carries (s.written ++ (path, text) ∷ []) (
            emit-Carries (buffer_saved path) refl (
              put_entry-Carries buffer_id saved_entry s h saved_entry-valid
                (KeepsKind-same buffer_id saved_entry e s.buffers found refl)));
      current = unfold emit put_entry in refl;
      entry = saved_entry;
      found = unfold emit put_entry in lookup-insert_self buffer_id saved_entry s.buffers;
      fits = record { text = refl; bounds = cleared-InBounds; clean = λ o c. refl };
    },
  )

  save_to-Keeps :
      (port : FilePort) (path : Option Str)
      → ReturnsUnless (WriteRaises port) (save_to port buffer_id e.value s path) (Saved buffer_id s)
  unfolding save_to entry_of
  save_to-Keeps port none = inl (
    (emit (save_failed buffer_id no_file) s, e.value),
    rw found refl,
    record {
      carries = emit-Carries (save_failed buffer_id no_file) refl (IsBase-Carries s h);
      current = unfold emit in refl;
      entry = e;
      found = unfold emit in found;
      fits = Replaces-self e valid;
    },
  )
  save_to-Keeps port (some path) =
      let text = to_file_text e.value.text e.state.eol in
      rw (found, checked-ok cleared cleared-InBounds)
        (ReturnsUnless_mono (after_write buffer_id path text e e.value s (port.write path text))
          (after_write-Saved path text (port.write path text)) (λ raised. (path, text, raised))
          (λ r d. d))

  pub save-Keeps :
      (port : FilePort)
      → ReturnsUnless (WriteRaises port) (save port e.value buffer_id s) (Saved buffer_id s)
  unfolding save
  save-Keeps port = save_to-Keeps port e.value.file_path

-- `_save_buffer` writes the value back over the entry.
pub save_buffer-Keeps :
    (port : FilePort) (buffer_id : Str) (s : Session)
    → IsBase s
    → contains buffer_id s.buffers ≡ true
    → ReturnsUnless (WriteRaises port) (save_buffer port buffer_id s) (Carries s)
unfolding save_buffer replace_value entry_of
save_buffer-Keeps port buffer_id s h c =
    let (e, found) = contains-lookup buffer_id s.buffers c in
    rw found (
      ReturnsUnless-bind (save port e.value buffer_id s) _ (save-Keeps buffer_id s h e found port)
        (λ r d.
          let v : EntryIsValid d.entry = entry_valid r.0 buffer_id d.entry d.carries.base d.found in
          let e' : Entry = record (d.entry) { value = r.1 } in
          inl (
            put_entry buffer_id e' r.0,
            rw d.found refl,
            Carries-trans d.carries (
                put_entry-Carries buffer_id e' r.0 d.carries.base
                  (Replaces-valid d.entry r.1 v d.fits)
                  (KeepsKind-same buffer_id e' d.entry r.0.buffers d.found refl)),
          )))
