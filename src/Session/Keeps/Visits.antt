-- ===== src/Session/Keeps/Visits.antt =====
-- Visiting a file, and switching to a buffer by its name.
use drei.Base.{
  ◌≡◌, refl, ap, Str, str_eq_refl, Assoc, contains, true, false, [], ◌∷◌, none, some, length,
  Returns, Returns-if, Returns-bind, Returns_mono, arith, Option-cases, inl, inr, ok, ◌∙◌, is_empty,
  Bool-cases, ReturnsUnless, ReturnsUnless-bind, ReturnsUnless_mono,
}
use drei.Files.{
  FilePort, ReadResult, contents, undecodable, read_error, read_raises, file_not_found,
  permission_error, other_os_error, VisitResolution, VisitOpened, opened, rejected, basename,
  resolve_read, resolve_visit,
}
use drei.Buffer.{BufferValue, InBounds, checked-ok}
use drei.Commands.{buffer_opened, open_failed}
use drei.Editing.State.{ordinary, new_state}
use drei.Session.State.{Entry, Session, emit, entry_of}
use drei.Session.Buffers.{
  create_buffer, prepared_entry, empty_value, find_visiting, visit_new, open_file,
}
use drei.Session.Minibuffer.{switch_to}
use drei.Session.Invariant.{EntryIsValid}
use drei.Session.Working.{IsBase, Carries, Carries-trans, emit-Carries}
use drei.Session.Keeps.Buffers.{select_buffer-Keeps, IsBase-Carries}
use drei.Session.Keeps.Created.{
  fresh-IsValid, create_buffer-Keeps, create_empty-Keeps, Created-contains, resolve_visit-saved,
}

find_visiting-contains :
    (path : Str) (l : Assoc Entry) (k : Str) → find_visiting path l ≡ some k → contains k l ≡ true
unfolding find_visiting contains
find_visiting-contains path [] k h = cc
find_visiting-contains path ((j, e) ∷ l) k h =
    ground (arith, find_visiting-contains path l k, str_eq_refl j)

-- The buffer of an opened visit, at the start of its text.
abbrev visited : VisitOpened → BufferValue
visited visit = record {
  text = visit.text;
  point = 0;
  file_path = some visit.path;
  modified = false;
  mark = none;
}

visited-InBounds : (visit : VisitOpened) → InBounds (visited visit)
visited-InBounds visit = record { point_in = omega arith; mark_in = tt }

visit_new-Keeps :
    (path : Str) (r : VisitResolution) (s : Session)
    → ((visit : VisitOpened) → r ≡ opened visit → visit.saved_text ≡ visit.text)
    → IsBase s
    → Returns (visit_new path r s) (Carries s)
unfolding visit_new entry_of
visit_new-Keeps path (rejected error) s saved h =
    (_, refl, emit-Carries (open_failed path error) refl (IsBase-Carries s h))
visit_new-Keeps path (opened visit) s saved h =
    let e : Entry = record {
      value = visited visit;
      state = new_state (some visit.saved_text) visit.line_ending ordinary;
    } in
    let v : EntryIsValid e =
      fresh-IsValid (visited visit) _ ordinary visit.line_ending
        (ap (λ t. new_state (some t) visit.line_ending ordinary) (saved visit refl))
        (visited-InBounds visit) in
    rw (checked-ok (visited visit) (visited-InBounds visit)) (
      Returns-bind (create_buffer visit.buffer_id (visited visit) ordinary (some e.state) s) _
        (create_buffer-Keeps visit.buffer_id (visited visit) ordinary (some e.state) e s h v
          (λ k nonempty. unfold prepared_entry in refl))
        (λ r c. rw c.found (
          let opening = emit-Carries (buffer_opened path (length e.value.text)) refl c.carries in
          Returns_mono _
            (select_buffer-Keeps r.1 _ opening.base (unfold emit in Created-contains s e r c))
            (λ s' more. Carries-trans opening more))))

-- A read of this port raises what is not caught.
abbrev pub ReadRaises : FilePort → Type 0
ReadRaises port = (path : Str) × (port.read path ≡ read_raises)

resolve_read-Resolved :
    (path name : Str) (r : ReadResult)
    → ReturnsUnless
        (r ≡ read_raises)
        (resolve_read path name r)
        (λ v. resolve_read path name r ≡ ok v)
unfolding resolve_read
resolve_read-Resolved path name (contents text) = inl (_, refl, refl)
resolve_read-Resolved path name undecodable = inl (_, refl, refl)
resolve_read-Resolved path name (read_error file_not_found) = inl (_, refl, refl)
resolve_read-Resolved path name (read_error permission_error) = inl (_, refl, refl)
resolve_read-Resolved path name (read_error other_os_error) = inl (_, refl, refl)
resolve_read-Resolved path name read_raises = inr (refl, refl)

resolve_visit-Resolved :
    (port : FilePort) (path : Str)
    → ReturnsUnless
        (ReadRaises port)
        (resolve_visit port path)
        (λ v. resolve_visit port path ≡ ok v)
unfolding resolve_visit
resolve_visit-Resolved port path = elim (Bool-cases (is_empty (basename path))) [
  | inl e ↦ rw (e, resolve_visit) (inl (_, refl, refl))
  | inr e ↦
      rw (e, resolve_visit)
        (ReturnsUnless_mono (resolve_read path (basename path) (port.read path))
          (resolve_read-Resolved path (basename path) (port.read path)) (λ raised. (path, raised))
          (λ v same. same))
]

-- `_open_file` keeps the session, whatever error the port answers.
pub open_file-Keeps :
    (port : FilePort) (path : Str) (s : Session)
    → IsBase s
    → ReturnsUnless (ReadRaises port) (open_file port path s) (Carries s)
unfolding open_file
open_file-Keeps port path s h = elim (Option-cases (find_visiting path s.buffers)) [
  | inl new ↦
      rw (new, open_file)
        (ReturnsUnless-bind (resolve_visit port path) _ (resolve_visit-Resolved port path)
          (λ r resolved. inl (
            visit_new-Keeps path r s
              (λ visit e. resolve_visit-saved port path visit (resolved ∙ ap ok e)) h)))
  | inr (k, there) ↦
      rw (there, open_file)
        (inl (select_buffer-Keeps k s h (find_visiting-contains path s.buffers k there)))
]

pub switch_to-Keeps : (name : Str) (s : Session) → IsBase s → Returns (switch_to name s) (Carries s)
unfolding switch_to
switch_to-Keeps [] s h = (s, refl, IsBase-Carries s h)
switch_to-Keeps (c ∷ cs) s h =
    Returns-if (contains (c ∷ cs) s.buffers) _ _ (λ there. select_buffer-Keeps (c ∷ cs) s h there)
      (λ missing.
        Returns-bind (create_buffer (c ∷ cs) empty_value ordinary none s) _
          (create_empty-Keeps (c ∷ cs) ordinary s (λ e. cc) h)
          (λ r made.
            Returns_mono _
              (select_buffer-Keeps r.1 r.0 made.carries.base (Created-contains s _ r made))
              (λ s' more. Carries-trans made.carries more)))
