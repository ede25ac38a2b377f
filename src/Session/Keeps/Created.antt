-- ===== src/Session/Keeps/Created.antt =====
-- New buffers: a fresh name, a valid entry, and the visit that makes one.
use drei.Base.{
  ok, ◌≡◌, ◌≢◌, refl, sym, subst, Str, str_eq, Assoc, contains, lookup, lookup-insert_self,
  lookup-contains, true, false, [], ◌∷◌, Option, none, some, ok, Returns, arith,
}
use drei.Files.{
  FilePort, VisitOpened, opened, resolve_visit, resolve_read, ReadResult, contents, undecodable,
  read_raises, read_error, file_not_found, permission_error, other_os_error, basename,
}
use drei.Files.LineEndings.{lf, detect_line_ending, to_buffer_text}
use drei.Buffer.{BufferValue, InBounds, checked}
use drei.Genesis.{prepare_provided_buffer}
use drei.Commands.{buffer_created}
use drei.Editing.State.{BufferState, BufferKind, generated, new_state}
use drei.Editing.Invariant
use drei.Session.State.{Entry, Session, emit, put_entry}
use drei.Session.Names.Fresh.{unique_name-fresh}
use drei.Session.Buffers.{prepared_entry, create_buffer, empty_value}
use drei.Session.Invariant.{EntryIsValid, IsGenerated}
use drei.Session.Working.{IsBase, Carries, emit-Carries}
use drei.Session.Keeps.Buffers.{put_entry-Carries}

-- A buffer with no history whose saved text is its text.
pub fresh-IsValid :
    (v : BufferValue) (st : BufferState) (kind : BufferKind) (eol : _)
    → st ≡ new_state (some v.text) eol kind
    → InBounds v
    → Invariant.IsValid v st
unfolding new_state
fresh-IsValid v st kind eol same b =
    subst (λ x. Invariant.IsValid v x) (sym same)
      (record {
        in_bounds = b;
        can_undo = tt;
        can_redo = tt;
        capacity = omega arith;
        yank_in = λ a. cc;
        clean = λ o c. refl;
      })

abbrev empty_entry : BufferKind → Entry
empty_entry kind = record { value = empty_value; state = new_state (some []) lf kind }

empty_entry-valid : (kind : BufferKind) → EntryIsValid (empty_entry kind)
unfolding empty_value
empty_entry-valid kind =
    fresh-IsValid empty_value _ kind lf refl (record { point_in = omega arith; mark_in = tt })

prepared_empty :
    (k : Str) (kind : BufferKind)
    → k ≢ []
    → prepared_entry k empty_value kind none ≡ ok (empty_entry kind)
unfolding prepared_entry prepare_provided_buffer empty_value checked detect_line_ending
    to_buffer_text str_eq new_state
prepared_empty [] kind h = absurd (h refl)
prepared_empty (c ∷ cs) kind h = refl

-- What a new buffer leaves: its entry under a name that was free, and everything else in place.
pub record Created (s : Session) (e : Entry) (r : Session × Str) : Type 0 where
  pub carries : Carries s r.0
  pub found : lookup r.1 r.0.buffers ≡ some e
  pub free : contains r.1 s.buffers ≡ false

lookup-free :
    (k : Str) (l : Assoc Entry) (e : Entry) → contains k l ≡ false → lookup k l ≡ some e → ⊥
lookup-free k l e h found = cc (lookup-contains k l e found)

pub create_buffer-Keeps :
    (name : Str) (value : BufferValue) (kind : BufferKind) (prepared : Option BufferState)
    (e : Entry) (s : Session)
    → IsBase s
    → EntryIsValid e
    → ((k : Str) → (name ≢ [] → k ≢ []) → prepared_entry k value kind prepared ≡ ok e)
    → Returns (create_buffer name value kind prepared s) (Created s e)
unfolding create_buffer
create_buffer-Keeps name value kind prepared e s h v entry =
    let (k, found, free, nonempty) = unique_name-fresh name s.buffers in
    let put : Carries s (put_entry k e s) =
      put_entry-Carries k e s h v (λ old there. absurd (lookup-free k s.buffers old free there)) in
    (
      (emit (buffer_created k e.value.file_path) (put_entry k e s), k),
      rw (found, entry k nonempty) refl,
      record {
        carries = emit-Carries (buffer_created k e.value.file_path) refl put;
        found = unfold emit put_entry in lookup-insert_self k e s.buffers;
        free = free;
      },
    )

pub create_empty-Keeps :
    (name : Str) (kind : BufferKind) (s : Session)
    → name ≢ []
    → IsBase s
    → Returns (create_buffer name empty_value kind none s) (Created s (empty_entry kind))
create_empty-Keeps name kind s some_name h =
    create_buffer-Keeps name empty_value kind none (empty_entry kind) s h (empty_entry-valid kind)
      (λ k nonempty. prepared_empty k kind (nonempty some_name))

-- A new generated buffer can be bound to the agent.
pub Created-IsGenerated :
    (s : Session) (r : Session × Str)
    → Created s (empty_entry generated) r
    → IsGenerated r.0.buffers r.1
unfolding new_state
Created-IsGenerated s r c = (empty_entry generated, c.found, refl)

pub Created-contains :
    (s : Session) (e : Entry) (r : Session × Str) → Created s e r → contains r.1 r.0.buffers ≡ true
Created-contains s e r c = lookup-contains r.1 r.0.buffers e c.found

-- What a visit opens is saved as it stands.
resolve_read-saved :
    (path name : Str) (r : ReadResult) (visit : VisitOpened)
    → resolve_read path name r ≡ ok (opened visit)
    → visit.saved_text ≡ visit.text
unfolding resolve_read
resolve_read-saved path name (contents t) visit h = ground arith
resolve_read-saved path name undecodable visit h = cc
resolve_read-saved path name (read_error file_not_found) visit h = ground arith
resolve_read-saved path name (read_error permission_error) visit h = cc
resolve_read-saved path name (read_error other_os_error) visit h = cc
resolve_read-saved path name read_raises visit h = cc

pub resolve_visit-saved :
    (port : FilePort) (path : Str) (visit : VisitOpened)
    → resolve_visit port path ≡ ok (opened visit)
    → visit.saved_text ≡ visit.text
unfolding resolve_visit
resolve_visit-saved port path visit h =
    ground (arith, resolve_read-saved path (basename path) (port.read path) visit)
