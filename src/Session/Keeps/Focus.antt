-- ===== src/Session/Keeps/Focus.antt =====
-- The layout: going to the next window, and collapsing.
use drei.Base.{
  ℕ, ◌+◌, ◌%◌, ◌≡◌, refl, Str, str_eq, str_eq_iff, contains, contains-insert_mono, true, All-get,
  [], ◌∷◌, Option, none, some, length, get_elem?, get_elem?_lt, ltb, min, Returns, Returns-if,
  Returns_mono, arith,
}
use drei.Buffer.{BufferValue, InBounds, MarkIn, checked-ok}
use drei.Commands.{window_focus_changed, windows_collapsed}
use drei.Editing.State.{break_chains}
use drei.Editing.Valid.{IsValid-still, SameHistory}
use drei.Session.State.{Entry, WindowValue, Session, emit, entry_of, put_entry, replace_value}
use drei.Session.Buffers.{leave_current, touch}
use drei.Session.Windows.{
  clamped_mark, restore_place, select_window_buffer, other_window, delete_other_windows,
}
use drei.Session.Invariant.{EntryIsValid}
use drei.Session.Stored.{current_entry}
use drei.Session.Working.{IsBase, Carries, Carries-trans, emit-Carries}
use drei.Session.Keeps.Buffers.{
  put_entry-Carries, KeepsKind-same, break_chains-valid, entry_valid, IsBase-Carries,
}
use drei.Session.Keeps.Windows.{layout-Carries}

clamped_mark-MarkIn : (m : Option ℕ) (n : ℕ) → MarkIn (clamped_mark m n) n
unfolding clamped_mark
clamped_mark-MarkIn none n = tt
clamped_mark-MarkIn (some m) n = omega arith

-- The current buffer's point and mark move, its text stays.
pub record Placed (s s' : Session) : Type 0 where
  pub carries : Carries s s'
  pub names : (k : Str) → contains k s.buffers ≡ true → contains k s'.buffers ≡ true
  pub current : s'.current_id ≡ s.current_id

restore_place-Keeps :
    (w : WindowValue) (s : Session) → IsBase s → Returns (restore_place w s) (Placed s)
unfolding restore_place replace_value entry_of
restore_place-Keeps w s h =
    let (e, found) = current_entry h.stored in
    let size = length e.value.text in
    let v : BufferValue = record (e.value) {
      point = min w.point size;
      mark = clamped_mark w.mark size;
    } in
    let b : InBounds v = record {
      point_in = omega arith;
      mark_in = clamped_mark-MarkIn w.mark size;
    } in
    let e' : Entry = record e { value = v } in
    let old : EntryIsValid e = entry_valid s s.current_id e h found in
    let same : SameHistory e.state e.state = record {
      history = refl;
      redo = refl;
      yank = λ a. a;
      start = refl;
      stop = refl;
      saved = refl;
      kind = refl;
    } in
    (
      put_entry s.current_id e' s,
      rw (found, checked-ok v b) refl,
      record {
        carries =
            put_entry-Carries s.current_id e' s h
              (IsValid-still e.value v e.state e.state old same b refl refl)
              (KeepsKind-same s.current_id e' e s.buffers found refl);
        names = λ k c. unfold put_entry in contains-insert_mono s.current_id k e' s.buffers c;
        current = unfold put_entry in refl;
      },
    )

-- The next window's buffer becomes current, at the place that the window remembers.
goes_to-Keeps :
    (w : WindowValue) (focused : ℕ) (s : Session)
    → IsBase s
    → get_elem? s.windows focused ≡ some w
    → contains w.buffer_id s.buffers ≡ true
    → Returns
        (select_window_buffer w
          (emit (window_focus_changed focused w.buffer_id) (record s { focused = focused })))
        (Carries s)
unfolding select_window_buffer leave_current entry_of
goes_to-Keeps w focused s h found c =
    let (e, current) = current_entry h.stored in
    let e' : Entry = record e { state = break_chains e.state } in
    let left : Carries s (put_entry s.current_id e' s) =
      put_entry-Carries s.current_id e' s h (break_chains-valid e (entry_valid s _ e h current))
        (KeepsKind-same s.current_id e' e s.buffers current (unfold break_chains in refl)) in
    let moved = emit-Carries (window_focus_changed focused w.buffer_id) refl (
      Carries-trans left (
        unfold put_entry in
        layout-Carries left.base w.buffer_id s.windows focused (touch w.buffer_id s.mru)
          (contains-insert_mono s.current_id w.buffer_id e' s.buffers c)
          (unfold put_entry in left.base.stored.windows_in) (w, found, refl))) in
    unfold emit put_entry in
    rw current
      (Returns_mono _ (restore_place-Keeps w _ moved.base) (λ s' p. Carries-trans moved p.carries))

pub other_window-Keeps : (s : Session) → IsBase s → Returns (other_window s) (Carries s)
unfolding other_window
other_window-Keeps s h =
    Returns-if (ltb (length s.windows) 2) _ _ (λ alone. (s, refl, IsBase-Carries s h))
      (λ more.
        let (shown, at, shows) = h.stored.focus_shows in
        let next = (s.focused + 1) % length s.windows in
        let (w, found) = get_elem?_lt s.windows next (grind arith) in
        let c : contains w.buffer_id s.buffers ≡ true =
          All-get _ s.windows next w h.stored.windows_in found in
        rw found (
          Returns-if (str_eq w.buffer_id s.current_id) _ _
            (λ same.
              let here = emit-Carries (window_focus_changed next w.buffer_id) refl (
                layout-Carries h s.current_id s.windows next s.mru h.stored.current_in
                  h.stored.windows_in (w, found, (str_eq_iff w.buffer_id s.current_id).0 same)) in
              Returns_mono _ (restore_place-Keeps w _ here.base)
                (λ s' p. Carries-trans here p.carries))
            (λ other. goes_to-Keeps w next s h found c)))

pub delete_other_windows-Keeps :
    (s : Session) → IsBase s → Returns (delete_other_windows s) (Carries s)
unfolding delete_other_windows
delete_other_windows-Keeps s h =
    Returns-if (ltb (length s.windows) 2) _ _ (λ alone. (s, refl, IsBase-Carries s h))
      (λ more.
        let (w, found, shows) = h.stored.focus_shows in
        (
          emit windows_collapsed (record s { windows = w ∷ []; focused = 0 }),
          rw found refl,
          emit-Carries windows_collapsed refl (
              layout-Carries h s.current_id (w ∷ []) 0 s.mru h.stored.current_in
                (All-get _ s.windows s.focused w h.stored.windows_in found, tt) (w, refl, shows)),
        ))
