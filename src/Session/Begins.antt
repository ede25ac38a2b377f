-- ===== src/Session/Begins.antt =====
-- `_initialize_from_genesis` and the invariant of a session (session.py, genesis.py).
use drei.Base.{
  ℕ, ◌≤◌, ◌≡◌, refl, Str, str_eq_iff, str_eq_refl, contains, is_empty, Bool-cases, true, false,
  ◌&&◌, leb→le, [], ◌∷◌, Option, none, some, length, ok, Returns, arith, inl, inr,
}
use drei.Buffer.{InBounds, MarkIn, mark_fits}
use drei.Genesis
use drei.Genesis.{
  BufferOrigin, FrameGenesis, InitialBuffer, SessionGenesis, validated, in_text, is_canonical,
  origin_valid, clean_basis, saved_is, is_none, genesis_of,
}
use drei.Editing.State.{new_state}
use drei.Editing.Outcome.{checked-Returns}
use drei.Session.Start.{start}
use drei.Session.Invariant.{IsValid}

-- What the checks of an initial buffer establish.
record IsAccepted (b : InitialBuffer) : Type 0 where
  point_in : b.point ≤ length b.text
  mark_in : MarkIn b.mark (length b.text)
  clean : b.modified ≡ false → b.saved_text ≡ some b.text

mark_fits-MarkIn : (m : Option ℕ) (n : ℕ) → mark_fits m n ≡ true → MarkIn m n
unfolding mark_fits
mark_fits-MarkIn none n h = tt
mark_fits-MarkIn (some m) n h = leb→le m n h

saved_is-some : (saved : Option Str) (text : Str) → saved_is saved text ≡ true → saved ≡ some text
unfolding saved_is
saved_is-some none text h = cc
saved_is-some (some saved) text h = ground (arith, str_eq_iff saved text)

clean_basis-saved : (b : InitialBuffer) → clean_basis b ≡ true → b.saved_text ≡ some b.text
unfolding clean_basis
clean_basis-saved b h = saved_is-some b.saved_text b.text (ground arith)

origin_valid-clean :
    (origin : BufferOrigin) (b : InitialBuffer)
    → origin_valid origin b ≡ true
    → b.modified ≡ false
    → b.saved_text ≡ some b.text
unfolding origin_valid
origin_valid-clean Genesis.scratch b h m = clean_basis-saved b (ground arith)
origin_valid-clean Genesis.existing_file b h m = clean_basis-saved b (ground arith)
origin_valid-clean Genesis.missing_file b h m = clean_basis-saved b (ground arith)
origin_valid-clean Genesis.provided b h m =
    saved_is-some b.saved_text b.text (rw (m, origin_valid) at h)

validated-IsAccepted : (b b' : InitialBuffer) → validated b ≡ ok b' → (b ≡ b') × IsAccepted b
unfolding validated in_text
validated-IsAccepted b b' h = elim (Bool-cases (is_empty b.buffer_id)) [
  | inl empty ↦ cc
  | inr named ↦ elim (Bool-cases (in_text b && (is_canonical b && origin_valid b.origin b))) [
    | inl fine ↦ (
      cc,
      record {
        point_in = leb→le _ _ (ground arith);
        mark_in = mark_fits-MarkIn b.mark _ (ground arith);
        clean = origin_valid-clean b.origin b (ground arith);
      },
    )
    | inr bad ↦ cc
  ]
]

contains-only {ℓ} : {V : Type ℓ} (k : Str) (v : V) → contains k ((k, v) ∷ []) ≡ true
unfolding contains
contains-only k v = rw (str_eq_refl k) refl

-- A genesis whose initial buffer the constructor accepts begins a session that satisfies the
-- invariant.
pub start-IsValid :
    (b : InitialBuffer) (frame : FrameGenesis)
    → validated b ≡ ok b
    → Returns (start (genesis_of b frame)) IsValid
unfolding start genesis_of new_state
start-IsValid b frame h =
    let (same, fine) = validated-IsAccepted b b h in
    let bounds : InBounds (record {
      text = b.text;
      point = b.point;
      file_path = b.file_path;
      modified = b.modified;
      mark = b.mark;
    }) =
      record { point_in = fine.point_in; mark_in = fine.mark_in } in
    checked-Returns _ _ bounds (record {
      stored = record {
        entries = (
          record {
            in_bounds = bounds;
            can_undo = tt;
            can_redo = tt;
            capacity = omega arith;
            yank_in = λ a. cc;
            clean = λ k m. fine.clean m;
          },
          tt,
        );
        current_in = contains-only b.buffer_id _;
        windows_in = (contains-only b.buffer_id _, tt);
        focus_shows = (_, refl, refl);
        ring_bound = omega arith;
        agents_in = tt;
        generated_in = tt;
      };
      prompted = (refl, refl);
      pending_in = tt;
    })
