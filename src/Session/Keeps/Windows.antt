-- ===== src/Session/Keeps/Windows.antt =====
-- The layout: splitting and displaying.
use drei.Base.{
  ℕ, zero, suc, ◌+◌, ◌%◌, ◌<◌, ◌≡◌, ◌≢◌, refl, ap, Str, contains, Bool, true, false, not, All,
  All-get, All-set, List, [], ◌∷◌, none, some, length, get_elem?, get_elem?-lt-length,
  get_elem?-set_ne, ◌==◌, if◌then◌else◌, Returns, Returns-if, Returns-bind, arith, ◌∙◌, Bool-cases,
  inl, inr,
}
use drei.Commands.{message, too_small_for_splitting, window_split, buffer_displayed}
use drei.Session.State.{WindowValue, Session, emit}
use drei.Session.Windows.{
  too_small, insert_at, split_focused, split_window, show_next, display_buffer,
}
use drei.Session.Stored.{IsStored-layout}
use drei.Session.Working.{IsBase, Carries, Carries-trans, emit-Carries}
use drei.Session.Keeps.Buffers.{IsBase-Carries}

-- A layout that shows buffers that exist, the current one in the focused window.
module _ {s : Session} (h : IsBase s) where
  pub layout-Carries :
      (current_id : Str) (windows : List WindowValue) (focused : ℕ) (mru : List Str)
      → contains current_id s.buffers ≡ true
      → All (λ (w : WindowValue). contains w.buffer_id s.buffers ≡ true) windows
      → (w : WindowValue) × (get_elem? windows focused ≡ some w) × (w.buffer_id ≡ current_id)
      → Carries s
          (record s { current_id = current_id; windows = windows; focused = focused; mru = mru })
  layout-Carries current_id windows focused mru c w f = record {
    base = record {
      stored = IsStored-layout h.stored c w f;
      pending_in = h.pending_in;
      quiet = h.quiet;
    };
    same = record { choice = refl; minibuffer = refl; kind = refl; pending = refl };
  }

module _ {ℓ} {A : Type ℓ} where
  get_elem?-insert_after :
      (ws : List A) (i : ℕ) (w : A)
      → i < length ws
      → get_elem? (insert_at (suc i) w ws) i ≡ get_elem? ws i
  unfolding insert_at
  get_elem?-insert_after [] i w h = elim h [ ]
  get_elem?-insert_after (x ∷ ws) zero w h = refl
  get_elem?-insert_after (x ∷ ws) (suc i) w h = get_elem?-insert_after ws i w (omega arith)

  All-insert_at {κ} :
      (P : A → Type κ) (i : ℕ) (w : A) (ws : List A) → All P ws → P w → All P (insert_at i w ws)
  unfolding insert_at
  All-insert_at P zero w ws h p = (p, h)
  All-insert_at P (suc i) w [] h p = (p, tt)
  All-insert_at P (suc i) w (x ∷ ws) h p = (h.0, All-insert_at P i w ws h.1 p)

  length-insert_at : (i : ℕ) (w : A) (ws : List A) → length (insert_at i w ws) ≡ suc (length ws)
  unfolding insert_at
  length-insert_at zero w ws = refl
  length-insert_at (suc i) w [] = refl
  length-insert_at (suc i) w (x ∷ ws) = ap suc (length-insert_at i w ws)

-- Splitting shows the focused buffer once more.
pub record Splits (s s' : Session) : Type 0 where
  pub carries : Carries s s'
  pub buffers : s'.buffers ≡ s.buffers
  pub current : s'.current_id ≡ s.current_id

split_focused-Keeps : (s : Session) → IsBase s → Returns (split_focused s) (Splits s)
unfolding split_focused
split_focused-Keeps s h =
    let (w, found, shows) = h.stored.focus_shows in
    let windows = insert_at (s.focused + 1) w s.windows in
    let next : s.focused + 1 ≡ suc s.focused = omega arith in
    let stays : get_elem? windows s.focused ≡ some w = rw next (
      get_elem?-insert_after s.windows s.focused w (get_elem?-lt-length s.windows s.focused w found)
      ∙ found) in
    (
      emit (window_split (length windows)) (record s { windows = windows }),
      rw found refl,
      record {
        carries = emit-Carries (window_split (length windows)) refl (
            layout-Carries h s.current_id windows s.focused s.mru h.stored.current_in
              (All-insert_at _ (s.focused + 1) w s.windows h.stored.windows_in
                (All-get _ s.windows s.focused w h.stored.windows_in found))
              (w, stays, shows));
        buffers = unfold emit in refl;
        current = unfold emit in refl;
      },
    )

pub split_window-Keeps :
    (speak : Bool) (s : Session) → IsBase s → Returns (split_window speak s) (Splits s)
unfolding split_window
split_window-Keeps speak s h =
    Returns-if (too_small s.frame_size (length s.windows)) _ _ (λ small. (_, refl, quiet speak))
      (λ fits. split_focused-Keeps s h)
  where
    quiet : (b : Bool) → Splits s (if b then emit (message too_small_for_splitting) s else s)
    quiet true = record {
      carries = emit-Carries (message too_small_for_splitting) refl (IsBase-Carries s h);
      buffers = unfold emit in refl;
      current = unfold emit in refl;
    }
    quiet false = record { carries = IsBase-Carries s h; buffers = refl; current = refl }

pub next_ne : (i n : ℕ) → i < n → n ≢ 1 → (i + 1) % n ≢ i
next_ne i n h k e = grind arith

show_next-Splits :
    (k : Str) (s : Session)
    → IsBase s
    → contains k s.buffers ≡ true
    → length s.windows ≢ 1
    → Splits s (show_next k s)
unfolding show_next
show_next-Splits k s h c many =
    let (w, found, shows) = h.stored.focus_shows in
    let target = (s.focused + 1) % length s.windows in
    let shown : WindowValue = record { buffer_id = k; point = 0; mark = none } in
    let other : target ≢ s.focused =
      next_ne s.focused (length s.windows) (get_elem?-lt-length s.windows s.focused w found) many in
    record {
      carries = emit-Carries (buffer_displayed k target) refl (
          layout-Carries h s.current_id _ s.focused s.mru h.stored.current_in
            (All-set _ s.windows target shown h.stored.windows_in c)
            (w, get_elem?-set_ne s.windows target s.focused shown other ∙ found, shows));
      buffers = unfold emit in refl;
      current = unfold emit in refl;
    }

Splits-trans : {a b c : Session} → Splits a b → Splits b c → Splits a c
Splits-trans p q = record {
  carries = Carries-trans p.carries q.carries;
  buffers = q.buffers ∙ p.buffers;
  current = q.current ∙ p.current;
}

pub display_buffer-Keeps :
    (k : Str) (s : Session)
    → IsBase s
    → contains k s.buffers ≡ true
    → Returns (display_buffer k s) (Splits s)
unfolding display_buffer
display_buffer-Keeps k s h c =
    Returns-if (not (contains k s.buffers)) _ _ (λ missing. cc)
      (λ there.
        Returns-if (length s.windows == 1) _ _
          (λ one.
            Returns-bind (split_window false s) _ (split_window-Keeps false s h)
              (λ s' p. (_, refl, after s' p)))
          (λ more. (_, refl, show_next-Splits k s h c (ground arith))))
  where
    after :
        (s' : Session)
        → Splits s s'
        → Splits s (if length s'.windows == 1 then s' else show_next k s')
    after s' p = elim (Bool-cases (length s'.windows == 1)) [
      | inl one ↦ rw one p
      | inr more ↦
          rw more
            (Splits-trans p (show_next-Splits k s' p.carries.base (rw p.buffers c) (ground arith)))
    ]
