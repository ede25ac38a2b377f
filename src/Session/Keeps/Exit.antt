-- ===== src/Session/Keeps/Exit.antt =====
-- The invariant in the exit sequence.
use drei.Base.{
  ℕ, ◌≡◌, ◌≢◌, refl, ◌∙◌, Str, str_eq_refl, Assoc, All, All-mono, contains, Bool, true, false, List,
  [], ◌∷◌, Option, none, some, ◌==◌, if◌then◌else◌, Bool-cases, inl, inr, ReturnsUnless,
  ReturnsUnless-if, ReturnsUnless-bind, arith,
}
use drei.Commands.{editor_exited, exit_refused, save_declined, message, answer_y_or_n}
use drei.Session.State.{
  Entry, Environment, MinibufferKind, find_file, agent_prompt, switch_buffer, save_buffer,
  exit_anyway, Session, emit, close_minibuffer,
}
use drei.Session.Saving
use drei.Session.Exit.{
  offer, at_risk, any_modified, save_prompt, exit_prompt, advance_with, advance_exit, begin_exit,
  answer_exit, answer_save, answer, exit_prompt_key,
}
use drei.Session.Minibuffer.{exiting}
use drei.Session.Working.{IsBase, IsWorking, emit-IsBase, emit-IsWorking}
use drei.Session.Keeps.Saving.{WriteRaises, save_buffer-Keeps}
use drei.Session.Keeps.Prompts.{
  Facts, Asked, IsIdle-Prompted, pending-IsBase, prompts-IsBase, open_prompt-Asked, drain-Asked,
}

InBuffers : Assoc Entry → Str × Str → Type 0
InBuffers buffers p = contains p.0 buffers ≡ true

offer-All :
    (P : Str × Str → Type 0) (k : Str) (path : Option Str) (rest : List (Str × Str))
    → ((file : Str) → P (k, file))
    → All P rest
    → All P (offer k path rest)
unfolding offer
offer-All P k none rest p h = h
offer-All P k (some path) rest p h = (p path, h)

contains-cons :
    (k j : Str) (e : Entry) (l : Assoc Entry) → contains k l ≡ true → contains k ((j, e) ∷ l) ≡ true
unfolding contains
contains-cons k j e l h = ground arith

contains-head : (j : Str) (e : Entry) (l : Assoc Entry) → contains j ((j, e) ∷ l) ≡ true
unfolding contains
contains-head j e l = rw str_eq_refl

All-if :
    (P : Str × Str → Type 0) (b : Bool) (xs ys : List (Str × Str))
    → All P xs
    → All P ys
    → All P (if b then xs else ys)
All-if P true xs ys h k = h
All-if P false xs ys h k = k

-- What is offered to be saved exists.
at_risk-contains : (l : Assoc Entry) → All (λ (p : Str × Str). contains p.0 l ≡ true) (at_risk l)
unfolding at_risk
at_risk-contains [] = tt
at_risk-contains ((j, e) ∷ l) =
    let rest = All-mono _ (at_risk l) (λ p. contains-cons p.0 j e l) (at_risk-contains l) in
    All-if _ e.value.modified _ _
      (offer-All _ j e.value.file_path (at_risk l) (λ f. contains-head j e l) rest) rest

module _ {s : Session} (h : IsBase s) (c : s.choice ≡ none) (m : s.minibuffer ≡ none)
    (k : s.minibuffer_kind ≡ none) where
  advance_with-Asked :
      (pending : List (Str × Str)) → s.exit_pending ≡ pending → Asked s (advance_with pending s)
  unfolding advance_with
  advance_with-Asked ((j, path) ∷ rest) e =
      open_prompt-Asked h save_buffer (save_prompt path) (rw (c, e) (λ q. cc))
  advance_with-Asked [] e = elim (Bool-cases (any_modified s.buffers)) [
    | inl risky ↦
        rw (risky, advance_with) (open_prompt-Asked h exit_anyway exit_prompt (rw (c, e) refl))
    | inr safe ↦
        rw (safe, advance_with)
          (record {
            working = emit-IsWorking editor_exited refl (record {
              base = h;
              prompted =
                  IsIdle-Prompted {s = s}
                    (record { choice = c; minibuffer = m; kind = k; pending = e });
            });
            buffers = unfold emit in refl;
            current = unfold emit in refl;
          })
  ]

  pub advance_exit-Asked : Asked s (advance_exit s)
  unfolding advance_exit
  advance_exit-Asked = advance_with-Asked s.exit_pending refl

pub begin_exit-Asked :
    (s : Session)
    → IsBase s
    → s.choice ≡ none
    → s.minibuffer ≡ none
    → s.minibuffer_kind ≡ none
    → Asked s (begin_exit s)
unfolding begin_exit
begin_exit-Asked s h c m k =
    let a =
      advance_exit-Asked (pending-IsBase h (at_risk s.buffers) (at_risk-contains s.buffers)) c m
        k in
    record { working = a.working; buffers = a.buffers; current = a.current }

answer_exit-IsWorking :
    (env : Environment) (key : Bool) (s : Session)
    → IsBase s
    → s.choice ≡ none
    → s.exit_pending ≡ []
    → IsWorking (answer_exit env key s)
unfolding answer_exit close_minibuffer
answer_exit-IsWorking env true s h c p = emit-IsWorking editor_exited refl (record {
  base = prompts-IsBase h s.choice none [] none s.permission_queue;
  prompted = rw c (refl, p);
})
answer_exit-IsWorking env false s h c p =
    let closed : IsBase (emit exit_refused (close_minibuffer s)) =
      emit-IsBase exit_refused refl (prompts-IsBase h s.choice none [] none s.permission_queue) in
    (drain-Asked closed env
      (unfold emit in record { choice = c; minibuffer = refl; kind = refl; pending = p })).working

-- The next question, once the answered one is closed.
next-IsWorking :
    (s : Session) → IsBase s → s.choice ≡ none → IsWorking (advance_exit (close_minibuffer s))
unfolding close_minibuffer
next-IsWorking s h c =
    (advance_exit-Asked (prompts-IsBase h s.choice none [] none s.permission_queue) c refl
      refl).working

answer_save-Keeps :
    (env : Environment) (key : Bool) (pending : List (Str × Str)) (s : Session)
    → IsBase s
    → s.choice ≡ none
    → s.exit_pending ≡ pending
    → pending ≢ []
    → ReturnsUnless (WriteRaises env.files) (answer_save env key pending s) IsWorking
unfolding answer_save
answer_save-Keeps env key [] s h c e some_left = absurd (some_left refl)
answer_save-Keeps env true ((j, path) ∷ rest) s h c e some_left =
    let there : All (InBuffers s.buffers) ((j, path) ∷ rest) =
      unfold InBuffers in rw e at h.pending_in in
    ReturnsUnless-bind (Saving.save_buffer env.files j (record s { exit_pending = rest })) _
      (save_buffer-Keeps env.files j _ (pending-IsBase h rest (unfold InBuffers in there.1))
        (unfold InBuffers in there.0))
      (λ s' d. inl (_, refl, next-IsWorking s' d.base (d.same.choice ∙ c)))
answer_save-Keeps env false ((j, path) ∷ rest) s h c e some_left =
    let there : All (InBuffers s.buffers) ((j, path) ∷ rest) =
      unfold InBuffers in rw e at h.pending_in in
    inl (
      _,
      refl,
      next-IsWorking _
          (emit-IsBase (save_declined j) refl (pending-IsBase h rest (unfold InBuffers in there.1)))
          (unfold emit in c),
    )

answer-Keeps :
    (env : Environment) (kind : MinibufferKind) (key : Bool) (s : Session)
    → IsBase s
    → Facts s (exiting kind)
    → ReturnsUnless (WriteRaises env.files) (answer env kind key s) IsWorking
unfolding answer
answer-Keeps env exit_anyway key s h f = inl (_, refl, answer_exit-IsWorking env key s h f.0 f.1)
answer-Keeps env save_buffer key s h f = answer_save-Keeps env key s.exit_pending s h f.0 refl f.1
answer-Keeps env find_file key s h f = absurd f
answer-Keeps env agent_prompt key s h f = absurd f
answer-Keeps env switch_buffer key s h f = absurd f

-- A key at an exit prompt, whichever it is.
pub exit_prompt_key-Keeps :
    (env : Environment) (kind : MinibufferKind) (char : ℕ) (s : Session)
    → IsWorking s
    → Facts s (exiting kind)
    → ReturnsUnless (WriteRaises env.files) (exit_prompt_key env kind char s) IsWorking
unfolding exit_prompt_key
exit_prompt_key-Keeps env kind char s h f =
    ReturnsUnless-if (char == b'y') _ _ (λ yes_key. answer-Keeps env kind true s h.base f)
      (λ other.
        ReturnsUnless-if (char == b'n') _ _ (λ no_key. answer-Keeps env kind false s h.base f)
          (λ other'. inl (_, refl, emit-IsWorking (message answer_y_or_n) refl h)))
