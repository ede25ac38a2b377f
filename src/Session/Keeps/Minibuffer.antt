-- ===== src/Session/Keeps/Minibuffer.antt =====
-- The invariant in the minibuffer arms: input, backspace, abort and accept, in every mode.
use drei.Base.{
  ℕ, ◌≡◌, refl, Str, lookup, List, [], ◌∷◌, ◌++◌, Option, none, some, Returns, Returns-bind,
  ReturnsUnless, ReturnsUnless-bind, inl,
}
use drei.Acp.Effects.{PermissionRequested, PermissionDecision, cancelled}
use drei.Commands.{message, answer_y_or_n, minibuffer_aborted}
use drei.Session.State.{
  Entry, Environment, MinibufferKind, find_file, agent_prompt, switch_buffer, save_buffer,
  exit_anyway, Session, emit, entry_of, current_value, close_minibuffer,
}
use drei.Session.Choice.{choice_key_to_decision, drain_permission_queue}
use drei.Session.Exit.{exit_prompt_key}
use drei.Session.Minibuffer.{
  Mode, choosing, exiting, typing, closed, decide_key, minibuffer_input_arm, drop_last,
  minibuffer_backspace_arm, minibuffer_abort_arm,
}
use drei.Session.Dispatch.{or_current}
use drei.Session.Stored.{current_entry}
use drei.Session.Working.{IsBase, IsWorking, emit-IsBase, emit-IsWorking, Replaces-self}
use drei.Session.Keeps.Answers.{Answerable, choice_key_to_decision-Returns}
use drei.Session.Keeps.Buffers.{entry_valid}
use drei.Session.Keeps.Prompts.{
  Facts, Asked, prompts-IsBase, pending-IsBase, decide-Asked, drain-Asked,
}
use drei.Session.Keeps.Saving.{WriteRaises}
use drei.Session.Keeps.Exit.{exit_prompt_key-Keeps}
use drei.Session.Keeps.Commit.{Lands}

-- The value of the current buffer lands in it.
pub current_value-Lands :
    (s : Session) → IsWorking s → Returns (current_value s) (λ v. Lands none (s, v))
unfolding current_value entry_of or_current
current_value-Lands s h =
    let (e, found) = current_entry h.base.stored in
    (
      e.value,
      rw found refl,
      record {
        working = h;
        entry = e;
        found = found;
        fits = Replaces-self e (entry_valid s s.current_id e h.base found);
      },
    )

-- A session with the same buffers, and the value that its current buffer had.
module _ {s : Session} (e : Entry) (found : lookup s.current_id s.buffers ≡ some e) where
  pub Asked-Lands : {s' : Session} → Asked s s' → Lands none (s', e.value)
  unfolding or_current
  Asked-Lands {s'} a =
      let here : lookup s'.current_id s'.buffers ≡ some e = rw (a.buffers, a.current) found in
      record {
        working = a.working;
        entry = e;
        found = here;
        fits = Replaces-self e (entry_valid s' s'.current_id e a.working.base here);
      }

pub same-Asked : {s : Session} → IsWorking s → Asked s s
same-Asked h = record { working = h; buffers = refl; current = refl }

pub message-Asked : (t : _) {s : Session} → IsWorking s → Asked s (emit (message t) s)
message-Asked t h = record {
  working = emit-IsWorking (message t) refl h;
  buffers = unfold emit in refl;
  current = unfold emit in refl;
}

-- More or less text at a prompt.
typed-Asked :
    (s : Session) (input : Str) (kind : Option MinibufferKind) (text : Str)
    → IsWorking s
    → Facts s (typing input kind)
    → Asked s (record s { minibuffer = some text })
typed-Asked s input kind text h f = record {
  working = record {
    base = record { stored = h.base.stored; pending_in = h.base.pending_in; quiet = h.base.quiet };
    prompted = f.2 text;
  };
  buffers = refl;
  current = refl;
}

module _ (env : Environment) (s : Session) (h : IsWorking s) (e : Entry)
    (found : lookup s.current_id s.buffers ≡ some e) where
  decide_key-Asked :
      (request : PermissionRequested) (decision : Option PermissionDecision)
      → Facts s (choosing request)
      → Asked s (decide_key env request decision s)
  unfolding decide_key
  decide_key-Asked request none f = same-Asked h
  decide_key-Asked request (some d) f = decide-Asked env request d s h.base f.0 f.1

  pub input-Lands :
      (char : ℕ) (m : Mode)
      → Facts s m
      → Answerable m
      → ReturnsUnless
          (WriteRaises env.files)
          (minibuffer_input_arm env char e.value m s)
          (Lands none)
  unfolding minibuffer_input_arm
  input-Lands char (choosing request) f a = inl (
      Returns-bind (choice_key_to_decision request char) _
        (choice_key_to_decision-Returns request char a)
        (λ d u. (_, refl, Asked-Lands {s = s} e found (decide_key-Asked request d f))))
  input-Lands char (exiting kind) f a =
      ReturnsUnless-bind (exit_prompt_key env kind char s) _
        (exit_prompt_key-Keeps env kind char s h f)
        (λ s' w.
          inl (Returns-bind (current_value s') _ (current_value-Lands s' w) (λ v l. (_, refl, l))))
  input-Lands char (typing input kind) f a =
      inl (_, refl, Asked-Lands {s = s} e found (typed-Asked s input kind (input ++ char ∷ []) h f))
  input-Lands char closed f a = inl (_, refl, Asked-Lands {s = s} e found (same-Asked h))

  pub backspace-Asked : (m : Mode) → Facts s m → Asked s (minibuffer_backspace_arm m s)
  unfolding minibuffer_backspace_arm
  backspace-Asked (choosing request) f = same-Asked h
  backspace-Asked (exiting kind) f = message-Asked answer_y_or_n h
  backspace-Asked (typing input kind) f = typed-Asked s input kind (drop_last input) h f
  backspace-Asked closed f = same-Asked h

  aborted-Asked :
      (pending : List (Str × Str))
      → IsBase (record s { exit_pending = pending })
      → pending ≡ []
      → s.choice ≡ none
      → Asked s (
          drain_permission_queue env
            (emit minibuffer_aborted (close_minibuffer (record s { exit_pending = pending }))))
  unfolding close_minibuffer emit
  aborted-Asked pending b p c =
      let closing = prompts-IsBase b s.choice none [] none s.permission_queue in
      let a =
        drain-Asked (unfold emit in emit-IsBase minibuffer_aborted refl closing) env
          (record { choice = c; minibuffer = refl; kind = refl; pending = p }) in
      record { working = a.working; buffers = a.buffers; current = a.current }

  pub abort-Asked : (m : Mode) → Facts s m → Asked s (minibuffer_abort_arm env m s)
  unfolding minibuffer_abort_arm
  abort-Asked (choosing request) f = decide-Asked env request cancelled s h.base f.0 f.1
  abort-Asked (exiting save_buffer) f = aborted-Asked [] (pending-IsBase h.base [] tt) refl f.0
  abort-Asked (exiting exit_anyway) f = aborted-Asked [] (pending-IsBase h.base [] tt) refl f.0
  abort-Asked (exiting find_file) f = absurd f
  abort-Asked (exiting agent_prompt) f = absurd f
  abort-Asked (exiting switch_buffer) f = absurd f
  abort-Asked (typing input kind) f = aborted-Asked s.exit_pending h.base f.1 f.0
  abort-Asked closed f = same-Asked h
