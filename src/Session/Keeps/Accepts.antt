-- ===== src/Session/Keeps/Accepts.antt =====
-- Accepting the text of a prompt.
use drei.Base.{
  ◌≡◌, refl, ◌∙◌, Str, is_empty, lookup, Bool, true, false, [], ◌∷◌, Option, none, some,
  if◌then◌else◌, Result, ok, ◌>>=◌, Returns, Returns-bind, ReturnsUnless, ReturnsUnless-bind, inl,
}
use drei.Buffer.{BufferValue}
use drei.Commands.{answer_y_or_n, agent_prompt_submitted}
use drei.Session.State.{
  Entry, Environment, MinibufferKind, agent_prompt, switch_buffer, Session, emit, current_value,
  close_minibuffer,
}
use drei.Session.Choice.{choice_accept_decision}
use drei.Session.Minibuffer.{
  Mode, choosing, exiting, typing, closed, other_buffer, accept_text, minibuffer_accept_arm,
}
use drei.Session.Dispatch.{or_current}
use drei.Session.Working.{IsWorking, Prompted, Carries, Carries-IsWorking, emit-IsWorking}
use drei.Session.Keeps.Visits.{ReadRaises, open_file-Keeps, switch_to-Keeps}
use drei.Session.Keeps.Prompts.{
  Facts, Asked, IsIdle, IsIdle-Prompted, prompts-IsBase, decide-Asked, drain-Asked,
}
use drei.Session.Keeps.Commit.{Lands}
use drei.Session.Keeps.Minibuffer.{current_value-Lands, Asked-Lands, same-Asked, message-Asked}

-- A landing survives a change of prompts.
Lands-Asked :
    {s s' : Session} (v : BufferValue) → Lands none (s, v) → Asked s s' → Lands none (s', v)
unfolding or_current
Lands-Asked v l a = record {
  working = a.working;
  entry = l.entry;
  found = rw (a.buffers, a.current) l.found;
  fits = l.fits;
}

-- An accepted text has landed, and no prompt stands.
record Accepted (r : Session × BufferValue) : Type 0 where
  lands : Lands none r
  idle : IsIdle r.0

Carries-Accepted :
    (s s' : Session)
    → IsIdle s
    → Prompted s
    → Carries s s'
    → Returns (do v ← current_value s'; ok (s', v)) Accepted
Carries-Accepted s s' i p c =
    Returns-bind (current_value s') _ (current_value-Lands s' (Carries-IsWorking c p)) (λ v l. (
      _,
      refl,
      record {
        lands = l;
        idle = record {
          choice = c.same.choice ∙ i.choice;
          minibuffer = c.same.minibuffer ∙ i.minibuffer;
          kind = c.same.kind ∙ i.kind;
          pending = c.same.pending ∙ i.pending;
        };
      },
    ))

module _ (env : Environment) (s : Session) (h : IsWorking s) (i : IsIdle s) (e : Entry)
    (found : lookup s.current_id s.buffers ≡ some e) where
  here-Accepted : Accepted (s, e.value)
  here-Accepted = record { lands = Asked-Lands {s = s} e found (same-Asked h); idle = i }

  submitted-Accepted :
      (text : Str) (b : Bool)
      → Accepted (if b then s else emit (agent_prompt_submitted text) s, e.value)
  submitted-Accepted text true = here-Accepted
  submitted-Accepted text false = record {
    lands = Asked-Lands {s = s} e found (record {
      working = emit-IsWorking (agent_prompt_submitted text) refl h;
      buffers = unfold emit in refl;
      current = unfold emit in refl;
    });
    idle =
        unfold emit in
        record { choice = i.choice; minibuffer = i.minibuffer; kind = i.kind; pending = i.pending };
  }

  visit-Accepted :
      (r : Result Session)
      → ReturnsUnless (ReadRaises env.files) r (Carries s)
      → ReturnsUnless (ReadRaises env.files) (do s' ← r; v ← current_value s'; ok (s', v)) Accepted
  visit-Accepted r k = ReturnsUnless-bind r _ k (λ s' c. inl (Carries-Accepted s s' i h.prompted c))

  accept_text-Accepted :
      (text : Str) (kind : Option MinibufferKind)
      → ReturnsUnless (ReadRaises env.files) (accept_text env text kind e.value s) Accepted
  unfolding accept_text
  accept_text-Accepted text (some agent_prompt) =
      inl (_, refl, submitted-Accepted text (is_empty text))
  accept_text-Accepted text (some switch_buffer) =
      visit-Accepted _
        (inl (switch_to-Keeps (if is_empty text then other_buffer s.mru else text) s h.base))
  accept_text-Accepted [] kind = inl (_, refl, here-Accepted)
  accept_text-Accepted (c ∷ cs) kind =
      visit-Accepted _ (open_file-Keeps env.files (c ∷ cs) s h.base)

-- `MinibufferAccept` in every mode; a typed text is accepted once its prompt is closed.
pub accept-Lands :
    (env : Environment) (s : Session) (e : Entry) (m : Mode)
    → IsWorking s
    → lookup s.current_id s.buffers ≡ some e
    → Facts s m
    → ReturnsUnless (ReadRaises env.files) (minibuffer_accept_arm env e.value m s) (Lands none)
unfolding minibuffer_accept_arm
accept-Lands env s e (choosing request) h found f = inl (
  _,
  refl,
  Asked-Lands {s = s} e found
      (decide-Asked env request (choice_accept_decision request) s h.base f.0 f.1),
)
accept-Lands env s e (exiting kind) h found f =
    inl (_, refl, Asked-Lands {s = s} e found (message-Asked answer_y_or_n h))
accept-Lands env s e (typing input kind) h found f =
    let idle : IsIdle (close_minibuffer s) =
      unfold close_minibuffer in
      record { choice = f.0; minibuffer = refl; kind = refl; pending = f.1 } in
    let w : IsWorking (close_minibuffer s) = record {
      base =
          unfold close_minibuffer in prompts-IsBase h.base s.choice none [] none s.permission_queue;
      prompted = IsIdle-Prompted idle;
    } in
    ReturnsUnless-bind (accept_text env input kind e.value (close_minibuffer s)) _
      (accept_text-Accepted env (close_minibuffer s) w idle e (unfold close_minibuffer in found)
        input kind)
      (λ r a.
        inl (
          _,
          refl,
          Lands-Asked {s = r.0} r.1 a.lands (drain-Asked a.lands.working.base env a.idle),
        ))
accept-Lands env s e closed h found f = inl (_, refl, Asked-Lands {s = s} e found (same-Asked h))
