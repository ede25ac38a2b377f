-- ===== src/Session/Keeps/Prompts.antt =====
-- What the minibuffer does, and the permission prompt: opening, deciding and draining the queue.
use drei.Base.{◌≡◌, ◌≢◌, refl, Str, All, contains, true, List, [], ◌∷◌, Option, none, some}
use drei.Acp.Effects.{PermissionRequested, PermissionDecision}
use drei.Commands.{minibuffer_opened, permission_decided}
use drei.Session.State.{
  Environment, MinibufferKind, find_file, agent_prompt, switch_buffer, save_buffer, exit_anyway,
  Session, emit, close_minibuffer, open_prompt,
}
use drei.Session.Choice.{
  choice_prompt, open_choice, drain_queue, drain_permission_queue, close_choice,
}
use drei.Session.Minibuffer.{Mode, choosing, exiting, typing, closed, mode_of, mode, decide}
use drei.Session.Invariant.{IsPrompted}
use drei.Session.Working.{IsBase, IsWorking, Prompted, emit-IsBase}

-- What the minibuffer's mode says of the prompts, in a session that keeps them straight.
abbrev pub ModeFacts :
    Option PermissionRequested
    → Option Str
    → Option MinibufferKind
    → List (Str × Str)
    → Mode
    → Type 0
ModeFacts c m k p (choosing request) = (k ≡ none) × (p ≡ [])
ModeFacts c m k p (exiting save_buffer) = (c ≡ none) × (p ≢ [])
ModeFacts c m k p (exiting exit_anyway) = (c ≡ none) × (p ≡ [])
ModeFacts c m k p (exiting _) = ⊥
ModeFacts c m k p (typing input kind) =
    (c ≡ none) × (p ≡ []) × ((i : Str) → IsPrompted c (some i) k p)
ModeFacts c m k p closed = (c ≡ none) × (m ≡ none) × (k ≡ none) × (p ≡ [])

mode_of-ModeFacts :
    (c : Option PermissionRequested) (m : Option Str) (k : Option MinibufferKind)
    (p : List (Str × Str))
    → IsPrompted c m k p
    → ModeFacts c m k p (mode_of c m k)
unfolding mode_of
mode_of-ModeFacts (some r) m k p h = (h.1, h.2)
mode_of-ModeFacts none none none p h = (refl, refl, refl, h.1)
mode_of-ModeFacts none none (some k) p h = cc (h.0)
mode_of-ModeFacts none (some i) none p h = absurd h
mode_of-ModeFacts none (some i) (some save_buffer) p h = (refl, h)
mode_of-ModeFacts none (some i) (some exit_anyway) p h = (refl, h)
mode_of-ModeFacts none (some i) (some find_file) p h = (refl, h, λ j. h)
mode_of-ModeFacts none (some i) (some agent_prompt) p h = (refl, h, λ j. h)
mode_of-ModeFacts none (some i) (some switch_buffer) p h = (refl, h, λ j. h)

abbrev pub Facts : Session → Mode → Type 0
Facts s m = ModeFacts s.choice s.minibuffer s.minibuffer_kind s.exit_pending m

pub mode-Facts : (s : Session) → Prompted s → Facts s (mode s)
unfolding mode
mode-Facts s h = mode_of-ModeFacts s.choice s.minibuffer s.minibuffer_kind s.exit_pending h

-- The prompts change, the buffers and the current one stay.
pub record Asked (s s' : Session) : Type 0 where
  pub working : IsWorking s'
  pub buffers : s'.buffers ≡ s.buffers
  pub current : s'.current_id ≡ s.current_id

-- No prompt stands.
pub record IsIdle (s : Session) : Type 0 where
  pub choice : s.choice ≡ none
  pub minibuffer : s.minibuffer ≡ none
  pub kind : s.minibuffer_kind ≡ none
  pub pending : s.exit_pending ≡ []

pub IsIdle-Prompted : {s : Session} → IsIdle s → Prompted s
IsIdle-Prompted i = rw (i.choice, i.minibuffer) (i.kind, i.pending)

module _ {s : Session} (h : IsBase s) where
  -- The invariant but for the prompts does not see them.
  pub prompts-IsBase :
      (choice : Option PermissionRequested) (minibuffer : Option Str) (prompt : Str)
      (kind : Option MinibufferKind) (queue : List PermissionRequested)
      → IsBase (record s {
        choice = choice;
        minibuffer = minibuffer;
        minibuffer_prompt = prompt;
        minibuffer_kind = kind;
        permission_queue = queue;
      })
  prompts-IsBase choice minibuffer prompt kind queue = record {
    stored = h.stored;
    pending_in = h.pending_in;
    quiet = h.quiet;
  }

  pub pending-IsBase :
      (pending : List (Str × Str))
      → All (λ (p : Str × Str). contains p.0 s.buffers ≡ true) pending
      → IsBase (record s { exit_pending = pending })
  pending-IsBase pending p = record { stored = h.stored; pending_in = p; quiet = h.quiet }

  pub close_minibuffer-IsBase : IsBase (close_minibuffer s)
  unfolding close_minibuffer
  close_minibuffer-IsBase = prompts-IsBase s.choice none [] none s.permission_queue

  pub open_prompt-Asked :
      (kind : MinibufferKind) (prompt : Str)
      → IsPrompted s.choice (some []) (some kind) s.exit_pending
      → Asked s (open_prompt kind prompt s)
  unfolding open_prompt emit
  open_prompt-Asked kind prompt p = record {
    working = record {
      base =
          unfold emit in
          emit-IsBase (minibuffer_opened prompt) refl
            (prompts-IsBase s.choice (some []) prompt (some kind) s.permission_queue);
      prompted = p;
    };
    buffers = refl;
    current = refl;
  }

  pub open_choice-Asked :
      (env : Environment) (request : PermissionRequested) (queue : List PermissionRequested)
      → s.minibuffer_kind ≡ none
      → s.exit_pending ≡ []
      → Asked s (open_choice env request (record s { permission_queue = queue }))
  unfolding open_choice emit
  open_choice-Asked env request queue k p = record {
    working = record {
      base =
          unfold emit in
          emit-IsBase (minibuffer_opened (choice_prompt env request)) refl (
            prompts-IsBase (some request) (some []) (choice_prompt env request) s.minibuffer_kind
              queue);
      prompted = (refl, k, p);
    };
    buffers = refl;
    current = refl;
  }

  drain_queue-Asked :
      (env : Environment) (queue : List PermissionRequested)
      → IsIdle s
      → Asked s (drain_queue env queue s)
  unfolding drain_queue
  drain_queue-Asked env [] i = record {
    working = record { base = h; prompted = IsIdle-Prompted i };
    buffers = refl;
    current = refl;
  }
  drain_queue-Asked env (request ∷ rest) i = open_choice-Asked env request rest i.kind i.pending

  pub drain-Asked : (env : Environment) → IsIdle s → Asked s (drain_permission_queue env s)
  unfolding drain_permission_queue
  drain-Asked env i = drain_queue-Asked env s.permission_queue i

-- A decision closes the prompt, and the next request in the queue opens.
pub decide-Asked :
    (env : Environment) (request : PermissionRequested) (decision : PermissionDecision)
    (s : Session)
    → IsBase s
    → s.minibuffer_kind ≡ none
    → s.exit_pending ≡ []
    → Asked s (decide env request decision s)
unfolding decide close_choice emit
decide-Asked env request decision s h k p =
    let decided : IsBase (emit (permission_decided request.request_id decision) s) =
      unfold emit in emit-IsBase (permission_decided request.request_id decision) refl h in
    let a =
      drain-Asked (prompts-IsBase decided none none [] s.minibuffer_kind s.permission_queue) env
        (record { choice = refl; minibuffer = refl; kind = k; pending = p }) in
    record { working = a.working; buffers = a.buffers; current = a.current }

-- A prompt that is closed by an event.
pub drain_closed-Asked :
    (env : Environment) (s : Session)
    → IsBase (close_minibuffer s)
    → s.choice ≡ none
    → s.exit_pending ≡ []
    → Asked s (drain_permission_queue env (close_minibuffer s))
unfolding close_minibuffer
drain_closed-Asked env s h c p =
    let a =
      drain-Asked h env (record { choice = c; minibuffer = refl; kind = refl; pending = p }) in
    record { working = a.working; buffers = a.buffers; current = a.current }
