-- ===== src/Session/Keeps/Targets.antt =====
-- The buffer that a command names or mints (`_pinned_target`), and its bindings.
use drei.Base.{
  ◌≡◌, ◌≢◌, refl, Str, AllValues-lookup, AllValues-insert, lookup, insert, [], Option, none, some,
  Returns, Returns-bind, codes,
}
use drei.Editing.State.{generated}
use drei.Session.State.{Entry, Session}
use drei.Session.Buffers.{create_buffer, empty_value}
use drei.Session.Agent.{mint_generated, mint_agent}
use drei.Session.Dispatch.{or_current}
use drei.Session.Invariant.{IsGenerated}
use drei.Session.Working.{IsBase, Carries, Carries-trans}
use drei.Session.Keeps.Buffers.{IsBase-Carries}
use drei.Session.Keeps.Created.{create_empty-Keeps, Created-IsGenerated}

-- The buffer that a command is pinned to, or the current one, has an entry.
pub record Targets (s : Session) (r : Session × Option Str) : Type 0 where
  pub carries : Carries s r.0
  pub entry : Entry
  pub found : lookup (or_current r.1 r.0) r.0.buffers ≡ some entry

bound-Targets : (k : Str) (s : Session) → IsBase s → IsGenerated s.buffers k → Targets s (s, some k)
unfolding or_current
bound-Targets k s h (e, found, kind) = record {
  carries = IsBase-Carries s h;
  entry = e;
  found = found;
}

bind_generated-Carries :
    (name k : Str) (s : Session)
    → IsBase s
    → IsGenerated s.buffers k
    → Carries s (record s { generated_buffers = insert name k s.generated_buffers })
bind_generated-Carries name k s h g = record {
  base = record {
    stored = record {
      entries = h.stored.entries;
      current_in = h.stored.current_in;
      windows_in = h.stored.windows_in;
      focus_shows = h.stored.focus_shows;
      ring_bound = h.stored.ring_bound;
      agents_in = h.stored.agents_in;
      generated_in =
          AllValues-insert (IsGenerated s.buffers) name k s.generated_buffers h.stored.generated_in
            g;
    };
    pending_in = h.pending_in;
    quiet = h.quiet;
  };
  same = record { choice = refl; minibuffer = refl; kind = refl; pending = refl };
}

bind_agent-Carries :
    (session_id k : Str) (s : Session)
    → IsBase s
    → IsGenerated s.buffers k
    → Carries s (record s { agent_buffers = insert session_id k s.agent_buffers })
bind_agent-Carries session_id k s h g = record {
  base = record {
    stored = record {
      entries = h.stored.entries;
      current_in = h.stored.current_in;
      windows_in = h.stored.windows_in;
      focus_shows = h.stored.focus_shows;
      ring_bound = h.stored.ring_bound;
      agents_in =
          AllValues-insert (IsGenerated s.buffers) session_id k s.agent_buffers h.stored.agents_in
            g;
      generated_in = h.stored.generated_in;
    };
    pending_in = h.pending_in;
    quiet = h.quiet;
  };
  same = record { choice = refl; minibuffer = refl; kind = refl; pending = refl };
}

pub mint_generated-Keeps :
    (name : Str) (bound : Option Str) (s : Session)
    → name ≢ []
    → IsBase s
    → lookup name s.generated_buffers ≡ bound
    → Returns (mint_generated name bound s) (Targets s)
unfolding mint_generated or_current
mint_generated-Keeps name (some k) s some_name h e = (
  _,
  refl,
  bound-Targets k s h
      (AllValues-lookup (IsGenerated s.buffers) name s.generated_buffers k h.stored.generated_in e),
)
mint_generated-Keeps name none s some_name h e =
    Returns-bind (create_buffer name empty_value generated none s) _
      (create_empty-Keeps name generated s some_name h)
      (λ r made. (
        _,
        refl,
        record {
          carries = Carries-trans made.carries (
              bind_generated-Carries name r.1 r.0 made.carries.base (Created-IsGenerated s r made));
          entry = _;
          found = made.found;
        },
      ))

pub mint_agent-Keeps :
    (session_id : Str) (bound : Option Str) (s : Session)
    → IsBase s
    → lookup session_id s.agent_buffers ≡ bound
    → Returns (mint_agent session_id bound s) (Targets s)
unfolding mint_agent or_current
mint_agent-Keeps session_id (some k) s h e = (
  _,
  refl,
  bound-Targets k s h
      (AllValues-lookup (IsGenerated s.buffers) session_id s.agent_buffers k h.stored.agents_in e),
)
mint_agent-Keeps session_id none s h e =
    Returns-bind (create_buffer (codes "*agent*") empty_value generated none s) _
      (create_empty-Keeps (codes "*agent*") generated s (λ p. cc) h)
      (λ r made. (
        _,
        refl,
        record {
          carries = Carries-trans made.carries (
              bind_agent-Carries session_id r.1 r.0 made.carries.base
                (Created-IsGenerated s r made));
          entry = _;
          found = made.found;
        },
      ))
