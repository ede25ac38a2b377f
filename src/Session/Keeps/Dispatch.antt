-- ===== src/Session/Keeps/Dispatch.antt =====
-- The invariant of a session through the whole of `dispatch` (session.py).
use drei.Base.{◌≡◌, refl, false, not, ◌&&◌, [], ReturnsUnless, ReturnsUnless-if, inl, arith}
use drei.Commands
use drei.Commands.{
  Command, Delivery, captured, launch_failed, process_output_recorded, frame_resized,
  minibuffer_aborted,
}
use drei.Session.State.{Environment, Session}
use drei.Session.Minibuffer.{mode}
use drei.Session.Dispatch.{passes_gate, is_open, dispatch}
use drei.Session.Invariant.{IsValid}
use drei.Session.Working.{IsWorking}
use drei.Session.Keeps.Prompts.{IsIdle}
use drei.Session.Keeps.Arms.{shut_lem, IsWorking-closed}
use drei.Session.Keeps.Run.{Acceptable, PortRaises, run-Keeps}

-- Nothing has happened yet in a dispatch.
started-IsWorking : (s : Session) → IsValid s → IsWorking (record s { events = [] })
started-IsWorking s v = record {
  base = record { stored = v.stored; pending_in = v.pending_in; quiet = tt };
  prompted = v.prompted;
}

-- The gate lets a command through, or the minibuffer is closed.
gate_lem :
    (cmd : Command) (s : Session)
    → IsWorking s
    → (is_open s.minibuffer && not (passes_gate cmd)) ≡ false
    → passes_gate cmd ≡ false
    → IsIdle s
gate_lem cmd s h gate shut = IsWorking-closed s h (shut_lem s.minibuffer (ground arith))

-- A command that is acceptable to a valid session returns and leaves a valid session, unless the
-- port raised what the session does not catch, and then the dispatch raises that: a write under
-- `save_buffer` or a key at the minibuffer, a read under `minibuffer_accept`. Every other command
-- returns, whatever the port does.
pub dispatch-Keeps :
    (env : Environment) (cmd : Command) (s : Session)
    → IsValid s
    → Acceptable cmd s
    → ReturnsUnless (PortRaises cmd env.files) (dispatch env cmd s) IsValid
unfolding dispatch
dispatch-Keeps env cmd s v ok_cmd =
    let s' = record s { events = [] } in
    let h = started-IsWorking s v in
    ReturnsUnless-if (is_open s.minibuffer && not (passes_gate cmd)) _ _
      (λ refused.
        inl (
          s',
          refl,
          record { stored = v.stored; prompted = v.prompted; pending_in = v.pending_in },
        ))
      (λ gate. run-Keeps env s' h refl cmd (gate_lem cmd s' h gate) (still_acceptable cmd ok_cmd))
  where
    still_acceptable : (c : Command) → Acceptable c s → Acceptable c (record s { events = [] })
    still_acceptable (Commands.deliver_session_effects effects target) a = a
    still_acceptable (Commands.insert_agent_text text target) a = a
    still_acceptable (Commands.create_generated_buffer name) a = a
    still_acceptable (Commands.display_buffer target) a = a
    still_acceptable (Commands.minibuffer_input char) a = unfold mode in a
    still_acceptable _ a = tt
