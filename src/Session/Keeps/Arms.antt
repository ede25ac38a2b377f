-- ===== src/Session/Keeps/Arms.antt =====
-- The arms of `dispatch` that the other modules do not prove ready, and the steps around an arm.
use drei.Base.{
  ℕ, ◌≡◌, refl, subst, Str, lookup, length, negsuc, Bool, true, false, List, [], ◌∷◌, ◌++◌, Option,
  none, some, if◌then◌else◌, Result, ok, Returns, Returns-bind, ReturnsUnless, ReturnsUnless-bind,
  inl,
}
use drei.Acp.Effects.{PermissionRequested}
use drei.Buffer.{BufferValue}
use drei.Commands
use drei.Commands.{
  Command, Delivery, captured, launch_failed, process_output_recorded, frame_resized,
  minibuffer_aborted,
}
use drei.Editing.Text.{Edit}
use drei.Editing.State.{BufferState}
use drei.Editing.Keeps.Kinds.{KindStays}
use drei.Editing.Outcome.{Keeps}
use drei.Session.State.{Entry, Environment, Session, emit, entry_of, current_value}
use drei.Session.Agent.{pinned_target}
use drei.Session.Dispatch.{
  is_open, edit_arm, deliver_process, exit_status, prompt_permission, abort_choice, and_current,
  arm, or_current, run,
}
use drei.Session.Choice.{open_choice}
use drei.Session.Invariant.{IsPrompted, EntryIsValid, IsValid}
use drei.Session.Stored.{current_entry}
use drei.Session.Working.{IsWorking, Carries, Carries-IsWorking, emit-IsWorking, closed_lem}
use drei.Session.Keeps.Buffers.{entry_valid}
use drei.Session.Keeps.Prompts.{Asked, IsIdle, open_choice-Asked, prompts-IsBase}
use drei.Session.Keeps.Minibuffer.{Asked-Lands, current_value-Lands}
use drei.Session.Keeps.Commit.{Lands, Ready, commit-Keeps, Lands-Ready, edit_arm-Ready}

module _ (env : Environment) (cmd : Command) where
  -- From the target and the arm to the whole command.
  pub run-from :
      (s s' : Session) (pinned : Option Str) (e : Entry)
      → pinned_target cmd s ≡ ok (s', pinned)
      → lookup (or_current pinned s') s'.buffers ≡ some e
      → Returns (arm env cmd e.value s') (Ready cmd e.value pinned)
      → Returns (run env cmd s) IsValid
  unfolding run entry_of
  run-from s s' pinned e target found k =
      rw (target, found)
        (Returns-bind (arm env cmd e.value s') _ k
          (λ r ready. commit-Keeps cmd e.value pinned r.0 r.1 ready))

  -- A command that is pinned to no buffer works on the current one.
  pub run-plain :
      (s : Session)
      → IsWorking s
      → pinned_target cmd s ≡ ok (s, none)
      → ((e : Entry)
          → lookup s.current_id s.buffers ≡ some e
          → Returns (arm env cmd e.value s) (Ready cmd e.value none))
      → Returns (run env cmd s) IsValid
  run-plain s h target k =
      let (e, found) = current_entry h.base.stored in
      run-from s s none e target (unfold or_current in found) (k e found)

  -- The same with an arm that reaches the port.
  pub run-reaching {ρ} :
      {R : Type ρ} (s : Session)
      → IsWorking s
      → pinned_target cmd s ≡ ok (s, none)
      → ((e : Entry)
          → lookup s.current_id s.buffers ≡ some e
          → ReturnsUnless R (arm env cmd e.value s) (Lands none))
      → ReturnsUnless R (run env cmd s) IsValid
  unfolding run entry_of
  run-reaching s h target k =
      let (e, found) = current_entry h.base.stored in
      let there : lookup (or_current none s) s.buffers ≡ some e = unfold or_current in found in
      rw (target, there)
        (ReturnsUnless-bind (arm env cmd e.value s) _ (k e found)
          (λ r l. inl (commit-Keeps cmd e.value none r.0 r.1 (Lands-Ready cmd e.value none r l))))

  -- An arm that leaves the buffers alone.
  pub Asked-Ready :
      (s : Session) (e : Entry)
      → lookup s.current_id s.buffers ≡ some e
      → (s' : Session) → Asked s s'
      → Ready cmd e.value none (s', e.value)
  Asked-Ready s e found s' a =
      Lands-Ready cmd e.value none (s', e.value) (Asked-Lands {s = s} e found a)

  -- A layout command ends on the buffer that is then current.
  pub layout-Ready :
      (s : Session) (r : Result Session) (v : BufferValue)
      → IsWorking s
      → Returns r (Carries s)
      → Returns (and_current r) (Ready cmd v none)
  unfolding and_current
  layout-Ready s r v h k = Returns-bind r _ k (λ s' c.
      Returns-bind (current_value s') _ (current_value-Lands s' (Carries-IsWorking c h.prompted))
        (λ w l. (_, refl, Lands-Ready cmd v none (s', w) l)))

  pub run-edit :
      (s : Session)
      → IsWorking s
      → s.events ≡ []
      → (act : BufferValue → BufferState → List Str → Result Edit)
      → pinned_target cmd s ≡ ok (s, none)
      → ((v : BufferValue) → arm env cmd v s ≡ edit_arm act v s)
      → ((e : Entry) → EntryIsValid e → Keeps cmd e.value (act e.value e.state s.kill_ring))
      → ((e : Entry) → KindStays e.state (act e.value e.state s.kill_ring))
      → Returns (run env cmd s) IsValid
  run-edit s h quiet act target body keeps kinds = run-plain s h target (λ e found.
      rw (body e.value) (
        edit_arm-Ready cmd act s e h quiet found
          (keeps e (entry_valid s s.current_id e h.base found)) (kinds e)))

pub shut_lem : (m : Option Str) → is_open m ≡ false → m ≡ none
unfolding is_open
shut_lem none e = refl
shut_lem (some i) e = cc

pub IsWorking-closed : (s : Session) → IsWorking s → s.minibuffer ≡ none → IsIdle s
IsWorking-closed s h shut =
    let (c, k, p) =
      closed_lem s.choice s.minibuffer s.minibuffer_kind s.exit_pending h.prompted shut in
    record { choice = c; minibuffer = shut; kind = k; pending = p }

-- A request opens its prompt, or waits while another stands.
pub prompt_permission-Asked :
    (env : Environment) (request : PermissionRequested) (s : Session)
    → IsWorking s
    → Asked s (prompt_permission env request s)
unfolding prompt_permission
prompt_permission-Asked env request s h = at_test (is_open s.minibuffer) refl
  where
    at_test :
        (b : Bool)
        → is_open s.minibuffer ≡ b
        → Asked s (
            if b
            then record s { permission_queue = s.permission_queue ++ request ∷ [] }
            else open_choice env request s)
    at_test true e = record {
      working = record {
        base = record {
          stored = h.base.stored;
          pending_in = h.base.pending_in;
          quiet = h.base.quiet;
        };
        prompted = h.prompted;
      };
      buffers = refl;
      current = refl;
    }
    at_test false e =
        let i = IsWorking-closed s h (shut_lem s.minibuffer e) in
        open_choice-Asked h.base env request s.permission_queue i.kind i.pending

pub abort_choice-Asked :
    (choice : Option PermissionRequested) (s : Session)
    → IsWorking s
    → s.choice ≡ choice
    → Asked s (abort_choice choice (record s { permission_queue = [] }))
unfolding abort_choice
abort_choice-Asked none s h e = record {
  working = record {
    base = record { stored = h.base.stored; pending_in = h.base.pending_in; quiet = h.base.quiet };
    prompted = h.prompted;
  };
  buffers = refl;
  current = refl;
}
abort_choice-Asked (some request) s h e =
    let standing =
      subst (λ c. IsPrompted c s.minibuffer s.minibuffer_kind s.exit_pending) e h.prompted in
    record {
      working = emit-IsWorking minibuffer_aborted refl (record {
        base = prompts-IsBase h.base none none [] s.minibuffer_kind [];
        prompted = (standing.1, standing.2);
      });
      buffers = unfold emit in refl;
      current = unfold emit in refl;
    }

pub deliver_process-Asked :
    (argv : List Str) (d : Delivery) (s : Session)
    → IsWorking s
    → Asked s (deliver_process argv d s)
unfolding deliver_process
deliver_process-Asked argv (captured result) s h = record {
  working =
      emit-IsWorking
        (process_output_recorded argv result.exit_code (length result.stdout) (length result.stderr)
          (exit_status result.exit_code))
        refl
        (record {
          base = record {
            stored = h.base.stored;
            pending_in = h.base.pending_in;
            quiet = h.base.quiet;
          };
          prompted = h.prompted;
        });
  buffers = unfold emit in refl;
  current = unfold emit in refl;
}
deliver_process-Asked argv (launch_failed error) s h = record {
  working =
      emit-IsWorking
        (process_output_recorded argv (negsuc 0) 0 0 (Commands.Status.launch_error error)) refl h;
  buffers = unfold emit in refl;
  current = unfold emit in refl;
}

pub resize-Asked :
    (width height : ℕ) (s : Session)
    → IsWorking s
    → Asked s (
        emit
          (frame_resized width height)
          (record s { frame_size = some (record { width = width; height = height }) }))
resize-Asked width height s h = record {
  working = emit-IsWorking (frame_resized width height) refl (record {
    base = record { stored = h.base.stored; pending_in = h.base.pending_in; quiet = h.base.quiet };
    prompted = h.prompted;
  });
  buffers = unfold emit in refl;
  current = unfold emit in refl;
}
