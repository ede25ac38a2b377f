-- ===== src/Session/Keeps/Run.antt =====
-- Each arm of a dispatch, between the gate and the commit.
use drei.Base.{
  ◌≡◌, ◌≢◌, refl, ◌∙◌, Str, lookup, contains, true, false, All, List, [], Option, none, some,
  Result, ok, Returns, Returns-bind, Returns_mono, arith, ReturnsUnless, ReturnsUnless_mono, inl,
}
use drei.Files.{FilePort}
use drei.Buffer.{BufferValue}
use drei.Commands
use drei.Commands.{
  Command, Delivery, captured, launch_failed, process_output_recorded, frame_resized,
  minibuffer_aborted,
}
use drei.Editing.Text.{Edit}
use drei.Editing.Moves.{
  insert_text_arm, forward_char_arm, backward_char_arm, set_mark_arm, exchange_arm,
  keyboard_quit_arm,
}
use drei.Editing.Kills.{kill_line_arm, kill_region_arm, copy_region_arm}
use drei.Editing.Yanks.{yank_arm, yank_pop_arm}
use drei.Editing.Undos.{undo_arm}
use drei.Editing.State.{BufferState, generated}
use drei.Editing.Keeps.Kinds
use drei.Editing.Keeps.Kinds.{KindStays}
use drei.Editing.Keeps.Moves
use drei.Editing.Keeps.Kills
use drei.Editing.Keeps.Yanks
use drei.Editing.Keeps.Undos
use drei.Editing.Outcome.{Keeps}
use drei.Session.State.{Entry, Environment, Session, emit, entry_of, current_value, open_prompt}
use drei.Session.State
use drei.Session.Agent.{pinned_target, accepts}
use drei.Session.Minibuffer.{mode}
use drei.Session.Windows.{split_window, other_window, delete_other_windows, display_buffer}
use drei.Session.Dispatch.{
  passes_gate, edit_arm, and_current, find_file_prompt, agent_prompt_text, switch_buffer_prompt,
  arm, or_current, run,
}
use drei.Session.Invariant.{IsPrompted, EntryIsValid, IsGenerated, IsValid}
use drei.Session.Stored.{current_entry}
use drei.Session.Working.{IsWorking, Carries, Carries-IsWorking, Replaces-self}
use drei.Session.Keeps.Answers.{Answerable}
use drei.Session.Keeps.Buffers.{entry_valid}
use drei.Session.Keeps.Accepts.{accept-Lands}
use drei.Session.Keeps.Focus.{other_window-Keeps, delete_other_windows-Keeps}
use drei.Session.Keeps.Windows.{split_window-Keeps, display_buffer-Keeps}
use drei.Session.Keeps.Saving.{WriteRaises, save-Keeps}
use drei.Session.Keeps.Visits.{ReadRaises}
use drei.Session.Keeps.Prompts.{Asked, IsIdle, mode-Facts, open_prompt-Asked}
use drei.Session.Keeps.Exit.{begin_exit-Asked}
use drei.Session.Keeps.Agent.{IsTextual, append-Ready, deliver_effects-Ready}
use drei.Session.Keeps.Targets.{Targets, mint_generated-Keeps, mint_agent-Keeps}
use drei.Session.Keeps.Minibuffer.{Asked-Lands, input-Lands, backspace-Asked, abort-Asked}
use drei.Session.Keeps.Commit.{Lands, Lands-Ready}
use drei.Session.Keeps.Arms.{
  run-from, run-plain, run-reaching, Asked-Ready, layout-Ready, run-edit, prompt_permission-Asked,
  abort_choice-Asked, deliver_process-Asked, resize-Asked,
}

-- What a command of the agent's side must say to be accepted: a target that was generated, texts
-- that are texts, a name that is not empty, a buffer that exists. A key at a permission prompt
-- wants options whose kinds can be looked up.
abbrev pub Acceptable : Command → Session → Type 0
Acceptable (Commands.deliver_session_effects effects target) s =
    IsGenerated s.buffers target × All IsTextual effects
Acceptable (Commands.insert_agent_text text target) s = IsGenerated s.buffers target
Acceptable (Commands.create_generated_buffer name) s = name ≢ []
Acceptable (Commands.display_buffer target) s = contains target s.buffers ≡ true
Acceptable (Commands.minibuffer_input char) s = Answerable (mode s)
Acceptable _ s = Unit

-- What the port must have raised for a command to raise: a write while a buffer is saved or while a
-- key answers an exit prompt, a read while the name of a file is accepted. No other command reaches
-- the port.
abbrev pub PortRaises : Command → FilePort → Type 0
PortRaises Commands.save_buffer port = WriteRaises port
PortRaises (Commands.minibuffer_input char) port = WriteRaises port
PortRaises Commands.minibuffer_accept port = ReadRaises port
PortRaises _ port = ⊥

pub accepts-generated : (k : Str) (e : Entry) → e.state.kind ≡ generated → accepts k (some e) ≡ ok k
unfolding accepts
accepts-generated k e kind = ground arith

module _ (env : Environment) (s : Session) (h : IsWorking s) (quiet : s.events ≡ []) where
  -- The commands that edit the current buffer.
  edits-Keeps :
      (cmd : Command)
      → (act : BufferValue → BufferState → List Str → Result Edit)
      → pinned_target cmd s ≡ ok (s, none)
      → ((v : BufferValue) → arm env cmd v s ≡ edit_arm act v s)
      → ((e : Entry) → EntryIsValid e → Keeps cmd e.value (act e.value e.state s.kill_ring))
      → ((e : Entry) → KindStays e.state (act e.value e.state s.kill_ring))
      → ReturnsUnless (PortRaises cmd env.files) (run env cmd s) IsValid
  edits-Keeps cmd act target body keeps kinds =
      inl (run-edit env cmd s h quiet act target body keeps kinds)

  -- A command that only asks, or only records.
  asks-Keeps :
      (cmd : Command) (s' : Session)
      → pinned_target cmd s ≡ ok (s, none)
      → ((v : BufferValue) → arm env cmd v s ≡ ok (s', v))
      → Asked s s'
      → ReturnsUnless (PortRaises cmd env.files) (run env cmd s) IsValid
  asks-Keeps cmd s' target body a = inl (
      run-plain env cmd s h target
        (λ e found. (_, body e.value, Asked-Ready env cmd s e found s' a)))

  Lands-Keeps :
      (cmd : Command)
      → pinned_target cmd s ≡ ok (s, none)
      → ((e : Entry)
          → lookup s.current_id s.buffers ≡ some e
          → ReturnsUnless (PortRaises cmd env.files) (arm env cmd e.value s) (Lands none))
      → ReturnsUnless (PortRaises cmd env.files) (run env cmd s) IsValid
  Lands-Keeps cmd target k = run-reaching env cmd s h target k

  layout-Keeps :
      (cmd : Command) (r : Result Session)
      → pinned_target cmd s ≡ ok (s, none)
      → ((v : BufferValue) → arm env cmd v s ≡ and_current r)
      → Returns r (Carries s)
      → ReturnsUnless (PortRaises cmd env.files) (run env cmd s) IsValid
  layout-Keeps cmd r target body k = inl (
      run-plain env cmd s h target
        (λ e found. rw (body e.value) (layout-Ready env cmd s r e.value h k)))

  -- A command that only minted its target.
  minted-Keeps :
      (cmd : Command) (mint : Result (Session × Option Str))
      → pinned_target cmd s ≡ mint
      → ((v : BufferValue) (s' : Session) → arm env cmd v s' ≡ ok (s', v))
      → Returns mint (Targets s)
      → ReturnsUnless (PortRaises cmd env.files) (run env cmd s) IsValid
  minted-Keeps cmd mint target body (r, made, t) = inl (
      run-from env cmd s r.0 r.1 t.entry (target ∙ made) t.found (
        _,
        body t.entry.value r.0,
        Lands-Ready cmd t.entry.value r.1 (r.0, t.entry.value)
            (record {
              working = Carries-IsWorking t.carries h.prompted;
              entry = t.entry;
              found = t.found;
              fits = Replaces-self t.entry (entry_valid r.0 _ t.entry t.carries.base t.found);
            }),
      ))

  prompts-Keeps :
      (cmd : Command) (kind : State.MinibufferKind) (prompt : Str)
      → pinned_target cmd s ≡ ok (s, none)
      → ((v : BufferValue) → arm env cmd v s ≡ ok (open_prompt kind prompt s, v))
      → IsPrompted s.choice (some []) (some kind) s.exit_pending
      → ReturnsUnless (PortRaises cmd env.files) (run env cmd s) IsValid
  prompts-Keeps cmd kind prompt target body p =
      asks-Keeps cmd (open_prompt kind prompt s) target body
        (open_prompt-Asked h.base kind prompt p)

  pub run-Keeps :
      (cmd : Command)
      → (passes_gate cmd ≡ false → IsIdle s)
      → Acceptable cmd s
      → ReturnsUnless (PortRaises cmd env.files) (run env cmd s) IsValid
  unfolding pinned_target arm passes_gate accepts or_current
  run-Keeps (Commands.insert_text text) idle ok_cmd =
      edits-Keeps (Commands.insert_text text) (λ v st ring. insert_text_arm v st ring text) refl
        (λ v. refl) (λ e v. Moves.insert_text-Keeps s.kill_ring v h.base.stored.ring_bound text)
        (λ e. Kinds.insert_text-KindStays e.value e.state s.kill_ring text)
  run-Keeps Commands.forward_char idle ok_cmd =
      edits-Keeps Commands.forward_char forward_char_arm refl (λ v. refl)
        (λ e v. Moves.forward_char-Keeps s.kill_ring v h.base.stored.ring_bound)
        (λ e. Kinds.forward_char-KindStays e.value e.state s.kill_ring)
  run-Keeps Commands.backward_char idle ok_cmd =
      edits-Keeps Commands.backward_char backward_char_arm refl (λ v. refl)
        (λ e v. Moves.backward_char-Keeps s.kill_ring v h.base.stored.ring_bound)
        (λ e. Kinds.backward_char-KindStays e.value e.state s.kill_ring)
  run-Keeps Commands.save_buffer idle ok_cmd = Lands-Keeps Commands.save_buffer refl (λ e found.
      ReturnsUnless_mono _ (save-Keeps s.current_id s h.base e found env.files) (λ raised. raised)
        (λ r d. record {
          working = Carries-IsWorking d.carries h.prompted;
          entry = d.entry;
          found = rw d.current d.found;
          fits = d.fits;
        }))
  run-Keeps Commands.kill_line idle ok_cmd =
      edits-Keeps Commands.kill_line kill_line_arm refl (λ v. refl)
        (λ e v. Kills.kill_line-Keeps s.kill_ring v h.base.stored.ring_bound)
        (λ e. Kinds.kill_line-KindStays e.value e.state s.kill_ring)
  run-Keeps Commands.yank idle ok_cmd =
      edits-Keeps Commands.yank yank_arm refl (λ v. refl)
        (λ e v. Yanks.yank-Keeps s.kill_ring v h.base.stored.ring_bound)
        (λ e. Kinds.yank-KindStays e.value e.state s.kill_ring)
  run-Keeps Commands.yank_pop idle ok_cmd =
      edits-Keeps Commands.yank_pop yank_pop_arm refl (λ v. refl)
        (λ e v. Yanks.yank_pop-Keeps s.kill_ring v h.base.stored.ring_bound)
        (λ e. Kinds.yank_pop-KindStays e.value e.state s.kill_ring)
  run-Keeps Commands.set_mark idle ok_cmd =
      edits-Keeps Commands.set_mark set_mark_arm refl (λ v. refl)
        (λ e v. Moves.set_mark-Keeps s.kill_ring v h.base.stored.ring_bound)
        (λ e. Kinds.set_mark-KindStays e.value e.state s.kill_ring)
  run-Keeps Commands.kill_region idle ok_cmd =
      edits-Keeps Commands.kill_region kill_region_arm refl (λ v. refl)
        (λ e v. Kills.kill_region-Keeps s.kill_ring v h.base.stored.ring_bound)
        (λ e. Kinds.kill_region-KindStays e.value e.state s.kill_ring)
  run-Keeps Commands.copy_region_as_kill idle ok_cmd =
      edits-Keeps Commands.copy_region_as_kill copy_region_arm refl (λ v. refl)
        (λ e v. Kills.copy_region-Keeps s.kill_ring v h.base.stored.ring_bound)
        (λ e. Kinds.copy_region-KindStays e.value e.state s.kill_ring)
  run-Keeps Commands.exchange_point_and_mark idle ok_cmd =
      edits-Keeps Commands.exchange_point_and_mark exchange_arm refl (λ v. refl)
        (λ e v. Moves.exchange-Keeps s.kill_ring v h.base.stored.ring_bound)
        (λ e. Kinds.exchange-KindStays e.value e.state s.kill_ring)
  run-Keeps Commands.undo idle ok_cmd =
      edits-Keeps Commands.undo undo_arm refl (λ v. refl)
        (λ e v. Undos.undo-Keeps s.kill_ring v h.base.stored.ring_bound)
        (λ e. Kinds.undo-KindStays e.value e.state s.kill_ring)
  run-Keeps Commands.keyboard_quit idle ok_cmd =
      edits-Keeps Commands.keyboard_quit keyboard_quit_arm refl (λ v. refl)
        (λ e v. Moves.keyboard_quit-Keeps s.kill_ring v h.base.stored.ring_bound)
        (λ e. Kinds.keyboard_quit-KindStays e.value e.state s.kill_ring)
  run-Keeps Commands.exit_editor idle ok_cmd =
      let i = idle refl in
      asks-Keeps Commands.exit_editor _ refl (λ v. refl)
        (begin_exit-Asked s h.base i.choice i.minibuffer i.kind)
  run-Keeps Commands.find_file idle ok_cmd =
      let i = idle refl in
      prompts-Keeps Commands.find_file State.find_file find_file_prompt refl (λ v. refl)
        (rw i.choice i.pending)
  run-Keeps Commands.switch_buffer idle ok_cmd =
      let i = idle refl in
      prompts-Keeps Commands.switch_buffer State.switch_buffer switch_buffer_prompt refl (λ v. refl)
        (rw i.choice i.pending)
  run-Keeps Commands.prompt_agent idle ok_cmd =
      let i = idle refl in
      prompts-Keeps Commands.prompt_agent State.agent_prompt agent_prompt_text refl (λ v. refl)
        (rw i.choice i.pending)
  run-Keeps Commands.split_window idle ok_cmd =
      layout-Keeps Commands.split_window (split_window true s) refl (λ v. refl)
        (Returns_mono _ (split_window-Keeps true s h.base) (λ s' p. p.carries))
  run-Keeps Commands.other_window idle ok_cmd =
      layout-Keeps Commands.other_window (other_window s) refl (λ v. refl)
        (other_window-Keeps s h.base)
  run-Keeps Commands.delete_other_windows idle ok_cmd =
      layout-Keeps Commands.delete_other_windows (delete_other_windows s) refl (λ v. refl)
        (delete_other_windows-Keeps s h.base)
  run-Keeps (Commands.resize_frame width height) idle ok_cmd =
      asks-Keeps (Commands.resize_frame width height) _ refl (λ v. refl)
        (resize-Asked width height s h)
  run-Keeps (Commands.minibuffer_input char) idle ok_cmd =
      Lands-Keeps (Commands.minibuffer_input char) refl
        (λ e found. input-Lands env s h e found char (mode s) (mode-Facts s h.prompted) ok_cmd)
  run-Keeps Commands.minibuffer_backspace idle ok_cmd =
      asks-Keeps Commands.minibuffer_backspace _ refl (λ v. refl)
        (let (e, found) = current_entry h.base.stored in
          backspace-Asked env s h e found (mode s) (mode-Facts s h.prompted))
  run-Keeps Commands.minibuffer_accept idle ok_cmd =
      Lands-Keeps Commands.minibuffer_accept refl
        (λ e found. accept-Lands env s e (mode s) h found (mode-Facts s h.prompted))
  run-Keeps Commands.minibuffer_abort idle ok_cmd =
      asks-Keeps Commands.minibuffer_abort _ refl (λ v. refl)
        (let (e, found) = current_entry h.base.stored in
          abort-Asked env s h e found (mode s) (mode-Facts s h.prompted))
  run-Keeps (Commands.deliver_process_output argv delivery) idle ok_cmd =
      asks-Keeps (Commands.deliver_process_output argv delivery) _ refl (λ v. refl)
        (deliver_process-Asked argv delivery s h)
  run-Keeps (Commands.deliver_session_effects effects target) idle ((e, found, kind), texts) = inl (
      run-from env _ s s (some target) e (rw (found, accepts-generated target e kind) refl) found (
        deliver_effects-Ready (Commands.deliver_session_effects effects target) effects target s e
          texts h found kind))
  run-Keeps (Commands.insert_agent_text text target) idle (e, found, kind) = inl (
      run-from env _ s s (some target) e (rw (found, accepts-generated target e kind) refl) found
        (append-Ready (Commands.insert_agent_text text target) target s e h found kind text))
  run-Keeps (Commands.create_agent_buffer session_id) idle ok_cmd =
      minted-Keeps (Commands.create_agent_buffer session_id) _ refl (λ v s'. refl)
        (mint_agent-Keeps session_id (lookup session_id s.agent_buffers) s h.base refl)
  run-Keeps (Commands.create_generated_buffer name) idle some_name =
      minted-Keeps (Commands.create_generated_buffer name) _ refl (λ v s'. refl)
        (mint_generated-Keeps name (lookup name s.generated_buffers) s some_name h.base refl)
  run-Keeps (Commands.display_buffer target) idle there =
      Lands-Keeps (Commands.display_buffer target) refl (λ e found. inl (
        Returns-bind (display_buffer target s) _ (display_buffer-Keeps target s h.base there)
          (λ s' p. (
            _,
            refl,
            Asked-Lands {s = s} e found (record {
              working = Carries-IsWorking p.carries h.prompted;
              buffers = p.buffers;
              current = p.current;
            }),
          ))))
  run-Keeps (Commands.prompt_permission request) idle ok_cmd =
      asks-Keeps (Commands.prompt_permission request) _ refl (λ v. refl)
        (prompt_permission-Asked env request s h)
  run-Keeps Commands.abort_pending_permissions idle ok_cmd =
      asks-Keeps Commands.abort_pending_permissions _ refl (λ v. refl)
        (abort_choice-Asked s.choice s h refl)
