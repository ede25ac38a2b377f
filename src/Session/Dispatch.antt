-- ===== src/Session/Dispatch.antt =====
-- `EditorSession.dispatch`: the gate, the target, the arm of the command, the bookkeeping and the
-- commit. An exception is a `raise`; the session that it leaves behind is not modelled.
use drei.Base.{
  ℕ, zero, suc, Str, codes, str_eq, Bool, true, false, not, ◌&&◌, List, [], ◌∷◌, ◌++◌, Option, none,
  some, ℤ, pos, negsuc, length, ◌==◌, if◌then◌else◌, Result, ok, ◌>>=◌,
}
use drei.Process.{RunResult, completed, failed, normalize_process_error}
use drei.Acp.Effects.{PermissionRequested, SessionEffect}
use drei.Buffer.{BufferValue}
use drei.Commands
use drei.Commands.{
  Command, Delivery, captured, launch_failed, Status, exited_ok, nonzero_exit, Event,
  process_output_recorded, frame_resized, minibuffer_aborted, agent_transcript_updated,
}
use drei.Editing.Text.{Edit}
use drei.Editing.Moves.{
  insert_text_arm, forward_char_arm, backward_char_arm, set_mark_arm, exchange_arm,
  keyboard_quit_arm,
}
use drei.Editing.Kills.{kill_line_arm, kill_region_arm, copy_region_arm}
use drei.Editing.Yanks.{yank_arm, yank_pop_arm}
use drei.Editing.Undos.{undo_arm}
use drei.Editing.State.{BufferState}
use drei.Editing.Bookkeeping.{bookkeeping}
use drei.Session.State.{
  Entry, WindowValue, Environment, FrameSize, Session, emit, entry_of, put_entry, current_value,
  open_prompt,
}
use drei.Session.State
use drei.Session.Windows.{split_window, display_buffer, other_window, delete_other_windows}
use drei.Session.Saving.{save}
use drei.Session.Choice.{open_choice}
use drei.Session.Exit.{begin_exit}
use drei.Session.Agent.{pinned_target, append_agent_text, render_effects}
use drei.Session.Minibuffer.{
  mode, minibuffer_input_arm, minibuffer_backspace_arm, minibuffer_accept_arm, minibuffer_abort_arm,
}

-- The commands that act while the minibuffer is open.
unfoldable pub passes_gate : Command → Bool
passes_gate (Commands.minibuffer_input char) = true
passes_gate Commands.minibuffer_backspace = true
passes_gate Commands.minibuffer_accept = true
passes_gate Commands.minibuffer_abort = true
passes_gate (Commands.deliver_process_output argv delivery) = true
passes_gate (Commands.deliver_session_effects effects target) = true
passes_gate (Commands.insert_agent_text text target) = true
passes_gate (Commands.create_agent_buffer session_id) = true
passes_gate (Commands.create_generated_buffer name) = true
passes_gate (Commands.display_buffer target) = true
passes_gate (Commands.prompt_permission request) = true
passes_gate Commands.abort_pending_permissions = true
passes_gate (Commands.resize_frame width height) = true
passes_gate _ = false

unfoldable pub is_open : Option Str → Bool
is_open none = false
is_open (some input) = true

-- An arm returns the session and the new value of the buffer that the command ends on.
abbrev pub Arm : Type 0
Arm = Result (Session × BufferValue)

-- An editing arm works on the current buffer's value and state, and on the kill ring.
unfoldable pub edit_arm :
    (BufferValue → BufferState → List Str → Result Edit) → BufferValue → Session → Arm
unfolding entry_of put_entry
edit_arm act current s = do
  e ← entry_of s s.current_id
  r ← act current e.state s.kill_ring
  ok (
    record (put_entry s.current_id (record e { state = r.state }) s) {
      kill_ring = r.ring;
      events = s.events ++ r.events;
    },
    r.value,
  )

unfoldable pub exit_status : ℤ → Status
exit_status (pos n) = if n == 0 then exited_ok else nonzero_exit
exit_status (negsuc n) = nonzero_exit

unfoldable pub deliver_process : List Str → Delivery → Session → Session
unfolding exit_status emit
deliver_process argv (captured result) s =
    emit
      (process_output_recorded argv result.exit_code (length result.stdout) (length result.stderr)
        (exit_status result.exit_code))
      (record s { process_log = s.process_log ++ result ∷ [] })
deliver_process argv (launch_failed error) s =
    emit (process_output_recorded argv (negsuc 0) 0 0 (Status.launch_error error)) s

unfoldable pub deliver_effects : List SessionEffect → Str → BufferValue → Session → Arm
unfolding render_effects append_agent_text emit
deliver_effects effects target current s = do
  (s', rendered) ← render_effects effects target s
  append_agent_text current rendered target
      (emit (agent_transcript_updated effects rendered target) s')

unfoldable pub prompt_permission : Environment → PermissionRequested → Session → Session
unfolding is_open open_choice
prompt_permission env request s =
    if is_open s.minibuffer
    then record s { permission_queue = s.permission_queue ++ request ∷ [] }
    else open_choice env request s

unfoldable pub abort_choice : Option PermissionRequested → Session → Session
unfolding emit
abort_choice none s = s
abort_choice (some request) s =
    emit minibuffer_aborted (record s { choice = none; minibuffer = none; minibuffer_prompt = [] })

-- The session of a layout command, and the value of the buffer that is then current.
unfoldable pub and_current : Result Session → Arm
unfolding current_value
and_current r = do s ← r; value ← current_value s; ok (s, value)

unfoldable pub find_file_prompt : Str
find_file_prompt = codes "Find file: "

unfoldable pub agent_prompt_text : Str
agent_prompt_text = codes "Agent: "

unfoldable pub switch_buffer_prompt : Str
switch_buffer_prompt = codes "Switch to buffer: "

-- The `match` of `dispatch`.
unfoldable pub arm : Environment → Command → BufferValue → Session → Arm
unfolding edit_arm
arm env (Commands.insert_text text) current s =
    edit_arm (λ v st ring. insert_text_arm v st ring text) current s
arm env Commands.forward_char current s = edit_arm forward_char_arm current s
arm env Commands.backward_char current s = edit_arm backward_char_arm current s
arm env Commands.save_buffer current s = save env.files current s.current_id s
arm env Commands.kill_line current s = edit_arm kill_line_arm current s
arm env Commands.yank current s = edit_arm yank_arm current s
arm env Commands.yank_pop current s = edit_arm yank_pop_arm current s
arm env Commands.set_mark current s = edit_arm set_mark_arm current s
arm env Commands.kill_region current s = edit_arm kill_region_arm current s
arm env Commands.copy_region_as_kill current s = edit_arm copy_region_arm current s
arm env Commands.exchange_point_and_mark current s = edit_arm exchange_arm current s
arm env Commands.undo current s = edit_arm undo_arm current s
arm env Commands.keyboard_quit current s = edit_arm keyboard_quit_arm current s
arm env Commands.exit_editor current s = ok (begin_exit s, current)
arm env Commands.find_file current s = ok (open_prompt State.find_file find_file_prompt s, current)
arm env Commands.switch_buffer current s =
    ok (open_prompt State.switch_buffer switch_buffer_prompt s, current)
arm env Commands.prompt_agent current s =
    ok (open_prompt State.agent_prompt agent_prompt_text s, current)
arm env Commands.split_window current s = and_current (split_window true s)
arm env Commands.other_window current s = and_current (other_window s)
arm env Commands.delete_other_windows current s = and_current (delete_other_windows s)
arm env (Commands.resize_frame width height) current s = ok (
  emit (frame_resized width height)
      (record s { frame_size = some (record { width = width; height = height }) }),
  current,
)
arm env (Commands.minibuffer_input char) current s =
    minibuffer_input_arm env char current (mode s) s
arm env Commands.minibuffer_backspace current s = ok (minibuffer_backspace_arm (mode s) s, current)
arm env Commands.minibuffer_accept current s = minibuffer_accept_arm env current (mode s) s
arm env Commands.minibuffer_abort current s = ok (minibuffer_abort_arm env (mode s) s, current)
arm env (Commands.deliver_process_output argv delivery) current s =
    ok (deliver_process argv delivery s, current)
arm env (Commands.deliver_session_effects effects target) current s =
    deliver_effects effects target current s
arm env (Commands.insert_agent_text text target) current s = append_agent_text current text target s
arm env (Commands.create_agent_buffer session_id) current s = ok (s, current)
arm env (Commands.create_generated_buffer name) current s = ok (s, current)
arm env (Commands.display_buffer target) current s = do
  s' ← display_buffer target s
  ok (s', current)
arm env (Commands.prompt_permission request) current s =
    ok (prompt_permission env request s, current)
arm env Commands.abort_pending_permissions current s =
    ok (abort_choice s.choice (record s { permission_queue = [] }), current)

unfoldable pub or_current : Option Str → Session → Str
or_current none s = s.current_id
or_current (some target) s = target

-- The window at index `i` takes a point and a mark.
unfoldable pub place_window : List WindowValue → ℕ → ℕ → Option ℕ → List WindowValue
place_window [] i point mark = []
place_window (w ∷ ws) zero point mark = record w { point = point; mark = mark } ∷ ws
place_window (w ∷ ws) (suc i) point mark = w ∷ place_window ws i point mark

-- The focused window tracks the buffer that it shows.
unfoldable pub track_focus : Str → BufferValue → Session → Session
unfolding place_window
track_focus commit_id value s =
    if str_eq commit_id s.current_id
    then record s { windows = place_window s.windows s.focused value.point value.mark }
    else s

-- The bookkeeping and the commit, on the buffer that the command ended on.
unfoldable pub commit : Command → BufferValue → Option Str → Session → BufferValue → Result Session
unfolding or_current entry_of put_entry track_focus
commit cmd current pinned s value = do
  let commit_id = or_current pinned s
  e ← entry_of s commit_id
  let st = bookkeeping cmd current s.events e.state
  let s' =
      track_focus commit_id value (put_entry commit_id (record { value = value; state = st }) s)
  ok (record s' { transcript = s'.transcript ++ s'.events })

-- A command past the gate, from no events.
unfoldable pub run : Environment → Command → Session → Result Session
unfolding pinned_target or_current entry_of arm commit
run env cmd s = do
  (s', pinned) ← pinned_target cmd s
  e ← entry_of s' (or_current pinned s')
  (s'', value) ← arm env cmd e.value s'
  commit cmd e.value pinned s'' value

unfoldable pub dispatch : Environment → Command → Session → Result Session
unfolding is_open passes_gate run
dispatch env cmd s =
    if is_open s.minibuffer && not (passes_gate cmd)
    then ok (record s { events = [] })
    else run env cmd (record s { events = [] })

-- `run_process`: the answer of the process port becomes one delivery.
unfoldable pub run_process : Environment → List Str → RunResult → Session → Result Session
unfolding dispatch normalize_process_error
run_process env argv (completed result) s =
    dispatch env (Commands.deliver_process_output argv (captured result)) s
run_process env argv (failed error) s =
    dispatch env
      (Commands.deliver_process_output argv (launch_failed (normalize_process_error error))) s
