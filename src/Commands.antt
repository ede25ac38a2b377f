-- ===== src/Commands.antt =====
-- Commands, events and tokens of drei/commands.py. A `DeliverProcessOutput` has exactly one of a
-- result and an error, which its constructor checks; here it carries a `Delivery`. That a result's
-- argv is the delivery's own is checked there too and is not repeated here.
use drei.Base.{ℕ, ℤ, Str, Bool, true, false, List, Option}
use drei.Files.{ErrorToken}
use drei.Process.{ProcessResult}
use drei.Acp.Effects.{RequestId, PermissionDecision, PermissionRequested, SessionEffect}

pub data Delivery : Type 0 where
  captured : ProcessResult → Delivery
  launch_failed : ErrorToken → Delivery

pub data Command : Type 0 where
  insert_text : Str → Command
  forward_char backward_char save_buffer kill_line yank yank_pop set_mark : Command
  kill_region copy_region_as_kill exchange_point_and_mark undo : Command
  keyboard_quit exit_editor find_file switch_buffer prompt_agent : Command
  split_window other_window delete_other_windows : Command
  resize_frame : ℕ → ℕ → Command
  minibuffer_input : ℕ → Command
  minibuffer_backspace minibuffer_accept minibuffer_abort : Command
  deliver_process_output : List Str → Delivery → Command
  deliver_session_effects : List SessionEffect → Str → Command
  insert_agent_text : Str → Str → Command
  create_agent_buffer : Str → Command
  create_generated_buffer : Str → Command
  display_buffer : Str → Command
  prompt_permission : PermissionRequested → Command
  abort_pending_permissions : Command

-- The class variable `user_issued`, true unless a class says otherwise.
unfoldable pub user_issued : Command → Bool
user_issued (resize_frame width height) = false
user_issued (deliver_process_output argv delivery) = false
user_issued (deliver_session_effects effects target) = false
user_issued (insert_agent_text text target) = false
user_issued (create_agent_buffer session_id) = false
user_issued (display_buffer target) = false
user_issued (prompt_permission request) = false
user_issued abort_pending_permissions = false
user_issued _ = true

pub data Direction : Type 0 where
  forward backward : Direction

pub data Status : Type 0 where
  exited_ok nonzero_exit : Status
  launch_error : ErrorToken → Status

pub data MessageToken : Type 0 where
  end_of_buffer no_further_undo mark_not_set previous_command_not_a_yank : MessageToken
  too_small_for_splitting answer_y_or_n : MessageToken

-- The fields of `TextUndone` and `TextRedone`.
pub record Restored : Type 0 where
  pub start : ℕ
  pub removed_text : Str
  pub inserted_text : Str
  pub point_before : ℕ
  pub point_after : ℕ
  pub mark_before : Option ℕ
  pub mark_after : Option ℕ

-- `requested` and `actual` of `PointMoved` are integers.
pub data Event : Type 0 where
  text_inserted : Str → ℕ → ℕ → Event
  point_moved : ℤ → ℤ → Event
  text_killed : Str → ℕ → ℕ → Direction → Event
  text_yanked : Str → ℕ → ℕ → Event
  text_yank_popped : Str → Str → ℕ → ℕ → Event
  mark_was_set : ℕ → Event
  region_killed : Str → ℕ → ℕ → Direction → Event
  region_copied : Str → Event
  mark_exchanged : ℕ → ℕ → Event
  text_undone : Restored → Event
  text_redone : Restored → Event
  buffer_saved : Str → Event
  save_failed : Str → ErrorToken → Event
  keyboard_quit_event : Event
  editor_exited : Event
  process_output_recorded : List Str → ℤ → ℕ → ℕ → Status → Event
  minibuffer_opened : Str → Event
  minibuffer_aborted : Event
  permission_decided : RequestId → PermissionDecision → Event
  buffer_opened : Str → ℕ → Event
  buffer_created : Str → Option Str → Event
  buffer_selected : Str → Event
  window_split : ℕ → Event
  window_focus_changed : ℕ → Str → Event
  windows_collapsed : Event
  frame_resized : ℕ → ℕ → Event
  open_failed : Str → ErrorToken → Event
  message : MessageToken → Event
  save_declined : Str → Event
  exit_refused : Event
  agent_prompt_submitted : Str → Event
  buffer_displayed : Str → ℕ → Event
  agent_transcript_updated : List SessionEffect → Str → Str → Event
  agent_text_inserted : Str → ℕ → ℕ → Str → Event

-- `isinstance(e, Message)`
unfoldable pub is_message : Event → Bool
is_message (message token) = true
is_message _ = false
