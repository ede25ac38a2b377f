-- ===== src/Session/Minibuffer.antt =====
-- The minibuffer arms of `dispatch`: input, backspace, accept and abort. Each returns the session
-- and the new value of the buffer that the command ends on.
use drei.Base.{
  ℕ, Str, contains, is_empty, List, [], ◌∷◌, ◌++◌, Option, none, some, if◌then◌else◌, Result, ok,
  ◌>>=◌,
}
use drei.Acp.Effects.{PermissionRequested, PermissionDecision, cancelled}
use drei.Buffer.{BufferValue}
use drei.Commands.{
  permission_decided, minibuffer_aborted, agent_prompt_submitted, message, answer_y_or_n,
}
use drei.Editing.State.{ordinary}
use drei.Session.State.{
  Environment, MinibufferKind, agent_prompt, switch_buffer, save_buffer, exit_anyway, Session, emit,
  current_value, close_minibuffer,
}
use drei.Session.Buffers.{create_buffer, empty_value, select_buffer, open_file}
use drei.Session.Choice.{
  choice_key_to_decision, choice_accept_decision, close_choice, drain_permission_queue,
}
use drei.Session.Exit.{exit_prompt_key}

-- What the minibuffer is doing: the order of the tests in each arm.
pub data Mode : Type 0 where
  choosing : PermissionRequested → Mode
  exiting : MinibufferKind → Mode
  typing : Str → Option MinibufferKind → Mode
  closed : Mode

unfoldable pub text_mode : Option Str → Option MinibufferKind → Mode
text_mode none kind = closed
text_mode (some input) kind = typing input kind

-- `_minibuffer_kind in _EXIT_KINDS`
unfoldable pub kind_mode : Option Str → Option MinibufferKind → Mode
unfolding text_mode
kind_mode input (some save_buffer) = exiting save_buffer
kind_mode input (some exit_anyway) = exiting exit_anyway
kind_mode input kind = text_mode input kind

unfoldable pub mode_of : Option PermissionRequested → Option Str → Option MinibufferKind → Mode
unfolding kind_mode
mode_of (some request) input kind = choosing request
mode_of none input kind = kind_mode input kind

unfoldable pub mode : Session → Mode
unfolding mode_of
mode s = mode_of s.choice s.minibuffer s.minibuffer_kind

-- A decision is recorded and the prompt closed.
unfoldable pub decide : Environment → PermissionRequested → PermissionDecision → Session → Session
unfolding emit close_choice
decide env request decision s =
    close_choice env (emit (permission_decided request.request_id decision) s)

unfoldable pub decide_key :
    Environment → PermissionRequested → Option PermissionDecision → Session → Session
unfolding decide
decide_key env request none s = s
decide_key env request (some decision) s = decide env request decision s

unfoldable pub minibuffer_input_arm :
    Environment → ℕ → BufferValue → Mode → Session → Result (Session × BufferValue)
unfolding decide_key choice_key_to_decision exit_prompt_key current_value
minibuffer_input_arm env char current (choosing request) s = do
  decision ← choice_key_to_decision request char
  ok (decide_key env request decision s, current)
minibuffer_input_arm env char current (exiting kind) s = do
  s' ← exit_prompt_key env kind char s
  value ← current_value s'
  ok (s', value)
minibuffer_input_arm env char current (typing input kind) s =
    ok (record s { minibuffer = some (input ++ char ∷ []) }, current)
minibuffer_input_arm env char current closed s = ok (s, current)

-- text[:-1]
unfoldable pub drop_last : Str → Str
drop_last [] = []
drop_last (c ∷ []) = []
drop_last (c ∷ d ∷ s) = c ∷ drop_last (d ∷ s)

unfoldable pub minibuffer_backspace_arm : Mode → Session → Session
unfolding emit drop_last
minibuffer_backspace_arm (choosing request) s = s
minibuffer_backspace_arm (exiting kind) s = emit (message answer_y_or_n) s
minibuffer_backspace_arm (typing input kind) s = record s { minibuffer = some (drop_last input) }
minibuffer_backspace_arm closed s = s

unfoldable pub minibuffer_abort_arm : Environment → Mode → Session → Session
unfolding decide close_minibuffer emit drain_permission_queue
minibuffer_abort_arm env (choosing request) s = decide env request cancelled s
minibuffer_abort_arm env (exiting kind) s =
    drain_permission_queue env
      (emit minibuffer_aborted (close_minibuffer (record s { exit_pending = [] })))
minibuffer_abort_arm env (typing input kind) s =
    drain_permission_queue env (emit minibuffer_aborted (close_minibuffer s))
minibuffer_abort_arm env closed s = s

-- `_mru[1] if len(_mru) > 1 else ""`
unfoldable pub other_buffer : List Str → Str
other_buffer [] = []
other_buffer (a ∷ []) = []
other_buffer (a ∷ b ∷ rest) = b

unfoldable pub switch_to : Str → Session → Result Session
unfolding create_buffer empty_value select_buffer
switch_to [] s = ok s
switch_to (c ∷ cs) s =
    let name : Str = c ∷ cs in
    if contains name s.buffers then select_buffer name s else do
      (s', buffer_id) ← create_buffer name empty_value ordinary none s
      select_buffer buffer_id s'

-- What an accepted text means, by the kind of its prompt; the prompt is closed already.
unfoldable pub accept_text :
    Environment
    → Str
    → Option MinibufferKind
    → BufferValue
    → Session
    → Result (Session × BufferValue)
unfolding emit other_buffer switch_to open_file current_value
accept_text env text (some agent_prompt) current s =
    ok (if is_empty text then s else emit (agent_prompt_submitted text) s, current)
accept_text env text (some switch_buffer) current s = do
  s' ← switch_to (if is_empty text then other_buffer s.mru else text) s
  value ← current_value s'
  ok (s', value)
accept_text env [] kind current s = ok (s, current)
accept_text env (c ∷ cs) kind current s = do
  s' ← open_file env.files (c ∷ cs) s
  value ← current_value s'
  ok (s', value)

unfoldable pub minibuffer_accept_arm :
    Environment → BufferValue → Mode → Session → Result (Session × BufferValue)
unfolding decide choice_accept_decision emit accept_text close_minibuffer drain_permission_queue
minibuffer_accept_arm env current (choosing request) s =
    ok (decide env request (choice_accept_decision request) s, current)
minibuffer_accept_arm env current (exiting kind) s = ok (emit (message answer_y_or_n) s, current)
minibuffer_accept_arm env current (typing input kind) s = do
  (s', value) ← accept_text env input kind current (close_minibuffer s)
  ok (drain_permission_queue env s', value)
minibuffer_accept_arm env current closed s = ok (s, current)
