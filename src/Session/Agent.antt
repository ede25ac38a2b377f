-- ===== src/Session/Agent.antt =====
-- Deliveries from the agent: target resolution (`_pinned_target`), the transcript fold and the
-- append with its tail-follow rule.
use drei.Base.{
  ℕ, ◌+◌, Str, codes, str_eq, lookup, insert, Bool, not, ◌&&◌, List, [], ◌∷◌, ◌++◌, Option, none,
  some, length, ◌==◌, if◌then◌else◌, Result, ok, raise, value_error, ◌>>=◌,
}
use drei.Acp.Effects.{SessionEffect}
use drei.Acp.Transcript.{TranscriptFold, fresh_fold, advance_all}
use drei.Buffer.{BufferValue, checked, adjust_mark_insert}
use drei.Commands.{
  Command, deliver_session_effects, insert_agent_text, create_generated_buffer, create_agent_buffer,
  agent_text_inserted,
}
use drei.Editing.State.{ordinary, generated}
use drei.Session.State.{Entry, WindowValue, Session, emit}
use drei.Session.Buffers.{create_buffer, empty_value}

unfoldable pub accepts : Str → Option Entry → Result Str
accepts buffer_id none = raise value_error
accepts buffer_id (some e) = elim e.state.kind [
  | generated ↦ ok buffer_id
  | ordinary ↦ raise value_error
]

-- The buffer that is bound, or a new generated one, and its binding.
unfoldable pub mint_generated : Str → Option Str → Session → Result (Session × Option Str)
unfolding create_buffer empty_value
mint_generated name (some existing) s = ok (s, some existing)
mint_generated name none s = do
  (s', target) ← create_buffer name empty_value generated none s
  ok (record s' { generated_buffers = insert name target s'.generated_buffers }, some target)

unfoldable pub mint_agent : Str → Option Str → Session → Result (Session × Option Str)
unfolding create_buffer empty_value
mint_agent session_id (some existing) s = ok (s, some existing)
mint_agent session_id none s = do
  (s', target) ← create_buffer (codes "*agent*") empty_value generated none s
  ok (record s' { agent_buffers = insert session_id target s'.agent_buffers }, some target)

-- `_pinned_target`: the buffer that a command names or mints; none is the focused one.
unfoldable pub pinned_target : Command → Session → Result (Session × Option Str)
unfolding accepts mint_generated mint_agent
pinned_target (deliver_session_effects effects buffer_id) s = do
  target ← accepts buffer_id (lookup buffer_id s.buffers)
  ok (s, some target)
pinned_target (insert_agent_text text buffer_id) s = do
  target ← accepts buffer_id (lookup buffer_id s.buffers)
  ok (s, some target)
pinned_target (create_generated_buffer name) s =
    mint_generated name (lookup name s.generated_buffers) s
pinned_target (create_agent_buffer session_id) s =
    mint_agent session_id (lookup session_id s.agent_buffers) s
pinned_target _ s = ok (s, none)

unfoldable pub follows : Str → ℕ → WindowValue → Bool
follows buffer_id before w = str_eq w.buffer_id buffer_id && w.point == before

-- The windows from index `i` on; the focused one is left alone.
unfoldable pub follow_from : ℕ → ℕ → Str → ℕ → ℕ → List WindowValue → List WindowValue
unfolding follows
follow_from i focused buffer_id before after [] = []
follow_from i focused buffer_id before after (w ∷ ws) =
    (if not (i == focused) && follows buffer_id before w then record w { point = after } else w)
    ∷ follow_from (i + 1) focused buffer_id before after ws

-- `_tail_follow_windows`
unfoldable pub tail_follow_windows : Str → ℕ → ℕ → Session → Session
unfolding follow_from
tail_follow_windows buffer_id before after s = record s {
  windows = follow_from 0 s.focused buffer_id before after s.windows;
}

-- `_append_agent_text`
unfoldable pub append_agent_text :
    BufferValue → Str → Str → Session → Result (Session × BufferValue)
unfolding tail_follow_windows emit
append_agent_text current [] target s = ok (s, current)
append_agent_text current (c ∷ cs) target s = do
  let text : Str = c ∷ cs
  let before = length current.text
  let after = before + length text
  value ← checked (record current {
    text = current.text ++ text;
    point = if current.point == before then after else current.point;
    mark = adjust_mark_insert current.mark before (length text);
  })
  ok (
    emit (agent_text_inserted text before after target) (tail_follow_windows target before after s),
    value,
  )

unfoldable pub fold_of : Option TranscriptFold → TranscriptFold
fold_of none = fresh_fold
fold_of (some fold) = fold

-- `_render_effects`: the fold of the target advances, and the new text comes back.
unfoldable pub render_effects : List SessionEffect → Str → Session → Result (Session × Str)
unfolding fold_of
render_effects effects buffer_id s = do
  (fold, text) ← advance_all (fold_of (lookup buffer_id s.agent_folds)) effects
  ok (record s { agent_folds = insert buffer_id fold s.agent_folds }, text)
