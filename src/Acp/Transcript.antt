-- ===== src/Acp/Transcript.antt =====
-- The fold from session effects to transcript text: `TranscriptFold` and `advance` of
-- acp/transcript.py.
use drei.Base.{
  Str, codes, ℕ, ◌+◌, Bool, true, false, List, [], ◌∷◌, ◌++◌, Result, ok, raise, type_error, ◌>>=◌,
  if◌then◌else◌,
}
use drei.Acp.Json.{JsonValue, str}
use drei.Acp.Effects.{
  RequestId, number, name, PermissionDecision, selected, SessionEffect, initialized,
  session_established, agent_text_chunk, thought_chunk, tool_call_started, tool_call_updated,
  plan_updated, prompt_completed, permission_requested, permission_resolved, protocol_error,
}
use drei.Acp.Format.{show_int, format_tool_call_started, format_tool_call_updated, format_plan}

pub record TranscriptFold : Type 0 where
  pub turn_open : Bool
  pub thought_open : Bool
  pub turns : ℕ

abbrev pub fresh_fold : TranscriptFold
fresh_fold = record { turn_open = false; thought_open = false; turns = 0 }

unfoldable pub turn_header : Str
turn_header = codes "\n── agent ──\n"

unfoldable pub thought_header : Str
thought_header = codes "\n  ┆ thought ┆\n"

-- `prefix + text`: only a str can be appended to a str.
unfoldable pub text_of : JsonValue → Result Str
text_of (str s) = ok s
text_of _ = raise type_error

unfoldable pub close_thought : TranscriptFold → TranscriptFold
close_thought fold = if fold.thought_open then record fold { thought_open = false } else fold

unfoldable pub show_request_id : RequestId → Str
show_request_id (number n) = show_int n
show_request_id (name s) = s

unfoldable pub resolution_line : PermissionDecision → Bool → Str
resolution_line (selected option_id) true =
    codes "\n── permission granted: " ++ (option_id ++ codes " ──\n")
resolution_line _ _ = codes "\n── permission denied ──\n"

unfoldable pub open_turn : TranscriptFold → TranscriptFold × Str
open_turn fold =
    if fold.turn_open then (fold, []) else (record fold { turn_open = true }, turn_header)

unfoldable pub open_thought : TranscriptFold × Str → TranscriptFold × Str
open_thought (fold, header) =
    if fold.thought_open
    then (fold, header)
    else (record fold { thought_open = true }, header ++ thought_header)

unfoldable pub advance : TranscriptFold → SessionEffect → Result (TranscriptFold × Str)
unfolding close_thought open_turn open_thought text_of resolution_line show_request_id
advance fold (agent_text_chunk text) = do
  let (opened, header) = open_turn (close_thought fold)
  s ← text_of text
  ok (opened, header ++ s)
advance fold (thought_chunk text) = do
  let (opened, header) = open_thought (open_turn fold)
  s ← text_of text
  ok (opened, header ++ s)
advance fold (tool_call_started update) = ok (close_thought fold, format_tool_call_started update)
advance fold (tool_call_updated update) = ok (close_thought fold, format_tool_call_updated update)
advance fold (plan_updated update) = ok (close_thought fold, format_plan update)
advance fold (prompt_completed reason) = ok (
  record { turn_open = false; thought_open = false; turns = fold.turns + 1 },
  codes "\n── end turn (" ++ (reason ++ codes ") ──\n"),
)
advance fold (permission_requested request) = ok (
  close_thought fold,
  codes "\n── permission requested (id " ++ (show_request_id request.request_id ++ codes ") ──\n"),
)
advance fold (permission_resolved request_id decision granted) =
    ok (close_thought fold, resolution_line decision granted)
advance fold (protocol_error detail) =
    ok (close_thought fold, codes "\n── protocol error: " ++ (detail ++ codes " ──\n"))
advance fold (initialized caps) = ok (fold, [])
advance fold (session_established session_id) = ok (fold, [])

-- The loop of `_render_effects` (session.py): the fold after the effects, and the texts joined.
unfoldable pub advance_all : TranscriptFold → List SessionEffect → Result (TranscriptFold × Str)
advance_all fold [] = ok (fold, [])
advance_all fold (effect ∷ rest) = do
  (fold', text) ← advance fold effect
  (fold'', suffix) ← advance_all fold' rest
  ok (fold'', text ++ suffix)
