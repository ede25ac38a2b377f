-- ===== src/Acp/Machine/Inbound.antt =====
-- `handle` of acp/machine.py: one inbound envelope folded into the machine. `repr` stands for
-- Python's `repr` of a value.
use drei.Base.{
  negsuc, Str, codes, str_eq, Bool, true, false, not, ◌&&◌, ◌||◌, List, [], ◌∷◌, ◌++◌, Option, none,
  some, if◌then◌else◌, Result, ok, ◌>>=◌,
}
use drei.Acp.Json.{JsonValue, null, str, obj, Fields, get, as_dict}
use drei.Acp.Effects.{
  RequestId, selected, agent_text_chunk, thought_chunk, tool_call_started, tool_call_updated,
  plan_updated, permission_requested,
}
use drei.Acp.Ids.{id_contains, id_insert}
use drei.Acp.Messages.{
  Message, request, notification, response, response_error, id_json, is_text, has,
}
use drei.Acp.Machine.{session_active, prompt_in_flight, AcpMachine, Turn, phase_eq}
use drei.Acp.Machine.Options.{
  text_in, kind_among, permission_identity, permission_options, select_auto_option,
}
use drei.Acp.Machine.Answers.{resolve_permission}
use drei.Acp.Machine.Responses.{phase_name, observed, complain, handle_error, handle_result}

-- The modelled kinds of a session/update, which are output of a turn.
abbrev pub turn_update_kinds : List Str
turn_update_kinds =
    codes "agent_message_chunk"
    ∷ codes "agent_thought_chunk"
    ∷ codes "tool_call"
    ∷ codes "tool_call_update"
    ∷ codes "plan"
    ∷ []

-- content.get("text", "") of an object, else "".
unfoldable pub content_text : JsonValue → JsonValue
unfolding has
content_text (obj content) =
    if has content (codes "text") then get content (codes "text") else str []
content_text _ = str []

unfoldable pub starts_with : Str → Str → Bool
starts_with [] s = true
starts_with (c ∷ p) [] = false
starts_with (c ∷ p) (d ∷ s) = str_eq (c ∷ []) (d ∷ []) && starts_with p s

-- The agent's output in a turn; other kinds are ignored.
unfoldable pub turn_update : AcpMachine → Fields → JsonValue → Turn
unfolding is_text observed content_text
turn_update m update kind =
    let text = content_text (get update (codes "content")) in
    if is_text (codes "agent_message_chunk") kind
    then observed m (agent_text_chunk text)
    else if is_text (codes "agent_thought_chunk") kind
    then observed m (thought_chunk text)
    else if is_text (codes "tool_call") kind
    then observed m (tool_call_started (obj update))
    else if is_text (codes "tool_call_update") kind
    then observed m (tool_call_updated (obj update))
    else if is_text (codes "plan") kind
    then observed m (plan_updated (obj update))
    else (m, [], [])

-- JSON-RPC's "method not found".
unfoldable pub refuse : AcpMachine → RequestId → Str → Turn
refuse m i text = (m, response_error (some i) (negsuc 32600) text null ∷ [], [])

unfoldable pub refuse_request : AcpMachine → RequestId → Str → Turn
unfolding refuse starts_with
refuse_request m i method =
    if str_eq method (codes "fs/read_text_file")
      || str_eq method (codes "fs/write_text_file")
      || starts_with (codes "terminal/") method
    then refuse m i (method ++ codes " not supported by this client")
    else refuse m i (codes "unknown method " ++ method)

-- The machine that waits for the human's answer.
unfoldable pub track : RequestId → JsonValue → AcpMachine → AcpMachine
unfolding id_insert
track i params m = record m {
  in_flight_incoming = id_insert i (codes "session/request_permission") m.in_flight_incoming;
  request_params = id_insert i params m.request_params;
}

unfoldable pub ask_human : AcpMachine → RequestId → JsonValue → Turn
unfolding track observed
ask_human m i params =
    observed (track i params m) (permission_requested (record { request_id = i; params = params }))

module _ (canonical : JsonValue → Option Str) where
  -- The option that stands for the approval, or the human when there is none.
  unfoldable pub answer_with : AcpMachine → RequestId → JsonValue → Option Str → Result Turn
  unfolding track resolve_permission ask_human
  answer_with m i params none = ok (ask_human m i params)
  answer_with m i params (some option_id) =
      resolve_permission canonical (track i params m) i (selected option_id)

  unfoldable pub approved : AcpMachine → RequestId → JsonValue → Result Turn
  unfolding select_auto_option permission_options answer_with
  approved m i params =
      select_auto_option (permission_options params) >>= λ choice. answer_with m i params choice

module _ (repr : JsonValue → Str) where
  -- The agent's output is refused outside a turn.
  unfoldable pub gated_update : AcpMachine → Fields → JsonValue → Bool → Turn
  unfolding complain phase_eq phase_name turn_update
  gated_update m update kind is_output =
      if is_output && not (phase_eq m.phase prompt_in_flight)
      then complain m (
          codes "session/update "
          ++ (repr kind
              ++ (codes " outside a prompt turn (phase " ++ (phase_name m.phase ++ codes ")"))))
      else turn_update m update kind

  unfoldable pub fold_update : AcpMachine → JsonValue → Result Turn
  unfolding kind_among gated_update complain
  fold_update m (obj update) =
      let kind = get update (codes "sessionUpdate") in
      kind_among kind turn_update_kinds >>= λ is_output. ok (gated_update m update kind is_output)
  fold_update m _ = ok (complain m (codes "session/update missing update object"))

  unfoldable pub session_update : AcpMachine → Option Str → Fields → Result Turn
  unfolding is_text complain fold_update
  session_update m none params =
      ok (complain m (codes "session/update before any session is established"))
  session_update m (some session_id) params =
      let claimed = get params (codes "sessionId") in
      if is_text session_id claimed
      then fold_update m (get params (codes "update"))
      else ok (complain m (codes "session/update for unknown session " ++ repr claimed))

  unfoldable pub handle_notification : AcpMachine → Str → JsonValue → Result Turn
  unfolding session_update as_dict
  handle_notification m method params =
      if str_eq method (codes "session/update")
      then session_update m m.session_id (as_dict params)
      else ok (m, [], [])

  module _ (canonical : JsonValue → Option Str) where
    unfoldable pub request_permission : AcpMachine → RequestId → JsonValue → Result Turn
    unfolding phase_eq complain phase_name id_contains id_json text_in permission_identity approved
        ask_human
    request_permission m i params =
        if not (phase_eq m.phase session_active || phase_eq m.phase prompt_in_flight)
        then ok
            (complain m (codes "session/request_permission out of phase " ++ phase_name m.phase))
        else if id_contains i m.in_flight_incoming
        then ok (complain m (codes "duplicate inbound request id " ++ repr (id_json i)))
        else if text_in (permission_identity canonical params) m.auto_approvals
        then approved canonical m i params
        else ok (ask_human m i params)

    unfoldable pub handle_request : AcpMachine → RequestId → Str → JsonValue → Result Turn
    unfolding request_permission refuse_request
    handle_request m i method params =
        if str_eq method (codes "session/request_permission")
        then request_permission m i params
        else ok (refuse_request m i method)

    unfoldable pub handle : AcpMachine → Message → Result Turn
    unfolding handle_request handle_notification handle_result handle_error
    handle m (request i method params) = handle_request m i method params
    handle m (notification method params) = handle_notification m method params
    handle m (response i result) = ok (handle_result repr m i result)
    handle m (response_error i code text _) = ok (handle_error repr m i code text)
