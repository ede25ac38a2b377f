-- ===== src/Session/Choice.antt =====
-- The permission prompt: the choice-minibuffer helpers, and the kinds of options of acp/machine.py.
pub mod Consent
use drei.Base.{
  ℕ, Str, codes, str_eq, is_empty, Bool, true, false, ◌||◌, List, [], ◌∷◌, ◌++◌, Option, none, some,
  ◌==◌, if◌then◌else◌, Result, ok, raise, type_error, ◌>>=◌,
}
use drei.Acp.Json.{JsonValue, str, arr, obj, Fields, get, as_str, as_dict, as_list, objects}
use drei.Acp.Effects.{PermissionRequested, PermissionDecision, selected, cancelled}
use drei.Acp.Format.{truthy}
use drei.Commands.{minibuffer_opened}
use drei.Session.State.{Environment, Session, emit}

-- `_choice_options`
unfoldable pub choice_options : PermissionRequested → List Fields
unfolding objects
choice_options request = objects (as_list (get (as_dict request.params) (codes "options")))

-- `tool_call.get("title") or tool_call.get("toolCallId")`, else "permission".
unfoldable pub title_value : Fields → JsonValue
unfolding truthy
title_value call =
    let title = get call (codes "title") in
    if truthy title then title else get call (codes "toolCallId")

unfoldable pub title_text : Option Str → Str
title_text none = codes "permission"
title_text (some t) = if is_empty t then codes "permission" else t

unfoldable pub choice_title : PermissionRequested → Str
unfolding title_value title_text
choice_title request =
    title_text (as_str (title_value (as_dict (get (as_dict request.params) (codes "toolCall")))))

unfoldable pub option_key : Option Str → Str
option_key none = codes "n"
option_key (some kind) =
    if str_eq kind (codes "allow_once")
    then codes "y"
    else if str_eq kind (codes "allow_session")
    then codes "s"
    else if str_eq kind (codes "allow_always")
    then codes "a"
    else codes "n"

-- `str(kind)`: Python's text of a value that is none is the environment's.
unfoldable pub show_kind : Environment → JsonValue → Str
show_kind env (str s) = s
show_kind env v = env.show_json v

unfoldable pub label_of : Environment → Option Str → JsonValue → Str
unfolding show_kind
label_of env none kind = show_kind env kind
label_of env (some name) kind = if is_empty name then show_kind env kind else name

-- `"[{key}]{label}"` for each option, joined by spaces.
unfoldable pub option_parts : Environment → List Fields → Str
unfolding label_of option_key
option_parts env [] = []
option_parts env (option ∷ rest) =
    let kind = get option (codes "kind") in
    let part : Str =
      codes "["
      ++ (option_key (as_str kind)
          ++ (codes "]" ++ label_of env (as_str (get option (codes "name"))) kind)) in
    let others = option_parts env rest in
    elim rest [ [] ↦ part | o ∷ os ↦ part ++ (codes " " ++ others) ]

-- `_choice_prompt`
unfoldable pub choice_prompt : Environment → PermissionRequested → Str
unfolding choice_title option_parts choice_options
choice_prompt env request =
    codes "Allow "
    ++ (choice_title request
        ++ (codes "? " ++ (option_parts env (choice_options request) ++ codes " [n]o ")))

unfoldable pub kind_is : Str → JsonValue → Bool
kind_is kind (str s) = str_eq s kind
kind_is kind _ = false

-- `kind in _REJECT_KINDS`: a list or an object has no hash, so the test raises.
unfoldable pub is_reject_kind : JsonValue → Result Bool
is_reject_kind (str s) = ok (str_eq s (codes "reject_once") || str_eq s (codes "reject_always"))
is_reject_kind (arr vs) = raise type_error
is_reject_kind (obj fs) = raise type_error
is_reject_kind _ = ok false

-- The first option whose kind passes and whose id is a text.
unfoldable pub first_option : (JsonValue → Bool) → List Fields → Option Str
first_option passes [] = none
first_option passes (option ∷ rest) =
    let other = first_option passes rest in
    let usable : Option Str = elim (as_str (get option (codes "optionId"))) [
      | none ↦ other
      | some option_id ↦ some option_id
    ] in
    if passes (get option (codes "kind")) then usable else other

-- The first reject option whose id is a text.
unfoldable pub first_reject : List Fields → Result (Option Str)
unfolding is_reject_kind
first_reject [] = ok none
first_reject (option ∷ rest) = do
  rejects ← is_reject_kind (get option (codes "kind"))
  let other = first_reject rest
  let usable : Result (Option Str) = elim (as_str (get option (codes "optionId"))) [
    | none ↦ other
    | some option_id ↦ ok (some option_id)
  ]
  if rejects then usable else other

unfoldable pub selected_or_cancelled : Option Str → PermissionDecision
selected_or_cancelled none = cancelled
selected_or_cancelled (some option_id) = selected option_id

unfoldable pub selected_or_none : Option Str → Option PermissionDecision
selected_or_none none = none
selected_or_none (some option_id) = some (selected option_id)

-- `_choice_key_to_decision`: y, s, a grant the option of their kind, n denies.
unfoldable pub choice_key_to_decision : PermissionRequested → ℕ → Result (Option PermissionDecision)
unfolding choice_options first_option kind_is first_reject selected_or_cancelled selected_or_none
choice_key_to_decision request char =
    let options = choice_options request in
    if char == b'y'
    then ok (selected_or_none (first_option (kind_is (codes "allow_once")) options))
    else if char == b's'
    then ok (selected_or_none (first_option (kind_is (codes "allow_session")) options))
    else if char == b'a'
    then ok (selected_or_none (first_option (kind_is (codes "allow_always")) options))
    else if char == b'n'
    then (do rejected ← first_reject options; ok (some (selected_or_cancelled rejected)))
    else ok none

-- `_choice_accept_decision`
unfoldable pub choice_accept_decision : PermissionRequested → PermissionDecision
unfolding choice_options first_option kind_is selected_or_cancelled
choice_accept_decision request =
    selected_or_cancelled (first_option (kind_is (codes "allow_once")) (choice_options request))

-- `_open_choice`
unfoldable pub open_choice : Environment → PermissionRequested → Session → Session
unfolding choice_prompt emit
open_choice env request s =
    let prompt = choice_prompt env request in
    emit (minibuffer_opened prompt)
      (record s { choice = some request; minibuffer = some []; minibuffer_prompt = prompt })

-- `_drain_permission_queue`
unfoldable pub drain_queue : Environment → List PermissionRequested → Session → Session
unfolding open_choice
drain_queue env [] s = s
drain_queue env (request ∷ rest) s = open_choice env request (record s { permission_queue = rest })

unfoldable pub drain_permission_queue : Environment → Session → Session
unfolding drain_queue
drain_permission_queue env s = drain_queue env s.permission_queue s

-- `_close_choice`
unfoldable pub close_choice : Environment → Session → Session
unfolding drain_permission_queue
close_choice env s =
    drain_permission_queue env
      (record s { choice = none; minibuffer = none; minibuffer_prompt = [] })
