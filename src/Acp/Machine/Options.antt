-- ===== src/Acp/Machine/Options.antt =====
-- Permission requests in acp/machine.py: the key under which an approval is remembered, and the
-- options that a request offers. `canonical` stands for `json.dumps` with sorted keys, none where
-- it raises.
use drei.Base.{
  Str, codes, str_eq, is_empty, Bool, true, false, List, [], ◌∷◌, ◌++◌, Option, none, some,
  if◌then◌else◌, Result, ok, raise, type_error, ◌>>=◌,
}
use drei.Acp.Json.{
  JsonValue, null, str, arr, obj, Fields, end, field, get, as_list, objects, as_str,
}
use drei.Acp.Messages.{is_text}

-- text in texts
unfoldable pub text_in : Str → List Str → Bool
text_in s [] = false
text_in s (t ∷ ts) = if str_eq t s then true else text_in s ts

abbrev pub cacheable_kinds : List Str
cacheable_kinds = codes "allow_session" ∷ codes "allow_always" ∷ []

abbrev pub allow_kinds : List Str
allow_kinds = codes "allow_once" ∷ cacheable_kinds

-- `kind in kinds` of a frozenset: a list or an object has no hash, so the test raises.
unfoldable pub kind_among : JsonValue → List Str → Result Bool
unfolding text_in
kind_among (str s) kinds = ok (text_in s kinds)
kind_among (arr vs) kinds = raise type_error
kind_among (obj fs) kinds = raise type_error
kind_among _ kinds = ok false

-- {k: v for k, v in fields.items() if k != key}
unfoldable pub without_key : Str → Fields → Fields
without_key key end = end
without_key key (field k v fs) =
    let rest = without_key key fs in if str_eq k key then rest else field k v rest

-- fields[key] = value, where the key is there.
unfoldable pub replaced : Str → JsonValue → Fields → Fields
replaced key value end = end
replaced key value (field k v fs) =
    let rest = replaced key value fs in if str_eq k key then field k value rest else field k v rest

unfoldable pub strip_call : JsonValue → Fields → Fields
unfolding without_key replaced
strip_call (obj call) fs =
    replaced (codes "toolCall") (obj (without_key (codes "toolCallId") call)) fs
strip_call _ fs = fs

-- The params without the fields that each call has anew.
unfoldable pub stripped : JsonValue → JsonValue
unfolding without_key strip_call
stripped (obj fs) =
    let rest = without_key (codes "sessionId") fs in
    obj (strip_call (get rest (codes "toolCall")) rest)
stripped params = params

-- `f"{field}:{value}"` of the first field whose value is a text that is not empty.
unfoldable pub label : Str → JsonValue → Str → Str
label key (str s) other = if is_empty s then other else key ++ (codes ":" ++ s)
label key _ other = other

unfoldable pub call_label : JsonValue → Str
unfolding label
call_label (obj call) =
    label (codes "kind") (get call (codes "kind"))
      (label (codes "title") (get call (codes "title")) [])
call_label _ = []

unfoldable pub discriminator : JsonValue → Str
unfolding call_label without_key
discriminator (obj fs) = call_label (get (without_key (codes "sessionId") fs) (codes "toolCall"))
discriminator params = []

unfoldable pub or_unknown : Option Str → Str
or_unknown none = codes "?"
or_unknown (some s) = s

unfoldable pub permission_identity : (JsonValue → Option Str) → JsonValue → Str
unfolding stripped discriminator or_unknown
permission_identity canonical params =
    discriminator params ++ (codes "|params:" ++ or_unknown (canonical (stripped params)))

unfoldable pub permission_options : JsonValue → List Fields
unfolding objects as_list
permission_options (obj fs) = objects (as_list (get fs (codes "options")))
permission_options _ = []

unfoldable pub found_or : Option Str → Result (Option Str) → Result (Option Str)
found_or none other = other
found_or (some option_id) other = ok (some option_id)

-- `_id_of`: the first option of one of the kinds whose id is a text.
unfoldable pub id_of_kind : List Str → List Fields → Result (Option Str)
unfolding kind_among found_or
id_of_kind kinds [] = ok none
id_of_kind kinds (option ∷ rest) =
    let other = id_of_kind kinds rest in
    kind_among (get option (codes "kind")) kinds >>= λ found.
    if found then found_or (as_str (get option (codes "optionId"))) other else other

-- `first or second`: None and the empty text are false.
unfoldable pub or_else : Option Str → Result (Option Str) → Result (Option Str)
or_else none other = other
or_else (some s) other = if is_empty s then other else ok (some s)

unfoldable pub select_auto_option : List Fields → Result (Option Str)
unfolding id_of_kind or_else
select_auto_option options = id_of_kind cacheable_kinds options >>= λ broad.
    or_else broad (id_of_kind (codes "allow_once" ∷ []) options)

unfoldable pub reversed : List Fields → List Fields
reversed [] = []
reversed (option ∷ rest) = reversed rest ++ option ∷ []

-- The kind of the first option with the id, None when there is none.
unfoldable pub kind_of : Str → List Fields → JsonValue
unfolding is_text
kind_of option_id [] = null
kind_of option_id (option ∷ rest) =
    if is_text option_id (get option (codes "optionId"))
    then get option (codes "kind")
    else kind_of option_id rest

-- The kind of the last option with the id.
unfoldable pub chosen_kind : Str → JsonValue → JsonValue
unfolding kind_of reversed permission_options
chosen_kind option_id params = kind_of option_id (reversed (permission_options params))
