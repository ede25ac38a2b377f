-- ===== src/Acp/Messages.antt =====
-- The JSON-RPC envelopes of acp/messages.py: `to_json` and `parse_message`. Each raise of an
-- `AcpProtocolError` is a constructor of `EnvelopeError`; its text repeats the payload. Behind the
-- guards of `parse_fields` an id that must not be null is an int or a str, so that the clauses
-- for `none` in `parse_call` and `parse_result` are not reached.
pub mod RoundTrip
pub mod Sound
use drei.Base.{
  ℤ, Str, codes, str_eq, Bool, true, false, not, ◌&&◌, ◌||◌, Option, none, some, if◌then◌else◌,
}
use drei.Acp.Json.{JsonValue, null, bool, int, float, str, arr, obj, Fields, end, field, get}
use drei.Acp.Effects.{RequestId, number, name}

pub data Message : Type 0 where
  request : RequestId → Str → JsonValue → Message
  notification : Str → JsonValue → Message
  response : RequestId → JsonValue → Message
  response_error : Option RequestId → ℤ → Str → JsonValue → Message

pub data EnvelopeError : Type 0 where
  not_an_object wrong_version result_and_error method_with_answer bad_id null_id : EnvelopeError
  bad_method bad_error bad_code bad_text unrecognized : EnvelopeError

pub data Parsed : Type 0 where
  accepted : Message → Parsed
  refused : EnvelopeError → Parsed

unfoldable pub id_json : RequestId → JsonValue
id_json (number n) = int n
id_json (name s) = str s

unfoldable pub optional_id_json : Option RequestId → JsonValue
unfolding id_json
optional_id_json none = null
optional_id_json (some i) = id_json i

unfoldable pub is_null : JsonValue → Bool
is_null null = true
is_null _ = false

-- `if value is not None: payload[key] = value`
unfoldable pub optional_field : Str → JsonValue → Fields
unfolding is_null
optional_field key value = if is_null value then end else field key value end

unfoldable pub version_then : Fields → JsonValue
version_then fields = obj (field (codes "jsonrpc") (str (codes "2.0")) fields)

unfoldable pub to_json : Message → JsonValue
unfolding version_then id_json optional_id_json optional_field
to_json (request i method params) = version_then (
    field (codes "id") (id_json i)
      (field (codes "method") (str method) (optional_field (codes "params") params)))
to_json (notification method params) =
    version_then (field (codes "method") (str method) (optional_field (codes "params") params))
to_json (response i result) =
    version_then (field (codes "id") (id_json i) (field (codes "result") result end))
to_json (response_error i code text details) = version_then (
    field (codes "id") (optional_id_json i) (
      field (codes "error")
        (obj (
          field (codes "code") (int code)
            (field (codes "message") (str text) (optional_field (codes "data") details))))
        end))

-- key in payload
unfoldable pub has : Fields → Str → Bool
has end key = false
has (field k v fs) key = if str_eq k key then true else has fs key

-- value == text
unfoldable pub is_text : Str → JsonValue → Bool
is_text text (str s) = str_eq s text
is_text text _ = false

unfoldable pub id_of : JsonValue → Option RequestId
id_of (int n) = some (number n)
id_of (str s) = some (name s)
id_of _ = none

-- `_valid_id`
unfoldable pub valid_id : JsonValue → Bool
valid_id null = true
valid_id (int n) = true
valid_id (str s) = true
valid_id _ = false

unfoldable pub parse_call : Bool → JsonValue → JsonValue → JsonValue → Parsed
unfolding id_of
parse_call true i (str method) params = elim (id_of i) [
  | none ↦ refused null_id
  | some request_id ↦ accepted (request request_id method params)
]
parse_call false i (str method) params = accepted (notification method params)
parse_call has_id i _ params = refused bad_method

unfoldable pub parse_result : Option RequestId → JsonValue → Parsed
parse_result none result = refused null_id
parse_result (some i) result = accepted (response i result)

-- bool is a subclass of int, and is refused all the same.
unfoldable pub parse_code : Option RequestId → JsonValue → JsonValue → JsonValue → Parsed
parse_code i (int code) (str text) details = accepted (response_error i code text details)
parse_code i (int code) _ details = refused bad_text
parse_code i _ text details = refused bad_code

unfoldable pub parse_error : Option RequestId → JsonValue → Parsed
unfolding has parse_code
parse_error i (obj fs) =
    if has fs (codes "code") && has fs (codes "message")
    then parse_code i (get fs (codes "code")) (get fs (codes "message")) (get fs (codes "data"))
    else refused bad_error
parse_error i _ = refused bad_error

-- The envelope by the keys that it has, once the guards before have passed.
unfoldable pub parse_shape : Fields → Parsed
unfolding has parse_call parse_result parse_error id_of
parse_shape fs =
    let i = get fs (codes "id") in
    if has fs (codes "method")
    then parse_call (has fs (codes "id")) i (get fs (codes "method")) (get fs (codes "params"))
    else if has fs (codes "id") && has fs (codes "result")
    then parse_result (id_of i) (get fs (codes "result"))
    else if has fs (codes "id") && has fs (codes "error")
    then parse_error (id_of i) (get fs (codes "error"))
    else refused unrecognized

unfoldable pub parse_fields : Fields → Parsed
unfolding has is_text valid_id is_null parse_shape
parse_fields fs =
    let has_id = has fs (codes "id") in
    let has_method = has fs (codes "method") in
    let has_result = has fs (codes "result") in
    let has_error = has fs (codes "error") in
    let i = get fs (codes "id") in
    if not (is_text (codes "2.0") (get fs (codes "jsonrpc")))
    then refused wrong_version
    else if has_result && has_error
    then refused result_and_error
    else if has_method && (has_result || has_error)
    then refused method_with_answer
    else if has_id && not (valid_id i)
    then refused bad_id
    else if has_id && (is_null i && not (has_error && not has_method))
    then refused null_id
    else parse_shape fs

unfoldable pub parse_message : JsonValue → Parsed
unfolding parse_fields
parse_message (obj fs) = parse_fields fs
parse_message _ = refused not_an_object
