-- ===== src/Acp/Messages/RoundTrip.antt =====
-- `parse_message` of what `to_json` wrote.
use drei.Base.{str_eq, ◌≡◌, refl, ◌⊎◌, inl, inr, false, none, some}
use drei.Acp.Json.{JsonValue, null, bool, int, float, str, arr, obj, get}
use drei.Acp.Effects.{number, name}
use drei.Acp.Messages.{
  Message, request, notification, response, response_error, accepted, to_json, parse_message,
  is_null,
}

is_null-cases : (v : JsonValue) → (v ≡ null) ⊎ (is_null v ≡ false)
unfolding is_null
is_null-cases null = inl refl
is_null-cases (bool b) = inr refl
is_null-cases (int n) = inr refl
is_null-cases (float b s) = inr refl
is_null-cases (str s) = inr refl
is_null-cases (arr vs) = inr refl
is_null-cases (obj fs) = inr refl

-- Every message that the client writes is parsed back as the same message.
pub parse_message-to_json : (m : Message) → parse_message (to_json m) ≡ accepted m
unfolding parse_message to_json drei.Acp.Json.get drei.Base.str_eq
parse_message-to_json (request (number n) method params) = elim (is_null-cases params) [
  | inl e ↦ rw e
  | inr e ↦ rw e
]
parse_message-to_json (request (name s) method params) = elim (is_null-cases params) [
  | inl e ↦ rw e
  | inr e ↦ rw e
]
parse_message-to_json (notification method params) = elim (is_null-cases params) [
  | inl e ↦ rw e
  | inr e ↦ rw e
]
parse_message-to_json (response (number n) result) = refl
parse_message-to_json (response (name s) result) = refl
parse_message-to_json (response_error none code text details) = elim (is_null-cases details) [
  | inl e ↦ rw e
  | inr e ↦ rw e
]
parse_message-to_json (response_error (some (number n)) code text details) =
    elim (is_null-cases details) [ inl e ↦ rw e | inr e ↦ rw e ]
parse_message-to_json (response_error (some (name s)) code text details) =
    elim (is_null-cases details) [ inl e ↦ rw e | inr e ↦ rw e ]
