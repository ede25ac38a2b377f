-- ===== src/Acp/Messages/Sound.antt =====
-- What an accepted envelope says of the payload that it was parsed from.
use drei.Base.{codes, ◌≡◌, refl, Bool, true, false, Option, subst, arith}
use drei.Acp.Json.{JsonValue, null, bool, int, str, obj, Fields, get}
use drei.Acp.Effects.{RequestId}
use drei.Acp.Messages.{
  Message, request, notification, response, response_error, EnvelopeError, accepted, refused, id_of,
  id_json, optional_id_json, has, valid_id, parse_call, parse_result, parse_code, parse_error,
  parse_shape, parse_fields, parse_message,
}

-- The keys of an envelope that its kind has, with what the message says of them.
unfoldable pub Agrees : JsonValue → Message → Type 0
unfolding id_json optional_id_json has get
Agrees (obj fs) (request i method params) =
    (get fs (codes "id") ≡ id_json i)
    × (get fs (codes "method") ≡ str method)
    × (get fs (codes "params") ≡ params)
Agrees (obj fs) (notification method params) =
    (has fs (codes "id") ≡ false)
    × (get fs (codes "method") ≡ str method)
    × (get fs (codes "params") ≡ params)
Agrees (obj fs) (response i result) =
    (has fs (codes "method") ≡ false)
    × (get fs (codes "id") ≡ id_json i)
    × (get fs (codes "result") ≡ result)
Agrees (obj fs) (response_error i code text details) =
    (has fs (codes "method") ≡ false)
    × (get fs (codes "id") ≡ optional_id_json i)
    × ((es : Fields) × (get fs (codes "error") ≡ obj es)
        × (get es (codes "code") ≡ int code)
        × (get es (codes "message") ≡ str text)
        × (get es (codes "data") ≡ details))
Agrees _ _ = null ≡ bool true

optional_id_json-id_of : (v : JsonValue) → valid_id v ≡ true → v ≡ optional_id_json (id_of v)
unfolding optional_id_json id_of id_json valid_id
optional_id_json-id_of null h = refl
optional_id_json-id_of (int n) h = refl
optional_id_json-id_of (str s) h = refl
optional_id_json-id_of v h = cc

refused-not_accepted : {X : Type 0} {e : EnvelopeError} {m : Message} → refused e ≡ accepted m → X
refused-not_accepted h = ground arith

module _ (fs : Fields) {m : Message} where
  accepted-Agrees : (n : Message) → Agrees (obj fs) n → accepted n ≡ accepted m → Agrees (obj fs) m
  accepted-Agrees n a h = let same : n ≡ m = cc in subst (Agrees (obj fs)) same a

  parse_call-Agrees :
      (b : Bool) (v w : JsonValue)
      → has fs (codes "id") ≡ b
      → get fs (codes "id") ≡ v
      → get fs (codes "method") ≡ w
      → parse_call b v w (get fs (codes "params")) ≡ accepted m
      → Agrees (obj fs) m
  unfolding Agrees parse_call id_of id_json
  parse_call-Agrees true (int n) (str w) p q r h = accepted-Agrees _ (q, r, refl) h
  parse_call-Agrees true (str s) (str w) p q r h = accepted-Agrees _ (q, r, refl) h
  parse_call-Agrees false v (str w) p q r h = accepted-Agrees _ (p, r, refl) h
  parse_call-Agrees true v (str w) p q r h = refused-not_accepted h
  parse_call-Agrees true v w p q r h = refused-not_accepted h
  parse_call-Agrees false v w p q r h = refused-not_accepted h

  parse_result-Agrees :
      (v : JsonValue)
      → get fs (codes "id") ≡ v
      → has fs (codes "method") ≡ false
      → parse_result (id_of v) (get fs (codes "result")) ≡ accepted m
      → Agrees (obj fs) m
  unfolding Agrees parse_result id_of id_json
  parse_result-Agrees (int n) q p h = accepted-Agrees _ (p, q, refl) h
  parse_result-Agrees (str s) q p h = accepted-Agrees _ (p, q, refl) h
  parse_result-Agrees v q p h = refused-not_accepted h

  parse_code-Agrees :
      (i : Option RequestId) (es : Fields) (v w : JsonValue)
      → has fs (codes "method") ≡ false
      → get fs (codes "id") ≡ optional_id_json i
      → get fs (codes "error") ≡ obj es
      → get es (codes "code") ≡ v
      → get es (codes "message") ≡ w
      → parse_code i v w (get es (codes "data")) ≡ accepted m
      → Agrees (obj fs) m
  unfolding Agrees parse_code
  parse_code-Agrees i es (int n) (str s) p q r v w h =
      accepted-Agrees _ (p, q, (es, r, v, w, refl)) h
  parse_code-Agrees i es (int n) y p q r v w h = refused-not_accepted h
  parse_code-Agrees i es x y p q r v w h = refused-not_accepted h

  parse_error-Agrees :
      (i : Option RequestId) (e : JsonValue)
      → get fs (codes "error") ≡ e
      → get fs (codes "id") ≡ optional_id_json i
      → has fs (codes "method") ≡ false
      → parse_error i e ≡ accepted m
      → Agrees (obj fs) m
  unfolding parse_error
  parse_error-Agrees i (obj es) r q p h = ground (arith, parse_code-Agrees i es _ _ p q r refl refl)
  parse_error-Agrees i e r q p h = refused-not_accepted h

  parse_shape-Agrees :
      (has fs (codes "id") ≡ true → valid_id (get fs (codes "id")) ≡ true)
      → parse_shape fs ≡ accepted m
      → Agrees (obj fs) m
  unfolding parse_shape
  parse_shape-Agrees v h = ground (
    arith,
    parse_call-Agrees _ _ _ refl refl refl,
    parse_result-Agrees _ refl,
    parse_error-Agrees (id_of (get fs (codes "id"))) _ refl,
    optional_id_json-id_of (get fs (codes "id")),
  )

  parse_fields-Agrees : parse_fields fs ≡ accepted m → Agrees (obj fs) m
  unfolding parse_fields
  parse_fields-Agrees h = ground (arith, parse_shape-Agrees)

-- An accepted envelope is an object, and the message has the id, the method, the parameters, the
-- result or the error that the object has, by the kind of message that its keys say: a
-- notification only without an id, an answer only without a method, and no message but an error
-- with the id null.
pub parse_message-Agrees :
    (payload : JsonValue) (m : Message) → parse_message payload ≡ accepted m → Agrees payload m
unfolding parse_message
parse_message-Agrees (obj fs) m h = parse_fields-Agrees fs h
parse_message-Agrees payload m h = refused-not_accepted h
