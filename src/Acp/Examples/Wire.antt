-- ===== src/Acp/Examples/Wire.antt =====
-- Messages on the wire.
use drei.Base.{ℕ, ◌≡◌, refl, Str, codes, List, [], ◌∷◌, Option, none, some}
use drei.Acp.Json.{JsonValue}
use drei.Acp.Messages.{accepted, to_json, parse_message}
use drei.Acp.Messages.RoundTrip.{parse_message-to_json}
use drei.Acp.Messages.Sound.{Agrees, parse_message-Agrees}
use drei.Acp.Codec.{new_decoder, newline_index, is_blank, feed, messages}
use drei.Acp.Codec.Bytes.{read_bytes}
use drei.Acp.Codec.Chunks.{joined, receive, messages-read_bytes, receive-joined}
use drei.Acp.Codec.Delivery.{IsReadable, IsReadableMessage, written, frames, receive-written}
use drei.Acp.Examples.{asking}

parse_message-to_json_example : parse_message (to_json asking) ≡ accepted asking
parse_message-to_json_example = parse_message-to_json asking

parse_message-Agrees_example : Agrees (to_json asking) asking
parse_message-Agrees_example =
    parse_message-Agrees (to_json asking) asking (parse_message-to_json asking)

-- The text of one value, and its bytes.
abbrev text : Str
text = codes "[1]"

abbrev dumps : JsonValue → Str
dumps _ = text

abbrev utf_8 : Str → List ℕ
utf_8 s = s

abbrev loads : List ℕ → Option JsonValue
loads _ = some (to_json asking)

messages-read_bytes_example :
    (messages loads (record { buffer = codes "ab\n\ncd" }) ≡ (
      record { buffer = (read_bytes loads [] (codes "ab\n\ncd")).1 },
      (read_bytes loads [] (codes "ab\n\ncd")).0,
    ))
    × (newline_index (messages loads (record { buffer = codes "ab\n\ncd" })).0.buffer ≡ none)
messages-read_bytes_example = messages-read_bytes loads (record { buffer = codes "ab\n\ncd" })

receive-joined_example :
    receive loads new_decoder (codes "[1" ∷ codes "]\n[" ∷ codes "1]\n" ∷ [])
    ≡ messages loads (feed new_decoder (joined (codes "[1" ∷ codes "]\n[" ∷ codes "1]\n" ∷ [])))
receive-joined_example = receive-joined loads (codes "[1" ∷ codes "]\n[" ∷ codes "1]\n" ∷ [])

asking-IsReadable : IsReadable dumps utf_8 loads (to_json asking)
unfolding newline_index is_blank
asking-IsReadable = record { terminated = refl; single = refl; solid = refl; read = refl }

receive-written_example :
    receive loads new_decoder (codes "[1" ∷ codes "]\n[" ∷ codes "1]\n" ∷ [])
    ≡ (new_decoder, frames dumps utf_8 loads (asking ∷ asking ∷ []))
unfolding joined written IsReadableMessage
receive-written_example =
    receive-written dumps utf_8 loads (asking ∷ asking ∷ [])
      (codes "[1" ∷ codes "]\n[" ∷ codes "1]\n" ∷ []) (asking-IsReadable, (asking-IsReadable, _))
      refl
