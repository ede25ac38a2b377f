-- ===== src/Acp/Codec/Delivery.antt =====
-- Messages written to the wire by one peer and read off it by the other.
use drei.Base.{ℕ, ◌≡◌, refl, false, List, [], ◌∷◌, ◌++◌, append_assoc, Option, none, some, Str, All}
use drei.Acp.Json.{JsonValue}
use drei.Acp.Messages.{Message, to_json}
use drei.Acp.Codec.{
  DecodeResult, decoded_frame, new_decoder, newline_index, is_blank, encode, decode_line,
}
use drei.Acp.Codec.Bytes.{read_bytes, read_bytes-line}
use drei.Acp.Codec.Chunks.{joined, receive, receive-read_bytes}

module _ (dumps : JsonValue → Str) (utf_8 : Str → List ℕ) (loads : List ℕ → Option JsonValue) where
  -- What `json` documents of its compact text: it is one line, it is not blank, its newline is
  -- encoded as the byte 10, and `loads` reads the value back.
  pub record IsReadable (value : JsonValue) : Type 0 where
    pub terminated : utf_8 (dumps value ++ 10 ∷ []) ≡ utf_8 (dumps value) ++ 10 ∷ []
    pub single : newline_index (utf_8 (dumps value)) ≡ none
    pub solid : is_blank (utf_8 (dumps value)) ≡ false
    pub read : loads (utf_8 (dumps value)) ≡ some value

  unfoldable pub IsReadableMessage : Message → Type 0
  unfolding to_json
  IsReadableMessage m = IsReadable (to_json m)

  -- The frames of the messages, one after the other.
  unfoldable pub written : List Message → List ℕ
  unfolding encode to_json
  written [] = []
  written (m ∷ ms) = encode dumps utf_8 (to_json m) ++ written ms

  unfoldable pub frames : List Message → List DecodeResult
  unfolding to_json
  frames [] = []
  frames (m ∷ ms) = decoded_frame (to_json m) ∷ frames ms

  decode_line-IsReadable :
      (v : JsonValue) → IsReadable v → decode_line loads (utf_8 (dumps v)) ≡ decoded_frame v ∷ []
  unfolding decode_line
  decode_line-IsReadable v r = rw (r.solid, r.read)

  read_bytes-written :
      (ms : List Message)
      → All IsReadableMessage ms
      → read_bytes loads [] (written ms) ≡ (frames ms, [])
  unfolding read_bytes written encode frames IsReadableMessage
  read_bytes-written [] h = refl
  read_bytes-written (m ∷ ms) (r, h) =
      let line = utf_8 (dumps (to_json m)) in
      rw (
        r.terminated,
        append_assoc line (10 ∷ []) (written ms),
        read_bytes-line loads line (written ms) r.single,
        decode_line-IsReadable (to_json m) r,
        read_bytes-written ms h,
      )

  -- However the bytes of the messages' frames are cut into chunks, a fresh decoder returns the
  -- messages' values in order, and nothing is left in its buffer, provided that `json` writes each
  -- message as one line that it can read.
  pub receive-written :
      (ms : List Message) (chunks : List (List ℕ))
      → All IsReadableMessage ms
      → joined chunks ≡ written ms
      → receive loads new_decoder chunks ≡ (new_decoder, frames ms)
  unfolding newline_index
  receive-written ms chunks h e =
      rw (receive-read_bytes loads [] chunks refl, e, read_bytes-written ms h)
