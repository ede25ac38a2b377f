-- ===== src/Acp/Codec.antt =====
-- The framing of the wire, acp/codec.py: bytes are numbers. `json.loads` of a line is a parameter,
-- none for a line on which it raises JSONDecodeError or UnicodeDecodeError, and so are `json.dumps`
-- and the encoding of its text. The other raises of `json.loads`, at the limits on an integer's digits
-- and on the depth, leave the source's decoder and lie outside the parameter.
pub mod Bytes
pub mod Chunks
pub mod Delivery
use drei.Base.{
  ℕ, suc, zero, ◌+◌, ◌≡◌, Bool, true, false, ◌&&◌, ◌||◌, List, [], ◌∷◌, ◌++◌, length, take, drop,
  Option, none, some, Str, ◌==◌, leb, if◌then◌else◌,
}
use drei.Acp.Json.{JsonValue}

pub data DecodeResult : Type 0 where
  decoded_frame : JsonValue → DecodeResult
  decode_failure : List ℕ → DecodeResult

pub record JsonRpcDecoder : Type 0 where
  pub buffer : List ℕ

abbrev pub new_decoder : JsonRpcDecoder
new_decoder = record { buffer = [] }

-- self._buffer.find(b"\n")
unfoldable pub newline_index : List ℕ → Option ℕ
newline_index [] = none
newline_index (c ∷ bs) =
    if c == 10 then some 0 else elim (newline_index bs) [ none ↦ none | some i ↦ some (suc i) ]

-- The ASCII whitespace that `bytes.strip` takes off.
unfoldable pub is_space : ℕ → Bool
is_space c = (leb 9 c && leb c 13) || c == 32

-- not line.strip()
unfoldable pub is_blank : List ℕ → Bool
unfolding is_space
is_blank [] = true
is_blank (c ∷ bs) = is_space c && is_blank bs

unfoldable pub encode : (JsonValue → Str) → (Str → List ℕ) → JsonValue → List ℕ
encode dumps utf_8 message = utf_8 (dumps message ++ 10 ∷ [])

unfoldable pub feed : JsonRpcDecoder → List ℕ → JsonRpcDecoder
feed decoder bytes = record { buffer = decoder.buffer ++ bytes }

module _ (loads : List ℕ → Option JsonValue) where
  -- One complete line: at most one result.
  unfoldable pub decode_line : List ℕ → List DecodeResult
  unfolding is_blank
  decode_line line = if is_blank line then [] else elim (loads line) [
    | none ↦ decode_failure line ∷ []
    | some value ↦ decoded_frame value ∷ []
  ]

  -- The loop: each turn takes a line and its newline off the buffer.
  unfoldable pub drain : ℕ → List ℕ → List DecodeResult × List ℕ
  unfolding newline_index decode_line
  drain zero buffer = ([], buffer)
  drain (suc fuel) buffer = elim (newline_index buffer) [
    | none ↦ ([], buffer)
    | some i ↦
        let (out, rest) = drain fuel (drop (i + 1) buffer) in
        (decode_line (take i buffer) ++ out, rest)
  ]

  unfoldable pub messages : JsonRpcDecoder → JsonRpcDecoder × List DecodeResult
  unfolding drain
  messages decoder =
      let (out, rest) = drain (length decoder.buffer) decoder.buffer in
      (record { buffer = rest }, out)
