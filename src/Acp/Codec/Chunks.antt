-- ===== src/Acp/Codec/Chunks.antt =====
-- Bytes that arrive in chunks, each fed and drained before the next.
use drei.Base.{
  arith, ℕ, ◌≡◌, ◌∙◌, refl, sym, List, [], ◌∷◌, ◌++◌, append_assoc, length, length-append, Option,
  none, ◌==◌, Bool-cases, inl, inr,
}
use drei.Acp.Json.{JsonValue}
use drei.Acp.Codec.{DecodeResult, JsonRpcDecoder, new_decoder, newline_index, feed, messages}
use drei.Acp.Codec.Bytes.{read_bytes, read_bytes-unfinished, drain-read_bytes}

unfoldable pub joined : List (List ℕ) → List ℕ
joined [] = []
joined (chunk ∷ chunks) = chunk ++ joined chunks

module _ (loads : List ℕ → Option JsonValue) where
  -- feed, then messages, for each chunk in turn.
  unfoldable pub receive : JsonRpcDecoder → List (List ℕ) → JsonRpcDecoder × List DecodeResult
  unfolding feed messages
  receive decoder [] = (decoder, [])
  receive decoder (chunk ∷ chunks) =
      let (drained, out) = messages loads (feed decoder chunk) in
      let (last, outs) = receive drained chunks in (last, out ++ outs)

  pub read_bytes-append :
      (line xs ys : List ℕ)
      → read_bytes loads line (xs ++ ys) ≡ (
        (read_bytes loads line xs).0 ++ (read_bytes loads (read_bytes loads line xs).1 ys).0,
        (read_bytes loads (read_bytes loads line xs).1 ys).1,
      )
  unfolding read_bytes
  read_bytes-append line [] ys = refl
  read_bytes-append line (c ∷ xs) ys = elim (Bool-cases (c == 10)) [
    | inl e ↦ rw (e, read_bytes-append [] xs ys, append_assoc)
    | inr e ↦ rw (e, read_bytes-append (line ++ c ∷ []) xs ys)
  ]

  pub receive-read_bytes :
      (line : List ℕ) (chunks : List (List ℕ))
      → newline_index line ≡ none
      → receive (record { buffer = line }) chunks ≡ (
        record { buffer = (read_bytes loads line (joined chunks)).1 },
        (read_bytes loads line (joined chunks)).0,
      )
  unfolding receive joined read_bytes feed messages
  receive-read_bytes line [] h = refl
  receive-read_bytes line (chunk ∷ chunks) h = rw (
    drain-read_bytes loads (length (line ++ chunk)) line chunk h
        (ground (arith, length-append line chunk)),
    read_bytes-append line chunk (joined chunks),
    receive-read_bytes (read_bytes loads line chunk).1 chunks
        (read_bytes-unfinished loads line chunk h),
  )

  -- Draining leaves no complete line behind: the loop has turns enough for every newline, and what
  -- it returns is what a reading of the buffer byte by byte returns.
  pub messages-read_bytes :
      (decoder : JsonRpcDecoder)
      → (messages loads decoder ≡ (
        record { buffer = (read_bytes loads [] decoder.buffer).1 },
        (read_bytes loads [] decoder.buffer).0,
      ))
        × (newline_index (messages loads decoder).0.buffer ≡ none)
  unfolding messages newline_index
  messages-read_bytes decoder =
      rw (drain-read_bytes loads (length decoder.buffer) [] decoder.buffer refl (omega arith))
        (refl, read_bytes-unfinished loads [] decoder.buffer refl)

  -- However the bytes are cut into chunks, the results and the unfinished line are those of one
  -- drain of all the bytes at once.
  pub receive-joined :
      (chunks : List (List ℕ))
      → receive new_decoder chunks ≡ messages loads (feed new_decoder (joined chunks))
  unfolding newline_index feed
  receive-joined chunks =
      receive-read_bytes [] chunks refl
      ∙ sym (messages-read_bytes (feed new_decoder (joined chunks))).0
