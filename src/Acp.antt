-- ===== src/Acp.antt =====
-- The ACP client, package drei/acp: JSON values, the envelopes and their framing, the client's state
-- machine and its effects, and the transcript fold.
pub mod Json
pub mod Effects
pub mod Format
pub mod Transcript
pub mod Ids
pub mod Messages
pub mod Codec
pub mod Machine
mod Examples
