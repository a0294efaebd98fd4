-- ===== src/Ipc.antt =====
-- The frames between apps/aetherlink-daemon/src/main.rs and apps/aetherlink-daemonctl/src/main.rs. A stream is
-- the bytes that are still to be read, or those written; the other failures of reading and writing are not
-- modelled. A frame is the length of its payload in four bytes, the highest first, then the payload.
pub mod Frames
use aether_link.Base.{
  ℕ, zero, suc, ◌+◌, ◌*◌, ◌/◌, ◌%◌, ◌^◌, List, [], ◌∷◌, ◌++◌, Option, none, some, Result, ok, err,
  ltb, ◌==◌, nat_eq, if◌then◌else◌, length, ok_or, ◌>>=◌,
}
use aether_link.Messages.{Bytes}

pub data IpcError : Type 0 where
  payload_cut : IpcError
  request_too_large : IpcError
  decode_failed : IpcError

-- `u32::to_be_bytes` and `u32::from_be_bytes`, of four bytes.
to_be_bytes : ℕ → Bytes
to_be_bytes n = n / 2 ^ 24 % 256 ∷ n / 2 ^ 16 % 256 ∷ n / 2 ^ 8 % 256 ∷ n % 256 ∷ []

from_be_bytes : Bytes → ℕ
from_be_bytes (a ∷ b ∷ c ∷ d ∷ []) = a * 2 ^ 24 + b * 2 ^ 16 + c * 2 ^ 8 + d
from_be_bytes _ = 0

-- `read_exact`: the bytes and what is left, or an end of the stream before them.
read_exact : ℕ → Bytes → Option (Bytes × Bytes)
read_exact zero s = some ([], s)
read_exact (suc n) [] = none
read_exact (suc n) (b ∷ s) = elim (read_exact n s) [
  | none ↦ none
  | some (taken, rest) ↦ some (b ∷ taken, rest)
]

-- The payload after a length.
read_payload : ℕ → Bytes → Result IpcError (Option (Bytes × Bytes))
unfolding read_exact
read_payload len s =
    if len == 0
    then ok none
    else elim (read_exact len s) [ none ↦ err payload_cut | some frame ↦ ok (some frame) ]

-- The daemon's: the payload and what is left.
unfoldable pub read_frame : Bytes → Result IpcError (Option (Bytes × Bytes))
unfolding read_exact read_payload from_be_bytes
read_frame s = elim (read_exact 4 s) [
  | none ↦ ok none
  | some (len_buf, rest) ↦ read_payload (from_be_bytes len_buf) rest
]

-- The daemon's: `payload.len() as u32`.
unfoldable pub write_frame : Bytes → Bytes
unfolding to_be_bytes
write_frame payload = to_be_bytes (length payload % 2 ^ 32) ++ payload

-- The client's, of the encoded request: `u32::try_from`.
unfoldable pub send_request : Bytes → Result IpcError Bytes
unfolding to_be_bytes
send_request bytes =
    if ltb (length bytes) (2 ^ 32)
    then ok (to_be_bytes (length bytes) ++ bytes)
    else err request_too_large

-- The envelope of a payload.
decode_payload :
    {E : Type 0}
    → (Bytes → Option E)
    → Option (Bytes × Bytes)
    → Result IpcError (Option (E × Bytes))
decode_payload decode none = ok none
decode_payload decode (some (payload, rest)) =
    ok_or (decode payload) decode_failed >>= λ envelope. ok (some (envelope, rest))

-- The client's: the envelope and what is left; `decode` is `IpcEnvelope::decode(..).ok()`.
unfoldable pub read_envelope :
    {E : Type 0} → (Bytes → Option E) → Bytes → Result IpcError (Option (E × Bytes))
unfolding read_exact read_payload from_be_bytes decode_payload
read_envelope decode s = elim (read_exact 4 s) [
  | none ↦ ok none
  | some (len_buf, rest) ↦ do
    frame ← read_payload (from_be_bytes len_buf) rest
    decode_payload decode frame
]

-- `while let Some(payload) = read_frame(..).await?` of `handle_client`: the payloads of a stream. Each round
-- takes a frame off, so as much fuel as there are frames, and one more, is enough.
unfoldable pub read_frames : ℕ → Bytes → Result IpcError (List Bytes)
unfolding read_frame
read_frames zero s = ok []
read_frames (suc fuel) s = read_frame s >>= elim [
  | none ↦ ok []
  | some (payload, rest) ↦ read_frames fuel rest >>= λ payloads. ok (payload ∷ payloads)
]
