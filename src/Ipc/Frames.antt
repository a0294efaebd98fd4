-- ===== src/Ipc/Frames.antt =====
-- What one side of the IPC socket writes, the other reads.
use aether_link.Base.{
  ℕ, zero, suc, ◌%◌, ◌^◌, ◌<◌, ◌≡◌, refl, sym, ap, ◌∙◌, List, [], ◌∷◌, ◌++◌, Option, some, ok,
  nat_eq, length, All, arith, subst, ◌>>=◌,
}
use aether_link.Messages.{Bytes}
use aether_link.Ipc.{
  to_be_bytes, from_be_bytes, read_exact, read_payload, read_frame, write_frame, send_request,
  read_frames, read_envelope, decode_payload,
}

from_be_bytes-to_be_bytes : (n : ℕ) → n < 2 ^ 32 → from_be_bytes (to_be_bytes n) ≡ n
unfolding from_be_bytes to_be_bytes
from_be_bytes-to_be_bytes n h = omega arith

read_exact-append : (xs ys : Bytes) → read_exact (length xs) (xs ++ ys) ≡ some (xs, ys)
unfolding read_exact
read_exact-append [] ys = refl
read_exact-append (x ∷ xs) ys = ground (arith, read_exact-append xs ys)

read_payload-append :
    (p rest : Bytes) → 0 < length p → read_payload (length p) (p ++ rest) ≡ ok (some (p, rest))
unfolding read_payload
read_payload-append p rest some_byte = ground (arith, read_exact-append p rest)

-- A frame with this length and payload.
read_frame-frame :
    (p rest : Bytes)
    → 0 < length p
    → length p < 2 ^ 32
    → read_frame ((to_be_bytes (length p) ++ p) ++ rest) ≡ ok (some (p, rest))
unfolding read_frame read_exact to_be_bytes from_be_bytes
read_frame-frame p rest some_byte fits =
    subst (λ n. read_payload n (p ++ rest) ≡ ok (some (p, rest)))
      (sym (from_be_bytes-to_be_bytes (length p) fits)) (read_payload-append p rest some_byte)

-- What the client sends of an encoded request that is not empty, if it sends it, the daemon reads back, with
-- what follows left.
read_frame-send_request :
    (bytes rest sent : Bytes)
    → 0 < length bytes
    → send_request bytes ≡ ok sent
    → read_frame (sent ++ rest) ≡ ok (some (bytes, rest))
unfolding send_request
read_frame-send_request bytes rest sent some_byte h =
    let fits : length bytes < 2 ^ 32 = ground arith in
    let same : (to_be_bytes (length bytes) ++ bytes) ≡ sent = ground arith in
    subst (λ x. read_frame (x ++ rest) ≡ ok (some (bytes, rest))) same
      (read_frame-frame bytes rest some_byte fits)

-- The client's frame is the daemon's.
pub write_frame-send_request :
    (bytes sent : Bytes) → send_request bytes ≡ ok sent → write_frame bytes ≡ sent
unfolding send_request write_frame
write_frame-send_request bytes sent h =
    let fits : length bytes < 2 ^ 32 = ground arith in
    let same : (to_be_bytes (length bytes) ++ bytes) ≡ sent = ground arith in
    let len : length bytes % 2 ^ 32 ≡ length bytes = omega (arith, fits) in
    ap (λ n. to_be_bytes n ++ bytes) len ∙ same

-- A payload that a frame can hold.
abbrev pub IsPayload : Bytes → Type 0
IsPayload p = (0 < length p) × (length p < 2 ^ 32)

pub read_frame-write_frame :
    (p rest : Bytes) → IsPayload p → read_frame (write_frame p ++ rest) ≡ ok (some (p, rest))
unfolding write_frame
read_frame-write_frame p rest h =
    subst (λ n. read_frame ((to_be_bytes n ++ p) ++ rest) ≡ ok (some (p, rest))) (omega arith)
      (read_frame-frame p rest h.0 h.1)

-- The payloads as the daemon writes them, one after the other.
abbrev pub write_frames : List Bytes → Bytes
write_frames [] = []
write_frames (p ∷ ps) = write_frame p ++ write_frames ps

-- Payloads of at least one and less than 2^32 bytes, written one after the other, are read back in order, with
-- fuel for one more.
read_frames-write_frames :
    (ps : List Bytes) (fuel : ℕ)
    → All IsPayload ps
    → length ps < fuel
    → read_frames fuel (write_frames ps) ≡ ok ps
unfolding read_frames
read_frames-write_frames [] zero h enough = elim enough [ ]
read_frames-write_frames (p ∷ ps) zero h enough = elim enough [ ]
read_frames-write_frames [] (suc fuel) h enough = refl
read_frames-write_frames (p ∷ ps) (suc fuel) (h, hs) enough = ground (
  arith,
  read_frame-write_frame p (write_frames ps) h,
  read_frames-write_frames ps fuel hs (omega arith),
)

-- An envelope that reads back from its bytes, written by the daemon, is what the client reads.
pub read_envelope-write_frame :
    {E : Type 0} (encode : E → Bytes) (decode : Bytes → Option E) (e : E) (rest : Bytes)
    → decode (encode e) ≡ some e
    → IsPayload (encode e)
    → read_envelope decode (write_frame (encode e) ++ rest) ≡ ok (some (e, rest))
unfolding read_envelope write_frame read_exact to_be_bytes from_be_bytes decode_payload
read_envelope-write_frame encode decode e rest back h =
    let p = encode e in
    let len_back : from_be_bytes (to_be_bytes (length p % 2 ^ 32)) ≡ length p =
      omega (arith, h.0, h.1) in
    subst (λ n. (read_payload n (p ++ rest) >>= decode_payload decode) ≡ ok (some (e, rest)))
      (sym len_back) (ground (arith, read_payload-append p rest h.0, back))
