-- ===== src/Security/Hex.antt =====
-- `encode_hex` and `decode_hex` of crates/aetherlink-core/src/security.rs. A text that the code walks is
-- the list of its bytes.
use aether_link.Base.{
  ℕ, ◌+◌, ◌-◌, ◌*◌, ◌/◌, ◌%◌, ◌<◌, ◌≡◌, refl, ◌&&◌, [], ◌∷◌, arith, leb, if◌then◌else◌, length, All,
  Result, ok, err, ◌>>=◌, ◌==◌, nat_eq, map, subst, bind-eq-ok, ok_injective,
}
use aether_link.Messages.{Bytes}
use aether_link.Security.Errors.{
  SessionAuthError, trust_store_corrupt, odd_hex_length, invalid_hex_char,
}

unfoldable pub hex_nibble_to_char : ℕ → ℕ
hex_nibble_to_char v =
    if leb v 9 then b'0' + v else if leb 10 v && leb v 15 then b'a' + (v - 10) else b'0'

unfoldable pub char_to_hex_nibble : ℕ → Result SessionAuthError ℕ
char_to_hex_nibble c =
    if leb b'0' c && leb c b'9'
    then ok (c - b'0')
    else if leb b'a' c && leb c b'f'
    then ok (c - b'a' + 10)
    else if leb b'A' c && leb c b'F'
    then ok (c - b'A' + 10)
    else err (trust_store_corrupt (invalid_hex_char c))

unfoldable pub encode_hex : Bytes → Bytes
unfolding hex_nibble_to_char
encode_hex [] = []
encode_hex (b ∷ bs) = hex_nibble_to_char (b / 16) ∷ hex_nibble_to_char (b % 16) ∷ encode_hex bs

-- The loop over `(0..len).step_by(2)`; the last clause is not reached from an even length.
decode_pairs : Bytes → Result SessionAuthError Bytes
unfolding char_to_hex_nibble
decode_pairs (h ∷ l ∷ rest) = do
  hi ← char_to_hex_nibble h
  lo ← char_to_hex_nibble l
  bs ← decode_pairs rest
  ok ((hi * 16 + lo) ∷ bs)
decode_pairs _ = ok []

unfoldable pub decode_hex : Bytes → Result SessionAuthError Bytes
unfolding decode_pairs
decode_hex hex =
    if length hex % 2 == 0 then decode_pairs hex else err (trust_store_corrupt odd_hex_length)

abbrev pub IsByte : ℕ → Type 0
IsByte b = b < 256

nibble_back : (v : ℕ) → v < 16 → char_to_hex_nibble (hex_nibble_to_char v) ≡ ok v
unfolding char_to_hex_nibble hex_nibble_to_char
nibble_back v h = ground arith

length-encode_hex : (bs : Bytes) → length (encode_hex bs) ≡ length bs * 2
unfolding encode_hex
length-encode_hex [] = refl
length-encode_hex (b ∷ bs) = omega (arith, length-encode_hex bs)

decode_pairs-encode_hex : (bs : Bytes) → All IsByte bs → decode_pairs (encode_hex bs) ≡ ok bs
unfolding encode_hex decode_pairs
decode_pairs-encode_hex [] h = refl
decode_pairs-encode_hex (b ∷ bs) (h, hs) =
    rw
      (
        nibble_back (b / 16) (omega arith),
        nibble_back (b % 16) (omega arith),
        decode_pairs-encode_hex bs hs,
      )
      (ground arith)

-- Decoding what was encoded gives the bytes back.
pub decode_hex-encode_hex : (bs : Bytes) → All IsByte bs → decode_hex (encode_hex bs) ≡ ok bs
unfolding decode_hex
decode_hex-encode_hex bs h = ground (arith, length-encode_hex bs, decode_pairs-encode_hex bs h)

-- A capital digit as the small letter that `encode_hex` writes.
abbrev pub to_lower : ℕ → ℕ
to_lower c = if leb b'A' c && leb c b'F' then c + 32 else c

nibble_forth :
    (c v : ℕ) → char_to_hex_nibble c ≡ ok v → (v < 16) × (hex_nibble_to_char v ≡ to_lower c)
unfolding char_to_hex_nibble hex_nibble_to_char
nibble_forth c v h = ground arith

abbrev Reads : Bytes → Bytes → Type 0
Reads hex bs = (encode_hex bs ≡ map to_lower hex) × All IsByte bs

pair-Reads :
    (c d hi lo : ℕ) (rest bs : Bytes)
    → char_to_hex_nibble c ≡ ok hi
    → char_to_hex_nibble d ≡ ok lo
    → Reads rest bs
    → Reads (c ∷ d ∷ rest) ((hi * 16 + lo) ∷ bs)
unfolding encode_hex
pair-Reads c d hi lo rest bs h l (e, all) =
    let high : (hi * 16 + lo) / 16 ≡ hi = omega (arith, nibble_forth d lo l) in
    let low : (hi * 16 + lo) % 16 ≡ lo = omega (arith, nibble_forth d lo l) in
    (
      rw (high, low) (cc (e, (nibble_forth c hi h).1, (nibble_forth d lo l).1)),
      (omega (arith, nibble_forth c hi h, nibble_forth d lo l), all),
    )

decode_pairs-Reads : (hex bs : Bytes) → length hex % 2 ≡ 0 → decode_pairs hex ≡ ok bs → Reads hex bs
unfolding encode_hex decode_pairs
decode_pairs-Reads [] bs even h = subst (Reads []) (ok_injective h) (refl, tt)
decode_pairs-Reads (c ∷ []) bs even h = absurd (omega arith)
decode_pairs-Reads (c ∷ d ∷ rest) bs even h =
    let (hi, eh, h') = bind-eq-ok (char_to_hex_nibble c) _ h in
    let (lo, el, h'') = bind-eq-ok (char_to_hex_nibble d) _ h' in
    let (bs', er, done) = bind-eq-ok (decode_pairs rest) _ h'' in
    subst (Reads (c ∷ d ∷ rest)) (ok_injective done)
      (pair-Reads c d hi lo rest bs' eh el (decode_pairs-Reads rest bs' (omega arith) er))

-- What decodes is the encoding of its bytes, up to the case of the digits.
encode_hex_of_decode_hex :
    (hex bs : Bytes) → decode_hex hex ≡ ok bs → (encode_hex bs ≡ map to_lower hex) × All IsByte bs
unfolding decode_hex
encode_hex_of_decode_hex hex bs h = decode_pairs-Reads hex bs (ground arith) (ground arith)
