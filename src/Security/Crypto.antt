-- ===== src/Security/Crypto.antt =====
-- What the code takes from libp2p's identities and from `prost`: the keys, the peer ids, their texts and
-- bytes, signatures, and the wire form of the two signed messages. None of it is code of the repository.
use aether_link.Base.{◌≡◌, Bool, true, String, Option, some}
use aether_link.Messages.{Bytes, SessionRequest, SessionAccept}

pub record Crypto : Type 1 where
  pub PeerId : Type 0
  pub PublicKey : Type 0
  pub Keypair : Type 0
  -- `to_string`, `parse::<PeerId>().ok()`, `to_bytes`, `PeerId::from_bytes(..).ok()`
  pub peer_to_string : PeerId → String
  pub peer_of_string : String → Option PeerId
  pub peer_to_bytes : PeerId → Bytes
  pub peer_of_bytes : Bytes → Option PeerId
  -- `PeerId::from_public_key`
  pub peer_of_key : PublicKey → PeerId
  -- `encode_protobuf`, `PublicKey::try_decode_protobuf(..).ok()`
  pub encode_key : PublicKey → Bytes
  pub decode_key : Bytes → Option PublicKey
  -- `Keypair::public`, `Keypair::sign(..).ok()`, `PublicKey::verify(message, signature)`
  pub public_key : Keypair → PublicKey
  pub sign : Keypair → Bytes → Option Bytes
  pub verify : PublicKey → Bytes → Bytes → Bool
  -- `Message::encode_to_vec`
  pub encode_request : SessionRequest → Bytes
  pub encode_accept : SessionAccept → Bytes

-- The documented behaviour that theorems name.
pub record IsLawful (C : Crypto) : Type 0 where
  -- A peer id reads back from its text and from its bytes.
  pub peer_of_string-peer_to_string :
      (p : C.PeerId) → C.peer_of_string (C.peer_to_string p) ≡ some p
  pub peer_of_bytes-peer_to_bytes : (p : C.PeerId) → C.peer_of_bytes (C.peer_to_bytes p) ≡ some p
  pub decode_key-encode_key : (k : C.PublicKey) → C.decode_key (C.encode_key k) ≡ some k
  -- A signature verifies under the signer's key.
  pub verify-sign :
      (k : C.Keypair) (m s : Bytes) → C.sign k m ≡ some s → C.verify (C.public_key k) m s ≡ true
