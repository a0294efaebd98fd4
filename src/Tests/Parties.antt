-- ===== src/Tests/Parties.antt =====
-- Two parties with toy keys, to run the session code with. A signature is the signer's number before the
-- message.
use aether_link.Base.{
  ℕ, ◌≡◌, ◌≢◌, sym, refl, true, String, string_eq, list_eq, nat_eq, Eq, ◌==◌, Option, none, some,
  [], ◌∷◌, if◌then◌else◌, arith,
}
use aether_link.Messages.{Bytes}
use aether_link.Security.Crypto.{Crypto, IsLawful}

pub data Party : Type 0 where
  alice : Party
  bob : Party

abbrev pub number : Party → ℕ
number alice = 1
number bob = 2

pub apart : alice ≢ bob
apart h = cc

abbrev party_dec : Discrete Party
party_dec alice alice = yes refl
party_dec alice bob = no apart
party_dec bob alice = no (λ h. apart (sym h))
party_dec bob bob = yes refl

instance unfoldable pub party_eq : Eq Party
party_eq = record { dec = party_dec }

abbrev pub name : Party → String
name alice = "alice"
name bob = "bob"

abbrev of_name : String → Option Party
of_name s = if s == "alice" then some alice else if s == "bob" then some bob else none

abbrev pub bytes_of : Party → Bytes
bytes_of p = number p ∷ []

abbrev pub of_bytes : Bytes → Option Party
of_bytes bs =
    if bs == bytes_of alice then some alice else if bs == bytes_of bob then some bob else none

abbrev pub toy : Crypto
toy = record {
  PeerId = Party;
  PublicKey = Party;
  Keypair = Party;
  peer_to_string = name;
  peer_of_string = of_name;
  peer_to_bytes = bytes_of;
  peer_of_bytes = of_bytes;
  peer_of_key = λ k. k;
  encode_key = bytes_of;
  decode_key = of_bytes;
  public_key = λ k. k;
  sign = λ k m. some (number k ∷ m);
  verify = λ k m s. s == number k ∷ m;
  encode_request = λ r. r.nonce;
  encode_accept = λ a. a.nonce;
}

name_back : (p : Party) → of_name (name p) ≡ some p
unfolding string_eq
name_back alice = refl
name_back bob = refl

bytes_back : (p : Party) → of_bytes (bytes_of p) ≡ some p
unfolding list_eq nat_eq
bytes_back alice = refl
bytes_back bob = refl

signed :
    (k : Party) (m s : Bytes)
    → ◌≡◌ {A = Option Bytes} (some (number k ∷ m)) (some s)
    → (s == number k ∷ m) ≡ true
signed k m s h = ground arith

pub toy-IsLawful : IsLawful toy
toy-IsLawful = record {
  peer_of_string-peer_to_string = name_back;
  peer_of_bytes-peer_to_bytes = bytes_back;
  decode_key-encode_key = bytes_back;
  verify-sign = signed;
}
