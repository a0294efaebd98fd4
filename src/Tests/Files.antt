-- ===== src/Tests/Files.antt =====
-- Runs of the node's files.
use aether_link.Base.{
  ℕ, ◌≡◌, ap, refl, subst, true, false, ◌&&◌, String, string_eq, list_eq, nat_eq, option_eq, Eq,
  ◌==◌, Option, none, some, List, [], ◌∷◌, if◌then◌else◌, ok, is_ok, arith,
}
use aether_link.Base.Dict
use aether_link.Base.Int.{ℤ, pos, negsuc}
use mathlib.Core.Logic.{dite}
use aether_link.Messages.{Bytes}
use aether_link.Security.Hex.{encode_hex}
use aether_link.Security.Trust.{TrustedPeerRecord, TrustedPeers, to_records, ensure_trusted}
use aether_link.Node.Files.{
  Encoding, write_atomic, save_trusted_peers, load_trusted_peers, load_or_create_identity_key,
}
use aether_link.Node.Files.Disk.{
  FilePath, path_eq, with_extension, Disk, works, leaves, create_dir_all, write, set_permissions,
  rename, exists,
}
use aether_link.Node.Files.Atomic.{AllOrNothing, write_atomic-AllOrNothing}
use aether_link.Node.Files.Kept.{
  IsFaithful, load_trusted_peers-save_trusted_peers, identity_is_kept,
}
use aether_link.Tests.Parties.{alice, bob, toy, party_eq, bytes_of, of_bytes, toy-IsLawful}
use aether_link.Tests.Sessions.{alice_pinned}
use aether_link.Tests.Store.{alice_pinned-IsStore}

abbrev key_file : FilePath
key_file = record { parent = "/home"; stem = "device"; extension = some "key" }

apart : (key_file == with_extension "tmp" key_file) ≡ false
unfolding path_eq string_eq option_eq
apart = refl

-- The write of the temporary file breaks off.
abbrev broken : Disk
broken = record {
  files = (key_file, record { content = 5 ∷ []; restricted = true }) ∷ [];
  faults = works ∷ leaves (9 ∷ []) ∷ [];
}

write_atomic-AllOrNothing_example :
    AllOrNothing
      (with_extension "tmp" key_file)
      key_file
      (1 ∷ 2 ∷ [])
      broken
      (write_atomic key_file (1 ∷ 2 ∷ []) broken)
write_atomic-AllOrNothing_example = write_atomic-AllOrNothing key_file (1 ∷ 2 ∷ []) broken apart

abbrev records : List TrustedPeerRecord
records = to_records alice_pinned

int_dec : Discrete ℤ
int_dec (pos m) (pos n) = dite (nat_eq.dec m n) (λ p. yes (ap pos p)) (λ d. no (λ h. d cc))
int_dec (negsuc m) (negsuc n) = dite (nat_eq.dec m n) (λ p. yes (ap negsuc p)) (λ d. no (λ h. d cc))
int_dec (pos m) (negsuc n) = no (λ h. cc)
int_dec (negsuc m) (pos n) = no (λ h. cc)

record_dec : Discrete TrustedPeerRecord
unfolding int_dec
record_dec p q =
    dite (string_eq.dec p.device_code q.device_code)
      (λ a.
        dite (string_eq.dec p.peer_id q.peer_id)
          (λ b.
            dite (list_eq.dec p.identity_pubkey_hex q.identity_pubkey_hex)
              (λ c.
                dite (int_dec p.first_seen_unix_ms q.first_seen_unix_ms)
                  (λ d.
                    dite (int_dec p.last_seen_unix_ms q.last_seen_unix_ms)
                      (λ e. yes (λ i. record {
                        device_code = a i;
                        peer_id = b i;
                        identity_pubkey_hex = c i;
                        first_seen_unix_ms = d i;
                        last_seen_unix_ms = e i;
                      }))
                      (λ n. no (λ h. n (ap (λ x. x.last_seen_unix_ms) h))))
                  (λ n. no (λ h. n (ap (λ x. x.first_seen_unix_ms) h))))
              (λ n. no (λ h. n (ap (λ x. x.identity_pubkey_hex) h))))
          (λ n. no (λ h. n (ap (λ x. x.peer_id) h))))
      (λ n. no (λ h. n (ap (λ x. x.device_code) h)))

instance unfoldable pub record_eq : Eq TrustedPeerRecord
unfolding record_dec int_dec
record_eq = record { dec = record_dec }

-- Only these records have an encoding.
abbrev encode_store : ℕ → List TrustedPeerRecord → Option Bytes
encode_store version rs = if version == 1 && rs == records then some (1 ∷ []) else none

abbrev decode_store : Bytes → Option (ℕ × List TrustedPeerRecord)
decode_store bytes = if bytes == 1 ∷ [] then some (1, records) else none

abbrev pub encoding : Encoding toy
encoding = record {
  encode_store = encode_store;
  decode_store = decode_store;
  encode_keypair = λ k. some (bytes_of k);
  decode_keypair = of_bytes;
}

store_back :
    (version : ℕ) (rs : List TrustedPeerRecord) (bytes : Bytes)
    → encode_store version rs ≡ some bytes
    → decode_store bytes ≡ some (version, rs)
store_back version rs bytes h = ground arith

encoding-IsFaithful : IsFaithful encoding
encoding-IsFaithful = record {
  decode_store-encode_store = store_back;
  decode_keypair-encode_keypair = λ key bytes h.
      let same : bytes_of key ≡ bytes = cc in
      subst (λ b. of_bytes b ≡ some key) same (toy-IsLawful.decode_key-encode_key key);
}

abbrev blank : Disk
blank = record { files = []; faults = [] }

saves : is_ok (save_trusted_peers toy encoding key_file alice_pinned blank).0 ≡ true
unfolding save_trusted_peers write_atomic create_dir_all write set_permissions rename exists path_eq
    string_eq option_eq list_eq nat_eq Dict.lookup Dict.insert Dict.erase Dict.contains_key
    to_records ensure_trusted encode_hex Dict.values record_eq
saves = refl

still : (save_trusted_peers toy encoding key_file alice_pinned blank).1.faults ≡ []
unfolding save_trusted_peers write_atomic create_dir_all write set_permissions rename exists path_eq
    string_eq option_eq list_eq nat_eq Dict.lookup Dict.insert Dict.erase Dict.contains_key
    to_records ensure_trusted encode_hex Dict.values record_eq
still = refl

load_trusted_peers-save_trusted_peers_example :
    let d' = (save_trusted_peers toy encoding key_file alice_pinned blank).1 in
    (t' : TrustedPeers) × (load_trusted_peers toy encoding key_file d' ≡ (ok t', d'))
    × ((j : String) → Dict.lookup j t'.by_device_code ≡ Dict.lookup j alice_pinned.by_device_code)
load_trusted_peers-save_trusted_peers_example =
    load_trusted_peers-save_trusted_peers encoding encoding-IsFaithful key_file alice_pinned blank
      apart alice_pinned-IsStore saves still

creates : (load_or_create_identity_key toy encoding key_file alice blank).0 ≡ ok alice
unfolding load_or_create_identity_key write_atomic create_dir_all write set_permissions rename
    exists path_eq string_eq option_eq list_eq nat_eq Dict.lookup Dict.insert Dict.erase
    Dict.contains_key
creates = refl

stays : (load_or_create_identity_key toy encoding key_file alice blank).1.faults ≡ []
unfolding load_or_create_identity_key write_atomic create_dir_all write set_permissions rename
    exists path_eq string_eq option_eq list_eq nat_eq Dict.lookup Dict.insert Dict.erase
    Dict.contains_key
stays = refl

identity_is_kept_example :
    let d' = (load_or_create_identity_key toy encoding key_file alice blank).1 in
    load_or_create_identity_key toy encoding key_file bob d' ≡ (ok alice, d')
identity_is_kept_example =
    identity_is_kept encoding encoding-IsFaithful key_file alice bob alice blank apart creates stays
