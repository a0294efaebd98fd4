-- ===== src/Security/Trust.antt =====
-- `TrustedPeers` of crates/aetherlink-core/src/security.rs: the store of pinned peers.
pub mod Persist
pub mod Pinning
use aether_link.Base.{
  ℕ, Bool, true, not, ◌||◌, String, string_eq, list_eq, nat_eq, ◌==◌, Option, none, some, List, [],
  ◌∷◌, Result, ok, err, ◌>>=◌, ◌>>◌, ok_or, fail_if, if◌then◌else◌, is_empty, length,
}
use aether_link.Base.Dict
use aether_link.Base.Dict.{Dict}
use aether_link.Base.Int.{ℤ, pos, leb_ℤ, saturating_sub_i64}
use aether_link.Base.Text.{is_blank, str_leb}
use aether_link.Messages.{Bytes}
use aether_link.Security.Crypto.{Crypto}
use aether_link.Security.Errors.{
  SessionAuthError, trust_store_corrupt, empty_device_code, invalid_peer_id, untrusted_peer,
  trusted_peer_mismatch,
}
use aether_link.Security.Hex.{encode_hex, decode_hex}

abbrev pub last_seen_persist_interval_ms : ℤ
last_seen_persist_interval_ms = pos 60000

-- The hexadecimal text is the list of its bytes.
pub record TrustedPeerRecord : Type 0 where
  pub device_code : String
  pub peer_id : String
  pub identity_pubkey_hex : Bytes
  pub first_seen_unix_ms : ℤ
  pub last_seen_unix_ms : ℤ

pub record TrustedPeers : Type 0 where
  pub by_device_code : Dict String TrustedPeerRecord

unfoldable pub empty : TrustedPeers
empty = record { by_device_code = [] }

-- `sort_by` on the device codes.
insert_sorted : TrustedPeerRecord → List TrustedPeerRecord → List TrustedPeerRecord
insert_sorted r [] = r ∷ []
insert_sorted r (x ∷ xs) =
    if str_leb r.device_code x.device_code then r ∷ x ∷ xs else x ∷ insert_sorted r xs

sort_by_device_code : List TrustedPeerRecord → List TrustedPeerRecord
unfolding insert_sorted str_leb
sort_by_device_code [] = []
sort_by_device_code (r ∷ rs) = insert_sorted r (sort_by_device_code rs)

unfoldable pub to_records : TrustedPeers → List TrustedPeerRecord
unfolding sort_by_device_code
to_records t = sort_by_device_code (Dict.values t.by_device_code)

unfoldable pub len : TrustedPeers → ℕ
len t = length t.by_device_code

unfoldable pub is_empty_store : TrustedPeers → Bool
is_empty_store t = is_empty t.by_device_code

module _ (C : Crypto) where
  unfoldable pub parse_peer_id : String → Result SessionAuthError C.PeerId
  parse_peer_id text = ok_or (C.peer_of_string text) (trust_store_corrupt (invalid_peer_id text))

  -- What the loop of `from_records` tests of a record.
  unfoldable pub check_record : TrustedPeerRecord → Result SessionAuthError (Unit {0})
  unfolding parse_peer_id
  check_record r = do
    fail_if (is_blank r.device_code) (trust_store_corrupt empty_device_code)
    parse_peer_id r.peer_id
    decode_hex r.identity_pubkey_hex
    ok tt

  load_records :
      Dict String TrustedPeerRecord
      → List TrustedPeerRecord
      → Result SessionAuthError (Dict String TrustedPeerRecord)
  load_records d [] = ok d
  load_records d (r ∷ rs) = do check_record r; load_records (Dict.insert r.device_code r d) rs

  unfoldable pub from_records : List TrustedPeerRecord → Result SessionAuthError TrustedPeers
  unfolding load_records check_record
  from_records records = do d ← load_records [] records; ok (record { by_device_code = d })

-- A known device code: `existing` is a reference into the map.
touch :
    TrustedPeers
    → String
    → String
    → Bytes
    → ℤ
    → TrustedPeerRecord
    → Result SessionAuthError Bool × TrustedPeers
touch t device_code current_peer_id current_pubkey_hex now existing =
    let changed =
      leb_ℤ last_seen_persist_interval_ms (saturating_sub_i64 now existing.last_seen_unix_ms) in
    if not (existing.peer_id == current_peer_id)
      || not (existing.identity_pubkey_hex == current_pubkey_hex)
    then (err (trusted_peer_mismatch device_code), t)
    else if changed
    then (
      ok changed,
      record t {
        by_device_code =
            Dict.insert device_code (record existing { last_seen_unix_ms = now }) t.by_device_code;
      },
    )
    else (ok changed, t)

abbrev first_record : String → String → Bytes → ℤ → TrustedPeerRecord
first_record device_code peer_id hex now = record {
  device_code = device_code;
  peer_id = peer_id;
  identity_pubkey_hex = hex;
  first_seen_unix_ms = now;
  last_seen_unix_ms = now;
}

-- An unknown one.
first_use :
    TrustedPeers → String → String → Bytes → ℤ → Bool → Result SessionAuthError Bool × TrustedPeers
first_use t device_code current_peer_id current_pubkey_hex now trust_on_first_use =
    if not trust_on_first_use then (err (untrusted_peer device_code), t) else (
      ok true,
      record t {
        by_device_code =
            Dict.insert device_code
              (first_record device_code current_peer_id current_pubkey_hex now) t.by_device_code;
      },
    )

pin :
    Option TrustedPeerRecord
    → TrustedPeers
    → String
    → String
    → Bytes
    → ℤ
    → Bool
    → Result SessionAuthError Bool × TrustedPeers
unfolding touch first_use
pin (some existing) t code peer hex now tofu = touch t code peer hex now existing
pin none t code peer hex now tofu = first_use t code peer hex now tofu

unfoldable pub ensure_trusted :
    (C : Crypto)
    → TrustedPeers
    → String
    → C.PeerId
    → Bytes
    → ℤ
    → Bool
    → Result SessionAuthError Bool × TrustedPeers
unfolding pin
ensure_trusted C t device_code peer_id identity_pubkey now trust_on_first_use =
    pin (Dict.lookup device_code t.by_device_code) t device_code (C.peer_to_string peer_id)
      (encode_hex identity_pubkey) now trust_on_first_use
