-- ===== src/Node/Files.antt =====
-- The files of apps/aetherlink-node/src/main.rs: the identity key and the trusted peers.
pub mod Disk
pub mod Atomic
pub mod Kept
use aether_link.Base.{ℕ, Bool, true, false, Option, none, some, List, Result, ok, err}
use aether_link.Messages.{Bytes}
use aether_link.Security.Crypto.{Crypto}
use aether_link.Security.Errors.{SessionAuthError}
use aether_link.Security.Trust.{TrustedPeerRecord, TrustedPeers, empty, to_records, from_records}
use Disk.{FilePath, with_extension, exists, read, create_dir_all, write, set_permissions, rename}

pub data FileFault : Type 0 where
  create_parent_failed : FileFault
  write_temp_failed : FileFault
  rename_temp_failed : FileFault
  set_mode_failed : FileFault
  read_failed : FileFault
  undecodable_identity : FileFault
  unencodable_identity : FileFault
  unparsed_trust_file : FileFault
  unserializable_trust_file : FileFault
  undecodable_peers : SessionAuthError → FileFault

-- What an operation on files gives, beside the disk.
abbrev pub Done : Type 0
Done = Result FileFault (Unit {0}) × Disk.Disk

-- `operation.context(fault)?` and what follows it.
and_then : FileFault → Bool × Disk.Disk → (Disk.Disk → Done) → Done
and_then fault (true, d) rest = rest d
and_then fault (false, d) rest = (err fault, d)

-- On Unix.
set_restrictive_permissions : FilePath → Disk.Disk → Done
unfolding and_then
set_restrictive_permissions p d = and_then set_mode_failed (set_permissions p d) (λ d'. (ok tt, d'))

renamed : FilePath → FilePath → Disk.Disk → Done
unfolding and_then set_restrictive_permissions
renamed tmp p d = and_then rename_temp_failed (rename tmp p d) (set_restrictive_permissions p)

-- `write_atomic` from the temporary file's mode on.
restricted : FilePath → FilePath → Disk.Disk → Done
unfolding renamed
restricted tmp p d = and_then set_mode_failed (set_permissions tmp d) (renamed tmp p)

written : FilePath → FilePath → Bytes → Disk.Disk → Done
unfolding restricted
written tmp p bytes d = and_then write_temp_failed (write tmp bytes d) (restricted tmp p)

unfoldable pub write_atomic : FilePath → Bytes → Disk.Disk → Done
unfolding written
write_atomic p bytes d =
    and_then create_parent_failed (create_dir_all d) (written (with_extension "tmp" p) p bytes)

-- What `serde_json` and libp2p supply: the trust file's version and records as bytes, and the key pairs.
pub record Encoding (C : Crypto) : Type 0 where
  pub encode_store : ℕ → List TrustedPeerRecord → Option Bytes
  pub decode_store : Bytes → Option (ℕ × List TrustedPeerRecord)
  pub encode_keypair : C.Keypair → Option Bytes
  pub decode_keypair : Bytes → Option C.Keypair

module _ (C : Crypto) (J : Encoding C) where
  save_encoded : FilePath → Option Bytes → Disk.Disk → Done
  save_encoded p none d = (err unserializable_trust_file, d)
  save_encoded p (some json) d = write_atomic p json d

  unfoldable pub save_trusted_peers : FilePath → TrustedPeers → Disk.Disk → Done
  unfolding save_encoded
  save_trusted_peers p t d = save_encoded p (J.encode_store 1 (to_records t)) d

  loaded : Result SessionAuthError TrustedPeers → Result FileFault TrustedPeers
  loaded (ok t) = ok t
  loaded (err x) = err (undecodable_peers x)

  parsed : Option (ℕ × List TrustedPeerRecord) → Result FileFault TrustedPeers
  unfolding loaded
  parsed none = err unparsed_trust_file
  parsed (some (version, peers)) = loaded (from_records C peers)

  parse_trust : Option Bytes → Result FileFault TrustedPeers
  unfolding parsed
  parse_trust none = err read_failed
  parse_trust (some bytes) = parsed (J.decode_store bytes)

  load_if : FilePath → Bool × Disk.Disk → Result FileFault TrustedPeers × Disk.Disk
  unfolding parse_trust
  load_if p (false, d) = (ok empty, d)
  load_if p (true, d) = let (bytes, d') = read p d in (parse_trust bytes, d')

  unfoldable pub load_trusted_peers :
      FilePath → Disk.Disk → Result FileFault TrustedPeers × Disk.Disk
  unfolding load_if
  load_trusted_peers p d = load_if p (exists p d)

  decoded : Option C.Keypair → Result FileFault C.Keypair
  decoded none = err undecodable_identity
  decoded (some key) = ok key

  parse_key : Option Bytes → Result FileFault C.Keypair
  unfolding decoded
  parse_key none = err read_failed
  parse_key (some bytes) = decoded (J.decode_keypair bytes)

  kept_if : C.Keypair → Done → Result FileFault C.Keypair × Disk.Disk
  kept_if key (ok _, d) = (ok key, d)
  kept_if key (err x, d) = (err x, d)

  -- The mode is set once more after `write_atomic`.
  secured : FilePath → Done → Done
  unfolding set_restrictive_permissions
  secured p (ok _, d) = set_restrictive_permissions p d
  secured p (err x, d) = (err x, d)

  create_key :
      FilePath → C.Keypair → Option Bytes → Disk.Disk → Result FileFault C.Keypair × Disk.Disk
  unfolding kept_if secured
  create_key p key none d = (err unencodable_identity, d)
  create_key p key (some encoded) d = kept_if key (secured p (write_atomic p encoded d))

  load_or_create : FilePath → C.Keypair → Bool × Disk.Disk → Result FileFault C.Keypair × Disk.Disk
  unfolding parse_key create_key
  load_or_create p fresh (true, d) = let (bytes, d') = read p d in (parse_key bytes, d')
  load_or_create p fresh (false, d) = create_key p fresh (J.encode_keypair fresh) d

  -- `fresh` is the key that `generate_ed25519` would give.
  unfoldable pub load_or_create_identity_key :
      FilePath → C.Keypair → Disk.Disk → Result FileFault C.Keypair × Disk.Disk
  unfolding load_or_create
  load_or_create_identity_key p fresh d = load_or_create p fresh (exists p d)
