-- ===== src/Node/Files/Kept.antt =====
-- What is read from a file is what was written to it.
use aether_link.Base.{
  ℕ, ◌≡◌, ◌∙◌, refl, ap, sym, subst, inl, inr, Bool, true, false, String, string_eq, Option, none,
  some, ◌==◌, List, [], ok, err, is_ok,
}
use aether_link.Base.Dict
use aether_link.Messages.{Bytes}
use aether_link.Security.Crypto.{Crypto}
use aether_link.Security.Trust.{TrustedPeerRecord, TrustedPeers, to_records}
use aether_link.Security.Trust.Persist.{IsStore, from_records-to_records}
use aether_link.Node.Files.Disk.{
  FilePath, path_eq, with_extension, Disk, exists, read, set_permissions,
}
use aether_link.Node.Files.Disk.Effects.{
  file_at, Holds, files-read, read-Holds, calm, Restricts, set_permissions-Restricts,
}
use aether_link.Node.Files.{
  Done, and_then, set_restrictive_permissions, set_mode_failed, write_atomic, Encoding,
  save_encoded, save_trusted_peers, loaded, parsed, parse_trust, load_if, load_trusted_peers,
  decoded, parse_key, kept_if, secured, create_key, load_or_create, load_or_create_identity_key,
}
use aether_link.Node.Files.Atomic.{secret, AllOrNothing, write_atomic-AllOrNothing}

-- The documented behaviour of the encodings: what is encoded decodes.
pub record IsFaithful {C : Crypto} (J : Encoding C) : Type 0 where
  pub decode_store-encode_store :
      (version : ℕ) (records : List TrustedPeerRecord) (bytes : Bytes)
      → J.encode_store version records ≡ some bytes
      → J.decode_store bytes ≡ some (version, records)
  pub decode_keypair-encode_keypair :
      (key : C.Keypair) (bytes : Bytes)
      → J.encode_keypair key ≡ some bytes
      → J.decode_keypair bytes ≡ some key

-- A write that is reported to have worked has.
written-Holds :
    (p : FilePath) (bytes : Bytes) (d : Disk) (x : Done)
    → is_ok x.0 ≡ true
    → AllOrNothing (with_extension "tmp" p) p bytes d x
    → file_at p x.1 ≡ some (secret bytes)
written-Holds p bytes d x done (t, r) = elim r [ inl (same, failed) ↦ absurd cc | inr at ↦ at ]

module _ {C : Crypto} (J : Encoding C) where
  saved-Holds :
      (o : Option Bytes) (p : FilePath) (d : Disk)
      → (p == with_extension "tmp" p) ≡ false
      → is_ok (save_encoded C J p o d).0 ≡ true
      → (json : Bytes) × (o ≡ some json) × Holds p json (save_encoded C J p o d).1
  unfolding save_encoded
  saved-Holds none p d apart done = absurd cc
  saved-Holds (some json) p d apart done = (
    json,
    refl,
    (
      true,
      written-Holds p json d (write_atomic p json d) done
          (write_atomic-AllOrNothing p json d apart),
    ),
  )

  load-Holds :
      (p : FilePath) (json : Bytes) (d : Disk)
      → d.faults ≡ []
      → Holds p json d
      → load_trusted_peers C J p d ≡ (parsed C J (J.decode_store json), d)
  unfolding load_trusted_peers load_if parse_trust
  load-Holds p json d quiet h =
      let (there, reads) = calm p json d quiet h in
      ap (λ x. load_if C J p x) there ∙ ap (λ x. (parse_trust C J x.0, x.1)) reads

  -- Peers that are saved without an error are loaded again, each with the same record for its device code,
  -- as long as no operation on the files fails then. The records must be as `IsStore` says, the encoding must
  -- read back, and the file's extension must not be "tmp".
  pub load_trusted_peers-save_trusted_peers :
      IsFaithful J
      → (p : FilePath) (t : TrustedPeers) (d : Disk) → (p == with_extension "tmp" p) ≡ false
      → IsStore C t
      → is_ok (save_trusted_peers C J p t d).0 ≡ true
      → (save_trusted_peers C J p t d).1.faults ≡ []
      → let d' = (save_trusted_peers C J p t d).1 in
        (t' : TrustedPeers) × (load_trusted_peers C J p d' ≡ (ok t', d'))
        × ((j : String) → Dict.lookup j t'.by_device_code ≡ Dict.lookup j t.by_device_code)
  unfolding save_trusted_peers parsed
  load_trusted_peers-save_trusted_peers faithful p t d apart store done quiet =
      let (json, encodes, holds) = saved-Holds (J.encode_store 1 (to_records t)) p d apart done in
      let (t', loads, same) = from_records-to_records C t store in
      let d' = (save_encoded C J p (J.encode_store 1 (to_records t)) d).1 in
      (
        t',
        load-Holds p json d' quiet holds
            ∙ (ap (λ x. (parsed C J x, d'))
                  (faithful.decode_store-encode_store 1 (to_records t) json encodes)
                ∙ ap (λ r. (loaded C J r, d')) loads),
        same,
      )

  -- What the identity file holds.
  abbrev IsIdentity : FilePath → C.Keypair → Disk → Type 0
  IsIdentity p key d = (bytes : Bytes) × Holds p bytes d × (J.decode_keypair bytes ≡ some key)

  decoded-ok : (o : Option C.Keypair) (key : C.Keypair) → decoded C J o ≡ ok key → o ≡ some key
  unfolding decoded
  decoded-ok none key h = absurd cc
  decoded-ok (some found) key h = cc

  parse_key-ok :
      (o : Option Bytes) (key : C.Keypair)
      → parse_key C J o ≡ ok key
      → (bytes : Bytes) × (o ≡ some bytes) × (J.decode_keypair bytes ≡ some key)
  unfolding parse_key
  parse_key-ok none key h = absurd cc
  parse_key-ok (some bytes) key h = (bytes, refl, decoded-ok (J.decode_keypair bytes) key h)

  kept_if-ok :
      (fresh key : C.Keypair) (x : Done)
      → (kept_if C J fresh x).0 ≡ ok key
      → (is_ok x.0 ≡ true) × (fresh ≡ key) × ((kept_if C J fresh x).1 ≡ x.1)
  unfolding kept_if
  kept_if-ok fresh key (ok u, d) h = (refl, cc, refl)
  kept_if-ok fresh key (err x, d) h = absurd cc

  restricted-Holds :
      (p : FilePath) (bytes : Bytes) (d : Disk) (x : Bool × Disk)
      → Restricts p bytes d x
      → is_ok (and_then set_mode_failed x (λ d'. (ok tt, d'))).0 ≡ true
      → Holds p bytes (and_then set_mode_failed x (λ d'. (ok tt, d'))).1
  unfolding and_then
  restricted-Holds p bytes d (true, d') r done = (true, r.1 refl)
  restricted-Holds p bytes d (false, d') r done = absurd cc

  secured-Holds :
      (p : FilePath) (bytes : Bytes) (d : Disk) (x : Done)
      → AllOrNothing (with_extension "tmp" p) p bytes d x
      → is_ok (secured C J p x).0 ≡ true
      → Holds p bytes (secured C J p x).1
  unfolding secured set_restrictive_permissions
  secured-Holds p bytes d (ok u, d') a done =
      let at = written-Holds p bytes d (ok u, d') refl a in
      restricted-Holds p bytes d' (set_permissions p d')
        (set_permissions-Restricts p bytes true d' at) done
  secured-Holds p bytes d (err x, d') a done = absurd cc

  create_key-IsIdentity :
      IsFaithful J
      → (o : Option Bytes) (p : FilePath) (fresh key : C.Keypair) (d : Disk)
      → (p == with_extension "tmp" p) ≡ false
      → J.encode_keypair fresh ≡ o
      → (create_key C J p fresh o d).0 ≡ ok key
      → IsIdentity p key (create_key C J p fresh o d).1
  unfolding create_key
  create_key-IsIdentity faithful none p fresh key d apart encodes h = absurd cc
  create_key-IsIdentity faithful (some bytes) p fresh key d apart encodes h =
      let x = secured C J p (write_atomic p bytes d) in
      let (done, same, kept) = kept_if-ok fresh key x h in
      (
        bytes,
        subst (Holds p bytes) (sym kept) (
            secured-Holds p bytes d (write_atomic p bytes d)
              (write_atomic-AllOrNothing p bytes d apart) done),
        faithful.decode_keypair-encode_keypair fresh bytes encodes ∙ ap some same,
      )

  load_or_create-IsIdentity :
      IsFaithful J
      → (p : FilePath) (fresh key : C.Keypair) (x : Bool × Disk)
      → (p == with_extension "tmp" p) ≡ false
      → (load_or_create C J p fresh x).0 ≡ ok key
      → IsIdentity p key (load_or_create C J p fresh x).1
  unfolding load_or_create
  load_or_create-IsIdentity faithful p fresh key (true, d) apart h =
      let (bytes, reads, decodes) = parse_key-ok (read p d).0 key h in
      let (b, at) = read-Holds p d bytes reads in
      (bytes, (b, ap (Dict.lookup p) (files-read p d) ∙ at), decodes)
  load_or_create-IsIdentity faithful p fresh key (false, d) apart h =
      create_key-IsIdentity faithful (J.encode_keypair fresh) p fresh key d apart refl h

  -- An identity that the node has loaded or created is the one that it loads ever after, whatever key it would
  -- create then, and the files stay as they are, as long as no operation on them fails then. The encoding must
  -- read back, and the file's extension must not be "tmp".
  pub identity_is_kept :
      IsFaithful J
      → (p : FilePath) (fresh fresh' key : C.Keypair) (d : Disk)
      → (p == with_extension "tmp" p) ≡ false
      → (load_or_create_identity_key C J p fresh d).0 ≡ ok key
      → (load_or_create_identity_key C J p fresh d).1.faults ≡ []
      → let d' = (load_or_create_identity_key C J p fresh d).1 in
        load_or_create_identity_key C J p fresh' d' ≡ (ok key, d')
  unfolding load_or_create_identity_key load_or_create parse_key
  identity_is_kept faithful p fresh fresh' key d apart h quiet =
      let d' = (load_or_create_identity_key C J p fresh d).1 in
      let (bytes, holds, decodes) =
        load_or_create-IsIdentity faithful p fresh key (exists p d) apart h in
      let (there, reads) = calm p bytes d' quiet holds in
      ap (load_or_create C J p fresh') there
      ∙ (ap (λ x. (parse_key C J x.0, x.1)) reads ∙ ap (λ o. (decoded C J o, d')) decodes)
