-- ===== src/Security/Trust/Pinning.antt =====
-- What `ensure_trusted` promises: a device code is bound to one key for good.
use aether_link.Base.{
  ◌≡◌, refl, sym, subst, ◌∙◌, Bool, true, false, String, string_eq, list_eq, nat_eq, ◌==◌, Option,
  none, some, List, [], ◌∷◌, Result, arith, ◌&&◌, ◌≢◌, is_ok,
}
use aether_link.Base.Dict
use aether_link.Base.Dict.{Dict, lookup-insert}
use aether_link.Base.Int.{ℤ}
use aether_link.Messages.{Bytes}
use aether_link.Security.Crypto.{Crypto}
use aether_link.Security.Errors.{SessionAuthError}
use aether_link.Security.Hex.{encode_hex}
use aether_link.Security.Trust.{TrustedPeerRecord, TrustedPeers, first_record, pin, ensure_trusted}

-- The peer id, the key and the time of the first contact that a device code is bound to.
abbrev pub binding : Option TrustedPeerRecord → Option (String × Bytes × ℤ)
binding none = none
binding (some r) = some (r.peer_id, r.identity_pubkey_hex, r.first_seen_unix_ms)

abbrev pub bound : TrustedPeers → String → Option (String × Bytes × ℤ)
bound t code = binding (Dict.lookup code t.by_device_code)

pin_keeps :
    (o : Option TrustedPeerRecord) (t : TrustedPeers) (code peer : String) (hex : Bytes) (now : ℤ)
    (tofu : Bool) (j : String) (b : String × Bytes × ℤ)
    → Dict.lookup code t.by_device_code ≡ o
    → bound t j ≡ some b
    → bound (pin o t code peer hex now tofu).1 j ≡ some b
unfolding pin
pin_keeps none t code peer hex now tofu j b e h =
    ground (arith, lookup-insert j code (first_record code peer hex now) t.by_device_code)
pin_keeps (some r) t code peer hex now tofu j b e h =
    ground (arith, lookup-insert j code (record r { last_seen_unix_ms = now }) t.by_device_code)

-- A trust store after another: every device code keeps what it is bound to, and without trust on first
-- use none is newly bound.
pub record Keeps (tofu : Bool) (t t' : TrustedPeers) : Type 0 where
  pub kept :
      (code : String) (b : String × Bytes × ℤ) → bound t code ≡ some b → bound t' code ≡ some b
  pub no_new : tofu ≡ false → (code : String) → bound t' code ≡ bound t code

pub Keeps-refl : (tofu : Bool) (t : TrustedPeers) → Keeps tofu t t
Keeps-refl tofu t = record { kept = λ code b h. h; no_new = λ off code. refl }

pub Keeps-trans :
    (tofu : Bool) (t t' t'' : TrustedPeers) → Keeps tofu t t' → Keeps tofu t' t'' → Keeps tofu t t''
Keeps-trans tofu t t' t'' k k' = record {
  kept = λ code b h. k'.kept code b (k.kept code b h);
  no_new = λ off code. k'.no_new off code ∙ k.no_new off code;
}

pub Keeps-same : (tofu : Bool) (t t' : TrustedPeers) → t' ≡ t → Keeps tofu t t'
Keeps-same tofu t t' same = subst (λ x. Keeps tofu t x) (sym same) (Keeps-refl tofu t)

pin_no_new :
    (o : Option TrustedPeerRecord) (t : TrustedPeers) (code peer : String) (hex : Bytes) (now : ℤ)
    (j : String)
    → Dict.lookup code t.by_device_code ≡ o
    → bound (pin o t code peer hex now false).1 j ≡ bound t j
unfolding pin
pin_no_new none t code peer hex now j e = refl
pin_no_new (some r) t code peer hex now j e =
    ground (arith, lookup-insert j code (record r { last_seen_unix_ms = now }) t.by_device_code)

pin-Keeps :
    (tofu : Bool) (t : TrustedPeers) (code peer : String) (hex : Bytes) (now : ℤ)
    → Keeps tofu t (pin (Dict.lookup code t.by_device_code) t code peer hex now tofu).1
pin-Keeps tofu t code peer hex now = record {
  kept = λ j b h. pin_keeps (Dict.lookup code t.by_device_code) t code peer hex now tofu j b refl h;
  no_new = λ off j.
      subst
        (λ x. bound (pin (Dict.lookup code t.by_device_code) t code peer hex now x).1 j ≡ bound t j)
        (sym off) (pin_no_new (Dict.lookup code t.by_device_code) t code peer hex now j refl);
}

pub ensure_trusted-Keeps :
    (C : Crypto) (t : TrustedPeers) (code : String) (peer : C.PeerId) (key : Bytes) (now : ℤ)
    (tofu : Bool)
    → Keeps tofu t (ensure_trusted C t code peer key now tofu).1
unfolding ensure_trusted
ensure_trusted-Keeps C t code peer key now tofu = pin-Keeps tofu t code _ _ now

-- Whether a peer with this text and key may use a device code with this binding.
abbrev pub admits : Option (String × Bytes × ℤ) → String → Bytes → Bool → Bool
admits none peer hex tofu = tofu
admits (some (p, h, first)) peer hex tofu = p == peer && h == hex

pin_decides :
    (o : Option TrustedPeerRecord) (t : TrustedPeers) (code peer : String) (hex : Bytes) (now : ℤ)
    (tofu : Bool)
    → Dict.lookup code t.by_device_code ≡ o
    → let (r, t') = pin o t code peer hex now tofu in
      (is_ok r ≡ admits (bound t code) peer hex tofu)
      × (is_ok r ≡ true → admits (bound t' code) peer hex false ≡ true)
      × (is_ok r ≡ false → t' ≡ t)
      × ((j : String) → j ≢ code → Dict.lookup j t'.by_device_code ≡ Dict.lookup j t.by_device_code)
unfolding pin
pin_decides none t code peer hex now tofu e = (
  ground arith,
  λ h. ground (arith, lookup-insert code code (first_record code peer hex now) t.by_device_code),
  λ h. ground arith,
  λ j ne. ground (arith, lookup-insert j code (first_record code peer hex now) t.by_device_code),
)
pin_decides (some r) t code peer hex now tofu e = (
  ground arith,
  λ h.
      ground
        (arith, lookup-insert code code (record r { last_seen_unix_ms = now }) t.by_device_code),
  λ h. ground arith,
  λ j ne.
      ground (arith, lookup-insert j code (record r { last_seen_unix_ms = now }) t.by_device_code),
)

-- Who a call of `ensure_trusted` is about.
pub record Claim (C : Crypto) : Type 0 where
  pub device_code : String
  pub peer_id : C.PeerId
  pub identity_pubkey : Bytes
  pub now_unix_ms : ℤ
  pub trust_on_first_use : Bool

module _ (C : Crypto) where
  abbrev pub ensure : TrustedPeers → Claim C → Result SessionAuthError Bool × TrustedPeers
  ensure t c =
      ensure_trusted C t c.device_code c.peer_id c.identity_pubkey c.now_unix_ms
        c.trust_on_first_use

  ensure_keeps :
      (t : TrustedPeers) (c : Claim C) (j : String) (b : String × Bytes × ℤ)
      → bound t j ≡ some b
      → bound (ensure t c).1 j ≡ some b
  unfolding ensure_trusted
  ensure_keeps t c j b h =
      pin_keeps (Dict.lookup c.device_code t.by_device_code) t c.device_code _ _ _ _ j b refl h

  -- The store after the claims, whatever their results.
  pub ensure_all : TrustedPeers → List (Claim C) → TrustedPeers
  ensure_all t [] = t
  ensure_all t (c ∷ cs) = ensure_all (ensure t c).1 cs

  -- No later claims, accepted or not, change the peer id, the key or the time of the first contact that
  -- a device code is bound to.
  bound-ensure_all :
      (t : TrustedPeers) (cs : List (Claim C)) (j : String) (b : String × Bytes × ℤ)
      → bound t j ≡ some b
      → bound (ensure_all t cs) j ≡ some b
  unfolding ensure_all
  bound-ensure_all t [] j b h = h
  bound-ensure_all t (c ∷ cs) j b h =
      bound-ensure_all (ensure t c).1 cs j b (ensure_keeps t c j b h)

  -- A claim is accepted exactly if its device code is bound to its peer id and key, or is unbound and trust
  -- on first use is on. Accepted, the code is bound to them; refused, the store is unchanged. Other device
  -- codes keep their records.
  pub ensure_trusted_decides :
      (t : TrustedPeers) (c : Claim C)
      → let peer = C.peer_to_string c.peer_id in
        let hex = encode_hex c.identity_pubkey in
        let (r, t') = ensure t c in
        (is_ok r ≡ admits (bound t c.device_code) peer hex c.trust_on_first_use)
        × (is_ok r ≡ true → admits (bound t' c.device_code) peer hex false ≡ true)
        × (is_ok r ≡ false → t' ≡ t)
        × ((j : String)
            → j ≢ c.device_code
            → Dict.lookup j t'.by_device_code ≡ Dict.lookup j t.by_device_code)
  unfolding ensure_trusted
  ensure_trusted_decides t c =
      pin_decides (Dict.lookup c.device_code t.by_device_code) t c.device_code _ _ _ _ refl
