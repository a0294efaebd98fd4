-- ===== src/Security/Verify/Sound.antt =====
-- What an accepted session request or response proves about its sender.
use aether_link.Base.{
  ◌≤◌, ◌≡◌, refl, inl, inr, Bool, true, false, String, string_eq, list_eq, nat_eq, Eq, Option, none,
  some, Result, ok, err, length, arith, ◌↔◌, Option-cases,
}
use aether_link.Base.Int.{ℤ}
use aether_link.Base.Text.{is_blank}
use aether_link.Messages.{Bytes, DeviceIdentity, SessionRequest}
use aether_link.Security.Crypto.{Crypto}
use aether_link.Security.Errors.{SessionAuthError}
use aether_link.Security.Replay.{NonceReplayCache, check_and_store}
use aether_link.Security.Trust.{TrustedPeers, ensure_trusted}
use aether_link.Security.Verify.{
  is_skewed, check_request, authenticate, from_checked, verify_session_request, min_nonce_bytes,
  VerifiedSessionPeer, canonical_session_request_payload,
}

-- The tests before the replay cache.
pub record Checked (request : SessionRequest) (expected_target : Option String) (now allowed : ℤ)
    (from : DeviceIdentity) : Type 0 where
  pub named : request.from ≡ some from
  pub coded : is_blank from.device_code ≡ false
  pub targeted : (t : String) → expected_target ≡ some t → request.target_device_code ≡ t
  pub long_nonce : min_nonce_bytes ≤ length request.nonce
  pub recent : is_skewed now request.unix_ms allowed ≡ false

check_request_named :
    (request : SessionRequest) (from' : Option DeviceIdentity) (expected : Option String)
    (now allowed : ℤ) {from : DeviceIdentity}
    → request.from ≡ from'
    → check_request request expected now allowed ≡ ok from
    → Checked request expected now allowed from
unfolding check_request
check_request_named request none expected now allowed e h = ground arith
check_request_named request (some f) expected now allowed e h = record {
  named = ground arith;
  coded = ground arith;
  targeted = λ t eq. ground arith;
  long_nonce = ground arith;
  recent = ground arith;
}

Checked-check_request :
    (request : SessionRequest) (expected : Option String) (now allowed : ℤ) (from : DeviceIdentity)
    → Checked request expected now allowed from
    → check_request request expected now allowed ≡ ok from
unfolding check_request
Checked-check_request request none now allowed from c = ground (arith, c.long_nonce)
Checked-check_request request (some t) now allowed from c =
    ground (arith, c.long_nonce, c.targeted t)

-- Who has signed a payload, and over which transport it came.
pub record Authentic (C : Crypto) (from : DeviceIdentity) (payload signature : Bytes)
    (transport : Option C.PeerId) (peer : C.PeerId) : Type 0 where
  pub key : C.PublicKey
  pub decodes : C.decode_key from.identity_pubkey ≡ some key
  pub signed : C.verify key payload signature ≡ true
  pub owned : C.peer_of_key key ≡ peer
  pub claimed : C.peer_of_bytes from.peer_id ≡ some peer
  pub carried : (p : C.PeerId) → transport ≡ some p → p ≡ peer

module _ (C : Crypto) ⦃e : Eq C.PeerId⦄ where
  authenticate-Authentic :
      (from : DeviceIdentity) (payload signature : Bytes) (transport : Option C.PeerId)
      (peer : C.PeerId)
      → authenticate C from payload signature transport ≡ ok peer
      → Authentic C from payload signature transport peer
  unfolding authenticate
  authenticate-Authentic from payload signature transport peer h =
      elim (Option-cases (C.decode_key from.identity_pubkey)) [
        | inl d ↦ absurd (ground arith)
        | inr (key, d) ↦ record {
          key = key;
          decodes = d;
          signed = ground arith;
          owned = ground arith;
          claimed = ground arith;
          carried = λ p t. ground arith;
        }
      ]

  Authentic-authenticate :
      (from : DeviceIdentity) (payload signature : Bytes) (transport : Option C.PeerId)
      (peer : C.PeerId)
      → Authentic C from payload signature transport peer
      → authenticate C from payload signature transport ≡ ok peer
  unfolding authenticate
  Authentic-authenticate from payload signature none peer a = ground arith
  Authentic-authenticate from payload signature (some p) peer a = ground (arith, a.carried p)

  -- The last step: the verdict is a success exactly if every step is.
  from_checked_iff :
      (nonce payload signature : Bytes) (transport : Option C.PeerId) (now : ℤ) (tofu : Bool)
      (replay : NonceReplayCache) (trusted : TrustedPeers)
      (r : Result SessionAuthError DeviceIdentity) (v : VerifiedSessionPeer C)
      → ((from_checked C nonce payload signature transport now tofu replay trusted r).0 ≡ ok v) ↔ (
          (from : DeviceIdentity) × (r ≡ ok from)
          × ((check_and_store replay nonce now).0 ≡ ok tt)
          × (authenticate C from payload signature transport ≡ ok v.peer_id)
          × ((ensure_trusted C trusted from.device_code v.peer_id from.identity_pubkey now tofu).0
              ≡ ok v.trust_store_changed)
          × (v.device_code ≡ from.device_code))
  unfolding from_checked
  from_checked_iff nonce payload signature transport now tofu replay trusted (err x) v =
      (λ h. absurd (ground arith), λ (f, p, q, a, t, d). absurd (cc p))
  from_checked_iff nonce payload signature transport now tofu replay trusted (ok from) v = (
    λ h. (from, refl, ground arith, ground arith, ground arith, ground arith),
    λ (f, p, q, a, t, d). ground arith,
  )

  -- Everything that a request has to pass, in the order of the code.
  pub record Accepts (request : SessionRequest) (transport : Option C.PeerId)
      (expected : Option String) (now allowed : ℤ) (replay : NonceReplayCache)
      (trusted : TrustedPeers) (tofu : Bool) (v : VerifiedSessionPeer C) : Type 0 where
    pub from : DeviceIdentity
    pub checked : Checked request expected now allowed from
    pub fresh : (check_and_store replay request.nonce now).0 ≡ ok tt
    pub authentic :
        Authentic C from
          (canonical_session_request_payload C request)
          request.signature
          transport
          v.peer_id
    pub trusts :
        (ensure_trusted C trusted from.device_code v.peer_id from.identity_pubkey now tofu).0
        ≡ ok v.trust_store_changed
    pub coded : v.device_code ≡ from.device_code

  -- A request is accepted with a verdict exactly if it names a sender with a device code, meets the expected target, has a nonce of
  -- at least 12 bytes that the cache does not hold and a time in the window, carries a signature of its payload by
  -- the key of the sender, whose peer id is the claimed and the transport's one, and the trust store admits this key;
  -- and the verdict names that peer id, that device code and whether the store changed.
  pub verify_session_request_iff :
      (request : SessionRequest) (transport : Option C.PeerId) (expected : Option String)
      (now allowed : ℤ) (replay : NonceReplayCache) (trusted : TrustedPeers) (tofu : Bool)
      (v : VerifiedSessionPeer C)
      → ((verify_session_request C request transport expected now allowed replay trusted tofu).0
          ≡ ok v)
        ↔ Accepts request transport expected now allowed replay trusted tofu v
  unfolding verify_session_request
  verify_session_request_iff request transport expected now allowed replay trusted tofu v =
      let both =
        from_checked_iff request.nonce (canonical_session_request_payload C request)
          request.signature transport now tofu replay trusted
          (check_request request expected now allowed) v in
      (
        λ h.
            let (f, c, q, a, t, d) = both.0 h in
            record {
              from = f;
              checked = check_request_named request request.from expected now allowed refl c;
              fresh = q;
              authentic = authenticate-Authentic f _ _ transport v.peer_id a;
              trusts = t;
              coded = d;
            },
        λ s. both.1 (
          s.from,
          Checked-check_request request expected now allowed s.from s.checked,
          s.fresh,
          Authentic-authenticate s.from _ _ transport v.peer_id s.authentic,
          s.trusts,
          s.coded,
        ),
      )
