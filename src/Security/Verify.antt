-- ===== src/Security/Verify.antt =====
-- Signing and verifying the session messages: crates/aetherlink-core/src/security.rs. The caches that
-- a call mutates come back beside its result, on the error paths too.
pub mod Skew
pub mod Sound
pub mod Single
pub mod Signing
pub mod Pins
use aether_link.Base.{
  ℕ, Bool, true, false, not, String, string_eq, list_eq, nat_eq, Eq, ◌==◌, Option, none, some, [],
  Result, ok, err, ◌>>=◌, ◌>>◌, ok_or, fail_if, is_empty, length, ltb,
}
use aether_link.Base.Int.{ℤ, pos, ltb_ℤ, sub_i64, abs_i64}
use aether_link.Base.Text.{is_blank}
use aether_link.Messages.{Bytes, DeviceIdentity, SessionRequest, SessionAccept}
use aether_link.Security.Crypto.{Crypto}
use aether_link.Security.Errors.{
  SessionAuthError, missing_sender_identity, missing_responder_identity, missing_device_code,
  missing_nonce, nonce_too_short, invalid_target_device_code, timestamp_skew,
  invalid_sender_public_key, invalid_sender_peer_id, peer_id_mismatch, transport_peer_id_mismatch,
  invalid_signature, signing_failed, session_id_mismatch, missing_request_nonce_binding,
  request_nonce_mismatch,
}
use aether_link.Security.Replay.{NonceReplayCache, check_and_store}
use aether_link.Security.Trust.{TrustedPeers, ensure_trusted}

abbrev pub min_nonce_bytes : ℕ
min_nonce_bytes = 12

abbrev pub default_allowed_skew_ms : ℤ
default_allowed_skew_ms = pos 30000

-- `(now - unix_ms).abs() > allowed`, in a build without overflow checks.
unfoldable pub is_skewed : ℤ → ℤ → ℤ → Bool
is_skewed now unix_ms allowed = ltb_ℤ allowed (abs_i64 (sub_i64 now unix_ms))

-- The tests on the sender, the nonce and the time that both messages share.
check_fresh : DeviceIdentity → Bytes → ℤ → ℤ → ℤ → Result SessionAuthError DeviceIdentity
check_fresh from nonce unix_ms now allowed = do
  fail_if (is_empty nonce) missing_nonce
  fail_if (ltb (length nonce) min_nonce_bytes) (nonce_too_short min_nonce_bytes)
  fail_if (is_skewed now unix_ms allowed) (timestamp_skew unix_ms now allowed)
  ok from

check_target : Option String → String → Result SessionAuthError (Unit {0})
check_target none got = ok tt
check_target (some expected) got =
    fail_if (not (got == expected)) (invalid_target_device_code expected got)

-- `verify_session_request` up to the replay cache.
unfoldable pub check_request :
    SessionRequest → Option String → ℤ → ℤ → Result SessionAuthError DeviceIdentity
unfolding check_fresh check_target
check_request request expected_target now allowed = do
  from ← ok_or request.from missing_sender_identity
  fail_if (is_blank from.device_code) missing_device_code
  check_target expected_target request.target_device_code
  check_fresh from request.nonce request.unix_ms now allowed

check_session_id : Option String → String → Result SessionAuthError (Unit {0})
check_session_id none got = ok tt
check_session_id (some expected) got =
    fail_if (not (got == expected)) (session_id_mismatch expected got)

check_request_nonce : Option Bytes → Bytes → Result SessionAuthError (Unit {0})
check_request_nonce none got = ok tt
check_request_nonce (some expected) got = do
  fail_if (is_empty got) missing_request_nonce_binding
  fail_if (not (got == expected)) request_nonce_mismatch

-- `verify_session_accept` up to the replay cache.
unfoldable pub check_accept :
    SessionAccept → Option String → Option Bytes → ℤ → ℤ → Result SessionAuthError DeviceIdentity
unfolding check_fresh check_session_id check_request_nonce
check_accept accept expected_session expected_nonce now allowed = do
  check_session_id expected_session accept.session_id
  check_request_nonce expected_nonce accept.request_nonce
  from ← ok_or accept.from missing_responder_identity
  fail_if (is_blank from.device_code) missing_device_code
  check_fresh from accept.nonce accept.unix_ms now allowed

module _ (C : Crypto) where
  pub record VerifiedSessionPeer : Type 0 where
    pub peer_id : C.PeerId
    pub device_code : String
    pub trust_store_changed : Bool

  unfoldable pub canonical_session_request_payload : SessionRequest → Bytes
  canonical_session_request_payload request = C.encode_request (record request { signature = [] })

  unfoldable pub canonical_session_accept_payload : SessionAccept → Bytes
  canonical_session_accept_payload accept = C.encode_accept (record accept { signature = [] })

  -- The result, and the message as it is left: without a signature where signing fails.
  sign_with : C.Keypair → Bytes → Result SessionAuthError Bytes
  sign_with keypair payload = ok_or (C.sign keypair payload) signing_failed

  put_request_signature :
      SessionRequest
      → Result SessionAuthError Bytes
      → Result SessionAuthError (Unit {0}) × SessionRequest
  put_request_signature request (ok s) = (ok tt, record request { signature = s })
  put_request_signature request (err e) = (err e, record request { signature = [] })

  put_accept_signature :
      SessionAccept
      → Result SessionAuthError Bytes
      → Result SessionAuthError (Unit {0}) × SessionAccept
  put_accept_signature accept (ok s) = (ok tt, record accept { signature = s })
  put_accept_signature accept (err e) = (err e, record accept { signature = [] })

  unfoldable pub sign_session_request :
      SessionRequest → C.Keypair → Result SessionAuthError (Unit {0}) × SessionRequest
  unfolding sign_with put_request_signature
  sign_session_request request keypair =
      put_request_signature request (sign_with keypair (canonical_session_request_payload request))

  unfoldable pub sign_session_accept :
      SessionAccept → C.Keypair → Result SessionAuthError (Unit {0}) × SessionAccept
  unfolding sign_with put_accept_signature
  sign_session_accept accept keypair =
      put_accept_signature accept (sign_with keypair (canonical_session_accept_payload accept))

module _ (C : Crypto) ⦃e : Eq C.PeerId⦄ where
  check_transport : Option C.PeerId → C.PeerId → Result SessionAuthError (Unit {0})
  check_transport none derived = ok tt
  check_transport (some bound) derived = fail_if (not (bound == derived)) transport_peer_id_mismatch

  -- The key, the signature and the peer id, after the replay cache.
  unfoldable pub authenticate :
      DeviceIdentity → Bytes → Bytes → Option C.PeerId → Result SessionAuthError C.PeerId
  unfolding check_transport
  authenticate from payload signature transport = do
    key ← ok_or (C.decode_key from.identity_pubkey) invalid_sender_public_key
    fail_if (not (C.verify key payload signature)) invalid_signature
    claimed ← ok_or (C.peer_of_bytes from.peer_id) invalid_sender_peer_id
    let derived = C.peer_of_key key
    fail_if (not (claimed == derived)) peer_id_mismatch
    check_transport transport derived
    ok derived

  abbrev pub Verdict : Type 0
  Verdict = Result SessionAuthError (VerifiedSessionPeer C)

  -- The trust store, the last step.
  verified : DeviceIdentity → C.PeerId → Result SessionAuthError Bool → Verdict
  verified from peer r = do
    changed ← r
    ok (record { peer_id = peer; device_code = from.device_code; trust_store_changed = changed })

  admit :
      DeviceIdentity
      → ℤ
      → Bool
      → TrustedPeers
      → Result SessionAuthError C.PeerId
      → Verdict × TrustedPeers
  unfolding verified
  admit from now tofu trusted (err x) = (err x, trusted)
  admit from now tofu trusted (ok peer) =
      let (r, trusted') =
        ensure_trusted C trusted from.device_code peer from.identity_pubkey now tofu in
      (verified from peer r, trusted')

  after_store :
      DeviceIdentity
      → Result SessionAuthError C.PeerId
      → ℤ
      → Bool
      → TrustedPeers
      → Result SessionAuthError (Unit {0}) × NonceReplayCache
      → Verdict × NonceReplayCache × TrustedPeers
  unfolding admit
  after_store from auth now tofu trusted (err x, replay) = (err x, replay, trusted)
  after_store from auth now tofu trusted (ok _, replay) =
      let (r, trusted') = admit from now tofu trusted auth in (r, replay, trusted')

  -- From the checked sender on; the caches are untouched where a check has failed.
  unfoldable pub from_checked :
      Bytes
      → Bytes
      → Bytes
      → Option C.PeerId
      → ℤ
      → Bool
      → NonceReplayCache
      → TrustedPeers
      → Result SessionAuthError DeviceIdentity
      → Verdict × NonceReplayCache × TrustedPeers
  unfolding after_store
  from_checked nonce payload signature transport now tofu replay trusted (err x) =
      (err x, replay, trusted)
  from_checked nonce payload signature transport now tofu replay trusted (ok from) =
      after_store from (authenticate from payload signature transport) now tofu trusted
        (check_and_store replay nonce now)

  unfoldable pub verify_session_request :
      SessionRequest
      → Option C.PeerId
      → Option String
      → ℤ
      → ℤ
      → NonceReplayCache
      → TrustedPeers
      → Bool
      → Verdict × NonceReplayCache × TrustedPeers
  verify_session_request request transport expected_target now allowed replay trusted tofu =
      from_checked request.nonce (canonical_session_request_payload C request) request.signature
        transport now tofu replay trusted (check_request request expected_target now allowed)

  unfoldable pub verify_session_accept :
      SessionAccept
      → Option C.PeerId
      → Option String
      → Option Bytes
      → ℤ
      → ℤ
      → NonceReplayCache
      → TrustedPeers
      → Bool
      → Verdict × NonceReplayCache × TrustedPeers
  verify_session_accept accept transport expected_session expected_nonce now allowed replay trusted
        tofu =
      from_checked accept.nonce (canonical_session_accept_payload C accept) accept.signature
        transport now tofu replay trusted
        (check_accept accept expected_session expected_nonce now allowed)
