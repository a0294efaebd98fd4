-- ===== src/Security/Verify/Pins.antt =====
-- What verifying a message does to the pins of the trust store.
use aether_link.Base.{Bool, String, Eq, Option, Result, ok, err}
use aether_link.Base.Int.{ℤ}
use aether_link.Messages.{Bytes, SessionRequest, SessionAccept, DeviceIdentity}
use aether_link.Security.Crypto.{Crypto}
use aether_link.Security.Errors.{SessionAuthError}
use aether_link.Security.Replay.{NonceReplayCache, check_and_store}
use aether_link.Security.Trust.{TrustedPeers}
use aether_link.Security.Trust.Pinning.{Keeps, Keeps-refl, ensure_trusted-Keeps}
use aether_link.Security.Verify.{
  admit, after_store, from_checked, verify_session_request, verify_session_accept,
}

module _ (C : Crypto) ⦃e : Eq C.PeerId⦄ where
  admit-Keeps :
      (from : DeviceIdentity) (now : ℤ) (tofu : Bool) (t : TrustedPeers)
      (auth : Result SessionAuthError C.PeerId)
      → Keeps tofu t (admit C from now tofu t auth).1
  unfolding admit
  admit-Keeps from now tofu t (err x) = Keeps-refl tofu t
  admit-Keeps from now tofu t (ok peer) =
      ensure_trusted-Keeps C t from.device_code peer from.identity_pubkey now tofu

  stored-Keeps :
      (from : DeviceIdentity) (auth : Result SessionAuthError C.PeerId) (now : ℤ) (tofu : Bool)
      (t : TrustedPeers) (r : Result SessionAuthError (Unit {0}) × NonceReplayCache)
      → Keeps tofu t (after_store C from auth now tofu t r).2
  unfolding after_store
  stored-Keeps from auth now tofu t (err x, replay) = Keeps-refl tofu t
  stored-Keeps from auth now tofu t (ok u, replay) = admit-Keeps from now tofu t auth

  checked-Keeps :
      (nonce payload signature : Bytes) (transport : Option C.PeerId) (now : ℤ) (tofu : Bool)
      (replay : NonceReplayCache) (t : TrustedPeers) (r : Result SessionAuthError DeviceIdentity)
      → Keeps tofu t (from_checked C nonce payload signature transport now tofu replay t r).2
  unfolding from_checked
  checked-Keeps nonce payload signature transport now tofu replay t (err x) = Keeps-refl tofu t
  checked-Keeps nonce payload signature transport now tofu replay t (ok from) =
      stored-Keeps from _ now tofu t (check_and_store replay nonce now)

  pub verify_session_request-Keeps :
      (request : SessionRequest) (transport : Option C.PeerId) (target : Option String)
      (now allowed : ℤ) (replay : NonceReplayCache) (t : TrustedPeers) (tofu : Bool)
      → Keeps tofu t (verify_session_request C request transport target now allowed replay t tofu).2
  unfolding verify_session_request
  verify_session_request-Keeps request transport target now allowed replay t tofu =
      checked-Keeps request.nonce _ _ transport now tofu replay t _

  pub verify_session_accept-Keeps :
      (accept : SessionAccept) (transport : Option C.PeerId) (session : Option String)
      (request_nonce : Option Bytes) (now allowed : ℤ) (replay : NonceReplayCache)
      (t : TrustedPeers) (tofu : Bool)
      → Keeps tofu t
          (verify_session_accept C accept transport session request_nonce now allowed replay t
            tofu).2
  unfolding verify_session_accept
  verify_session_accept-Keeps accept transport session request_nonce now allowed replay t tofu =
      checked-Keeps accept.nonce _ _ transport now tofu replay t _
