-- ===== src/Security/Errors.antt =====
-- `SessionAuthError` of crates/aetherlink-core/src/security.rs.
use aether_link.Base.{ℕ, String}
use aether_link.Base.Int.{ℤ}

-- What the text of `TrustStoreCorrupt` is formatted from.
pub data TrustStoreFault : Type 0 where
  empty_device_code : TrustStoreFault
  invalid_peer_id : String → TrustStoreFault
  odd_hex_length : TrustStoreFault
  invalid_hex_char : ℕ → TrustStoreFault

pub data SessionAuthError : Type 0 where
  missing_sender_identity missing_responder_identity missing_device_code : SessionAuthError
  missing_nonce : SessionAuthError
  nonce_too_short : ℕ → SessionAuthError
  invalid_target_device_code : String → String → SessionAuthError
  timestamp_skew : ℤ → ℤ → ℤ → SessionAuthError
  replay_detected invalid_sender_public_key invalid_sender_peer_id : SessionAuthError
  peer_id_mismatch transport_peer_id_mismatch invalid_signature : SessionAuthError
  signing_failed : SessionAuthError
  session_id_mismatch : String → String → SessionAuthError
  missing_request_nonce_binding request_nonce_mismatch : SessionAuthError
  untrusted_peer trusted_peer_mismatch : String → SessionAuthError
  trust_store_corrupt : TrustStoreFault → SessionAuthError
