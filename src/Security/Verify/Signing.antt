-- ===== src/Security/Verify/Signing.antt =====
-- A message that the code signs is one that the code accepts.
use aether_link.Security.Errors.{SessionAuthError}
use aether_link.Base.{Result, err, ◌≡◌, refl, Bool, String, Eq, Option, some, ok}
use aether_link.Base.Int.{ℤ}
use aether_link.Messages.{Bytes, DeviceIdentity, SessionRequest, SessionAccept}
use aether_link.Security.Crypto.{Crypto, IsLawful}
use aether_link.Security.Replay.{NonceReplayCache, check_and_store}
use aether_link.Security.Trust.{TrustedPeers, ensure_trusted}
use aether_link.Security.Verify.{
  sign_session_request, sign_session_accept, put_accept_signature,
  canonical_session_request_payload, canonical_session_accept_payload, verify_session_request,
}
use aether_link.Security.Verify.Sound.{Checked, verify_session_request_iff}

module _ (C : Crypto) ⦃e : Eq C.PeerId⦄ where
  -- The identity that the owner of a key pair puts into a message.
  abbrev pub own_identity : C.Keypair → String → DeviceIdentity
  own_identity keypair device_code = record {
    peer_id = C.peer_to_bytes (C.peer_of_key (C.public_key keypair));
    identity_pubkey = C.encode_key (C.public_key keypair);
    device_code = device_code;
  }

  signed_request :
      (request : SessionRequest) (keypair : C.Keypair) (s : Bytes)
      → C.sign keypair (canonical_session_request_payload C request) ≡ some s
      → sign_session_request C request keypair ≡ (ok tt, record request { signature = s })
  unfolding sign_session_request
  signed_request request keypair s h = rw h

  pub signed_accept :
      (accept : SessionAccept) (keypair : C.Keypair) (s : Bytes)
      → C.sign keypair (canonical_session_accept_payload C accept) ≡ some s
      → sign_session_accept C accept keypair ≡ (ok tt, record accept { signature = s })
  unfolding sign_session_accept
  signed_accept accept keypair s h = rw h

  -- A request in the owner's name that signing has succeeded for, that passes the tests before the
  -- cache, whose nonce the cache does not hold and whose key the store admits, is accepted after it is signed, over any transport of the
  -- owner's peer id, as that peer.
  pub verify-sign_session_request :
      (request : SessionRequest) (keypair : C.Keypair) (code : String) (s : Bytes)
      (transport : Option C.PeerId) (target : Option String) (now allowed : ℤ)
      (replay : NonceReplayCache) (trusted : TrustedPeers) (tofu changed : Bool)
      → IsLawful C
      → C.sign keypair (canonical_session_request_payload C request) ≡ some s
      → Checked request target now allowed (own_identity keypair code)
      → (check_and_store replay request.nonce now).0 ≡ ok tt
      → ((p : C.PeerId) → transport ≡ some p → p ≡ C.peer_of_key (C.public_key keypair))
      → (ensure_trusted C trusted code
          (C.peer_of_key (C.public_key keypair))
          (C.encode_key (C.public_key keypair))
          now
          tofu).0
        ≡ ok changed
      → (verify_session_request C
          (sign_session_request C request keypair).1
          transport
          target
          now
          allowed
          replay
          trusted
          tofu).0
        ≡ ok (record {
          peer_id = C.peer_of_key (C.public_key keypair);
          device_code = code;
          trust_store_changed = changed;
        })
  unfolding canonical_session_request_payload
  verify-sign_session_request request keypair code s transport target now allowed replay trusted
        tofu changed law signs checked fresh carried trusts =
      rw (signed_request request keypair s signs) (
        (verify_session_request_iff C (record request { signature = s }) transport target now
            allowed replay trusted tofu _).1
          (record {
            from = own_identity keypair code;
            checked = record {
              named = checked.named;
              coded = checked.coded;
              targeted = checked.targeted;
              long_nonce = checked.long_nonce;
              recent = checked.recent;
            };
            fresh = fresh;
            authentic = record {
              key = C.public_key keypair;
              decodes = law.decode_key-encode_key (C.public_key keypair);
              signed =
                  law.verify-sign keypair (canonical_session_request_payload C request) s signs;
              owned = refl;
              claimed = law.peer_of_bytes-peer_to_bytes (C.peer_of_key (C.public_key keypair));
              carried = carried;
            };
            trusts = trusts;
            coded = refl;
          }))

  kept_session_id :
      (accept : SessionAccept) (r : Result SessionAuthError Bytes)
      → (put_accept_signature C accept r).1.session_id ≡ accept.session_id
  unfolding put_accept_signature
  kept_session_id accept (ok s) = refl
  kept_session_id accept (err x) = refl

  pub session_id-sign_session_accept :
      (accept : SessionAccept) (keypair : C.Keypair)
      → (sign_session_accept C accept keypair).1.session_id ≡ accept.session_id
  unfolding sign_session_accept
  session_id-sign_session_accept accept keypair = kept_session_id accept _
