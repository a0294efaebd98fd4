-- ===== src/Tests/Sessions.antt =====
-- Runs of the session code between two parties.
use aether_link.Base.{
  ◌-◌, ◌≤◌, ◌^◌, ◌≡◌, ◌≢◌, ◌⊎◌, inr, ◌↔◌, refl, true, false, String, string_eq, list_eq, nat_eq,
  none, some, [], ◌∷◌, ok, err, is_ok, arith, if◌then◌else◌, ◌&&◌, ◌==◌,
}
use aether_link.Base.Dict
use aether_link.Base.Int.{ℤ, pos, negsuc, abs_ℤ, ◌-ℤ◌, sub_i64, abs_i64}
use aether_link.Base.Text.{trim}
use aether_link.Messages.{Bytes, SessionRequest, SessionAccept}
use aether_link.Security.Errors.{replay_detected}
use aether_link.Security.Hex.{encode_hex, decode_hex}
use aether_link.Security.Replay.{NonceReplayCache, check_and_store, default_replay_retention_ms}
use aether_link.Security.Replay.Window.{checks, accepted_once, check_and_store_lem, stored, is_none}
use aether_link.Security.Trust.{TrustedPeers, ensure_trusted}
use aether_link.Security.Trust.Pinning.{Claim, ensure, bound, admits, ensure_trusted_decides}
use aether_link.Security.Verify.{
  is_skewed, verify_session_request, verify_session_accept, sign_session_request,
  default_allowed_skew_ms, canonical_session_request_payload, canonical_session_accept_payload,
  from_checked, check_request, check_accept, authenticate, VerifiedSessionPeer,
}
use aether_link.Security.Verify.Skew.{is_skewed_exact}
use aether_link.Security.Verify.Sound.{Checked, Accepts, verify_session_request_iff}
use aether_link.Security.Verify.Single.{
  Call, request_call, calls, request_accepted_once, accept_accepted_once,
}
use aether_link.Security.Verify.Signing.{own_identity, verify-sign_session_request}
use aether_link.Tests.Parties.{alice, bob, party_eq, toy, toy-IsLawful, bytes_of}

abbrev pub some_nonce : Bytes
some_nonce = 1 ∷ 2 ∷ 3 ∷ 4 ∷ 5 ∷ 6 ∷ 7 ∷ 8 ∷ 9 ∷ 10 ∷ 11 ∷ 12 ∷ []

abbrev cache : NonceReplayCache
cache = record { retention_ms = default_replay_retention_ms; seen = [] }

abbrev pub nobody : TrustedPeers
nobody = record { by_device_code = [] }

abbrev pub hello : SessionRequest
hello = record {
  session_id = "s";
  from = some (own_identity toy alice "laptop");
  requested_role = 1;
  target_device_code = "bob";
  supported_video_codecs = 1 ∷ [];
  allow_relay = true;
  preferred_max_fps = 30;
  preferred_max_width = 1280;
  preferred_max_height = 720;
  nonce = some_nonce;
  unix_ms = pos 100000;
  signature = 1 ∷ some_nonce;
  version = none;
  feature_bits = [];
}

abbrev pub welcome : SessionAccept
welcome = record {
  session_id = "s";
  selected_codec = 1;
  selected_fps = 30;
  selected_width = 1280;
  selected_height = 720;
  using_relay = false;
  path_id = "direct-quic";
  from = some (own_identity toy bob "desktop");
  nonce = some_nonce;
  unix_ms = pos 100000;
  signature = 2 ∷ some_nonce;
  request_nonce = some_nonce;
  accepted_feature_bits = [];
}

abbrev as_alice : VerifiedSessionPeer toy
as_alice = record { peer_id = alice; device_code = "laptop"; trust_store_changed = true }

hello_accepted :
    (verify_session_request toy hello
      (some alice)
      (some "bob")
      (pos 101000)
      default_allowed_skew_ms
      cache
      nobody
      true).0
    ≡ ok as_alice
unfolding verify_session_request from_checked check_request trim string_eq is_skewed abs_i64 sub_i64
    check_and_store Dict.contains_key Dict.retain_values authenticate list_eq
    canonical_session_request_payload party_eq ensure_trusted Dict.lookup
hello_accepted = refl

welcome_accepted :
    is_ok
      (verify_session_accept toy welcome
        (some bob)
        (some "s")
        none
        (pos 101000)
        default_allowed_skew_ms
        cache
        nobody
        true).0
    ≡ true
unfolding verify_session_accept from_checked check_accept trim string_eq is_skewed abs_i64 sub_i64
    check_and_store Dict.contains_key Dict.retain_values authenticate list_eq
    canonical_session_accept_payload party_eq ensure_trusted Dict.lookup
welcome_accepted = refl

abbrev capital : Bytes
capital = b'A' ∷ b'b' ∷ []

capital_lem : decode_hex capital ≡ ok (171 ∷ [])
unfolding decode_hex nat_eq
capital_lem = refl

check_and_store_example :
    let (r, c') = check_and_store cache some_nonce (pos 100) in
    (r ≡ (if is_none (stored cache (pos 100) some_nonce) then ok tt else err replay_detected))
    × (Dict.lookup capital c'.seen ≡ (
        if is_ok r && (capital == some_nonce)
        then some (pos 100)
        else stored cache (pos 100) capital))
    × (c'.retention_ms ≡ cache.retention_ms)
check_and_store_example = check_and_store_lem cache some_nonce (pos 100) capital tt

stored_first : (check_and_store cache some_nonce (pos 100)).0 ≡ ok tt
unfolding check_and_store Dict.contains_key Dict.retain_values
stored_first = refl

accepted_once_example :
    (check_and_store
      (checks (check_and_store cache some_nonce (pos 100)).1 ((capital, 50) ∷ []))
      some_nonce
      (pos 60100)).0
    ≡ err replay_detected
accepted_once_example =
    accepted_once cache some_nonce 100 60000 60100 ((capital, 50) ∷ []) tt refl (omega arith)
      stored_first ((omega arith, omega arith), tt) (omega arith) (omega arith)

abbrev pub claim : Claim toy
claim = record {
  device_code = "laptop";
  peer_id = alice;
  identity_pubkey = bytes_of alice;
  now_unix_ms = pos 100;
  trust_on_first_use = true;
}

abbrev impostor : Claim toy
impostor = record claim { peer_id = bob; identity_pubkey = bytes_of bob }

abbrev pub alice_pinned : TrustedPeers
alice_pinned = (ensure toy nobody claim).1

alice_bound : bound alice_pinned "laptop" ≡ some ("alice", encode_hex (bytes_of alice), pos 100)
unfolding ensure_trusted Dict.lookup Dict.insert string_eq
alice_bound = refl

ensure_trusted_decides_example :
    let (r, t') = ensure toy alice_pinned impostor in
    (is_ok r ≡ admits (bound alice_pinned "laptop") "bob" (encode_hex (bytes_of bob)) true)
    × (is_ok r ≡ true → admits (bound t' "laptop") "bob" (encode_hex (bytes_of bob)) false ≡ true)
    × (is_ok r ≡ false → t' ≡ alice_pinned)
    × ((j : String)
        → j ≢ "laptop"
        → Dict.lookup j t'.by_device_code ≡ Dict.lookup j alice_pinned.by_device_code)
ensure_trusted_decides_example = ensure_trusted_decides toy alice_pinned impostor

abbrev ancient : ℤ
ancient = negsuc (2 ^ 63 - 1 - 5)

is_skewed_exact_example :
    (is_skewed (pos 5) ancient (pos 30000) ≡ false
      → (abs_ℤ (pos 5 -ℤ ancient) ≤ 30000) ⊎ (pos 5 -ℤ ancient ≡ pos (2 ^ 63)))
    × ((abs_ℤ (pos 5 -ℤ ancient) ≤ 30000) ⊎ (pos 5 -ℤ ancient ≡ pos (2 ^ 63))
        → is_skewed (pos 5) ancient (pos 30000) ≡ false)
is_skewed_exact_example =
    is_skewed_exact 5 ancient 30000 (omega arith) (omega arith) (omega arith, omega arith)

-- The same window lets that time pass.
ancient_passes : is_skewed (pos 5) ancient (pos 30000) ≡ false
unfolding ◌-ℤ◌
ancient_passes = is_skewed_exact_example.1 (inr refl)

verify_session_request_iff_example :
    ((verify_session_request toy hello
        (some alice)
        (some "bob")
        (pos 101000)
        default_allowed_skew_ms
        cache
        nobody
        true).0
      ≡ ok as_alice)
    ↔ Accepts toy hello
        (some alice)
        (some "bob")
        (pos 101000)
        default_allowed_skew_ms
        cache
        nobody
        true
        as_alice
verify_session_request_iff_example =
    verify_session_request_iff toy hello (some alice) (some "bob") (pos 101000)
      default_allowed_skew_ms cache nobody true as_alice

-- A request for another device comes in between.
abbrev other_call : Call toy
other_call =
    request_call (record hello { target_device_code = "x" }) (some alice) (some "bob") 101500 true

request_accepted_once_example :
    let (r, replay', trusted') =
      verify_session_request toy hello
        (some alice)
        (some "bob")
        (pos 101000)
        default_allowed_skew_ms
        cache
        nobody
        true in
    let (replay'', trusted'') = calls toy (other_call ∷ []) replay' trusted' in
    is_ok
      (verify_session_request toy hello
        (some alice)
        (some "bob")
        (pos 102000)
        default_allowed_skew_ms
        replay''
        trusted''
        true).0
    ≡ false
request_accepted_once_example =
    request_accepted_once toy hello (some alice) (some alice) (some "bob") (some "bob") 101000
      102000 (other_call ∷ []) cache nobody true true tt refl (omega arith, omega arith)
      (omega arith) (omega arith) ((omega arith, omega arith), tt) (cc hello_accepted)

accept_accepted_once_example :
    let (r, replay', trusted') =
      verify_session_accept toy welcome
        (some bob)
        (some "s")
        none
        (pos 101000)
        default_allowed_skew_ms
        cache
        nobody
        true in
    let (replay'', trusted'') = calls toy (other_call ∷ []) replay' trusted' in
    is_ok
      (verify_session_accept toy welcome
        (some bob)
        (some "s")
        none
        (pos 102000)
        default_allowed_skew_ms
        replay''
        trusted''
        true).0
    ≡ false
accept_accepted_once_example =
    accept_accepted_once toy welcome (some bob) (some bob) (some "s") (some "s") none none 101000
      102000 (other_call ∷ []) cache nobody true true tt refl (omega arith, omega arith)
      (omega arith) (omega arith) ((omega arith, omega arith), tt) welcome_accepted

-- Over a transport of the other party.
wrong_transport :
    is_ok
      (verify_session_request toy hello
        (some bob)
        (some "bob")
        (pos 101000)
        default_allowed_skew_ms
        cache
        nobody
        true).0
    ≡ false
unfolding verify_session_request from_checked check_request trim string_eq is_skewed abs_i64 sub_i64
    check_and_store Dict.contains_key Dict.retain_values authenticate list_eq
    canonical_session_request_payload party_eq ensure_trusted Dict.lookup
wrong_transport = refl

hello-Checked :
    Checked hello
      (some "bob")
      (pos 101000)
      default_allowed_skew_ms
      (own_identity toy alice "laptop")
unfolding is_skewed abs_i64 sub_i64 trim
hello-Checked = record {
  named = refl;
  coded = refl;
  targeted = λ t h. ground arith;
  long_nonce = omega arith;
  recent = refl;
}

hello_signed : toy.sign alice (canonical_session_request_payload toy hello) ≡ some (1 ∷ some_nonce)
unfolding canonical_session_request_payload
hello_signed = refl

hello_fresh : (check_and_store cache hello.nonce (pos 101000)).0 ≡ ok tt
unfolding check_and_store Dict.contains_key Dict.retain_values
hello_fresh = refl

alice_admitted :
    (ensure_trusted toy nobody "laptop" alice (bytes_of alice) (pos 101000) true).0 ≡ ok true
unfolding ensure_trusted Dict.lookup
alice_admitted = refl

verify-sign_session_request_example :
    (verify_session_request toy
      (sign_session_request toy hello alice).1
      (some alice)
      (some "bob")
      (pos 101000)
      default_allowed_skew_ms
      cache
      nobody
      true).0
    ≡ ok as_alice
verify-sign_session_request_example =
    verify-sign_session_request toy hello alice "laptop" (1 ∷ some_nonce) (some alice) (some "bob")
      (pos 101000) default_allowed_skew_ms cache nobody true true toy-IsLawful hello_signed
      hello-Checked hello_fresh (λ p h. ground arith) alice_admitted
