-- ===== src/Security/Verify/Single.antt =====
-- No signed session message is accepted twice, and what a refused one leaves behind.
use aether_link.Base.{
  ℕ, ◌≤◌, ◌<◌, ◌^◌, ◌≡◌, refl, ◌∙◌, Bool, true, false, String, Eq, Option, List, [], ◌∷◌, Result,
  ok, err, is_ok, All, ap, ◌⊎◌, Bool-cases, inl, inr, arith,
}
use aether_link.Base.Int.{ℤ, pos, IsI64}
use aether_link.Messages.{Bytes, DeviceIdentity, SessionRequest, SessionAccept}
use aether_link.Security.Crypto.{Crypto}
use aether_link.Security.Errors.{SessionAuthError, replay_detected}
use aether_link.Security.Replay.{NonceReplayCache, check_and_store, default_replay_retention_ms}
use aether_link.Security.Replay.Window.{IsCache, UpTo, checks, accepted_once}
use aether_link.Security.Trust.{TrustedPeers, ensure_trusted}
use aether_link.Security.Verify.{
  Verdict, is_skewed, check_request, check_accept, from_checked, verify_session_request,
  verify_session_accept, default_allowed_skew_ms,
}
use aether_link.Security.Verify.Skew.{skew_pair}

recent_request :
    (request : SessionRequest) (expected : Option String) (now allowed : ℤ)
    → is_ok (check_request request expected now allowed) ≡ true
    → is_skewed now request.unix_ms allowed ≡ false
unfolding check_request
recent_request request expected now allowed h = ground arith

recent_accept :
    (accept : SessionAccept) (session : Option String) (expected : Option Bytes) (now allowed : ℤ)
    → is_ok (check_accept accept session expected now allowed) ≡ true
    → is_skewed now accept.unix_ms allowed ≡ false
unfolding check_accept
recent_accept accept session expected now allowed h = ground arith

UpTo-mono :
    {last until : ℕ} (ns : List (Bytes × ℕ))
    → last ≤ until
    → All (UpTo last) ns
    → All (UpTo until) ns
UpTo-mono [] h all = tt
UpTo-mono (n ∷ ns) h ((clock, up), all) = ((clock, omega arith), UpTo-mono ns h all)

module _ (C : Crypto) ⦃e : Eq C.PeerId⦄ where
  -- A call with the checked sender, as both functions make it.
  module _ (nonce payload signature : Bytes) (transport : Option C.PeerId) (now : ℤ) (tofu : Bool)
      (replay : NonceReplayCache) (trusted : TrustedPeers) where
    abbrev out :
        Result SessionAuthError DeviceIdentity → Verdict C × NonceReplayCache × TrustedPeers
    out r = from_checked C nonce payload signature transport now tofu replay trusted r

    cache_after :
        (r : Result SessionAuthError DeviceIdentity)
        → ((out r).1 ≡ replay) ⊎ ((out r).1 ≡ (check_and_store replay nonce now).1)
    unfolding from_checked
    cache_after (err x) = inl refl
    cache_after (ok from) = inr (ground arith)

    cache_stored :
        (r : Result SessionAuthError DeviceIdentity)
        → is_ok r ≡ true
        → (out r).1 ≡ (check_and_store replay nonce now).1
    unfolding from_checked
    cache_stored (err x) h = cc
    cache_stored (ok from) h = ground arith

    accepted_needs :
        (r : Result SessionAuthError DeviceIdentity)
        → is_ok (out r).0 ≡ true
        → (is_ok r ≡ true) × ((check_and_store replay nonce now).0 ≡ ok tt)
    unfolding from_checked
    accepted_needs (err x) h = absurd (ground arith)
    accepted_needs (ok from) h = (refl, ground arith)

    refused_keeps_trust :
        (r : Result SessionAuthError DeviceIdentity) → is_ok (out r).0 ≡ false → (out r).2 ≡ trusted
    unfolding from_checked ensure_trusted
    refused_keeps_trust (err x) h = refl
    refused_keeps_trust (ok from) h = ground arith

  -- A call of either function, with its time; the window is the default one.
  pub data Call : Type 0 where
    request_call : SessionRequest → Option C.PeerId → Option String → ℕ → Bool → Call
    accept_call : SessionAccept → Option C.PeerId → Option String → Option Bytes → ℕ → Bool → Call

  abbrev pub call_time : Call → ℕ
  call_time (request_call _ _ _ now _) = now
  call_time (accept_call _ _ _ _ now _) = now

  pub call : Call → NonceReplayCache → TrustedPeers → Verdict C × NonceReplayCache × TrustedPeers
  call (request_call request transport expected now tofu) replay trusted =
      verify_session_request C request transport expected (pos now) default_allowed_skew_ms replay
        trusted tofu
  call (accept_call accept transport session expected now tofu) replay trusted =
      verify_session_accept C accept transport session expected (pos now) default_allowed_skew_ms
        replay trusted tofu

  -- The caches after calls, whatever their verdicts.
  pub calls : List Call → NonceReplayCache → TrustedPeers → NonceReplayCache × TrustedPeers
  calls [] replay trusted = (replay, trusted)
  calls (c ∷ cs) replay trusted =
      let (r, replay', trusted') = call c replay trusted in calls cs replay' trusted'

  abbrev pub CallUpTo : ℕ → Call → Type 0
  CallUpTo last c = (call_time c < 2 ^ 62) × (call_time c ≤ last)

  -- What a call does to the cache.
  call_nonce : Call → Bytes
  call_nonce (request_call request _ _ _ _) = request.nonce
  call_nonce (accept_call accept _ _ _ _ _) = accept.nonce

  call_cases :
      (c : Call) (replay : NonceReplayCache) (trusted : TrustedPeers)
      → ((call c replay trusted).1 ≡ replay)
        ⊎ ((call c replay trusted).1
            ≡ (check_and_store replay (call_nonce c) (pos (call_time c))).1)
  unfolding call call_nonce verify_session_request verify_session_accept
  call_cases (request_call request transport expected now tofu) replay trusted =
      cache_after request.nonce _ _ transport (pos now) tofu replay trusted _
  call_cases (accept_call accept transport session expected now tofu) replay trusted =
      cache_after accept.nonce _ _ transport (pos now) tofu replay trusted _

  calls-checks :
      (last : ℕ) (cs : List Call) (replay : NonceReplayCache) (trusted : TrustedPeers)
      → All (CallUpTo last) cs
      → (ns : List (Bytes × ℕ)) × All (UpTo last) ns
        × ((calls cs replay trusted).0 ≡ checks replay ns)
  unfolding calls checks
  calls-checks last [] replay trusted h = ([], tt, refl)
  calls-checks last (c ∷ cs) replay trusted ((hc, hl), h) =
      let (r, replay', trusted') = call c replay trusted in
      let (ns, all, eq) = calls-checks last cs replay' trusted' h in
      elim (call_cases c replay trusted) [
        | inl same ↦ (ns, all, eq ∙ ap (λ x. checks x ns) same)
        | inr stored ↦ (
          (call_nonce c, call_time c) ∷ ns,
          ((omega arith, hl), all),
          eq ∙ ap (λ x. checks x ns) stored,
        )
      ]

  -- Between two calls of one message: `first` and `second` are the times, and both pass the window.
  second_refused :
      (nonce : Bytes) (unix_ms : ℤ) (first second : ℕ) (between : List Call)
      (replay : NonceReplayCache) (trusted : TrustedPeers)
      → IsCache replay
      → replay.retention_ms ≡ default_replay_retention_ms
      → IsI64 unix_ms
      → first < 2 ^ 62
      → second < 2 ^ 62
      → All (CallUpTo second) between
      → (check_and_store replay nonce (pos first)).0 ≡ ok tt
      → is_skewed (pos first) unix_ms default_allowed_skew_ms ≡ false
      → is_skewed (pos second) unix_ms default_allowed_skew_ms ≡ false
      → (check_and_store
          (calls between (check_and_store replay nonce (pos first)).1 trusted).0
          nonce
          (pos second)).0
        ≡ err replay_detected
  second_refused nonce unix_ms first second between replay trusted cache retention ranged hf hs up
        stored p q =
      let near = skew_pair first second unix_ms 30000 hf hs (omega arith) ranged p q in
      let (ns, all, eq) =
        calls-checks second between (check_and_store replay nonce (pos first)).1 trusted up in
      rw eq (
        accepted_once replay nonce first 60000 second ns cache retention (omega arith) stored
          (UpTo-mono ns near all) (omega arith) near)

  module _ (nonce : Bytes) (unix_ms : ℤ) (first second : ℕ) (between : List Call)
      (replay : NonceReplayCache) (trusted : TrustedPeers) (cache : IsCache replay)
      (retention : replay.retention_ms ≡ default_replay_retention_ms) (ranged : IsI64 unix_ms)
      (hf : first < 2 ^ 62) (hs : second < 2 ^ 62) (up : All (CallUpTo second) between) where
    again_refused :
        (p s p' s' : Bytes) (t t' : Option C.PeerId) (tofu tofu' : Bool)
        (r r' : Result SessionAuthError DeviceIdentity)
        → (is_ok r ≡ true → is_skewed (pos first) unix_ms default_allowed_skew_ms ≡ false)
        → (is_ok r' ≡ true → is_skewed (pos second) unix_ms default_allowed_skew_ms ≡ false)
        → let (v, replay', trusted') = out nonce p s t (pos first) tofu replay trusted r in
          let (replay'', trusted'') = calls between replay' trusted' in
          is_ok v ≡ true
          → is_ok (out nonce p' s' t' (pos second) tofu' replay'' trusted'' r').0 ≡ false
    again_refused p s p' s' t t' tofu tofu' r r' near near' accepted =
        let (checked, fresh) =
          accepted_needs nonce p s t (pos first) tofu replay trusted r accepted in
        let stored = cache_stored nonce p s t (pos first) tofu replay trusted r checked in
        let trusted' = (out nonce p s t (pos first) tofu replay trusted r).2 in
        let after = calls between (out nonce p s t (pos first) tofu replay trusted r).1 trusted' in
        elim (Bool-cases (is_ok (out nonce p' s' t' (pos second) tofu' after.0 after.1 r').0)) [
          | inl again ↦
              let (checked', fresh') =
                accepted_needs nonce p' s' t' (pos second) tofu' after.0 after.1 r' again in
              let refused =
                second_refused nonce unix_ms first second between replay trusted' cache retention
                  ranged hf hs up fresh (near checked) (near' checked') in
              absurd (cc (fresh', refused, stored))
          | inr refused ↦ refused
        ]

  -- An accepted request is refused, with whatever transport, target and trust policy it is presented again,
  -- at every time that is not before any call in between, whatever these calls are: under the default
  -- retention and window, and a clock below 2 ^ 62.
  pub request_accepted_once :
      (request : SessionRequest) (transport transport' : Option C.PeerId)
      (target target' : Option String) (first second : ℕ) (between : List Call)
      (replay : NonceReplayCache) (trusted : TrustedPeers) (tofu tofu' : Bool)
      → IsCache replay
      → replay.retention_ms ≡ default_replay_retention_ms
      → IsI64 request.unix_ms
      → first < 2 ^ 62
      → second < 2 ^ 62
      → All (CallUpTo second) between
      → let (r, replay', trusted') =
          verify_session_request C request transport target
            (pos first)
            default_allowed_skew_ms
            replay
            trusted
            tofu in
        let (replay'', trusted'') = calls between replay' trusted' in
        is_ok r ≡ true
        → is_ok
            (verify_session_request C request transport' target'
              (pos second)
              default_allowed_skew_ms
              replay''
              trusted''
              tofu').0
          ≡ false
  unfolding verify_session_request
  request_accepted_once request transport transport' target target' first second between replay
        trusted tofu tofu' cache retention ranged hf hs up accepted =
      again_refused request.nonce request.unix_ms first second between replay trusted cache
        retention ranged hf hs up _ _ _ _ transport transport' tofu tofu' _ _
        (recent_request request target (pos first) default_allowed_skew_ms)
        (recent_request request target' (pos second) default_allowed_skew_ms) accepted

  -- The same for an accepted response: it is refused when it is presented again, whatever session and
  -- request nonce are expected of it.
  pub accept_accepted_once :
      (accept : SessionAccept) (transport transport' : Option C.PeerId)
      (session session' : Option String) (expected expected' : Option Bytes) (first second : ℕ)
      (between : List Call) (replay : NonceReplayCache) (trusted : TrustedPeers) (tofu tofu' : Bool)
      → IsCache replay
      → replay.retention_ms ≡ default_replay_retention_ms
      → IsI64 accept.unix_ms
      → first < 2 ^ 62
      → second < 2 ^ 62
      → All (CallUpTo second) between
      → let (r, replay', trusted') =
          verify_session_accept C accept transport session expected
            (pos first)
            default_allowed_skew_ms
            replay
            trusted
            tofu in
        let (replay'', trusted'') = calls between replay' trusted' in
        is_ok r ≡ true
        → is_ok
            (verify_session_accept C accept transport' session' expected'
              (pos second)
              default_allowed_skew_ms
              replay''
              trusted''
              tofu').0
          ≡ false
  unfolding verify_session_accept
  accept_accepted_once accept transport transport' session session' expected expected' first second
        between replay trusted tofu tofu' cache retention ranged hf hs up accepted =
      again_refused accept.nonce accept.unix_ms first second between replay trusted cache retention
        ranged hf hs up _ _ _ _ transport transport' tofu tofu' _ _
        (recent_accept accept session expected (pos first) default_allowed_skew_ms)
        (recent_accept accept session' expected' (pos second) default_allowed_skew_ms) accepted

  -- A refused request leaves the trust store as it was.
  refused_request_keeps_trust :
      (request : SessionRequest) (transport : Option C.PeerId) (target : Option String)
      (now allowed : ℤ) (replay : NonceReplayCache) (trusted : TrustedPeers) (tofu : Bool)
      → let (r, replay', trusted') =
          verify_session_request C request transport target now allowed replay trusted tofu in
        is_ok r ≡ false → trusted' ≡ trusted
  unfolding verify_session_request
  refused_request_keeps_trust request transport target now allowed replay trusted tofu h =
      refused_keeps_trust request.nonce _ _ transport now tofu replay trusted _ h
