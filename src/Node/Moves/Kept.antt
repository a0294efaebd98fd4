-- ===== src/Node/Moves/Kept.antt =====
-- What every move of the node keeps.
use aether_link.Base.{ℕ, ◌≡◌, ◌∙◌, ap, refl, sym, subst, Bool, false, String, Eq, some, List, arith}
use aether_link.Base.Dict
use aether_link.Base.Dict.{Dict, NodupKeys, insert-NodupKeys, erase-NodupKeys, lookup-erase}
use aether_link.Base.Int.{ℤ}
use aether_link.Security.Crypto.{Crypto}
use aether_link.Security.Trust.Pinning.{Keeps, Keeps-refl, Keeps-trans, Keeps-same}
use aether_link.Node.State.{Net, App}
use aether_link.Node.Sessions.{on_connected, notify, set_active_session, clear_active_session}
use aether_link.Node.Sessions.Maps.{
  IsAligned, set_active_session-IsAligned, clear_active_session-IsAligned,
}
use aether_link.Node.Sessions.Machines.{PeerIsOver, is_over, notify_over, on_connected_over}
use aether_link.Node.Operations.Aligned.{framed}
use aether_link.Node.Ticks.Attempts.{IsLimited, IsWithin-insert, IsWithin-erase}
use aether_link.Node.Moves.{
  Move, Moves, books, connect, trigger, clear, closing, keepalive, forget, request, check, activate,
  stay, go,
}

module _ (C : Crypto) where
  -- What no handler writes: the identity and the settings.
  pub record Fixed : Type 0 where
    pub local_key : C.Keypair
    pub local_peer_id : C.PeerId
    pub local_device_code : String
    pub auto_request : Bool
    pub trust_store_path : String
    pub trust_on_first_use : Bool
    pub session_request_timeout_ms : ℤ
    pub session_request_max_attempts : ℕ
    pub connect_device_codes : List String

module _ {C : Crypto} {N : Net} where
  abbrev pub fixed_of : App C N → Fixed C
  fixed_of app = record {
    local_key = app.local_key;
    local_peer_id = app.local_peer_id;
    local_device_code = app.local_device_code;
    auto_request = app.auto_request;
    trust_store_path = app.trust_store_path;
    trust_on_first_use = app.trust_on_first_use;
    session_request_timeout_ms = app.session_request_timeout_ms;
    session_request_max_attempts = app.session_request_max_attempts;
    connect_device_codes = app.connect_device_codes;
  }

module _ {C : Crypto} {N : Net} ⦃e : Eq C.PeerId⦄ where
  IsLimited-frame :
      (app app' : App C N)
      → app'.session_request_max_attempts ≡ app.session_request_max_attempts
      → app'.pending_outbound_sessions ≡ app.pending_outbound_sessions
      → IsLimited app
      → IsLimited app'
  IsLimited-frame app app' limit pending l = record {
    allowed = ground (arith, l.allowed);
    single = subst (λ d. NodupKeys d) (sym pending) l.single;
    within = λ j p at. ground (arith, l.within j p);
  }

module _ {C : Crypto} {N : Net} ⦃e : Eq C.PeerId⦄ {opens : Bool} where
  Move-IsAligned : {app app' : App C N} → Move opens app app' → IsAligned app → IsAligned app'
  unfolding on_connected notify
  Move-IsAligned (books b) h = h
  Move-IsAligned (connect peer) h = h
  Move-IsAligned (trigger peer t used) h = h
  Move-IsAligned {app} (clear peer) h = clear_active_session-IsAligned peer app h
  Move-IsAligned (closing peers) h = h
  Move-IsAligned {app} (keepalive app' same keys) h = framed app app' same keys h
  Move-IsAligned (forget peer) h = h
  Move-IsAligned (request peer p fits) h = h
  Move-IsAligned (check may replay trusted keeps) h = h
  Move-IsAligned {app} (activate may peer session now) h =
      set_active_session-IsAligned peer session now app h

  Move-IsLimited : {app app' : App C N} → Move opens app app' → IsLimited app → IsLimited app'
  unfolding on_connected notify clear_active_session set_active_session
  Move-IsLimited {app} {app'} (books b) l = IsLimited-frame app app' refl refl l
  Move-IsLimited {app} {app'} (connect peer) l = IsLimited-frame app app' refl refl l
  Move-IsLimited {app} {app'} (trigger peer t used) l = IsLimited-frame app app' refl refl l
  Move-IsLimited {app} {app'} (clear peer) l = IsLimited-frame app app' refl refl l
  Move-IsLimited {app} {app'} (closing peers) l = IsLimited-frame app app' refl refl l
  Move-IsLimited {app} (keepalive app' same keys) l =
      IsLimited-frame app app' (ap (λ x. x.session_request_max_attempts) same)
        (ap (λ x. x.pending_outbound_sessions) same) l
  Move-IsLimited {app} (forget peer) l = record {
    allowed = l.allowed;
    single = erase-NodupKeys peer app.pending_outbound_sessions l.single;
    within =
        IsWithin-erase app.session_request_max_attempts peer app.pending_outbound_sessions l.within;
  }
  Move-IsLimited {app} (request peer p fits) l = record {
    allowed = l.allowed;
    single = insert-NodupKeys peer p app.pending_outbound_sessions l.single;
    within =
        IsWithin-insert app.session_request_max_attempts app.pending_outbound_sessions peer p
          l.within fits;
  }
  Move-IsLimited {app} {app'} (check may replay trusted keeps) l =
      IsLimited-frame app app' refl refl l
  Move-IsLimited {app} {app'} (activate may peer session now) l =
      IsLimited-frame app app' refl refl l

  pub Moves-IsAligned : {app app' : App C N} → Moves opens app app' → IsAligned app → IsAligned app'
  Moves-IsAligned stay h = h
  Moves-IsAligned (go m step) h = Move-IsAligned step (Moves-IsAligned m h)

  pub Moves-IsLimited : {app app' : App C N} → Moves opens app app' → IsLimited app → IsLimited app'
  Moves-IsLimited stay l = l
  Moves-IsLimited (go m step) l = Move-IsLimited step (Moves-IsLimited m l)

  Move-fixed : {app app' : App C N} → Move opens app app' → fixed_of app' ≡ fixed_of app
  unfolding on_connected notify clear_active_session set_active_session
  Move-fixed (books b) = refl
  Move-fixed (connect peer) = refl
  Move-fixed (trigger peer t used) = refl
  Move-fixed (clear peer) = refl
  Move-fixed (closing peers) = refl
  Move-fixed (keepalive app' same keys) = ap (λ x. fixed_of x) same
  Move-fixed (forget peer) = refl
  Move-fixed (request peer p fits) = refl
  Move-fixed (check may replay trusted keeps) = refl
  Move-fixed (activate may peer session now) = refl

  pub Moves-fixed : {app app' : App C N} → Moves opens app app' → fixed_of app' ≡ fixed_of app
  Moves-fixed stay = refl
  Moves-fixed (go m step) = Move-fixed step ∙ Moves-fixed m

  Move-Keeps :
      {app app' : App C N}
      → Move opens app app'
      → Keeps app.trust_on_first_use app.trusted_peers app'.trusted_peers
  unfolding on_connected notify clear_active_session set_active_session
  Move-Keeps (books b) = Keeps-refl _ _
  Move-Keeps (connect peer) = Keeps-refl _ _
  Move-Keeps (trigger peer t used) = Keeps-refl _ _
  Move-Keeps (clear peer) = Keeps-refl _ _
  Move-Keeps (closing peers) = Keeps-refl _ _
  Move-Keeps (keepalive app' same keys) = Keeps-same _ _ _ (ap (λ x. x.trusted_peers) same)
  Move-Keeps (forget peer) = Keeps-refl _ _
  Move-Keeps (request peer p fits) = Keeps-refl _ _
  Move-Keeps (check may replay trusted keeps) = keeps
  Move-Keeps (activate may peer session now) = Keeps-refl _ _

  pub Moves-Keeps :
      {app app' : App C N}
      → Moves opens app app'
      → Keeps app.trust_on_first_use app.trusted_peers app'.trusted_peers
  Moves-Keeps stay = Keeps-refl _ _
  Moves-Keeps {app} {app'} (go {app' = mid} m step) = Keeps-trans _ _ _ _ (Moves-Keeps m) (
      subst (λ tofu. Keeps tofu mid.trusted_peers app'.trusted_peers)
        (ap (λ x. x.trust_on_first_use) (Moves-fixed m)) (Move-Keeps step))

  Move-over :
      {app app' : App C N} (j : C.PeerId)
      → Move opens app app'
      → PeerIsOver app j
      → PeerIsOver app' j
  unfolding clear_active_session set_active_session
  Move-over j (books b) h = h
  Move-over {app} j (connect peer) h = on_connected_over app j peer h
  Move-over {app} j (trigger peer t used) h = notify_over app j peer t used h
  Move-over j (clear peer) h = h
  Move-over j (closing peers) h = h
  Move-over j (keepalive app' same keys) h = ap (λ x. is_over (Dict.lookup j x.sessions)) same ∙ h
  Move-over j (forget peer) h = h
  Move-over j (request peer p fits) h = h
  Move-over j (check may replay trusted keeps) h = h
  Move-over j (activate may peer session now) h = h

  pub Moves-over :
      {app app' : App C N} (j : C.PeerId)
      → Moves opens app app'
      → PeerIsOver app j
      → PeerIsOver app' j
  Moves-over j stay h = h
  Moves-over j (go m step) h = Move-over j step (Moves-over j m h)

module _ {C : Crypto} {N : Net} ⦃e : Eq C.PeerId⦄ where
  -- A move without leave opens no session and changes no trust.
  pub record Quiet (app app' : App C N) : Type 0 where
    pub same_trust : app'.trusted_peers ≡ app.trusted_peers
    pub no_session :
        (j : C.PeerId) (s : String)
        → Dict.lookup j app'.active_sessions ≡ some s
        → Dict.lookup j app.active_sessions ≡ some s

  Quiet-frame :
      (app app' : App C N)
      → app'.trusted_peers ≡ app.trusted_peers
      → app'.active_sessions ≡ app.active_sessions
      → Quiet app app'
  Quiet-frame app app' trust sessions = record {
    same_trust = trust;
    no_session = λ j s at. ground arith;
  }

  Move-Quiet : {app app' : App C N} → Move false app app' → Quiet app app'
  unfolding on_connected notify clear_active_session
  Move-Quiet {app} {app'} (books b) = Quiet-frame app app' refl refl
  Move-Quiet {app} {app'} (connect peer) = Quiet-frame app app' refl refl
  Move-Quiet {app} {app'} (trigger peer t used) = Quiet-frame app app' refl refl
  Move-Quiet {app} (clear peer) = record {
    same_trust = refl;
    no_session = λ j s at. ground (arith, lookup-erase j peer app.active_sessions);
  }
  Move-Quiet {app} {app'} (closing peers) = Quiet-frame app app' refl refl
  Move-Quiet {app} (keepalive app' same keys) =
      Quiet-frame app app' (ap (λ x. x.trusted_peers) same) (ap (λ x. x.active_sessions) same)
  Move-Quiet {app} {app'} (forget peer) = Quiet-frame app app' refl refl
  Move-Quiet {app} {app'} (request peer p fits) = Quiet-frame app app' refl refl
  Move-Quiet (check may replay trusted keeps) = absurd cc
  Move-Quiet (activate may peer session now) = absurd cc

  pub Moves-Quiet : {app app' : App C N} → Moves false app app' → Quiet app app'
  Moves-Quiet {app} stay = Quiet-frame app app refl refl
  Moves-Quiet (go m step) =
      let q = Moves-Quiet m in
      let q' = Move-Quiet step in
      record {
        same_trust = q'.same_trust ∙ q.same_trust;
        no_session = λ j s at. q.no_session j s (q'.no_session j s at);
      }
