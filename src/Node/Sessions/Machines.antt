-- ===== src/Node/Sessions/Machines.antt =====
-- The connection state machines that the node keeps: which states they cannot leave.
use aether_link.Base.{
  ℕ, if_both, ◌≡◌, refl, String, Bool, true, false, not, ◌&&◌, Eq, contains, Option, none, some,
  arith,
}
use aether_link.Base.Dict
use aether_link.Base.Dict.{lookup-insert}
use aether_link.Base.Sets.{lookup-update, map_option, unwrap_or}
use aether_link.Connection.{
  ConnectionState, reconnecting, closed, failed, Trigger, start_connect, candidates_found,
  direct_connected, handshake_ok, path_lost, user_hangup, ConnectionStateMachine, apply, ◌▸◌,
}
use aether_link.Security.Crypto.{Crypto}
use aether_link.Node.State.{Net, App}
use aether_link.Node.Sessions.{
  should_auto_request_for_peer, should_send_session_request, is_active_machine, connect,
  default_machine, on_connected, on_disconnected, on_accept, on_auth_failed, notify,
  set_active_session, clear_active_session, forget_peer,
}

-- The states after a loss, a hangup or a failure.
abbrev pub is_over_state : ConnectionState → Bool
is_over_state reconnecting = true
is_over_state closed = true
is_over_state (failed r) = true
is_over_state _ = false

abbrev pub is_over : Option ConnectionStateMachine → Bool
is_over none = false
is_over (some sm) = is_over_state sm.state

-- The triggers that the node applies.
abbrev pub node_trigger : Trigger → Bool
node_trigger start_connect = true
node_trigger candidates_found = true
node_trigger direct_connected = true
node_trigger handshake_ok = true
node_trigger Trigger.auth_failed = true
node_trigger path_lost = true
node_trigger user_hangup = true
node_trigger _ = false

stays_over :
    (sm : ConnectionStateMachine) (t : Trigger)
    → node_trigger t ≡ true
    → is_over_state sm.state ≡ true
    → is_over_state (sm ▸ t).state ≡ true
unfolding apply
stays_over sm t n h = ground arith

connect_over :
    (sm : ConnectionStateMachine)
    → is_over_state sm.state ≡ true
    → is_over_state (connect sm).state ≡ true
connect_over sm h =
    stays_over (sm ▸ start_connect ▸ candidates_found) direct_connected refl
      (stays_over (sm ▸ start_connect) candidates_found refl (stays_over sm start_connect refl h))

notified_over :
    (o : Option ConnectionStateMachine) (t : Trigger)
    → node_trigger t ≡ true
    → is_over o ≡ true
    → is_over (map_option (λ sm. sm ▸ t) o) ≡ true
notified_over none t n h = h
notified_over (some sm) t n h = stays_over sm t n h

connected_over :
    (o : Option ConnectionStateMachine)
    → is_over o ≡ true
    → is_over (some (connect (unwrap_or o default_machine))) ≡ true
connected_over none h = absurd (ground arith)
connected_over (some sm) h = connect_over sm h

not_active : (o : Option ConnectionStateMachine) → is_over o ≡ true → is_active_machine o ≡ false
unfolding is_active_machine
not_active none h = refl
not_active (some sm) h = ground arith

module _ {C : Crypto} {N : Net} ⦃e : Eq C.PeerId⦄ where
  -- The machine of a peer is over.
  abbrev pub PeerIsOver : App C N → C.PeerId → Type 0
  PeerIsOver app peer = is_over (Dict.lookup peer app.sessions) ≡ true

  pub notify_over :
      (app : App C N) (j peer : C.PeerId) (t : Trigger)
      → node_trigger t ≡ true
      → PeerIsOver app j
      → PeerIsOver (notify peer t app) j
  unfolding notify
  notify_over app j peer t n h = ground (
    arith,
    lookup-update j peer (λ sm. sm ▸ t) app.sessions,
    notified_over (Dict.lookup peer app.sessions) t n,
  )

  pub on_connected_over :
      (app : App C N) (j peer : C.PeerId) → PeerIsOver app j → PeerIsOver (on_connected peer app) j
  unfolding on_connected
  on_connected_over app j peer h = ground (
    arith,
    lookup-insert j peer (connect (unwrap_or (Dict.lookup peer app.sessions) default_machine))
        app.sessions,
    connected_over (Dict.lookup peer app.sessions),
  )

  pub on_disconnected_over :
      (app : App C N) (j peer : C.PeerId)
      → PeerIsOver app j
      → PeerIsOver (on_disconnected peer app) j
  unfolding on_disconnected forget_peer clear_active_session
  on_disconnected_over app j peer h =
      notify_over (forget_peer peer app) j peer _
        (if_both (λ t. node_trigger t ≡ true) (contains app.closing_peers peer) refl refl) h

  pub on_accept_over :
      (app : App C N) (j peer : C.PeerId) (session : String) (now : ℕ)
      → PeerIsOver app j
      → PeerIsOver (on_accept peer session now app) j
  unfolding on_accept set_active_session
  on_accept_over app j peer session now h =
      notify_over (set_active_session peer session now app) j peer handshake_ok refl h

  pub on_auth_failed_over :
      (app : App C N) (j peer : C.PeerId)
      → PeerIsOver app j
      → PeerIsOver (on_auth_failed peer app) j
  unfolding on_auth_failed
  on_auth_failed_over app j peer h = notify_over app j peer Trigger.auth_failed refl h

  -- With the machine over, only the settings and a pending request decide whether to send a request: an
  -- active session does not.
  pub over_request :
      (app : App C N) (peer : C.PeerId)
      → PeerIsOver app peer
      → should_send_session_request app peer ≡ (
          should_auto_request_for_peer app peer
          && not (Dict.contains_key peer app.pending_outbound_sessions))
  unfolding should_send_session_request
  over_request app peer h = ground (arith, not_active (Dict.lookup peer app.sessions) h)
