-- ===== src/Node/Sessions.antt =====
-- The methods of `App` that follow peers and their sessions. A method that mutates returns the new state;
-- `now` is what `unix_ms()` reads.
pub mod Machines
pub mod Moves
pub mod Maps
use aether_link.Base.{
  ℕ, Bool, true, false, not, ◌&&◌, String, string_eq, Eq, ◌==◌, contains, Option, none, some, List,
  [], ◌∷◌, ◌++◌, map, is_empty, if◌then◌else◌,
}
use aether_link.Base.Dict
use aether_link.Base.Dict.{Dict}
use aether_link.Base.Int.{ℤ, pos, ltb_ℤ, as_i64, sub_i64}
use aether_link.Base.Sets.{set_insert, set_remove, update, unwrap_or}
use aether_link.Connection.{
  ConnectionState, active, Trigger, start_connect, candidates_found, direct_connected, handshake_ok,
  path_lost, user_hangup, ConnectionStateMachine, default_timing, apply, ◌▸◌,
}
use aether_link.Connection
use aether_link.Security.Crypto.{Crypto}
use aether_link.Node.State.{Net, App, ControlKeepaliveState, default_keepalive}

abbrev pub discovery_dial_cooldown_ms : ℤ
discovery_dial_cooldown_ms = pos 2500

-- `ConnectionStateMachine::default()`
abbrev pub default_machine : ConnectionStateMachine
default_machine = Connection.new default_timing

abbrev pub is_active : ConnectionState → Bool
is_active active = true
is_active _ = false

is_active_machine : Option ConnectionStateMachine → Bool
is_active_machine none = false
is_active_machine (some sm) = is_active sm.state

is_cooling : ℕ → Option ℤ → Bool
is_cooling now none = false
is_cooling now (some last) = ltb_ℤ (sub_i64 (as_i64 now) last) discovery_dial_cooldown_ms

-- The three triggers of a new connection; their results are dropped.
abbrev pub connect : ConnectionStateMachine → ConnectionStateMachine
connect sm = sm ▸ start_connect ▸ candidates_found ▸ direct_connected

module _ {P : Type 0} ⦃e : Eq P⦄ where
  -- `entry(peer_id).or_default()` of the keepalive states
  or_default : P → Dict P ControlKeepaliveState → Dict P ControlKeepaliveState
  or_default peer d = Dict.insert peer (unwrap_or (Dict.lookup peer d) default_keepalive) d

module _ {C : Crypto} {N : Net} where
  unfoldable pub note_local_addr : ⦃e : Eq N.Multiaddr⦄ → N.Multiaddr → App C N → App C N
  note_local_addr addr app =
      if contains app.known_local_addrs addr
      then app
      else record app { known_local_addrs = app.known_local_addrs ++ addr ∷ [] }

  unfoldable pub should_auto_request_for_peer : App C N → C.PeerId → Bool
  should_auto_request_for_peer app peer =
      if not app.auto_request
      then false
      else if is_empty app.connect_device_codes
      then true
      else contains app.connect_device_codes (C.peer_to_string peer)

module _ {C : Crypto} {N : Net} ⦃e : Eq C.PeerId⦄ where
  unfoldable pub should_send_session_request : App C N → C.PeerId → Bool
  unfolding should_auto_request_for_peer is_active_machine
  should_send_session_request app peer =
      if not (should_auto_request_for_peer app peer)
      then false
      else if Dict.contains_key peer app.pending_outbound_sessions
      then false
      else not (is_active_machine (Dict.lookup peer app.sessions))

  unfoldable pub set_active_session : C.PeerId → String → ℕ → App C N → App C N
  unfolding or_default
  set_active_session peer session_id now app = record app {
    active_sessions = Dict.insert peer session_id app.active_sessions;
    control_keepalive = or_default peer app.control_keepalive;
    session_started_unix_ms = Dict.insert peer (as_i64 now) app.session_started_unix_ms;
    closing_peers = set_remove peer app.closing_peers;
  }

  unfoldable pub clear_active_session : C.PeerId → App C N → App C N
  clear_active_session peer app = record app {
    active_sessions = Dict.erase peer app.active_sessions;
    control_keepalive = Dict.erase peer app.control_keepalive;
    session_started_unix_ms = Dict.erase peer app.session_started_unix_ms;
  }

  unfoldable pub mark_graceful_closing : C.PeerId → App C N → App C N
  mark_graceful_closing peer app = record app { closing_peers = set_insert peer app.closing_peers }

  -- `is_connected` is the swarm's.
  unfoldable pub can_attempt_discovery_dial : (C.PeerId → Bool) → App C N → C.PeerId → ℕ → Bool
  unfolding is_cooling
  can_attempt_discovery_dial is_connected app peer now =
      if is_connected peer
      then false
      else if Dict.contains_key peer app.pending_outbound_sessions
      then false
      else not (is_cooling now (Dict.lookup peer app.last_peer_dial_unix_ms))

  unfoldable pub mark_discovery_dial_attempt : C.PeerId → ℕ → App C N → App C N
  mark_discovery_dial_attempt peer now app = record app {
    last_peer_dial_unix_ms = Dict.insert peer (as_i64 now) app.last_peer_dial_unix_ms;
  }

  unfoldable pub on_connected : C.PeerId → App C N → App C N
  on_connected peer app = record app {
    sessions =
        Dict.insert peer (connect (unwrap_or (Dict.lookup peer app.sessions) default_machine))
          app.sessions;
  }

  -- `if let Some(sm) = self.sessions.get_mut(&peer_id) { let _ = sm.apply(trigger); }`
  unfoldable pub notify : C.PeerId → Trigger → App C N → App C N
  notify peer trigger app = record app { sessions = update peer (λ sm. sm ▸ trigger) app.sessions }

  forget_peer : C.PeerId → App C N → App C N
  unfolding clear_active_session
  forget_peer peer app =
      let app' = clear_active_session peer (record app {
        pending_outbound_sessions = Dict.erase peer app.pending_outbound_sessions;
      }) in
      record app' { closing_peers = set_remove peer app'.closing_peers }

  unfoldable pub on_disconnected : C.PeerId → App C N → App C N
  unfolding forget_peer notify
  on_disconnected peer app =
      let graceful = contains app.closing_peers peer in
      notify peer (if graceful then user_hangup else path_lost) (forget_peer peer app)

  unfoldable pub on_accept : C.PeerId → String → ℕ → App C N → App C N
  unfolding set_active_session notify
  on_accept peer session_id now app =
      notify peer handshake_ok (set_active_session peer session_id now app)

  unfoldable pub on_auth_failed : C.PeerId → App C N → App C N
  unfolding notify
  on_auth_failed peer app = notify peer Trigger.auth_failed app
