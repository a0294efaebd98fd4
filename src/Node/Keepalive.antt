-- ===== src/Node/Keepalive.antt =====
-- The keepalive of active sessions: the methods of `App` on `control_keepalive`.
pub mod Frame
pub mod Domain
pub mod Silence
use aether_link.Base.{
  ℕ, Bool, true, false, not, ◌||◌, String, string_eq, nat_eq, Eq, ◌==◌, option_eq, contains, Option,
  none, some, List, [], ◌∷◌, if◌then◌else◌, leb,
}
use aether_link.Base.Dict
use aether_link.Base.Dict.{Dict}
use aether_link.Base.Int.{ℤ, ltb_ℤ, leb_ℤ, as_i64, saturating_sub_i64, saturating_add}
use aether_link.Base.Sets.{unwrap_or}
use aether_link.Messages.{ControlPong}
use aether_link.Security.Crypto.{Crypto}
use aether_link.Node.State.{Net, App, ControlKeepaliveState, default_keepalive}

-- Another ping is awaited than the one that the pong answers.
is_other : Option ℕ → ℕ → Bool
is_other none seq = false
is_other (some expected) seq = not (expected == seq)

abbrev pub answered : ControlKeepaliveState → ControlKeepaliveState
answered st = record st {
  awaiting_seq = none;
  awaiting_since_unix_ms = none;
  consecutive_misses = 0;
}

-- A ping that stays without its pong.
abbrev pub missed : ControlKeepaliveState → ControlKeepaliveState
missed st = record st {
  awaiting_seq = none;
  awaiting_since_unix_ms = none;
  consecutive_misses = saturating_add 32 st.consecutive_misses 1;
}

module _ {C : Crypto} {N : Net} ⦃e : Eq C.PeerId⦄ where
  abbrev put_keepalive : C.PeerId → ControlKeepaliveState → App C N → App C N
  put_keepalive peer st app = record app {
    control_keepalive = Dict.insert peer st app.control_keepalive;
  }

  note_pong :
      Option String
      → Option ControlKeepaliveState
      → C.PeerId
      → ControlPong
      → ℕ
      → App C N
      → Option ℤ × App C N
  unfolding is_other
  note_pong none st peer pong now app = (none, app)
  note_pong (some session) none peer pong now app = (none, app)
  note_pong (some session) (some st) peer pong now app =
      if not (session == pong.session_id) || is_other st.awaiting_seq pong.seq
      then (none, app)
      else (
        some (saturating_sub_i64 (as_i64 now) (as_i64 pong.echo_send_unix_ms)),
        put_keepalive peer (answered st) app,
      )

  -- The round trip time, if the pong is accepted.
  unfoldable pub note_control_pong : C.PeerId → ControlPong → ℕ → App C N → Option ℤ × App C N
  unfolding note_pong
  note_control_pong peer pong now app =
      note_pong (Dict.lookup peer app.active_sessions) (Dict.lookup peer app.control_keepalive) peer
        pong now app

  note_failure : Option ControlKeepaliveState → C.PeerId → ℕ → App C N → Bool × App C N
  note_failure none peer seq app = (false, app)
  note_failure (some st) peer seq app =
      if not (st.awaiting_seq == some seq) then (false, app) else (
        leb app.control_keepalive_max_misses (missed st).consecutive_misses,
        put_keepalive peer (missed st) app,
      )

  -- Whether the misses have reached their limit.
  unfoldable pub note_keepalive_send_failure : C.PeerId → ℕ → App C N → Bool × App C N
  unfolding note_failure
  note_keepalive_send_failure peer seq app =
      note_failure (Dict.lookup peer app.control_keepalive) peer seq app

-- What a tick does for one peer: its state, whether it is lost, and the number of the ping to send.
pub record Tick : Type 0 where
  pub state : ControlKeepaliveState
  pub lost : Bool
  pub ping : Option ℕ

-- The interval and the timeout in milliseconds, and the limit of the misses.
pub record Limits : Type 0 where
  pub interval_ms : ℤ
  pub timeout_ms : ℤ
  pub max_misses : ℕ

module _ (limits : Limits) (now : ℤ) where
  -- The second part of the loop's body.
  next_ping : Bool → ControlKeepaliveState → Tick
  next_ping lost st =
      if ltb_ℤ (saturating_sub_i64 now st.last_send_unix_ms) limits.interval_ms
      then record { state = st; lost = lost; ping = none }
      else let seq = saturating_add 64 st.next_seq 1 in
        record {
          state = record st {
            next_seq = seq;
            last_send_unix_ms = now;
            awaiting_seq = some seq;
            awaiting_since_unix_ms = some now;
          };
          lost = lost;
          ping = some seq;
        }

  tick_since : Option ℤ → ControlKeepaliveState → Tick
  unfolding next_ping
  tick_since none st = next_ping false st
  tick_since (some since) st =
      if leb_ℤ limits.timeout_ms (saturating_sub_i64 now since)
      then next_ping (leb limits.max_misses (missed st).consecutive_misses) (missed st)
      else record { state = st; lost = false; ping = none }

  unfoldable pub tick_peer : ControlKeepaliveState → Tick
  unfolding tick_since
  tick_peer st = tick_since st.awaiting_since_unix_ms st

-- The keepalive states, the pings to send and the lost peers, for the type P of peer ids.
pub record Round (P : Type 0) : Type 0 where
  pub states : Dict P ControlKeepaliveState
  pub send_actions : List (P × String × ℕ)
  pub lost_peers : List P

add_ping : {P : Type 0} → P → String → Option ℕ → List (P × String × ℕ) → List (P × String × ℕ)
add_ping peer session none rest = rest
add_ping peer session (some seq) rest = (peer, session, seq) ∷ rest

module _ {P : Type 0} ⦃e : Eq P⦄ where
  -- The loop over a copy of the active sessions.
  round : Limits → ℤ → List P → Dict P String → Dict P ControlKeepaliveState → Round P
  unfolding tick_peer add_ping
  round limits now connected [] d = record { states = d; send_actions = []; lost_peers = [] }
  round limits now connected ((peer, session) ∷ active) d =
      let tick = tick_peer limits now (unwrap_or (Dict.lookup peer d) default_keepalive) in
      let rest =
        round limits now connected active
          (if contains connected peer then Dict.insert peer tick.state d else d) in
      if contains connected peer
      then record {
        states = rest.states;
        send_actions = add_ping peer session tick.ping rest.send_actions;
        lost_peers = if tick.lost then peer ∷ rest.lost_peers else rest.lost_peers;
      }
      else rest

module _ {C : Crypto} ⦃e : Eq C.PeerId⦄ where
  abbrev pub limits_of : {N : Net} → App C N → Limits
  limits_of app = record {
    interval_ms = app.control_keepalive_interval_ms;
    timeout_ms = app.control_keepalive_timeout_ms;
    max_misses = app.control_keepalive_max_misses;
  }

  -- The pings to send and the lost peers, beside the new state.
  unfoldable pub collect_keepalive_actions :
      {N : Net}
      → App C N
      → ℤ
      → List C.PeerId
      → (List (C.PeerId × String × ℕ) × List C.PeerId) × App C N
  unfolding round
  collect_keepalive_actions app now connected =
      let r = round (limits_of app) now connected app.active_sessions app.control_keepalive in
      ((r.send_actions, r.lost_peers), record app { control_keepalive = r.states })
