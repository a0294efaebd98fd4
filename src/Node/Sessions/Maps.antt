-- ===== src/Node/Sessions/Maps.antt =====
-- What the session methods do to the three maps of active sessions.
use aether_link.Base.{ℕ, ◌≡◌, Bool, Eq, arith, String}
use aether_link.Base.Dict
use aether_link.Base.Dict.{lookup-insert, lookup-erase}
use aether_link.Base.Int.{as_i64}
use aether_link.Base.Sets.{is_some, unwrap_or}
use aether_link.Security.Crypto.{Crypto}
use aether_link.Node.State.{Net, App, default_keepalive}
use aether_link.Node.Sessions.{
  or_default, set_active_session, clear_active_session, on_disconnected, on_accept, forget_peer,
  notify,
}

module _ {C : Crypto} {N : Net} ⦃e : Eq C.PeerId⦄ where
  -- Whether a peer has an active session, a keepalive state and a start time.
  abbrev pub has_session : App C N → C.PeerId → Bool
  has_session app j = is_some (Dict.lookup j app.active_sessions)

  abbrev pub has_keepalive : App C N → C.PeerId → Bool
  has_keepalive app j = is_some (Dict.lookup j app.control_keepalive)

  abbrev pub has_start : App C N → C.PeerId → Bool
  has_start app j = is_some (Dict.lookup j app.session_started_unix_ms)

  -- The three maps hold the same peers.
  abbrev pub IsAligned : App C N → Type 0
  IsAligned app =
      (j : C.PeerId)
      → (has_session app j ≡ has_keepalive app j) × (has_session app j ≡ has_start app j)

  pub set_active_session-IsAligned :
      (peer : C.PeerId) (session : String) (now : ℕ) (app : App C N)
      → IsAligned app
      → IsAligned (set_active_session peer session now app)
  unfolding set_active_session or_default
  set_active_session-IsAligned peer session now app h j = ground (
    arith,
    h j,
    lookup-insert j peer session app.active_sessions,
    lookup-insert j peer (unwrap_or (Dict.lookup peer app.control_keepalive) default_keepalive)
        app.control_keepalive,
    lookup-insert j peer (as_i64 now) app.session_started_unix_ms,
  )

  pub clear_active_session-IsAligned :
      (peer : C.PeerId) (app : App C N) → IsAligned app → IsAligned (clear_active_session peer app)
  unfolding clear_active_session
  clear_active_session-IsAligned peer app h j = ground (
    arith,
    h j,
    lookup-erase j peer app.active_sessions,
    lookup-erase j peer app.control_keepalive,
    lookup-erase j peer app.session_started_unix_ms,
  )

  pub on_disconnected-IsAligned :
      (peer : C.PeerId) (app : App C N) → IsAligned app → IsAligned (on_disconnected peer app)
  unfolding on_disconnected forget_peer notify
  on_disconnected-IsAligned peer app h =
      clear_active_session-IsAligned peer
        (record app { pending_outbound_sessions = Dict.erase peer app.pending_outbound_sessions }) h

  pub on_accept-IsAligned :
      (peer : C.PeerId) (session : String) (now : ℕ) (app : App C N)
      → IsAligned app
      → IsAligned (on_accept peer session now app)
  unfolding on_accept notify
  on_accept-IsAligned peer session now app h = set_active_session-IsAligned peer session now app h
