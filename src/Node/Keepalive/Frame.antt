-- ===== src/Node/Keepalive/Frame.antt =====
-- The keepalive methods change nothing but the keepalive states.
use aether_link.Base.{
  ℕ, if_both, ◌≡◌, refl, ◌||◌, not, string_eq, nat_eq, ◌==◌, option_eq, Bool, Eq, Option, none,
  some, List, String,
}
use aether_link.Base.Dict.{Dict}
use aether_link.Base.Int.{ℤ}
use aether_link.Messages.{ControlPong}
use aether_link.Security.Crypto.{Crypto}
use aether_link.Node.State.{Net, App, ControlKeepaliveState}
use aether_link.Node.Keepalive.{
  is_other, note_pong, note_control_pong, note_failure, note_keepalive_send_failure,
  collect_keepalive_actions,
}

module _ {C : Crypto} {N : Net} where
  abbrev pub with_keepalive : App C N → Dict C.PeerId ControlKeepaliveState → App C N
  with_keepalive app d = record app { control_keepalive = d }

  -- The new state differs from the old in the keepalive states only.
  abbrev pub SameButKeepalive : App C N → App C N → Type 0
  SameButKeepalive app app' = app' ≡ with_keepalive app app'.control_keepalive

module _ {C : Crypto} {N : Net} ⦃e : Eq C.PeerId⦄ where
  note_pong_frame :
      (s : Option String) (st : Option ControlKeepaliveState) (peer : C.PeerId) (pong : ControlPong)
      (now : ℕ) (app : App C N)
      → SameButKeepalive app (note_pong s st peer pong now app).1
  unfolding note_pong
  note_pong_frame none st peer pong now app = refl
  note_pong_frame (some s) none peer pong now app = refl
  note_pong_frame (some s) (some st) peer pong now app =
      if_both (λ (r : Option ℤ × App C N). SameButKeepalive app r.1)
        (not (s == pong.session_id) || is_other st.awaiting_seq pong.seq) refl refl

  pub note_control_pong_frame :
      (peer : C.PeerId) (pong : ControlPong) (now : ℕ) (app : App C N)
      → SameButKeepalive app (note_control_pong peer pong now app).1
  unfolding note_control_pong
  note_control_pong_frame peer pong now app = note_pong_frame _ _ peer pong now app

  note_failure_frame :
      (st : Option ControlKeepaliveState) (peer : C.PeerId) (seq : ℕ) (app : App C N)
      → SameButKeepalive app (note_failure st peer seq app).1
  unfolding note_failure
  note_failure_frame none peer seq app = refl
  note_failure_frame (some st) peer seq app =
      if_both (λ (r : Bool × App C N). SameButKeepalive app r.1) (not (st.awaiting_seq == some seq))
        refl refl

  pub note_keepalive_send_failure_frame :
      (peer : C.PeerId) (seq : ℕ) (app : App C N)
      → SameButKeepalive app (note_keepalive_send_failure peer seq app).1
  unfolding note_keepalive_send_failure
  note_keepalive_send_failure_frame peer seq app = note_failure_frame _ peer seq app

  pub collect_keepalive_actions_frame :
      (app : App C N) (now : ℤ) (peers : List C.PeerId)
      → SameButKeepalive app (collect_keepalive_actions app now peers).1
  unfolding collect_keepalive_actions
  collect_keepalive_actions_frame app now peers = refl
