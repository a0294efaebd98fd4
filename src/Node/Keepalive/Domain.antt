-- ===== src/Node/Keepalive/Domain.antt =====
-- The keepalive methods keep the peers that have a keepalive state.
use aether_link.Base.{
  ℕ, if_both, ◌≡◌, refl, sym, ◌∙◌, ◌||◌, not, string_eq, nat_eq, ◌==◌, option_eq, true, Bool, Eq,
  Option, none, some, List, [], ◌∷◌, All, arith, String,
}
use aether_link.Base.Dict
use aether_link.Base.Dict.{Dict, lookup-insert}
use aether_link.Base.Int.{ℤ}
use aether_link.Base.Sets.{is_some, unwrap_or, HasKey, HasKey-All}
use aether_link.Messages.{ControlPong}
use aether_link.Security.Crypto.{Crypto}
use aether_link.Node.State.{Net, App, ControlKeepaliveState, default_keepalive}
use aether_link.Node.Keepalive.{
  Limits, limits_of, tick_peer, round, is_other, note_pong, note_control_pong, note_failure,
  note_keepalive_send_failure, collect_keepalive_actions,
}

module _ {P : Type 0} ⦃e : Eq P⦄ where
  abbrev pub SameKeys : Dict P ControlKeepaliveState → Dict P ControlKeepaliveState → Type 0
  SameKeys d d' = (j : P) → is_some (Dict.lookup j d') ≡ is_some (Dict.lookup j d)

  SameKeys-insert :
      (d : Dict P ControlKeepaliveState) (k : P) (v : ControlKeepaliveState)
      → is_some (Dict.lookup k d) ≡ true
      → SameKeys d (Dict.insert k v d)
  SameKeys-insert d k v h j = ground (arith, lookup-insert j k v d)

  -- The peers of `active` have a state.
  abbrev Covered : Dict P ControlKeepaliveState → Dict P String → Type 0
  Covered d active = All (λ (kv : P × String). is_some (Dict.lookup kv.0 d) ≡ true) active

  Covered-SameKeys :
      (d d' : Dict P ControlKeepaliveState) (active : Dict P String)
      → SameKeys d d'
      → Covered d active
      → Covered d' active
  Covered-SameKeys d d' [] same h = tt
  Covered-SameKeys d d' ((k, s) ∷ active) same (h, hs) =
      (same k ∙ h, Covered-SameKeys d d' active same hs)

  round-SameKeys :
      (limits : Limits) (now : ℤ) (connected : List P) (active : Dict P String)
      (d : Dict P ControlKeepaliveState)
      → Covered d active
      → SameKeys d (round limits now connected active d).states
  unfolding round
  round-SameKeys limits now connected [] d h j = refl
  round-SameKeys limits now connected ((peer, session) ∷ active) d (h, hs) j =
      let state = (tick_peer limits now (unwrap_or (Dict.lookup peer d) default_keepalive)).state in
      let seen =
        round-SameKeys limits now connected active (Dict.insert peer state d)
          (Covered-SameKeys d _ active (SameKeys-insert d peer state h) hs) j in
      let unseen = round-SameKeys limits now connected active d hs j in
      ground (arith, seen, unseen, SameKeys-insert d peer state h j)

  Covered-of :
      (active xs : Dict P String) (d : Dict P ControlKeepaliveState)
      → ((j : P) → is_some (Dict.lookup j active) ≡ is_some (Dict.lookup j d))
      → All (HasKey active) xs
      → Covered d xs
  Covered-of active [] d same h = tt
  Covered-of active ((k, s) ∷ xs) d same (h, hs) =
      (sym (same k) ∙ h, Covered-of active xs d same hs)

module _ {C : Crypto} {N : Net} ⦃e : Eq C.PeerId⦄ where
  pub collect-SameKeys :
      (app : App C N) (now : ℤ) (peers : List C.PeerId)
      → ((j : C.PeerId)
          → is_some (Dict.lookup j app.active_sessions)
            ≡ is_some (Dict.lookup j app.control_keepalive))
      → SameKeys app.control_keepalive (collect_keepalive_actions app now peers).1.control_keepalive
  unfolding collect_keepalive_actions
  collect-SameKeys app now peers same =
      round-SameKeys (limits_of app) now peers app.active_sessions app.control_keepalive (
        Covered-of app.active_sessions app.active_sessions app.control_keepalive same
          (HasKey-All app.active_sessions))

  pong-SameKeys :
      (s : Option String) (st : Option ControlKeepaliveState) (peer : C.PeerId) (pong : ControlPong)
      (now : ℕ) (app : App C N)
      → Dict.lookup peer app.control_keepalive ≡ st
      → SameKeys app.control_keepalive (note_pong s st peer pong now app).1.control_keepalive
  unfolding note_pong
  pong-SameKeys none st peer pong now app h = λ j. refl
  pong-SameKeys (some s) none peer pong now app h = λ j. refl
  pong-SameKeys (some s) (some st) peer pong now app h =
      if_both (λ (r : Option ℤ × App C N). SameKeys app.control_keepalive r.1.control_keepalive)
        (not (s == pong.session_id) || is_other st.awaiting_seq pong.seq) (λ j. refl)
        (SameKeys-insert app.control_keepalive peer _ (ground arith))

  pub note_control_pong-SameKeys :
      (peer : C.PeerId) (pong : ControlPong) (now : ℕ) (app : App C N)
      → SameKeys app.control_keepalive (note_control_pong peer pong now app).1.control_keepalive
  unfolding note_control_pong
  note_control_pong-SameKeys peer pong now app = pong-SameKeys _ _ peer pong now app refl

  failure-SameKeys :
      (st : Option ControlKeepaliveState) (peer : C.PeerId) (seq : ℕ) (app : App C N)
      → Dict.lookup peer app.control_keepalive ≡ st
      → SameKeys app.control_keepalive (note_failure st peer seq app).1.control_keepalive
  unfolding note_failure
  failure-SameKeys none peer seq app h = λ j. refl
  failure-SameKeys (some st) peer seq app h =
      if_both (λ (r : Bool × App C N). SameKeys app.control_keepalive r.1.control_keepalive)
        (not (st.awaiting_seq == some seq)) (λ j. refl)
        (SameKeys-insert app.control_keepalive peer _ (ground arith))

  pub send_failure-SameKeys :
      (peer : C.PeerId) (seq : ℕ) (app : App C N)
      → SameKeys app.control_keepalive
          (note_keepalive_send_failure peer seq app).1.control_keepalive
  unfolding note_keepalive_send_failure
  send_failure-SameKeys peer seq app = failure-SameKeys _ peer seq app refl
