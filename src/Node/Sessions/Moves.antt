-- ===== src/Node/Sessions/Moves.antt =====
-- The moves of a closed connection.
use aether_link.Base.{refl, if_both, Bool, Eq, contains}
use aether_link.Base.Sets.{set_remove}
use aether_link.Security.Crypto.{Crypto}
use aether_link.Connection.{path_lost, user_hangup}
use aether_link.Node.State.{Net, App}
use aether_link.Node.Sessions.{on_disconnected, forget_peer, notify}
use aether_link.Node.Moves.{Moves, trigger, clear, closing, forget, stay, go}

module _ {C : Crypto} {N : Net} ⦃e : Eq C.PeerId⦄ {opens : Bool} where
  pub Moves-on_disconnected :
      (peer : C.PeerId) (app : App C N) → Moves opens app (on_disconnected peer app)
  unfolding on_disconnected forget_peer
  Moves-on_disconnected peer app =
      let gone : Moves opens app (forget_peer peer app) =
        go (go (go stay (forget peer)) (clear peer))
          (closing (set_remove peer app.closing_peers)) in
      if_both (λ t. Moves opens app (notify peer t (forget_peer peer app)))
        (contains app.closing_peers peer) {x = user_hangup} {y = path_lost}
        (go gone (trigger peer user_hangup refl)) (go gone (trigger peer path_lost refl))
