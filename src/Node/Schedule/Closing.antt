-- ===== src/Node/Schedule/Closing.antt =====
-- Which sessions are due for an automatic close.
use aether_link.Base.{◌≡◌, Bool, ◌&&◌, String, Eq, contains, Option, List, [], ◌∷◌, arith}
use aether_link.Base.Dict
use aether_link.Base.Dict.{Dict}
use aether_link.Base.Int.{ℤ, pos, ltb_ℤ}
use aether_link.Base.Sets.{unwrap_or}
use aether_link.Security.Crypto.{Crypto}
use aether_link.Node.State.{Net, App}
use aether_link.Node.Schedule.{is_over, closes, collect_auto_close_actions}

abbrev pub peers_of : {P : Type 0} → List (P × String) → List P
peers_of [] = []
peers_of ((peer, session) ∷ actions) = peer ∷ peers_of actions

-- Whether a session that started then, if it did, has used up its budget.
abbrev pub is_spent : ℤ → ℤ → Option ℤ → Bool
is_spent limit now started = ltb_ℤ (pos 0) limit && is_over limit now (unwrap_or started (pos 0))

contains-closes :
    {P : Type 0} ⦃e : Eq P⦄ (limit now : ℤ) (started : Dict P ℤ) (d : Dict P String) (j : P)
    → contains (peers_of (closes limit now started d)) j
      ≡ (Dict.contains_key j d && is_over limit now (unwrap_or (Dict.lookup j started) (pos 0)))
unfolding closes Dict.contains_key
contains-closes limit now started [] j = ground arith
contains-closes limit now started ((peer, session) ∷ d) j =
    ground (arith, contains-closes limit now started d j)

module _ {C : Crypto} {N : Net} ⦃e : Eq C.PeerId⦄ where
  pub contains-collect_auto_close_actions :
      (app : App C N) (now : ℤ) (j : C.PeerId)
      → contains (peers_of (collect_auto_close_actions app now)) j ≡ (
          Dict.contains_key j app.active_sessions
          && is_spent app.session_auto_close_ms now (Dict.lookup j app.session_started_unix_ms))
  unfolding collect_auto_close_actions
  contains-collect_auto_close_actions app now j = ground (
    arith,
    contains-closes app.session_auto_close_ms now app.session_started_unix_ms app.active_sessions j,
  )
