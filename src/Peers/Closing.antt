-- ===== src/Peers/Closing.antt =====
-- Which peer connections of plugin/node/peer-manager.ts are closed.
use openclaw_rtc_plugin.Common.{
  ℕ, ◌+◌, ◌==◌, String, ◌≡◌, refl, Option, none, some, List, [], ◌∷◌, ◌++◌, arith,
}
use openclaw_rtc_plugin.Common.Maps.{lookup, keys, count, to_ℕ, count-insert, count-erase}
use openclaw_rtc_plugin.Peers.{
  RtcPeerManager, Effect, peer_stored, peer_closed, new, Acted, accept_call, start_delayed_loopback,
  drop_loopback, drop_peer, and_then, close_peer, close_each, close_all,
}

pub data Event : Type 0 where
  accepted : String → ℕ → Event
  looped : String → ℕ → Event
  closed : String → Event
  all_closed : Event

unfoldable pub happen : Event → RtcPeerManager → Acted
happen (accepted id pc) m = accept_call id pc m
happen (looped id timer) m = start_delayed_loopback id timer m
happen (closed id) m = close_peer id m
happen all_closed m = close_all m

-- A call is accepted once at a time.
abbrev pub IsFree : Event → RtcPeerManager → Type 0
IsFree (accepted id pc) m = lookup id m.peers ≡ none
IsFree _ m = Unit

-- The managers that some events lead to, and what was done on the way.
pub data Run : RtcPeerManager → List Effect → Type 0 where
  begin : Run new []
  then_event :
      {m : RtcPeerManager} {es : List Effect}
      → Run m es
      → (e : Event) → IsFree e m
      → Run (happen e m).0 (es ++ (happen e m).1)

abbrev stored_of : ℕ → Effect → ℕ
stored_of pc (peer_stored q) = to_ℕ (q == pc)
stored_of pc _ = 0

abbrev closed_of : ℕ → Effect → ℕ
closed_of pc (peer_closed q) = to_ℕ (q == pc)
closed_of pc _ = 0

unfoldable pub stored : ℕ → List Effect → ℕ
stored pc [] = 0
stored pc (e ∷ es) = stored_of pc e + stored pc es

unfoldable pub closes : ℕ → List Effect → ℕ
closes pc [] = 0
closes pc (e ∷ es) = closed_of pc e + closes pc es

-- How many calls have the connection.
unfoldable pub held : ℕ → RtcPeerManager → ℕ
held pc m = count (λ q. q == pc) m.peers

stored-append : (pc : ℕ) (es fs : List Effect) → stored pc (es ++ fs) ≡ stored pc es + stored pc fs
unfolding stored
stored-append pc [] fs = omega arith
stored-append pc (e ∷ es) fs = omega (arith, stored-append pc es fs)

closes-append : (pc : ℕ) (es fs : List Effect) → closes pc (es ++ fs) ≡ closes pc es + closes pc fs
unfolding closes
closes-append pc [] fs = omega arith
closes-append pc (e ∷ es) fs = omega (arith, closes-append pc es fs)

-- What is stored and was held is what is closed and is held.
abbrev IsBalanced : ℕ → RtcPeerManager → Acted → Type 0
IsBalanced pc m (m', es) = stored pc es + held pc m ≡ closes pc es + held pc m'

and_then-IsBalanced :
    (pc : ℕ) (m : RtcPeerManager) (a : Acted) (k : RtcPeerManager → Acted)
    → IsBalanced pc m a
    → IsBalanced pc a.0 (k a.0)
    → IsBalanced pc m (and_then a k)
and_then-IsBalanced pc m (m', es) k h h' =
    omega (arith, h, h', stored-append pc es (k m').1, closes-append pc es (k m').1)

drop_loopback-IsBalanced :
    (pc : ℕ) (id : String) (m : RtcPeerManager) (l : Option (Option ℕ))
    → IsBalanced pc m (drop_loopback id m l)
unfolding stored closes held
drop_loopback-IsBalanced pc id m none = refl
drop_loopback-IsBalanced pc id m (some none) = refl
drop_loopback-IsBalanced pc id m (some (some timer)) = omega arith

drop_peer-IsBalanced :
    (pc : ℕ) (id : String) (m : RtcPeerManager) (p : Option ℕ)
    → lookup id m.peers ≡ p
    → IsBalanced pc m (drop_peer id m p)
unfolding stored closes held
drop_peer-IsBalanced pc id m none at = refl
drop_peer-IsBalanced pc id m (some q) at = omega (arith, count-erase (λ x. x == pc) id q m.peers at)

close_peer-IsBalanced :
    (pc : ℕ) (id : String) (m : RtcPeerManager) → IsBalanced pc m (close_peer id m)
unfolding close_peer
close_peer-IsBalanced pc id m =
    and_then-IsBalanced pc m (drop_loopback id m (lookup id m.loopbacks))
      (λ m'. drop_peer id m' (lookup id m'.peers))
      (drop_loopback-IsBalanced pc id m (lookup id m.loopbacks))
      (drop_peer-IsBalanced pc id (drop_loopback id m (lookup id m.loopbacks)).0 _ refl)

close_each-IsBalanced :
    (pc : ℕ) (ids : List String) (m : RtcPeerManager) → IsBalanced pc m (close_each ids m)
unfolding close_each stored closes
close_each-IsBalanced pc [] m = refl
close_each-IsBalanced pc (id ∷ ids) m =
    and_then-IsBalanced pc m (close_peer id m) (close_each ids) (close_peer-IsBalanced pc id m)
      (close_each-IsBalanced pc ids (close_peer id m).0)

accept_call-IsBalanced :
    (pc q : ℕ) (id : String) (m : RtcPeerManager)
    → lookup id m.peers ≡ none
    → IsBalanced pc m (accept_call id q m)
unfolding accept_call stored closes held
accept_call-IsBalanced pc q id m free = ground (arith, count-insert (λ x. x == pc) id q m.peers)

happen-IsBalanced :
    (pc : ℕ) (e : Event) (m : RtcPeerManager) → IsFree e m → IsBalanced pc m (happen e m)
unfolding happen start_delayed_loopback close_all stored closes held
happen-IsBalanced pc (accepted id q) m free = accept_call-IsBalanced pc q id m free
happen-IsBalanced pc (looped id timer) m free = refl
happen-IsBalanced pc (closed id) m free = close_peer-IsBalanced pc id m
happen-IsBalanced pc all_closed m free = close_each-IsBalanced pc (keys m.peers) m

pub Run-closes :
    (pc : ℕ) (m : RtcPeerManager) (es : List Effect)
    → Run m es
    → stored pc es ≡ closes pc es + held pc m
unfolding stored closes held new count
Run-closes pc _ _ begin = refl
Run-closes pc _ _ (then_event {m} {es} r e free) = omega (
  arith,
  Run-closes pc m es r,
  happen-IsBalanced pc e m free,
  stored-append pc es (happen e m).1,
  closes-append pc es (happen e m).1,
)
