-- ===== src/Peers/Removal.antt =====
-- What `closePeer` and `closeAll` of plugin/node/peer-manager.ts leave.
use openclaw_rtc_plugin.Common.{
  ℕ, String, str_eq, ◌≡◌, refl, ap, ◌∙◌, Option, none, some, List, [], ◌∷◌, arith, eq_iff,
  if◌then◌else◌,
}
use openclaw_rtc_plugin.Common.Maps.{
  lookup, keys, IsDistinct, insert-IsDistinct, erase-IsDistinct, lookup-erase,
}
use openclaw_rtc_plugin.Peers.{
  RtcPeerManager, Effect, new, accept_call, start_delayed_loopback, drop_loopback, drop_peer,
  close_peer, close_each, close_all,
}
use openclaw_rtc_plugin.Peers.Closing.{
  Event, accepted, looped, closed, all_closed, happen, Run, begin, then_event,
}

-- Both maps have each call once.
record IsMap (m : RtcPeerManager) : Type 0 where
  one_peer : IsDistinct m.peers
  one_loopback : IsDistinct m.loopbacks

drop_loopback-IsMap :
    (id : String) (m : RtcPeerManager) (l : Option (Option ℕ))
    → IsMap m
    → IsMap (drop_loopback id m l).0
drop_loopback-IsMap id m none d = d
drop_loopback-IsMap id m (some timer) d = record {
  one_peer = d.one_peer;
  one_loopback = erase-IsDistinct id m.loopbacks d.one_loopback;
}

drop_peer-IsMap :
    (id : String) (m : RtcPeerManager) (p : Option ℕ) → IsMap m → IsMap (drop_peer id m p).0
drop_peer-IsMap id m none d = d
drop_peer-IsMap id m (some pc) d = record {
  one_peer = erase-IsDistinct id m.peers d.one_peer;
  one_loopback = d.one_loopback;
}

close_peer-IsMap : (id : String) (m : RtcPeerManager) → IsMap m → IsMap (close_peer id m).0
unfolding close_peer
close_peer-IsMap id m d =
    drop_peer-IsMap id _ _ (drop_loopback-IsMap id m (lookup id m.loopbacks) d)

close_each-IsMap : (ids : List String) (m : RtcPeerManager) → IsMap m → IsMap (close_each ids m).0
unfolding close_each
close_each-IsMap [] m d = d
close_each-IsMap (id ∷ ids) m d = close_each-IsMap ids (close_peer id m).0 (close_peer-IsMap id m d)

happen-IsMap : (e : Event) (m : RtcPeerManager) → IsMap m → IsMap (happen e m).0
unfolding happen accept_call start_delayed_loopback close_all
happen-IsMap (accepted id pc) m d = record {
  one_peer = insert-IsDistinct id pc m.peers d.one_peer;
  one_loopback = d.one_loopback;
}
happen-IsMap (looped id timer) m d = record {
  one_peer = d.one_peer;
  one_loopback = insert-IsDistinct id (some timer) m.loopbacks d.one_loopback;
}
happen-IsMap (closed id) m d = close_peer-IsMap id m d
happen-IsMap all_closed m d = close_each-IsMap (keys m.peers) m d

Run-IsMap : (m : RtcPeerManager) (es : List Effect) → Run m es → IsMap m
unfolding new
Run-IsMap _ _ begin = record { one_peer = tt; one_loopback = tt }
Run-IsMap _ _ (then_event {m} {es} r e free) = happen-IsMap e m (Run-IsMap m es r)

drop_loopback-loopbacks :
    (id other : String) (m : RtcPeerManager) (l : Option (Option ℕ))
    → lookup id m.loopbacks ≡ l
    → IsDistinct m.loopbacks
    → lookup other (drop_loopback id m l).0.loopbacks
      ≡ (if str_eq id other then none else lookup other m.loopbacks)
drop_loopback-loopbacks id other m none at d = ground (arith, eq_iff id other)
drop_loopback-loopbacks id other m (some timer) at d = lookup-erase id other m.loopbacks d

drop_loopback-peers :
    (id : String) (m : RtcPeerManager) (l : Option (Option ℕ))
    → (drop_loopback id m l).0.peers ≡ m.peers
drop_loopback-peers id m none = refl
drop_loopback-peers id m (some timer) = refl

drop_peer-loopbacks :
    (id : String) (m : RtcPeerManager) (p : Option ℕ) → (drop_peer id m p).0.loopbacks ≡ m.loopbacks
drop_peer-loopbacks id m none = refl
drop_peer-loopbacks id m (some pc) = refl

drop_peer-peers :
    (id other : String) (m : RtcPeerManager) (p : Option ℕ)
    → lookup id m.peers ≡ p
    → IsDistinct m.peers
    → lookup other (drop_peer id m p).0.peers
      ≡ (if str_eq id other then none else lookup other m.peers)
drop_peer-peers id other m none at d = ground (arith, eq_iff id other)
drop_peer-peers id other m (some pc) at d = lookup-erase id other m.peers d

close_peer-lookup :
    (m : RtcPeerManager)
    → IsMap m
    → (id other : String)
    → (lookup other (close_peer id m).0.peers
        ≡ (if str_eq id other then none else lookup other m.peers))
      × (lookup other (close_peer id m).0.loopbacks
          ≡ (if str_eq id other then none else lookup other m.loopbacks))
unfolding close_peer
close_peer-lookup m d id other =
    let l = lookup id m.loopbacks in
    let m' = (drop_loopback id m l).0 in
    let d' = drop_loopback-IsMap id m l d in
    (
      drop_peer-peers id other m' (lookup id m'.peers) refl d'.one_peer
          ∙ ap (λ ps. if str_eq id other then none else lookup other ps)
              (drop_loopback-peers id m l),
      ap (lookup other) (drop_peer-loopbacks id m' (lookup id m'.peers))
          ∙ drop_loopback-loopbacks id other m l refl d.one_loopback,
    )

-- In every state that events reach, `closePeer` removes the connection and the loopback of its call,
-- and leaves those of every other call.
close_peer-removes :
    (m : RtcPeerManager) (es : List Effect)
    → Run m es
    → (id other : String)
    → (lookup other (close_peer id m).0.peers
        ≡ (if str_eq id other then none else lookup other m.peers))
      × (lookup other (close_peer id m).0.loopbacks
          ≡ (if str_eq id other then none else lookup other m.loopbacks))
close_peer-removes m es r id other = close_peer-lookup m (Run-IsMap m es r) id other
