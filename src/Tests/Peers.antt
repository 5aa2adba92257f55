-- ===== src/Tests/Peers.antt =====
-- A run of plugin/node/peer-manager.ts: two calls are accepted, one with a loopback, and one is closed.
use openclaw_rtc_plugin.Common.{◌+◌, ◌≡◌, refl, List, [], ◌∷◌, ◌++◌}
use openclaw_rtc_plugin.Common.Maps.{lookup, insert}
use openclaw_rtc_plugin.Peers.{
  RtcPeerManager, Effect, peer_closed, timer_cleared, new, accept_call, start_delayed_loopback,
  close_peer,
}
use openclaw_rtc_plugin.Peers.Closing.{
  accepted, looped, happen, Run, begin, then_event, stored, closes, held, Run-closes,
}

abbrev first : RtcPeerManager × List Effect
first = happen (accepted "c1" 1) new

abbrev second : RtcPeerManager × List Effect
second = happen (accepted "c2" 2) first.0

abbrev third : RtcPeerManager × List Effect
third = happen (looped "c1" 7) second.0

abbrev log : List Effect
log = (([] ++ first.1) ++ second.1) ++ third.1

to_third : Run third.0 log
unfolding happen accept_call new lookup insert
to_third =
    then_event (then_event (then_event begin (accepted "c1" 1) refl) (accepted "c2" 2) refl)
      (looped "c1" 7) tt

cut_off : (close_peer "c1" third.0).1 ≡ timer_cleared 7 ∷ peer_closed 1 ∷ []
unfolding happen accept_call start_delayed_loopback close_peer new lookup insert
cut_off = refl

Run-closes_example : stored 1 log ≡ closes 1 log + held 1 third.0
Run-closes_example = Run-closes 1 third.0 log to_third
