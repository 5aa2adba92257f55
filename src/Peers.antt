-- ===== src/Peers.antt =====
-- `RtcPeerManager` of plugin/node/peer-manager.ts: which peer connection and which loopback belong
-- to a call. Peer connections (of the package werift) and timers are told apart by numbers. What is
-- inside a connection is outside; what a loopback plays is in Loopback.
pub mod Accept
pub mod Loopback
pub mod Rounds
pub mod Plays
pub mod Playing
pub mod Silence
pub mod Fires
pub mod Replay
pub mod Closing
pub mod Removal
use Prim.Native.String.{◌++◌}
use openclaw_rtc_plugin.Common.{
  ℕ, String, Option, none, some, List, [], ◌∷◌, ◌++◌ as append, Result, ok, err,
}
use openclaw_rtc_plugin.Common.Maps.{Entries, lookup, insert, erase, keys}
use openclaw_rtc_plugin.Json.{Value}

pub record RtcPeerManager : Type 0 where
  pub peers : Entries ℕ
  pub loopbacks : Entries (Option ℕ)  -- with the timer that is set

pub data Effect : Type 0 where
  pc_made : ℕ → Effect
  peer_stored : ℕ → Effect
  peer_closed : ℕ → Effect
  timer_cleared : ℕ → Effect

unfoldable pub new : RtcPeerManager
new = record { peers = []; loopbacks = [] }

abbrev pub Acted : Type 0
Acted = RtcPeerManager × List Effect

-- The end of `acceptCall`, when the connection `pc` has its answer. Up to there no map changes.
unfoldable pub accept_call : String → ℕ → RtcPeerManager → Acted
accept_call id pc m = (record m { peers = insert id pc m.peers }, peer_stored pc ∷ [])

-- `startDelayedLoopback` at its `loopbacks.set`, and the timer that is set right behind it.
unfoldable pub start_delayed_loopback : String → ℕ → RtcPeerManager → Acted
start_delayed_loopback id timer m =
    (record m { loopbacks = insert id (some timer) m.loopbacks }, [])

abbrev pub cleared : Option ℕ → List Effect
cleared none = []
cleared (some timer) = timer_cleared timer ∷ []

abbrev pub drop_loopback : String → RtcPeerManager → Option (Option ℕ) → Acted
drop_loopback id m none = (m, [])
drop_loopback id m (some timer) = (record m { loopbacks = erase id m.loopbacks }, cleared timer)

abbrev pub drop_peer : String → RtcPeerManager → Option ℕ → Acted
drop_peer id m none = (m, [])
drop_peer id m (some pc) = (record m { peers = erase id m.peers }, peer_closed pc ∷ [])

-- First `a`, then `k` on the manager after it.
abbrev pub and_then : Acted → (RtcPeerManager → Acted) → Acted
and_then (m, done) k = let (m', more) = k m in (m', append done more)

-- `closePeer`, up to the `await` of the connection's close. Also the `peerclose` listener.
unfoldable pub close_peer : String → RtcPeerManager → Acted
close_peer id m =
    and_then (drop_loopback id m (lookup id m.loopbacks))
      (λ m'. drop_peer id m' (lookup id m'.peers))

unfoldable pub close_each : List String → RtcPeerManager → Acted
close_each [] m = (m, [])
close_each (id ∷ ids) m = and_then (close_peer id m) (close_each ids)

unfoldable pub close_all : RtcPeerManager → Acted
unfolding close_peer close_each
close_all m = close_each (keys m.peers) m

unfoldable pub get_peer : RtcPeerManager → String → Option ℕ
get_peer m id = lookup id m.peers

-- `addRemoteCandidate`: the connection that gets the candidate, or the error that is thrown.
unfoldable pub add_remote_candidate : RtcPeerManager → String → Result String ℕ
add_remote_candidate m id = elim (lookup id m.peers) [
  | none ↦ err ("No peer for call: " ++ id)
  | some pc ↦ ok pc
]
