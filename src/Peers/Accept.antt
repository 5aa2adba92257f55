-- ===== src/Peers/Accept.antt =====
-- `acceptCall` and the other methods of plugin/node/peer-manager.ts at their awaits.
use Prim.Native.String.{◌++◌}
use openclaw_rtc_plugin.Common.{
  ℕ, String, Bool, true, false, not, ◌&&◌, Option, none, some, List, [], ◌∷◌, if◌then◌else◌,
}
use openclaw_rtc_plugin.Common.Maps.{lookup}
use openclaw_rtc_plugin.Json.{Value, null, bool, str, obj, arr, Items, nil, cons, end, field}
use openclaw_rtc_plugin.Peers.{RtcPeerManager, Effect, pc_made, accept_call, close_peer}

-- Where a method waits: `acceptCall` for the package, the remote description, the answer and the
-- local description; `addRemoteCandidate` for the package and the connection; `closePeer` for the
-- close of a connection.
pub data Wait : Type 0 where
  at_import : Option Value → Option Value → Option Value → Wait
  at_remote : String → ℕ → Wait
  at_answer : String → ℕ → Wait
  at_local : String → ℕ → Wait
  at_candidate_import : ℕ → Option Value → Wait
  at_candidate : ℕ → Wait
  at_close : Wait

-- What a promise comes to: the package is there, with the number of the next connection; it is done;
-- the description is set, with the answer's SDP and the candidates so far; it failed.
pub data Outcome : Type 0 where
  loaded : ℕ → Outcome
  done : Outcome
  answered : String → Items → Outcome
  failed : String → Outcome

-- A method waits on, returns or throws.
pub data Progress : Type 0 where
  waits : Wait → Progress
  returns : Value → Progress
  throws : String → Progress

abbrev pub Went : Type 0
Went = RtcPeerManager × List Effect × Progress

-- `null` or `undefined`
abbrev pub is_nullish : Option Value → Bool
is_nullish none = true
is_nullish (some null) = true
is_nullish (some v) = false

-- Whether `urls` can be read of each server.
abbrev all_readable : Items → Bool
all_readable nil = true
all_readable (cons v vs) = not (is_nullish (some v)) && all_readable vs

abbrev pub servers_readable : Option Value → Bool
servers_readable none = true
servers_readable (some null) = true
servers_readable (some (arr vs)) = all_readable vs
servers_readable (some v) = false

-- `{ ok: true }`
abbrev pub fine : Value
fine = obj (field "ok" (bool true) end)

-- The section's parameter is the text of a TypeError.
module _ (type_error : String) where
  -- The connection is made. A call id that is no text has no `slice`, which the first log line
  -- takes; an offer that is null has no `length`.
  abbrev pub connects : Option Value → Option Value → ℕ → RtcPeerManager → Went
  connects (some (str id)) offer pc m =
      if is_nullish offer
      then (m, pc_made pc ∷ [], throws type_error)
      else (m, pc_made pc ∷ [], waits (at_remote id pc))
  connects _ offer pc m = (m, pc_made pc ∷ [], throws type_error)

  abbrev pub stored : String → ℕ → String → Items → RtcPeerManager → Went
  stored id pc sdp candidates m =
      let (m', es) = accept_call id pc m in
      (
        m',
        es,
        returns (obj (field "answerSdp" (str sdp) (field "candidates" (arr candidates) end))),
      )

  -- A method goes on when its promise has come to that.
  unfoldable pub resume : Wait → Outcome → RtcPeerManager → Went
  resume at_close outcome m = (m, [], returns fine)
  resume (at_import id offer servers) (loaded pc) m =
      if servers_readable servers then connects id offer pc m else (m, [], throws type_error)
  resume (at_remote id pc) done m = (m, [], waits (at_answer id pc))
  resume (at_answer id pc) done m = (m, [], waits (at_local id pc))
  resume (at_local id pc) (answered sdp candidates) m = stored id pc sdp candidates m
  resume (at_candidate_import pc candidate) (loaded n) m =
      if is_nullish candidate then (m, [], throws type_error) else (m, [], waits (at_candidate pc))
  resume (at_candidate pc) done m = (m, [], returns fine)
  resume w (failed e) m = (m, [], throws e)
  resume w outcome m = (m, [], waits w)

-- `addRemoteCandidate` up to its first wait.
abbrev pub candidate_for : Option ℕ → String → Option Value → RtcPeerManager → Went
candidate_for none id candidate m = (m, [], throws ("No peer for call: " ++ id))
candidate_for (some pc) id candidate m = (m, [], waits (at_candidate_import pc candidate))

-- `closePeer` of a call with a connection waits for the connection's close.
abbrev pub close_wait : Option ℕ → Progress
close_wait none = returns fine
close_wait (some pc) = waits at_close

abbrev pub closing : String → RtcPeerManager → Went
closing id m = let (m', es) = close_peer id m in (m', es, close_wait (lookup id m.peers))
