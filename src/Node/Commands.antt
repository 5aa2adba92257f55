-- ===== src/Node/Commands.antt =====
-- `handleCommand` of plugin/node/index.ts on the peer manager, the events of the manager, and the
-- shutdown. A command is answered when its promise settles.
use Prim.Native.String.{◌++◌}
use openclaw_rtc_plugin.Common.{
  ℕ, String, str_eq, ◌||◌, Option, none, some, List, [], ◌∷◌, ◌++◌ as append, if◌then◌else◌, Result,
  ok, err, get_elem?, remove_at,
}
use openclaw_rtc_plugin.Common.Maps.{lookup}
use openclaw_rtc_plugin.Json.{Value, str, obj, arr, end, field, property}
use openclaw_rtc_plugin.Peers
use openclaw_rtc_plugin.Peers.{RtcPeerManager, start_delayed_loopback, close_peer, close_all}
use openclaw_rtc_plugin.Peers.Accept.{
  Wait, at_import, Outcome, waits, returns, throws, Went, fine, resume, candidate_for, closing,
}

-- The manager, and the commands that wait, each with the id of its invocation.
pub record RtcNode : Type 0 where
  pub manager : RtcPeerManager
  pub waiting : List (Value × Wait)

pub data Effect : Type 0 where
  at_peers : Peers.Effect → Effect
  replied : Value → Result String Value → Effect

abbrev pub Acted : Type 0
Acted = RtcNode × List Effect

unfoldable pub new : RtcNode
new = record { manager = Peers.new; waiting = [] }

unfoldable pub of_peers : List Peers.Effect → List Effect
of_peers [] = []
of_peers (e ∷ es) = at_peers e ∷ of_peers es

-- The promise of a command after a method of the manager.
abbrev pub settle : Value → Went → RtcNode → Acted
settle id (m, es, waits w) node =
    (record node { manager = m; waiting = append node.waiting ((id, w) ∷ []) }, of_peers es)
settle id (m, es, returns v) node =
    (record node { manager = m }, append (of_peers es) (replied id (ok v) ∷ []))
settle id (m, es, throws e) node =
    (record node { manager = m }, append (of_peers es) (replied id (err e) ∷ []))

-- `(params ?? {}).k`
abbrev pub param_of : String → Option Value → Option Value
param_of k none = none
param_of k (some v) = property k v

-- What happens on the node: a command comes with the id of its invocation, a promise settles, a
-- connection changes, the loopback of a call starts with its timer, the process is told to stop.
pub data Event : Type 0 where
  commanded : Value → Value → Option Value → Event
  went_on : ℕ → Outcome → Event
  changed : String → String → Event
  looped : String → ℕ → Event
  stopped : Event

module _ (to_text : Value → String) (type_error : String) where
  -- In a template literal.
  abbrev text_of : Option Value → String
  text_of none = "undefined"
  text_of (some v) = to_text v

  abbrev candidate_command : Option Value → Option Value → RtcPeerManager → Went
  candidate_command (some (str id)) candidate m = candidate_for (lookup id m.peers) id candidate m
  candidate_command id candidate m = candidate_for none (text_of id) candidate m

  abbrev pub hangup_command : Option Value → RtcPeerManager → Went
  hangup_command (some (str id)) m = closing id m
  hangup_command id m = (m, [], returns fine)

  -- `text.slice(0, 50)` is there for a text and for a list.
  abbrev speak_command : Option Value → RtcPeerManager → Went
  speak_command (some (str text)) m = (m, [], returns fine)
  speak_command (some (arr items)) m = (m, [], returns fine)
  speak_command text m = (m, [], throws type_error)

  abbrev pub named_command : String → Option Value → RtcPeerManager → Went
  named_command command params m =
      if str_eq command "rtc.call.accept"
      then (
        m,
        [],
        waits (
            at_import (param_of "callId" params) (param_of "offerSdp" params)
              (param_of "iceServers" params)),
      )
      else if str_eq command "rtc.call.remote_candidate"
      then candidate_command (param_of "callId" params) (param_of "candidate" params) m
      else if str_eq command "rtc.call.hangup"
      then hangup_command (param_of "callId" params) m
      else if str_eq command "rtc.call.speak"
      then speak_command (param_of "text" params) m
      else (m, [], returns (obj (field "error" (str ("unknown command: " ++ command)) end)))

  -- The `switch`, which compares without conversion.
  abbrev pub command_of : Value → Option Value → RtcPeerManager → Went
  command_of (str command) params m = named_command command params m
  command_of command params m =
      (m, [], returns (obj (field "error" (str ("unknown command: " ++ to_text command)) end)))

  unfoldable pub handle_command : Value → Value → Option Value → RtcNode → Acted
  handle_command id command params node = settle id (command_of command params node.manager) node

  abbrev pub wait_over : Outcome → Option (Value × Wait) → RtcNode → Acted
  wait_over outcome none node = (node, [])
  wait_over outcome (some (id, w)) node = settle id (resume type_error w outcome node.manager) node

  -- The promise of the command at a place has come to something.
  unfoldable pub go_on : ℕ → Outcome → RtcNode → Acted
  go_on i outcome node =
      wait_over outcome (get_elem? node.waiting i)
        (record node { waiting = remove_at i node.waiting })

  abbrev by_manager : Peers.Acted → RtcNode → Acted
  by_manager (m, es) node = (record node { manager = m }, of_peers es)

  -- `connectionStateChange` of a call's connection, and the `peerclose` listener.
  unfoldable pub state_changed : String → String → RtcNode → Acted
  state_changed call state node =
      if str_eq state "disconnected" || str_eq state "failed" || str_eq state "closed"
      then by_manager (close_peer call node.manager) node
      else (node, [])

  unfoldable pub happen : Event → RtcNode → Acted
  unfolding handle_command go_on state_changed
  happen (commanded id command params) node = handle_command id command params node
  happen (went_on i outcome) node = go_on i outcome node
  happen (changed call state) node = state_changed call state node
  happen (looped call timer) node = by_manager (start_delayed_loopback call timer node.manager) node
  happen stopped node = by_manager (close_all node.manager) node
