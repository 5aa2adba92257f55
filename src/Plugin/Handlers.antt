-- ===== src/Plugin/Handlers.antt =====
-- The gateway methods of plugin/index.ts. A handler is split at the `await` of `invokeRtcNode`:
-- `*_begin` runs up to it, `*_end` after it. Between the two other handlers may run.
use Prim.Native.String.{◌++◌}
use openclaw_rtc_plugin.Common.{
  ℕ, String, not, ◌||◌, Option, none, some, List, [], ◌∷◌, if◌then◌else◌, Result, ok, err,
}
use openclaw_rtc_plugin.Common.Texts.{is_empty, trim}
use openclaw_rtc_plugin.Json.{
  Value, Fields, null, arr, nil, truthy, truthy?, param, text_or, property,
}
use openclaw_rtc_plugin.Orchestrator.{
  CallOrchestrator, CallError, remote, message, active_calls, get_call, get_all_calls, start_call,
  handle_answer, handle_ice_candidate, hangup, set_error,
}
use openclaw_rtc_plugin.Plugin.{
  NodeSession, NodeCommand, accept_call, remote_candidate, hangup_call, Response, failed, started,
  done, one_call, all_calls, Settings, Registry,
}
use openclaw_rtc_plugin.Plugin.Node.{find_rtc_node, or_null}

-- What a handler still has to do when its node call settles.
pub data Waiting : Type 0 where
  accepting : String → Waiting
  relaying : Waiting

-- A handler has answered, or waits on a node: on the one that got the command, or, where no node
-- was found, on the `null` that `invokeRtcNode` returns.
pub data Begun : Type 0 where
  answered : Response → Begun
  waits : Waiting → Option (NodeSession × NodeCommand) → Begun

-- `errors.join(", ")`
abbrev join : List String → String
join [] = ""
join (e ∷ []) = e
join (e ∷ d ∷ es) = e ++ ", " ++ join (d ∷ es)

-- The node call of a handler.
unfoldable pub send : List NodeSession → NodeCommand → Option (NodeSession × NodeCommand)
send nodes command = elim (find_rtc_node nodes) [ none ↦ none | some node ↦ some (node, command) ]

-- The start handler after the throw of `startCall`, or after its return.
abbrev pub offer_after :
    List NodeSession
    → String
    → String
    → CallOrchestrator
    → Result CallError CallOrchestrator
    → CallOrchestrator × Begun
offer_after nodes sdp id o (ok o') =
    (o', waits (accepting id) (send nodes (accept_call id sdp o'.options.ice_servers)))
offer_after nodes sdp id o (err e) = (o, answered (failed (message e)))

-- `rtc.call.start`, when the checks of the plugin's own state have passed
unfoldable pub start_checked :
    List NodeSession → String → String → String → ℕ → CallOrchestrator → CallOrchestrator × Begun
start_checked nodes sdp key id now o =
    if is_empty sdp || is_empty key
    then (o, answered (failed "sdp and sessionKey are required"))
    else offer_after nodes sdp id o (start_call o (record { sdp = sdp; session_key = key }) id now)

unfoldable pub start_begin :
    Settings → Registry → Option Fields → String → ℕ → CallOrchestrator → CallOrchestrator × Begun
unfolding start_checked
start_begin s none params id now o = (
  o,
  answered (
      failed (
        if not s.config.enabled
        then "WebRTC plugin is disabled"
        else if not s.validation.valid
        then "Config invalid: " ++ join s.validation.errors
        else "Node registry unavailable")),
)
start_begin s (some nodes) params id now o =
    if not s.config.enabled
    then (o, answered (failed "WebRTC plugin is disabled"))
    else if not s.validation.valid
    then (o, answered (failed ("Config invalid: " ++ join s.validation.errors)))
    else start_checked nodes (trim (text_or "" (param params "sdp")))
        (trim (text_or "" (param params "sessionKey"))) id now o

-- `nodeResult === null ? … : …`
abbrev pub error_detail : Value → String
error_detail null = "RTC node invoke failed (check gateway logs)"
error_detail _ = "No RTC node available"

-- `v ?? []`
abbrev pub or_nil : Option Value → Value
or_nil none = arr nil
or_nil (some null) = arr nil
or_nil (some v) = v

-- The handler after the throw of an orchestrator method, or after its return.
abbrev pub finish :
    CallOrchestrator → Result CallError CallOrchestrator → Response → CallOrchestrator × Response
finish o (ok o') response = (o', response)
finish o (err e) response = (o, failed (message e))

unfoldable pub start_end :
    String → Result String Value → ℕ → CallOrchestrator → CallOrchestrator × Response
start_end id (err e) now o = (o, failed e)
start_end id (ok v) now o =
    if truthy v
    then finish o (handle_answer o id (property "answerSdp" v)) (
        started id (property "answerSdp" v) (or_nil (property "candidates" v))
          o.options.ice_servers)
    else finish o (set_error o id (error_detail v) now) (failed (error_detail v))

-- The node call that the ICE and hangup handlers make only if there is a registry.
abbrev pub relay : Registry → NodeCommand → Begun
relay none command = answered done
relay (some nodes) command = waits relaying (send nodes command)

abbrev pub relay_after :
    CallOrchestrator
    → Result CallError CallOrchestrator
    → Registry
    → NodeCommand
    → CallOrchestrator × Begun
relay_after o (ok o') registry command = (o', relay registry command)
relay_after o (err e) registry command = (o, answered (failed (message e)))

unfoldable pub ice_begin : Registry → Option Fields → CallOrchestrator → CallOrchestrator × Begun
ice_begin registry params o =
    let id = text_or "" (param params "callId") in
    let candidate = param params "candidate" in
    if is_empty id || not (truthy? candidate)
    then (o, answered (failed "callId and candidate are required"))
    else relay_after o (handle_ice_candidate o id (or_null candidate) remote) registry
        (remote_candidate id (or_null candidate))

unfoldable pub hangup_begin :
    Registry → Option Fields → ℕ → CallOrchestrator → CallOrchestrator × Begun
hangup_begin registry params now o =
    let id = text_or "" (param params "callId") in
    let reason = text_or "user" (param params "reason") in
    if is_empty id
    then (o, answered (failed "callId is required"))
    else relay_after o (hangup o id reason now) registry (hangup_call id reason)

-- The rest of the ICE and hangup handlers: a rejection is reported, a reply is not looked at.
unfoldable pub relay_end : Result String Value → Response
relay_end (err e) = failed e
relay_end (ok v) = done

unfoldable pub status : Option Fields → CallOrchestrator → Response
status params o =
    let id = text_or "" (param params "callId") in
    if is_empty id then all_calls (get_all_calls o) (active_calls o) else elim (get_call o id) [
      | none ↦ failed ("Call not found: " ++ id)
      | some call ↦ one_call call
    ]
