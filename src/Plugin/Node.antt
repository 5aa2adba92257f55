-- ===== src/Plugin/Node.antt =====
-- `findRtcNode` and `invokeRtcNode` of plugin/index.ts. The call of the registry is split at its
-- `await`: `find_rtc_node` before it, `invoke_result` after it.
use openclaw_rtc_plugin.Common.{
  String, str_eq, Bool, false, ◌||◌, Option, none, some, List, [], ◌∷◌, if◌then◌else◌, Result, ok,
  err,
}
use openclaw_rtc_plugin.Common.Texts.{is_empty}
use openclaw_rtc_plugin.Json.{Value, null}
use openclaw_rtc_plugin.Plugin.{NodeSession, NodeInvokeResult, Settled, resolved, rejected}

-- `caps.includes(cap)`
abbrev pub includes : String → List String → Bool
includes cap [] = false
includes cap (c ∷ cs) = str_eq c cap || includes cap cs

unfoldable pub find_rtc_node : List NodeSession → Option NodeSession
find_rtc_node [] = none
find_rtc_node (n ∷ ns) = if includes "webrtc" n.caps then some n else find_rtc_node ns

-- `payload ?? null`
abbrev pub or_null : Option Value → Value
or_null none = null
or_null (some v) = v

abbrev parsed_or : Option Value → Option Value → Value
parsed_or none payload = or_null payload
parsed_or (some v) payload = v

abbrev from_json : (String → Option Value) → Option String → Option Value → Value
from_json parse none payload = or_null payload
from_json parse (some s) payload =
    if is_empty s then or_null payload else parsed_or (parse s) payload

-- What `invokeRtcNode` returns for a reply. `parse` is `JSON.parse`, with `none` where it throws.
unfoldable pub invoke_result : (String → Option Value) → NodeInvokeResult → Value
invoke_result parse r = if r.ok then from_json parse r.payload_json r.payload else null

-- What the `await` of `invokeRtcNode` gives the handler: a value, or the error that it rethrows.
unfoldable pub invoked : (String → Option Value) → Settled → Result String Value
unfolding invoke_result
invoked parse (resolved r) = ok (invoke_result parse r)
invoked parse (rejected e) = err e
