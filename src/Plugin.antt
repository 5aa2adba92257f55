-- ===== src/Plugin.antt =====
-- plugin/index.ts: what the gateway hands to a method handler, and what a handler answers. The
-- handlers are in the children: `Node` finds and calls an RTC node, `Handlers` are the four gateway
-- methods, `Server` runs them interleaved at their `await`s, `Service` is the shutdown.
pub mod Node
pub mod Handlers
pub mod Service
pub mod Server
pub mod Refine
pub mod States
pub mod Shutdown
pub mod Known
pub mod Accept
pub mod Route
use openclaw_rtc_plugin.Common.{ℕ, String, Bool, Option, List}
use openclaw_rtc_plugin.Json.{Value, Fields}
use openclaw_rtc_plugin.Call.{IceServer, RtcCallRecord}
use openclaw_rtc_plugin.Config.{WebRtcConfig, Validation}

pub record NodeSession : Type 0 where
  pub node_id : String
  pub caps : List String
  pub commands : List String
  pub display_name : Option String

-- What `nodeRegistry.invoke` resolves to; `none` is `undefined` or `null`.
pub record NodeInvokeResult : Type 0 where
  pub ok : Bool
  pub payload : Option Value
  pub payload_json : Option String
  pub error_message : Option String

-- How the promise of `nodeRegistry.invoke` settles. A rejection carries the error's text.
pub data Settled : Type 0 where
  resolved : NodeInvokeResult → Settled
  rejected : String → Settled

-- The command that is sent to a node, with its parameters.
pub data NodeCommand : Type 0 where
  accept_call : String → String → List IceServer → NodeCommand
  remote_candidate : String → Value → NodeCommand
  hangup_call : String → String → NodeCommand

-- The second argument of `respond`, with the first: `failed` is `respond(false, { error })`.
pub data Response : Type 0 where
  failed : String → Response
  started : String → Option Value → Value → List IceServer → Response
  done : Response
  one_call : RtcCallRecord → Response
  all_calls : List RtcCallRecord → ℕ → Response

-- What `register` computes once.
pub record Settings : Type 0 where
  pub config : WebRtcConfig
  pub validation : Validation

-- `context?.nodeRegistry`, as the nodes that it lists
abbrev pub Registry : Type 0
Registry = Option (List NodeSession)
