-- ===== src/Gateway/Loop.antt =====
-- The handlers of frames and invocations in plugin/node/gateway-client.ts, and the events of the
-- node's event loop that run them. Any order of events is allowed.
use Prim.Native.String.{◌++◌}
use openclaw_rtc_plugin.Common.{
  ℕ, String, str_eq, Bool, true, false, not, ◌||◌, Option, none, some, List, [], ◌∷◌, if◌then◌else◌,
  Result, ok, err, get_elem?, remove_at,
}
use openclaw_rtc_plugin.Common.Texts.{show}
use openclaw_rtc_plugin.Json.{Value, null, bool, str, obj, end, field, property, truthy, optional}
use openclaw_rtc_plugin.Socket.{ReadyState}
use openclaw_rtc_plugin.Gateway.{
  Platform, Purpose, for_connect, for_result, for_failure, for_caller, ClientError, not_connected,
  gateway_closed, client_stopped, refused, thrown, Settled, resolved, rejected, Effect, emits_open,
  emits_error, emits_event, emits_connected, handler_called, Job, GatewayNodeClient,
}
use openclaw_rtc_plugin.Gateway.Auth.{DeviceIdentity, GatewayNodeClientOptions, connect_params}
use openclaw_rtc_plugin.Gateway.Client.{Acted, start, stop, request, handle_response, on_close}

-- What one handler needs of its surroundings: the sockets' states, the next UUID and the time.
pub record Moment : Type 0 where
  pub ready : ℕ → ReadyState
  pub uuid : String
  pub now : ℕ

-- What an event is.
pub data Event : Type 0 where
  start_called : ℕ → Event
  stop_called : Event
  request_called : String → Option Value → Event
  socket_opened : Event
  message_received : String → Event
  close_received : ℕ → String → Event
  error_received : String → Event
  timer_fired : ℕ → Event
  handler_returned : Value → Option Value → Event
  handler_failed : Value → String → Event
  job_run : ℕ → Event

-- The section's parameters are those of the client, fixed when it is made.
module _ (platform : Platform) (opts : GatewayNodeClientOptions) (identity : DeviceIdentity) where
  -- `err instanceof Error ? err.message : String(err)`
  abbrev error_text : ClientError → String
  error_text not_connected = "not connected"
  error_text (gateway_closed code) = "gateway closed (" ++ show code ++ ")"
  error_text client_stopped = "client stopped"
  error_text (refused v) = platform.to_text v
  error_text (thrown e) = e

  abbrev pub challenged : Moment → Option Value → GatewayNodeClient → Acted
  challenged m none c = (c, emits_error (thrown "TypeError") ∷ [])
  challenged m (some null) c = (c, emits_error (thrown "TypeError") ∷ [])
  challenged m (some v) c =
      request m.ready m.uuid "connect"
        (some (connect_params platform opts identity (property "nonce" v) m.now)) for_connect c

  -- A payload that has no properties makes `handleChallenge` throw, after `connectSent` is set.
  unfoldable pub handle_challenge : Moment → Option Value → GatewayNodeClient → Acted
  handle_challenge m payload c =
      if c.connect_sent then (c, []) else challenged m payload (record c { connect_sent = true })

  -- The parameters of a `node.invoke.result`.
  abbrev result_params : Value → Bool → Option Value → Value
  result_params id fine payload_json = obj (
      field "id" id (
        field "nodeId" (str identity.device_id)
          (field "ok" (bool fine) (optional "payloadJSON" payload_json end))))

  -- `JSON.stringify(result)`, which is `undefined` for `undefined`
  abbrev stringified : Option Value → Option Value
  stringified none = none
  stringified (some v) = some (str (platform.json_stringify v))

  -- The reply when the handler has returned, and the one when it has failed or the first failed.
  unfoldable pub reply_result : Moment → Value → Option Value → GatewayNodeClient → Acted
  reply_result m id result c =
      request m.ready m.uuid "node.invoke.result"
        (some (result_params id true (stringified result))) (for_result id) c

  unfoldable pub reply_failure : Moment → Value → String → GatewayNodeClient → Acted
  reply_failure m id e c =
      request m.ready m.uuid "node.invoke.result"
        (some (
          result_params id false
            (some (str (platform.json_stringify (obj (field "error" (str e) end)))))))
        for_failure c

  -- `p.paramsJSON ? JSON.parse(p.paramsJSON) : undefined`, and `undefined` if that throws
  abbrev ok_value : Result String Value → Option Value
  ok_value (ok v) = some v
  ok_value (err e) = none

  abbrev invoke_params : Option Value → Option Value
  invoke_params none = none
  invoke_params (some v) =
      if truthy v then ok_value (platform.json_parse (platform.to_text v)) else none

  abbrev pub field_of : String → Option Value → Option Value
  field_of k none = none
  field_of k (some p) = property k p

  abbrev pub invoked :
      Moment → Option Value → Option Value → Option Value → GatewayNodeClient → Acted
  invoked m (some id) (some command) params_json c =
      if not (truthy id) || not (truthy command)
      then (c, [])
      else if opts.has_handler
      then (c, handler_called id command (invoke_params params_json) ∷ [])
      else reply_result m id (some (obj (field "error" (str "no handler") end))) c
  invoked m _ _ params_json c = (c, [])

  unfoldable pub handle_invoke_request : Moment → Option Value → GatewayNodeClient → Acted
  unfolding reply_result
  handle_invoke_request m payload c =
      invoked m (field_of "id" payload) (field_of "command" payload) (field_of "paramsJSON" payload)
        c

  abbrev pub named_event : Moment → String → Value → GatewayNodeClient → Acted
  named_event m event frame c =
      if str_eq event "connect.challenge"
      then handle_challenge m (property "payload" frame) c
      else if str_eq event "node.invoke.request"
      then handle_invoke_request m (property "payload" frame) c
      else (c, emits_event frame ∷ [])

  abbrev pub event_of : Moment → Option Value → Value → GatewayNodeClient → Acted
  event_of m (some (str event)) frame c = named_event m event frame c
  event_of m _ frame c = (c, emits_event frame ∷ [])

  unfoldable pub handle_event : Moment → Value → GatewayNodeClient → Acted
  unfolding handle_challenge handle_invoke_request
  handle_event m frame c = event_of m (property "event" frame) frame c

  abbrev pub typed_frame : Moment → Option Value → Value → GatewayNodeClient → Acted
  typed_frame m (some (str type)) frame c =
      if str_eq type "event"
      then handle_event m frame c
      else if str_eq type "res"
      then handle_response frame c
      else (c, [])
  typed_frame m _ frame c = (c, [])

  unfoldable pub handle_frame : Moment → Value → GatewayNodeClient → Acted
  unfolding handle_event
  handle_frame m null c = (c, emits_error (thrown "TypeError") ∷ [])
  handle_frame m frame c = typed_frame m (property "type" frame) frame c

  -- The `message` listener.
  abbrev pub received : Moment → Result String Value → GatewayNodeClient → Acted
  received m (err e) c = (c, emits_error (thrown e) ∷ [])
  received m (ok frame) c = handle_frame m frame c

  abbrev pub greeting : Option Value → Value → List Effect
  greeting (some (str s)) v = if str_eq s "hello-ok" then emits_connected v ∷ [] else []
  greeting _ v = []

  -- `hello?.type === "hello-ok"`
  abbrev pub hello : Option Value → List Effect
  hello none = []
  hello (some null) = []
  hello (some v) = greeting (property "type" v) v

  -- What is behind an `await` or a `then`, when its promise has settled.
  abbrev pub continued : Moment → Purpose → Settled → GatewayNodeClient → Acted
  continued m for_connect (resolved v) c = (c, hello v)
  continued m for_connect (rejected e) c = (c, emits_error e ∷ [])
  continued m (for_result id) (resolved v) c = (c, [])
  continued m (for_result id) (rejected e) c = reply_failure m id (error_text e) c
  continued m for_failure r c = (c, [])
  continued m for_caller r c = (c, [])

  abbrev pub job_at : Moment → ℕ → Option Job → GatewayNodeClient → Acted
  job_at m i none c = (c, [])
  job_at m i (some j) c = continued m j.purpose j.outcome (record c { jobs = remove_at i c.jobs })

  unfoldable pub happen : Moment → Event → GatewayNodeClient → Acted
  unfolding handle_frame on_close reply_result reply_failure
  happen m (start_called id) c = start id c
  happen m stop_called c = stop c
  happen m (request_called method params) c = request m.ready m.uuid method params for_caller c
  happen m socket_opened c = (record c { backoff_ms = 1000 }, emits_open ∷ [])
  happen m (message_received text) c = received m (platform.json_parse text) c
  happen m (close_received code reason) c = on_close code reason c
  happen m (error_received e) c = (c, emits_error (thrown e) ∷ [])
  happen m (timer_fired id) c = start id (record c { reconnect_timer = false })
  happen m (handler_returned id result) c = reply_result m id result c
  happen m (handler_failed id e) c = reply_failure m id e c
  happen m (job_run i) c = job_at m i (get_elem? c.jobs i) c
