-- ===== src/Gateway/Events.antt =====
-- The events of plugin/node/gateway-client.ts as moves.
use openclaw_rtc_plugin.Common.{
  ℕ, String, str_eq, Bool, true, false, not, ◌||◌, ◌≡◌, Option, none, some, [], ◌∷◌, All,
  if◌then◌else◌, Result, ok, err, get_elem?, remove_at,
}
use openclaw_rtc_plugin.Common.Maps.{lookup}
use openclaw_rtc_plugin.Json.{Value, null, bool, num, str, arr, obj, property, truthy}
use openclaw_rtc_plugin.Gateway.{
  Platform, Purpose, for_connect, for_result, for_failure, for_caller, Settled, resolved, rejected,
  emits_open, emits_connected, Job, GatewayNodeClient, thrown,
}
use openclaw_rtc_plugin.Gateway.Auth.{DeviceIdentity, GatewayNodeClientOptions}
use openclaw_rtc_plugin.Gateway.Client.{handle_response}
use openclaw_rtc_plugin.Gateway.Loop.{
  Moment, Event, start_called, stop_called, request_called, socket_opened, message_received,
  close_received, error_received, timer_fired, handler_returned, handler_failed, job_run,
  challenged, handle_challenge, reply_result, reply_failure, invoked, handle_invoke_request,
  named_event, event_of, handle_event, typed_frame, handle_frame, received, greeting, hello,
  field_of, continued, job_at, happen,
}
use openclaw_rtc_plugin.Gateway.Moves.{
  IsCall, calls, untimed, challenges, resets, still, then_move, Does, once, Moves-trans, called,
  if-Does,
}
use openclaw_rtc_plugin.Gateway.Methods.{
  request-Does, request-connects, rejected_frame, start-Does, on_close-Does, stop-Does,
  response_to-Does,
}

module _ (platform : Platform) (opts : GatewayNodeClientOptions) (identity : DeviceIdentity)
    (m : Moment) where
  challenged-Does :
      (payload : Option Value) (c : GatewayNodeClient)
      → c.connect_sent ≡ false
      → lookup m.uuid c.pending ≡ none
      → Does c (challenged platform opts identity m payload (record c { connect_sent = true }))
  challenged-Does none c off fresh = rejected_frame c _ (thrown "TypeError") (once (challenges off))
  challenged-Does (some null) c off fresh =
      rejected_frame c _ (thrown "TypeError") (once (challenges off))
  challenged-Does (some (bool b)) c off fresh = request-connects m _ c off fresh
  challenged-Does (some (num n e)) c off fresh = request-connects m _ c off fresh
  challenged-Does (some (str t)) c off fresh = request-connects m _ c off fresh
  challenged-Does (some (obj fs)) c off fresh = request-connects m _ c off fresh
  challenged-Does (some (arr xs)) c off fresh = request-connects m _ c off fresh

  handle_challenge-Does :
      (payload : Option Value) (c : GatewayNodeClient)
      → lookup m.uuid c.pending ≡ none
      → Does c (handle_challenge platform opts identity m payload c)
  unfolding handle_challenge
  handle_challenge-Does payload c fresh =
      if-Does c c.connect_sent _ _ (λ on. still) (λ off. challenged-Does payload c off fresh)

  reply_result-Does :
      (id : Value) (result : Option Value) (c : GatewayNodeClient)
      → lookup m.uuid c.pending ≡ none
      → Does c (reply_result platform opts identity m id result c)
  unfolding reply_result
  reply_result-Does id result c fresh = request-Does m _ _ (for_result id) c tt fresh

  reply_failure-Does :
      (id : Value) (e : String) (c : GatewayNodeClient)
      → lookup m.uuid c.pending ≡ none
      → Does c (reply_failure platform opts identity m id e c)
  unfolding reply_failure
  reply_failure-Does id e c fresh = request-Does m _ _ for_failure c tt fresh

  invoked-Does :
      (id command params_json : Option Value) (c : GatewayNodeClient)
      → lookup m.uuid c.pending ≡ none
      → Does c (invoked platform opts identity m id command params_json c)
  invoked-Does none command params_json c fresh = still
  invoked-Does (some id) none params_json c fresh = still
  invoked-Does (some id) (some command) params_json c fresh =
      if-Does c (not (truthy id) || not (truthy command)) _ _ (λ bad. still)
        (λ good.
          if-Does c opts.has_handler _ _ (λ given. called c _ (tt, tt))
            (λ absent. reply_result-Does id _ c fresh))

  named_event-Does :
      (event : String) (frame : Value) (c : GatewayNodeClient)
      → lookup m.uuid c.pending ≡ none
      → Does c (named_event platform opts identity m event frame c)
  unfolding handle_invoke_request
  named_event-Does event frame c fresh =
      if-Does c (str_eq event "connect.challenge") _ _
        (λ e. handle_challenge-Does (property "payload" frame) c fresh)
        (λ n.
          if-Does c (str_eq event "node.invoke.request") _ _
            (λ e.
              invoked-Does (field_of platform opts identity "id" (property "payload" frame))
                (field_of platform opts identity "command" (property "payload" frame))
                (field_of platform opts identity "paramsJSON" (property "payload" frame)) c fresh)
            (λ e. called c _ (tt, tt)))

  event_of-Does :
      (event : Option Value) (frame : Value) (c : GatewayNodeClient)
      → lookup m.uuid c.pending ≡ none
      → Does c (event_of platform opts identity m event frame c)
  event_of-Does none frame c fresh = called c _ (tt, tt)
  event_of-Does (some null) frame c fresh = called c _ (tt, tt)
  event_of-Does (some (bool b)) frame c fresh = called c _ (tt, tt)
  event_of-Does (some (num n e)) frame c fresh = called c _ (tt, tt)
  event_of-Does (some (obj fs)) frame c fresh = called c _ (tt, tt)
  event_of-Does (some (arr xs)) frame c fresh = called c _ (tt, tt)
  event_of-Does (some (str event)) frame c fresh = named_event-Does event frame c fresh

  typed_frame-Does :
      (type : Option Value) (frame : Value) (c : GatewayNodeClient)
      → lookup m.uuid c.pending ≡ none
      → Does c (typed_frame platform opts identity m type frame c)
  unfolding handle_event handle_response
  typed_frame-Does none frame c fresh = still
  typed_frame-Does (some null) frame c fresh = still
  typed_frame-Does (some (bool b)) frame c fresh = still
  typed_frame-Does (some (num n e)) frame c fresh = still
  typed_frame-Does (some (obj fs)) frame c fresh = still
  typed_frame-Does (some (arr xs)) frame c fresh = still
  typed_frame-Does (some (str type)) frame c fresh =
      if-Does c (str_eq type "event") _ _
        (λ e. event_of-Does (property "event" frame) frame c fresh)
        (λ n.
          if-Does c (str_eq type "res") _ _ (λ e. response_to-Does frame (property "id" frame) c)
            (λ e. still))

  handle_frame-Does :
      (frame : Value) (c : GatewayNodeClient)
      → lookup m.uuid c.pending ≡ none
      → Does c (handle_frame platform opts identity m frame c)
  unfolding handle_frame
  handle_frame-Does null c fresh = called c _ (tt, tt)
  handle_frame-Does (bool b) c fresh = typed_frame-Does (property "type" (bool b)) (bool b) c fresh
  handle_frame-Does (num n e) c fresh =
      typed_frame-Does (property "type" (num n e)) (num n e) c fresh
  handle_frame-Does (str t) c fresh = typed_frame-Does (property "type" (str t)) (str t) c fresh
  handle_frame-Does (obj fs) c fresh = typed_frame-Does (property "type" (obj fs)) (obj fs) c fresh
  handle_frame-Does (arr xs) c fresh = typed_frame-Does (property "type" (arr xs)) (arr xs) c fresh

  received-Does :
      (r : Result String Value) (c : GatewayNodeClient)
      → lookup m.uuid c.pending ≡ none
      → Does c (received platform opts identity m r c)
  received-Does (ok frame) c fresh = handle_frame-Does frame c fresh
  received-Does (err e) c fresh = called c _ (tt, tt)

  greeting_calls :
      (type : Option Value) (v : Value) → All IsCall (greeting platform opts identity type v)
  greeting_calls none v = tt
  greeting_calls (some null) v = tt
  greeting_calls (some (bool b)) v = tt
  greeting_calls (some (num n e)) v = tt
  greeting_calls (some (obj fs)) v = tt
  greeting_calls (some (arr xs)) v = tt
  greeting_calls (some (str s)) v = greeted (str_eq s "hello-ok")
    where
      greeted : (b : Bool) → All IsCall (if b then emits_connected v ∷ [] else [])
      greeted true = (tt, tt)
      greeted false = tt

  hello_calls : (v : Option Value) → All IsCall (hello platform opts identity v)
  hello_calls none = tt
  hello_calls (some null) = tt
  hello_calls (some (bool b)) = tt
  hello_calls (some (num n e)) = tt
  hello_calls (some (str s)) = tt
  hello_calls (some (obj fs)) = greeting_calls (property "type" (obj fs)) (obj fs)
  hello_calls (some (arr xs)) = tt

  continued-Does :
      (purpose : Purpose) (s : Settled) (c : GatewayNodeClient)
      → lookup m.uuid c.pending ≡ none
      → Does c (continued platform opts identity m purpose s c)
  continued-Does for_connect (resolved v) c fresh =
      called c (hello platform opts identity v) (hello_calls v)
  continued-Does for_connect (rejected e) c fresh = called c _ (tt, tt)
  continued-Does (for_result id) (resolved v) c fresh = still
  continued-Does (for_result id) (rejected e) c fresh = reply_failure-Does id _ c fresh
  continued-Does for_failure s c fresh = still
  continued-Does for_caller s c fresh = still

  job_at-Does :
      (i : ℕ) (j : Option Job) (c : GatewayNodeClient)
      → lookup m.uuid c.pending ≡ none
      → Does c (job_at platform opts identity m i j c)
  job_at-Does i none c fresh = still
  job_at-Does i (some j) c fresh =
      Moves-trans (once (calls [] (remove_at i c.jobs) tt))
        (continued-Does j.purpose j.outcome (record c { jobs = remove_at i c.jobs }) fresh)

  -- Every event is a sequence of moves.
  pub happen-Does :
      (e : Event) (c : GatewayNodeClient)
      → lookup m.uuid c.pending ≡ none
      → Does c (happen platform opts identity m e c)
  unfolding happen
  happen-Does (start_called id) c fresh = start-Does id c
  happen-Does stop_called c fresh = stop-Does c
  happen-Does (request_called method params) c fresh =
      request-Does m method params for_caller c tt fresh
  happen-Does socket_opened c fresh = then_move (once resets) (calls (emits_open ∷ []) _ (tt, tt))
  happen-Does (message_received text) c fresh = received-Does (platform.json_parse text) c fresh
  happen-Does (close_received code reason) c fresh = on_close-Does code reason c
  happen-Does (error_received e) c fresh = called c _ (tt, tt)
  happen-Does (timer_fired id) c fresh =
      Moves-trans (once untimed) (start-Does id (record c { reconnect_timer = false }))
  happen-Does (handler_returned id result) c fresh = reply_result-Does id result c fresh
  happen-Does (handler_failed id e) c fresh = reply_failure-Does id e c fresh
  happen-Does (job_run i) c fresh = job_at-Does i (get_elem? c.jobs i) c fresh
