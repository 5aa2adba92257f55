-- ===== src/Gateway/Client.antt =====
-- The methods of `GatewayNodeClient` in plugin/node/gateway-client.ts. A method returns the client
-- after it and what it did. `randomUUID()`, `Date.now()` and new sockets are arguments.
use openclaw_rtc_plugin.Common.{
  ℕ, ◌*◌, min, String, Bool, true, false, Option, none, some, List, [], ◌∷◌, ◌++◌, if◌then◌else◌,
}
use openclaw_rtc_plugin.Common.Maps.{Entries, lookup, insert, erase}
use openclaw_rtc_plugin.Json.{Value, null, str, obj, end, field, property, truthy?, optional}
use openclaw_rtc_plugin.Socket.{ReadyState, is_open}
use openclaw_rtc_plugin.Gateway.{
  Purpose, ClientError, not_connected, gateway_closed, client_stopped, refused, Settled, resolved,
  rejected, Effect, socket_made, socket_closed, sent, settles, timer_set, timer_cleared,
  emits_close, Job, GatewayNodeClient,
}

abbrev pub Acted : Type 0
Acted = GatewayNodeClient × List Effect

-- First `m`, then `k` on the client after it.
abbrev pub and_then : Acted → (GatewayNodeClient → Acted) → Acted
and_then (c, done) k = let (c', more) = k c in (c', done ++ more)

unfoldable pub new : GatewayNodeClient
new = record {
  ws = none;
  pending = [];
  connect_sent = false;
  closed = false;
  reconnect_timer = false;
  backoff_ms = 1000;
  jobs = [];
}

-- `start`, up to the listeners
unfoldable pub start : ℕ → GatewayNodeClient → Acted
start id c =
    if c.closed
    then (c, [])
    else (record c { ws = some id; connect_sent = false }, socket_made id ∷ [])

-- The rejections of `flushPending`, in the order of the map.
abbrev pub rejections : ClientError → Entries Purpose → List Effect
rejections e [] = []
rejections e ((id, purpose) ∷ rest) = settles id (rejected e) ∷ rejections e rest

abbrev pub rejection_jobs : ClientError → Entries Purpose → List Job
rejection_jobs e [] = []
rejection_jobs e ((id, purpose) ∷ rest) =
    (record { purpose = purpose; outcome = rejected e }) ∷ rejection_jobs e rest

unfoldable pub flush_pending : ClientError → GatewayNodeClient → Acted
flush_pending e c =
    (record c { pending = []; jobs = c.jobs ++ rejection_jobs e c.pending }, rejections e c.pending)

unfoldable pub schedule_reconnect : GatewayNodeClient → Acted
schedule_reconnect c = if c.closed then (c, []) else (
  record c { reconnect_timer = true; backoff_ms = min (c.backoff_ms * 2) 30000 },
  timer_set c.backoff_ms ∷ [],
)

abbrev pub cleared : Bool → List Effect
cleared true = timer_cleared ∷ []
cleared false = []

abbrev pub closing_of : Option ℕ → List Effect
closing_of none = []
closing_of (some id) = socket_closed id ∷ []

unfoldable pub stop : GatewayNodeClient → Acted
unfolding flush_pending
stop c =
    and_then
      (
        record c { closed = true; reconnect_timer = false; ws = none },
        cleared c.reconnect_timer ++ closing_of c.ws,
      )
      (flush_pending client_stopped)

-- The frame of a request.
abbrev pub request_frame : String → String → Option Value → Value
request_frame id method params = obj (
    field "type" (str "req")
      (field "id" (str id) (field "method" (str method) (optional "params" params end))))

-- `request`: with no open socket it throws, which settles the promise that it returns.
abbrev pub request_on :
    (ℕ → ReadyState)
    → String
    → String
    → Option Value
    → Purpose
    → GatewayNodeClient
    → Option ℕ
    → Acted
request_on ready id method params purpose c none = (
  record c {
    jobs = c.jobs ++ (record { purpose = purpose; outcome = rejected not_connected }) ∷ [];
  },
  [],
)
request_on ready id method params purpose c (some socket) =
    if is_open (ready socket)
    then (
      record c { pending = insert id purpose c.pending },
      sent socket id purpose (request_frame id method params) ∷ [],
    )
    else (
      record c {
        jobs = c.jobs ++ (record { purpose = purpose; outcome = rejected not_connected }) ∷ [];
      },
      [],
    )

unfoldable pub request :
    (ℕ → ReadyState) → String → String → Option Value → Purpose → GatewayNodeClient → Acted
request ready id method params purpose c = request_on ready id method params purpose c c.ws

abbrev message_of : Option Value → Option Value
message_of none = none
message_of (some e) = property "message" e

abbrev or_failed : Option Value → Value
or_failed none = str "request failed"
or_failed (some null) = str "request failed"
or_failed (some v) = v

-- `frame.error?.message ?? "request failed"`
abbrev pub failure_text : Value → Value
failure_text frame = or_failed (message_of (property "error" frame))

abbrev pub answer_of : Value → Settled
answer_of frame =
    if truthy? (property "ok" frame)
    then resolved (property "payload" frame)
    else rejected (refused (failure_text frame))

-- The pending request of an answer, if there is one.
abbrev pub matched : Value → String → GatewayNodeClient → Option Purpose → Acted
matched frame id c none = (c, [])
matched frame id c (some purpose) = (
  record c {
    pending = erase id c.pending;
    jobs = c.jobs ++ (record { purpose = purpose; outcome = answer_of frame }) ∷ [];
  },
  settles id (answer_of frame) ∷ [],
)

abbrev pub response_to : Value → GatewayNodeClient → Option Value → Acted
response_to frame c (some (str id)) = matched frame id c (lookup id c.pending)
response_to frame c _ = (c, [])

unfoldable pub handle_response : Value → GatewayNodeClient → Acted
handle_response frame c = response_to frame c (property "id" frame)

-- The `close` listener.
unfoldable pub on_close : ℕ → String → GatewayNodeClient → Acted
unfolding flush_pending schedule_reconnect
on_close code reason c =
    and_then (flush_pending (gateway_closed code) (record c { ws = none }))
      (λ c'. and_then (c', emits_close code reason ∷ []) schedule_reconnect)
