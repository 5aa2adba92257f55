-- ===== src/Gateway/Methods.antt =====
-- The methods of `GatewayNodeClient` in plugin/node/gateway-client.ts as moves.
use openclaw_rtc_plugin.Common.{
  ℕ, String, Bool, true, false, ◌≡◌, refl, Option, none, some, [], ◌∷◌, ◌++◌, All,
}
use openclaw_rtc_plugin.Common.Maps.{lookup}
use openclaw_rtc_plugin.Json.{Value, null, bool, num, str, arr, obj}
use openclaw_rtc_plugin.Socket.{is_open}
use openclaw_rtc_plugin.Gateway.{
  Purpose, for_connect, ClientError, emits_close, emits_error, GatewayNodeClient, gateway_closed,
  client_stopped,
}
use openclaw_rtc_plugin.Gateway.Client.{
  start, flush_pending, schedule_reconnect, cleared, closing_of, stop, request, request_on, matched,
  on_close, response_to, answer_of,
}
use openclaw_rtc_plugin.Gateway.Loop.{Moment}
use openclaw_rtc_plugin.Gateway.Moves.{
  IsCall, IsOther, calls, makes, challenges, connects, asks, answers, drops, flushes, schedules,
  stops, Moves, still, then_move, Does, once, Moves-trans, called, if-Does,
}

pub request-Does :
    (m : Moment) (method : String) (params : Option Value) (purpose : Purpose)
    (c : GatewayNodeClient)
    → IsOther purpose
    → lookup m.uuid c.pending ≡ none
    → Does c (request m.ready m.uuid method params purpose c)
unfolding request
request-Does m method params purpose c other fresh = go c.ws refl
  where
    go : (w : Option ℕ) → c.ws ≡ w → Does c (request_on m.ready m.uuid method params purpose c w)
    go none at = once (calls [] _ tt)
    go (some socket) at =
        if-Does c (is_open (m.ready socket)) _ _
          (λ up. once (asks socket m.uuid purpose _ other at fresh)) (λ down. once (calls [] _ tt))

pub request-connects :
    (m : Moment) (params : Option Value) (c : GatewayNodeClient)
    → c.connect_sent ≡ false
    → lookup m.uuid c.pending ≡ none
    → Does c
        (request m.ready m.uuid "connect" params for_connect (record c { connect_sent = true }))
unfolding request
request-connects m params c off fresh = go c.ws refl
  where
    go :
        (w : Option ℕ)
        → c.ws ≡ w
        → Does c (
            request_on m.ready m.uuid "connect" params for_connect
              (record c { connect_sent = true })
              w)
    go none at = then_move (once (challenges off)) (calls [] _ tt)
    go (some socket) at =
        if-Does c (is_open (m.ready socket)) _ _
          (λ up. once (connects socket m.uuid _ off at fresh))
          (λ down. then_move (once (challenges off)) (calls [] _ tt))

pub rejected_frame :
    (c c' : GatewayNodeClient) (e : ClientError) → Moves c c' [] → Moves c c' (emits_error e ∷ [])
rejected_frame c c' e n = Moves-trans n (called c' (emits_error e ∷ []) (tt, tt))

pub start-Does : (id : ℕ) (c : GatewayNodeClient) → Does c (start id c)
unfolding start
start-Does id c = if-Does c c.closed _ _ (λ over. still) (λ live. once (makes id live))

schedule_reconnect-Does : (c : GatewayNodeClient) → Does c (schedule_reconnect c)
unfolding schedule_reconnect
schedule_reconnect-Does c = if-Does c c.closed _ _ (λ over. still) (λ live. once (schedules live))

pub on_close-Does :
    (code : ℕ) (reason : String) (c : GatewayNodeClient) → Does c (on_close code reason c)
unfolding on_close flush_pending
on_close-Does code reason c =
    Moves-trans (Moves-trans (once drops) (once (flushes (gateway_closed code) _)))
      (Moves-trans (called _ (emits_close code reason ∷ []) (tt, tt)) (schedule_reconnect-Does _))

stop_calls : (timer : Bool) (w : Option ℕ) → All IsCall (cleared timer ++ closing_of w)
stop_calls true none = (tt, tt)
stop_calls true (some id) = (tt, (tt, tt))
stop_calls false none = tt
stop_calls false (some id) = (tt, tt)

pub stop-Does : (c : GatewayNodeClient) → Does c (stop c)
unfolding stop flush_pending
stop-Does c =
    Moves-trans
      (once
        (stops (cleared c.reconnect_timer ++ closing_of c.ws) (stop_calls c.reconnect_timer c.ws)))
      (once (flushes client_stopped _))

matched-Does :
    (frame : Value) (id : String) (c : GatewayNodeClient) (w : Option Purpose)
    → lookup id c.pending ≡ w
    → Does c (matched frame id c w)
matched-Does frame id c none at = still
matched-Does frame id c (some purpose) at = once (answers id purpose (answer_of frame) _ at)

pub response_to-Does :
    (frame : Value) (id : Option Value) (c : GatewayNodeClient) → Does c (response_to frame c id)
response_to-Does frame none c = still
response_to-Does frame (some null) c = still
response_to-Does frame (some (bool b)) c = still
response_to-Does frame (some (num n e)) c = still
response_to-Does frame (some (obj fs)) c = still
response_to-Does frame (some (arr xs)) c = still
response_to-Does frame (some (str id)) c = matched-Does frame id c (lookup id c.pending) refl
