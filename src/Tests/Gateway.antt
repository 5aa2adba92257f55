-- ===== src/Tests/Gateway.antt =====
-- A run of plugin/node/gateway-client.ts: a socket is made, the gateway challenges the node, and the
-- socket is lost.
use openclaw_rtc_plugin.Common.{
  ◌+◌, ◌≤◌, ◌≡◌, refl, str_eq, true, none, some, List, [], ◌∷◌, ◌++◌, All, ok, err, if◌then◌else◌,
}
use openclaw_rtc_plugin.Common.Maps.{lookup, insert}
use openclaw_rtc_plugin.Common.Texts.{show}
use openclaw_rtc_plugin.Json.{Value, str, obj, field, end, get}
use openclaw_rtc_plugin.Socket.{established}
use openclaw_rtc_plugin.Gateway.{
  Platform, Effect, settles, rejected, gateway_closed, timer_set, emits_close,
}
use openclaw_rtc_plugin.Gateway.Auth.{
  DeviceIdentity, GatewayNodeClientOptions, build_auth_payload_v3,
}
use openclaw_rtc_plugin.Gateway.Client.{Acted, new, stop, start, request}
use openclaw_rtc_plugin.Gateway.Loop.{
  Moment, start_called, message_received, close_received, happen,
}
use openclaw_rtc_plugin.Gateway.Run.{Run, begin, then_event}
use openclaw_rtc_plugin.Gateway.Backoff.{IsPaced, Run-IsPaced}
use openclaw_rtc_plugin.Gateway.Stopped.{IsStopped, IsInactive, stop-IsStopped}
use openclaw_rtc_plugin.Gateway.Requests.{asked, settled, held, Run-settled}
use openclaw_rtc_plugin.Gateway.Handshake.{connects_sent, sockets_made, Run-connects}

abbrev challenge : Value
challenge = obj (
    field "type" (str "event") (
      field "event" (str "connect.challenge")
        (field "payload" (obj (field "nonce" (str "n1") end)) end)))

abbrev platform : Platform
platform = record {
  json_parse = λ text. if str_eq text "challenge" then ok challenge else err "SyntaxError";
  json_stringify = λ v. "json";
  to_text = λ v. "text";
  sign_payload = λ key text. "signature";
  public_key_raw = λ pem. "key";
  platform_name = "linux";
}

abbrev opts : GatewayNodeClientOptions
opts = record {
  url = "ws://localhost";
  token = some "secret";
  display_name = none;
  commands = "rtc.call.accept" ∷ [];
  caps = none;
  has_handler = true;
}

abbrev identity : DeviceIdentity
identity = record { device_id = "0123456789"; public_key_pem = "pub"; private_key_pem = "priv" }

abbrev moment : Moment
moment = record { ready = λ id. established; uuid = "r1"; now = 5 }

abbrev made : Acted
made = happen platform opts identity moment (start_called 1) new

abbrev connected : Acted
connected = happen platform opts identity moment (message_received "challenge") made.0

abbrev lost : Acted
lost =
    happen platform opts identity (record moment { uuid = "r2" }) (close_received 1006 "gone")
      connected.0

abbrev log : List Effect
log = (([] ++ made.1) ++ connected.1) ++ lost.1

to_lost : Run platform opts identity new lost.0 log
unfolding happen new lookup start get request insert
to_lost =
    then_event
      (then_event (then_event begin moment (start_called 1) refl) moment
        (message_received "challenge") refl)
      (record moment { uuid = "r2" }) (close_received 1006 "gone") refl

-- The `connect` request is rejected, and a reconnect waits for a second.
effects_of_close :
    lost.1
    ≡ settles "r1" (rejected (gateway_closed 1006)) ∷ emits_close 1006 "gone" ∷ timer_set 1000 ∷ []
unfolding happen get start new request insert
effects_of_close = refl

Run-IsPaced_example : All IsPaced log
Run-IsPaced_example = Run-IsPaced platform opts identity lost.0 log to_lost

Run-settled_example : asked "r1" log ≡ settled "r1" log + held "r1" lost.0.pending
Run-settled_example = Run-settled platform opts identity lost.0 log to_lost "r1"

Run-connects_example : connects_sent log ≤ sockets_made log
Run-connects_example = Run-connects platform opts identity lost.0 log to_lost

-- The first event after a stop is a new start.
abbrev restarted : Acted
restarted = happen platform opts identity moment (start_called 2) (stop connected.0).0

to_restarted : Run platform opts identity (stop connected.0).0 restarted.0 ([] ++ restarted.1)
unfolding stop lookup
to_restarted = then_event begin moment (start_called 2) refl

stop-IsStopped_example : IsStopped restarted.0 × All IsInactive ([] ++ restarted.1)
stop-IsStopped_example =
    stop-IsStopped platform opts identity connected.0 restarted.0 ([] ++ restarted.1) to_restarted

payload_text :
    build_auth_payload_v3 (record {
      device_id = "d";
      client_id = "c";
      client_mode = "m";
      role = "r";
      scopes = "";
      signed_at_ms = 12;
      token = "t";
      nonce = "n";
      platform = "p";
    })
    ≡ "v3|d|c|m|r||12|t|n|p|"
unfolding build_auth_payload_v3 show
payload_text = refl
