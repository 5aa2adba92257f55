-- ===== src/Gateway.antt =====
-- plugin/node/gateway-client.ts, the connection of the RTC node to the gateway. `Identity` is the device
-- identity and its file, `Restart` that it outlives a restart, `Auth` the
-- parameters of `connect`, `Client` the methods, `Loop` the events that call them.
pub mod Auth
pub mod Identity
pub mod Restart
pub mod Client
pub mod Loop
pub mod Moves
pub mod Methods
pub mod Events
pub mod Run
pub mod Backoff
pub mod Stopped
pub mod Requests
pub mod Handshake
use openclaw_rtc_plugin.Common.{ℕ, String, Bool, Option, List, Result}
use openclaw_rtc_plugin.Common.Maps.{Entries}
use openclaw_rtc_plugin.Json.{Value}

-- What the code takes from the platform: JSON (with the text of the SyntaxError), `String(v)`, the
-- signature and the raw public key of node:crypto in base64url, and `process.platform`.
pub record Platform : Type 0 where
  pub json_parse : String → Result String Value
  pub json_stringify : Value → String
  pub to_text : Value → String
  pub sign_payload : String → String → String
  pub public_key_raw : String → String
  pub platform_name : String

-- Why a request is made: who waits for its answer.
pub data Purpose : Type 0 where
  for_connect : Purpose
  for_result : Value → Purpose
  for_failure : Purpose
  for_caller : Purpose

-- An `Error`, by what it is made of.
pub data ClientError : Type 0 where
  not_connected : ClientError
  gateway_closed : ℕ → ClientError
  client_stopped : ClientError
  refused : Value → ClientError
  thrown : String → ClientError

-- How a promise settles.
pub data Settled : Type 0 where
  resolved : Option Value → Settled
  rejected : ClientError → Settled

pub data Effect : Type 0 where
  socket_made : ℕ → Effect
  socket_closed : ℕ → Effect
  sent : ℕ → String → Purpose → Value → Effect
  settles : String → Settled → Effect
  timer_set : ℕ → Effect
  timer_cleared : Effect
  emits_open : Effect
  emits_close : ℕ → String → Effect
  emits_error : ClientError → Effect
  emits_event : Value → Effect
  emits_connected : Value → Effect
  handler_called : Value → Value → Option Value → Effect

-- A promise has settled and its continuation is to run: who waited, and for what.
pub record Job : Type 0 where
  pub purpose : Purpose
  pub outcome : Settled

pub record GatewayNodeClient : Type 0 where
  pub ws : Option ℕ
  pub pending : Entries Purpose
  pub connect_sent : Bool
  pub closed : Bool
  pub reconnect_timer : Bool  -- whether there is one
  pub backoff_ms : ℕ
  pub jobs : List Job  -- continuations that the event loop has still to run
