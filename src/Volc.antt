-- ===== src/Volc.antt =====
-- plugin/node/volc-client.ts, the client of the Volcano Engine realtime API. `Frame` is the
-- frame, `Message` the handling of what the server sends, `Client` the session.
pub mod Frame
pub mod Message
pub mod Client
use openclaw_rtc_plugin.Common.{String, Option, Result}
use openclaw_rtc_plugin.Audio.{Buffer}
use openclaw_rtc_plugin.Json.{Value}

-- What the code takes from the platform: UTF-8, JSON (with the text of the SyntaxError), base64.
pub record Platform : Type 0 where
  pub utf8_encode : String → Buffer
  pub utf8_decode : Buffer → String
  pub json_parse : String → Result String Value
  pub json_stringify : Value → String
  pub base64_decode : String → Buffer
