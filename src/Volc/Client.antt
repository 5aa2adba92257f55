-- ===== src/Volc/Client.antt =====
-- `VolcRealtimeClient` of plugin/node/volc-client.ts: its socket and its session. Sockets are told
-- apart by numbers. What a socket does with a frame that it is handed is outside.
pub mod Session
pub mod Wire
pub mod Reconnect
use openclaw_rtc_plugin.Common.{
  ℕ, String, Bool, true, false, Option, none, some, List, [], ◌∷◌, Result, ok, err, if◌then◌else◌,
  ◌>>=◌,
}
use openclaw_rtc_plugin.Common.Int.{pos}
use openclaw_rtc_plugin.Socket.{ReadyState, is_open}
use openclaw_rtc_plugin.Audio.{Buffer}
use openclaw_rtc_plugin.Json.{Value, num, str, obj, field, end}
use openclaw_rtc_plugin.Volc.{Platform}
use openclaw_rtc_plugin.Volc.Frame.{FrameError, json_frame, audio_frame}

pub record VolcClientConfig : Type 0 where
  pub app_id : String
  pub access_key : String
  pub resource_id : Option String
  pub speaker : Option String

pub record VolcSessionOptions : Type 0 where
  pub model : Option String
  pub voice : Option String

pub record VolcRealtimeClient : Type 0 where
  pub ws : Option ℕ
  pub config : VolcClientConfig
  pub session_active : Bool

unfoldable pub new : VolcClientConfig → VolcRealtimeClient
new config = record { ws = none; config = config; session_active = false }

-- A message of the client, and the value that is sent as JSON for it, if it is no audio.
pub data ClientMessage : Type 0 where
  start_message : String → String → ClientMessage
  audio_message : Buffer → ClientMessage
  text_message : String → ClientMessage
  finish_message : ClientMessage

abbrev number : ℕ → Value
number n = num (pos n) 0

abbrev pub start_payload : String → String → Value
start_payload model speaker = obj (
    field "event" (str "StartSession") (
      field "params"
        (obj (
          field "model" (str model) (
            field "speaker" (str speaker) (
              field "audio_config"
                (obj (
                  field "input"
                    (obj (
                      field "encoding" (str "pcm")
                        (field "sample_rate" (number 16000) (field "channels" (number 1) end))))
                    (field "output"
                      (obj (
                        field "encoding" (str "ogg_opus") (field "sample_rate" (number 24000) end)))
                      end)))
                end))))
        end))

unfoldable pub frame_of : Platform → ClientMessage → Result FrameError Buffer
frame_of platform (start_message model speaker) = json_frame platform (start_payload model speaker)
frame_of platform (audio_message pcm) = audio_frame pcm
frame_of platform (text_message text) =
    json_frame platform (obj (field "event" (str "ChatTTSText") (field "text" (str text) end)))
frame_of platform finish_message =
    json_frame platform (obj (field "event" (str "FinishSession") end))

-- `ws.send(frame)`
pub record Sent : Type 0 where
  pub socket : ℕ
  pub message : ClientMessage
  pub frame : Buffer

pub data ClientFailure : Type 0 where
  not_connected : ClientFailure
  bad_frame : FrameError → ClientFailure

-- The client after a method with what it sent, or what the method throws before any change.
abbrev pub Outcome : Type 0
Outcome = Result ClientFailure (VolcRealtimeClient × List Sent)

-- `sendJsonFrame` and `sendAudioFrame` on the socket `id`, and then the client `c`.
abbrev pub handed : ℕ → ClientMessage → Result FrameError Buffer → VolcRealtimeClient → Outcome
handed id m (ok frame) c = ok (c, (record { socket = id; message = m; frame = frame }) ∷ [])
handed id m (err e) c = err (bad_frame e)

unfoldable pub send_message : Platform → ℕ → ClientMessage → VolcRealtimeClient → Outcome
send_message platform id m c = handed id m (frame_of platform m) c

-- `connect`, with the number of the socket that it makes
unfoldable pub connect : ℕ → VolcRealtimeClient → VolcRealtimeClient
connect id c = record c { ws = some id }

-- The `close` listener. It does not look at which socket was closed.
unfoldable pub on_close : ℕ → VolcRealtimeClient → VolcRealtimeClient
on_close id c = record c { session_active = false; ws = none }

abbrev either {ℓ} : {A : Type ℓ} → Option A → Option A → Option A
either none b = b
either (some a) b = some a

abbrev default {ℓ} : {A : Type ℓ} → Option A → A → A
default none d = d
default (some a) d = a

abbrev pub start_on :
    Platform → (ℕ → ReadyState) → VolcSessionOptions → VolcRealtimeClient → Option ℕ → Outcome
start_on platform ready options c none = err not_connected
start_on platform ready options c (some id) =
    let model = default options.model "O" in
    let speaker = default (either options.voice c.config.speaker) "zh_female_cancan_mars_bigtts" in
    if is_open (ready id)
    then handed id (start_message model speaker) (frame_of platform (start_message model speaker))
        (record c { session_active = true })
    else err not_connected

unfoldable pub start_session :
    Platform → (ℕ → ReadyState) → VolcSessionOptions → VolcRealtimeClient → Outcome
start_session platform ready options c = start_on platform ready options c c.ws

-- The guard of the other senders, `if (!this.ws || !this.sessionActive) return`, and what is sent
-- behind it.
abbrev pub guarded : Option ℕ → Bool → VolcRealtimeClient → (ℕ → Outcome) → Outcome
guarded (some id) true c k = k id
guarded (some id) false c k = ok (c, [])
guarded none active c k = ok (c, [])

unfoldable pub send_audio : Platform → Buffer → VolcRealtimeClient → Outcome
unfolding send_message
send_audio platform pcm c =
    guarded c.ws c.session_active c (λ id. send_message platform id (audio_message pcm) c)

unfoldable pub send_tts_text : Platform → String → VolcRealtimeClient → Outcome
unfolding send_message
send_tts_text platform text c =
    guarded c.ws c.session_active c (λ id. send_message platform id (text_message text) c)

unfoldable pub finish_session : Platform → VolcRealtimeClient → Outcome
unfolding send_message
finish_session platform c =
    guarded c.ws c.session_active c
      (λ id. send_message platform id finish_message (record c { session_active = false }))

unfoldable pub disconnect : VolcRealtimeClient → VolcRealtimeClient
disconnect c = record c { session_active = false; ws = none }
