-- ===== src/Volc/Message.antt =====
-- `handleMessage`, `handleJsonEvent` and `emitEvent` of plugin/node/volc-client.ts: what the client
-- emits for a message of the server. Listeners are outside: an `emit` is taken to return.
pub mod Laws
use openclaw_rtc_plugin.Common.{
  ℕ, ◌==◌, String, Bool, true, false, not, Option, none, some, List, [], ◌∷◌, if◌then◌else◌, str_eq,
  Result, ok, err,
}
use openclaw_rtc_plugin.Common.Texts.{is_empty}
use openclaw_rtc_plugin.Audio.{Buffer}
use openclaw_rtc_plugin.Json.{Value, null, bool, str, obj, Fields, get, property}
use openclaw_rtc_plugin.Volc.{Platform}
use openclaw_rtc_plugin.Volc.Frame.{
  FrameFields, read_fields, msg_error_server, msg_audio_only_server, serial_json,
}

-- The `Error` that is emitted, by its text: with a prefix, or the message that the server sent.
pub data ClientError : Type 0 where
  api_error : String → ClientError
  parse_failed : String → ClientError
  server_error : Value → ClientError

-- An `emit` with its arguments. The types of `text` and of the message are not checked.
pub data Emitted : Type 0 where
  asr : Value → Bool → Emitted
  tts_audio : Buffer → Emitted
  asr_ended : Emitted
  session_started : Emitted
  error : ClientError → Emitted
  raw : Value → Emitted

-- `v ?? d`
abbrev pub or_text : Option Value → String → Value
or_text none d = str d
or_text (some null) d = str d
or_text (some v) d = v

-- `v !== true`
abbrev pub is_interim : Option Value → Bool
is_interim (some (bool b)) = not b
is_interim _ = true

-- `case "TTSResponse"`
abbrev pub tts_response : Platform → Option Value → List Emitted
tts_response platform (some (str s)) =
    if is_empty s then [] else tts_audio (platform.base64_decode s) ∷ []
tts_response platform _ = []

-- The `switch` on a text.
abbrev pub named_event : Platform → String → Value → List Emitted
named_event platform event json =
    if str_eq event "ASRResponse"
    then asr (or_text (property "text" json) "") (is_interim (property "is_final" json)) ∷ []
    else if str_eq event "ASREnded"
    then asr_ended ∷ []
    else if str_eq event "SessionStarted"
    then session_started ∷ []
    else if str_eq event "TTSResponse"
    then tts_response platform (property "audio" json)
    else if str_eq event "Error"
    then error (server_error (or_text (property "message" json) "Unknown Volcano error")) ∷ []
    else raw json ∷ []

abbrev pub event_of : Platform → Option Value → Value → List Emitted
event_of platform (some (str event)) json = named_event platform event json
event_of platform _ json = raw json ∷ []

-- The text of the TypeError of `json.event` for `null`.
abbrev pub no_property : String
no_property = "TypeError: Cannot read properties of null (reading 'event')"

unfoldable pub handle_json_event : Platform → Value → Result String (List Emitted)
handle_json_event platform null = err no_property
handle_json_event platform json = ok (event_of platform (property "event" json) json)

-- The `try` around the parse and `handleJsonEvent`.
abbrev pub caught : Result String (List Emitted) → List Emitted
caught (ok emitted) = emitted
caught (err e) = error (parse_failed e) ∷ []

abbrev pub json_message : Platform → Result String Value → List Emitted
json_message platform (err e) = error (parse_failed e) ∷ []
json_message platform (ok json) = caught (handle_json_event platform json)

-- The error branch has no `try`: a text that is no JSON is thrown at the socket.
abbrev pub error_message : Platform → Bool → Buffer → Result String (List Emitted)
error_message platform as_json payload =
    if as_json
    then elim (platform.json_parse (platform.utf8_decode payload)) [
      | err e ↦ err e
      | ok v ↦ ok (error (api_error (platform.json_stringify v)) ∷ [])
    ]
    else ok (error (api_error (platform.utf8_decode payload)) ∷ [])

abbrev pub by_type : Platform → Option FrameFields → Result String (List Emitted)
by_type platform none = ok []
by_type platform (some f) =
    if f.msg_type == msg_error_server
    then error_message platform (f.serialization == serial_json) f.payload
    else if f.msg_type == msg_audio_only_server
    then ok (tts_audio f.payload ∷ [])
    else if f.serialization == serial_json
    then ok (json_message platform (platform.json_parse (platform.utf8_decode f.payload)))
    else ok []

unfoldable pub handle_message : Platform → Buffer → Result String (List Emitted)
unfolding handle_json_event
handle_message platform message = by_type platform (read_fields message)
