-- ===== src/Tests/Volc.antt =====
-- Runs of plugin/node/volc-client.ts: a session with some audio, messages of the server, and a
-- client that connects twice.
use openclaw_rtc_plugin.Common.{
  ◌≡◌, ◌≢◌, ◌⊎◌, refl, str_eq, true, false, none, some, List, [], ◌∷◌, All, ok, err, if◌then◌else◌,
}
use openclaw_rtc_plugin.Audio.{Buffer}
use openclaw_rtc_plugin.Socket.{established}
use openclaw_rtc_plugin.Volc.{Platform}
use openclaw_rtc_plugin.Volc.Frame.{FrameFields, build_header, read_fields, audio_frame}
use openclaw_rtc_plugin.Volc.Message.{tts_audio, handle_message}
use openclaw_rtc_plugin.Volc.Client.{VolcClientConfig, VolcSessionOptions, VolcRealtimeClient, new}
use openclaw_rtc_plugin.Volc.Client.Session.{
  Action, connects, starts, streams, finishes, run, obeys, session_after, run-obeys,
}
use openclaw_rtc_plugin.Volc.Client.Wire.{IsEncoded, run-IsEncoded}

-- JSON with one text that parses.
abbrev platform : Platform
platform = record {
  utf8_encode = λ s. 1 ∷ 2 ∷ [];
  utf8_decode = λ b. if str_eq "x" "y" then "no" else "text";
  json_parse = λ s. err "SyntaxError";
  json_stringify = λ v. "json";
  base64_decode = λ s. [];
}

abbrev config : VolcClientConfig
config = record { app_id = "app"; access_key = "key"; resource_id = none; speaker = none }

abbrev options : VolcSessionOptions
options = record { model = none; voice = none }

abbrev actions : List Action
actions = connects 1 ∷ starts (λ id. established) options ∷ streams (7 ∷ 8 ∷ []) ∷ finishes ∷ []

run-obeys_example :
    let (c, sent) = run platform actions (new config) in
    (obeys false sent ≡ true)
    × ((c.session_active ≡ false) ⊎ ((session_after false sent ≡ true) × (c.ws ≢ none)))
run-obeys_example = run-obeys platform config actions

run-IsEncoded_example : All (IsEncoded platform) (run platform actions (new config)).1
run-IsEncoded_example = run-IsEncoded platform actions (new config)

abbrev in_session : VolcRealtimeClient
in_session = record { ws = some 1; config = config; session_active = true }

abbrev frame : Buffer
frame = 17 ∷ 144 ∷ 0 ∷ 0 ∷ 0 ∷ 0 ∷ 0 ∷ 2 ∷ 7 ∷ 8 ∷ []

built : audio_frame (7 ∷ 8 ∷ []) ≡ ok frame
unfolding audio_frame build_header
built = refl

-- An error message that is marked as JSON, with one byte of payload.
abbrev broken : Buffer
broken = 17 ∷ 240 ∷ 16 ∷ 0 ∷ 0 ∷ 0 ∷ 0 ∷ 1 ∷ 65 ∷ []

abbrev broken_fields : FrameFields
broken_fields = record { msg_type = 15; serialization = 1; payload = 65 ∷ [] }

read_broken : read_fields broken ≡ some broken_fields
unfolding read_fields
read_broken = refl

-- The same fields as an audio message.
abbrev spoken : Buffer
spoken = 17 ∷ 176 ∷ 0 ∷ 0 ∷ 0 ∷ 0 ∷ 0 ∷ 1 ∷ 65 ∷ []

heard : handle_message platform spoken ≡ ok (tts_audio (65 ∷ []) ∷ [])
unfolding handle_message read_fields
heard = refl
