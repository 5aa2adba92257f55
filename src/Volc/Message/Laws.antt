-- ===== src/Volc/Message/Laws.antt =====
-- What plugin/node/volc-client.ts emits for a message of the server.
use openclaw_rtc_plugin.Common.{
  ℕ, ◌≤◌, ◌<◌, ◌^◌, ◌≡◌, ap, ◌↔◌, inl, inr, String, Option, none, some, List, [], ◌∷◌, ◌++◌, arith,
  length, Option-cases, Result, ok, err,
}
use openclaw_rtc_plugin.Audio.{Buffer}
use openclaw_rtc_plugin.Json.{Value, null, bool, num, str, arr, obj, property}
use openclaw_rtc_plugin.Volc.{Platform}
use openclaw_rtc_plugin.Volc.Frame.{FrameFields, build_header, read_fields}
use openclaw_rtc_plugin.Volc.Frame.Laws.{read_fields-build_header}
use openclaw_rtc_plugin.Volc.Message.{
  Emitted, tts_audio, named_event, tts_response, event_of, handle_json_event, json_message, by_type,
  handle_message,
}

module _ (platform : Platform) where
  -- An audio frame of the server, with a payload below 2 ^ 32 bytes, is emitted as it is,
  -- whatever its serialization and whatever follows it in the message.
  audio_emitted :
      (serialization : ℕ) (payload rest : Buffer)
      → serialization < 16
      → length payload < 2 ^ 32
      → (header : Buffer) × (build_header 11 serialization (length payload) ≡ ok header)
        × (handle_message platform (header ++ payload ++ rest) ≡ ok (tts_audio payload ∷ []))
  unfolding handle_message
  audio_emitted serialization payload rest small fits =
      let (header, made, eight, read) =
        read_fields-build_header 11 serialization payload rest (omega arith) small fits in
      (header, made, ap (by_type platform) read)

  tts_response-length : (v : Option Value) → length (tts_response platform v) ≤ 1
  tts_response-length v = ground arith

  named_event-length :
      (event : String) (json : Value) → length (named_event platform event json) ≤ 1
  named_event-length event json = ground (arith, tts_response-length (property "audio" json))

  event_of-length :
      (event : Option Value) (json : Value) → length (event_of platform event json) ≤ 1
  event_of-length none json = omega arith
  event_of-length (some (str event)) json = named_event-length event json
  event_of-length (some null) json = omega arith
  event_of-length (some (bool b)) json = omega arith
  event_of-length (some (num m e)) json = omega arith
  event_of-length (some (obj fs)) json = omega arith
  event_of-length (some (arr xs)) json = omega arith

  json_message-length : (r : Result String Value) → length (json_message platform r) ≤ 1
  unfolding handle_json_event
  json_message-length (err e) = omega arith
  json_message-length (ok null) = omega arith
  json_message-length (ok (bool b)) = event_of-length (property "event" (bool b)) (bool b)
  json_message-length (ok (num m e)) = event_of-length (property "event" (num m e)) (num m e)
  json_message-length (ok (str s)) = event_of-length (property "event" (str s)) (str s)
  json_message-length (ok (obj fs)) = event_of-length (property "event" (obj fs)) (obj fs)
  json_message-length (ok (arr xs)) = event_of-length (property "event" (arr xs)) (arr xs)

  -- A message emits one event at most.
  pub handle_message-length :
      (message : Buffer) (emitted : List Emitted)
      → handle_message platform message ≡ ok emitted
      → length emitted ≤ 1
  unfolding handle_message handle_json_event
  handle_message-length message emitted h = elim (Option-cases (read_fields message)) [
    | inl short ↦ ground arith
    | inr (f, read) ↦
        ground (arith, json_message-length (platform.json_parse (platform.utf8_decode f.payload)))
  ]

  -- For a message with a header, `handleMessage` throws exactly if it is an error message that is
  -- marked as JSON and is none: the only parse that stands outside the `try`.
  handle_message_throws :
      (message : Buffer) (f : FrameFields) (e : String)
      → read_fields message ≡ some f
      → (handle_message platform message ≡ err e) ↔ (
          (f.msg_type ≡ 15)
          × (f.serialization ≡ 1)
          × (platform.json_parse (platform.utf8_decode f.payload) ≡ err e))
  unfolding handle_message handle_json_event
  handle_message_throws message f e read = ground arith
