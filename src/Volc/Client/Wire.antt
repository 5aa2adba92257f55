-- ===== src/Volc/Client/Wire.antt =====
-- The frames that `VolcRealtimeClient` of plugin/node/volc-client.ts puts on the wire.
use openclaw_rtc_plugin.Common.{
  ℕ, ◌≡◌, refl, inl, inr, Bool, true, false, Option, none, some, List, [], ◌∷◌, arith, All,
  All-append, Result, ok, err, Bool-cases,
}
use openclaw_rtc_plugin.Audio.{Buffer}
use openclaw_rtc_plugin.Json.{Value, str, obj, field, end}
use openclaw_rtc_plugin.Volc.{Platform}
use openclaw_rtc_plugin.Volc.Frame.{FrameError, FrameFields, read_fields, json_frame, audio_frame}
use openclaw_rtc_plugin.Volc.Frame.Laws.{with_payload-read_fields}
use openclaw_rtc_plugin.Socket.{ReadyState, is_open}
use openclaw_rtc_plugin.Volc.Client.{
  VolcSessionOptions, VolcRealtimeClient, ClientMessage, start_message, audio_message, text_message,
  finish_message, frame_of, Sent, Outcome, handed, send_message, start_payload, start_session,
  guarded, start_on, send_audio, send_tts_text, finish_session,
}
use openclaw_rtc_plugin.Volc.Client.Session.{
  Action, connects, closes, starts, streams, speaks, finishes, disconnects, act, settled, run,
}

-- The fields that a server reads for a message.
abbrev json_fields : Platform → Value → FrameFields
json_fields platform v = record {
  msg_type = 1;
  serialization = 1;
  payload = platform.utf8_encode (platform.json_stringify v);
}

abbrev pub fields_of : Platform → ClientMessage → FrameFields
fields_of platform (start_message model speaker) =
    json_fields platform (start_payload model speaker)
fields_of platform (audio_message pcm) = record { msg_type = 9; serialization = 0; payload = pcm }
fields_of platform (text_message text) =
    json_fields platform (obj (field "event" (str "ChatTTSText") (field "text" (str text) end)))
fields_of platform finish_message =
    json_fields platform (obj (field "event" (str "FinishSession") end))

abbrev pub IsEncoded : Platform → Sent → Type 0
IsEncoded platform s = read_fields s.frame ≡ some (fields_of platform s.message)

frame_of-IsEncoded :
    (platform : Platform) (m : ClientMessage) (frame : Buffer)
    → frame_of platform m ≡ ok frame
    → read_fields frame ≡ some (fields_of platform m)
unfolding frame_of json_frame audio_frame
frame_of-IsEncoded platform (start_message model speaker) frame h =
    with_payload-read_fields 1 1 _ frame (omega arith) (omega arith) h
frame_of-IsEncoded platform (audio_message pcm) frame h =
    with_payload-read_fields 9 0 _ frame (omega arith) (omega arith) h
frame_of-IsEncoded platform (text_message text) frame h =
    with_payload-read_fields 1 1 _ frame (omega arith) (omega arith) h
frame_of-IsEncoded platform finish_message frame h =
    with_payload-read_fields 1 1 _ frame (omega arith) (omega arith) h

module _ (platform : Platform) where
  abbrev AllEncoded : VolcRealtimeClient × List Sent → Type 0
  AllEncoded (c, sent) = All (IsEncoded platform) sent

  handed-AllEncoded :
      (c c' : VolcRealtimeClient) (id : ℕ) (m : ClientMessage) (r : Result FrameError Buffer)
      → frame_of platform m ≡ r
      → AllEncoded (settled c (handed id m r c'))
  handed-AllEncoded c c' id m (ok frame) made = (frame_of-IsEncoded platform m frame made, tt)
  handed-AllEncoded c c' id m (err e) made = tt

  guarded-AllEncoded :
      (c : VolcRealtimeClient) (k : ℕ → Outcome) (w : Option ℕ) (active : Bool)
      → ((id : ℕ) → AllEncoded (settled c (k id)))
      → AllEncoded (settled c (guarded w active c k))
  guarded-AllEncoded c k none active h = tt
  guarded-AllEncoded c k (some id) false h = tt
  guarded-AllEncoded c k (some id) true h = h id

  start_on-AllEncoded :
      (ready : ℕ → ReadyState) (options : VolcSessionOptions) (c : VolcRealtimeClient)
      (w : Option ℕ)
      → AllEncoded (settled c (start_on platform ready options c w))
  start_on-AllEncoded ready options c none = tt
  start_on-AllEncoded ready options c (some id) = elim (Bool-cases (is_open (ready id))) [
    | inl good ↦ rw good (handed-AllEncoded c _ id (start_message _ _) _ refl)
    | inr bad ↦ rw bad tt
  ]

  act-AllEncoded : (a : Action) (c : VolcRealtimeClient) → AllEncoded (settled c (act platform a c))
  unfolding act start_session send_audio send_tts_text finish_session send_message
  act-AllEncoded (connects id) c = tt
  act-AllEncoded (closes id) c = tt
  act-AllEncoded (starts ready options) c = start_on-AllEncoded ready options c c.ws
  act-AllEncoded (streams pcm) c =
      guarded-AllEncoded c _ c.ws c.session_active
        (λ id. handed-AllEncoded c c id (audio_message pcm) _ refl)
  act-AllEncoded (speaks text) c =
      guarded-AllEncoded c _ c.ws c.session_active
        (λ id. handed-AllEncoded c c id (text_message text) _ refl)
  act-AllEncoded finishes c =
      guarded-AllEncoded c _ c.ws c.session_active
        (λ id. handed-AllEncoded c _ id finish_message _ refl)
  act-AllEncoded disconnects c = tt

  -- Every frame that a client ever sends reads back, field by field, as the message it was made of.
  pub run-IsEncoded :
      (actions : List Action) (c : VolcRealtimeClient)
      → All (IsEncoded platform) (run platform actions c).1
  unfolding run
  run-IsEncoded [] c = tt
  run-IsEncoded (a ∷ rest) c =
      let (c', sent) = settled c (act platform a c) in
      All-append (IsEncoded platform) sent (run platform rest c').1 (act-AllEncoded a c)
        (run-IsEncoded rest c')
