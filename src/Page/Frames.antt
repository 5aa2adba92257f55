-- ===== src/Page/Frames.antt =====
-- The gateway in plugin/ui/app.ts: the frames that come from it, and the answers to requests.
use Prim.Native.String.{◌++◌}
use openclaw_rtc_plugin.Common.{
  ℕ, suc, String, str_eq, Bool, true, Option, none, some, [], ◌∷◌, if◌then◌else◌,
}
use openclaw_rtc_plugin.Common.Maps.{lookup, erase}
use openclaw_rtc_plugin.Common.Texts.{slice_start}
use openclaw_rtc_plugin.Common.Int.{pos}
use openclaw_rtc_plugin.Json.{
  Value, null, num, str, obj, end, field, property, truthy, truthy?, optional,
}
use openclaw_rtc_plugin.Page.{
  Browser, Purpose, for_nobody, Settled, resolved, rejected, socket_made, settles, disconnected,
  connecting, Page, Acted,
}
use openclaw_rtc_plugin.Page.Show.{
  append_assistant_delta, finalize_assistant_message, show_transcript, set_status,
}
use openclaw_rtc_plugin.Page.Call.{Moment, and_then, send_request, continue, handle_call_ended}

-- `connectGateway`, with the number of its new socket
unfoldable pub connect_gateway : ℕ → Page → Acted
connect_gateway id p =
    (record p { shown = set_status connecting p.shown; ws = some id }, socket_made id ∷ [])

-- The `close` listener, with the timer that it sets.
unfoldable pub on_close : Page → Acted
on_close p = (
  record p { shown = set_status disconnected p.shown; ws = none; reconnects = suc p.reconnects },
  [],
)

-- `payload?.k`
abbrev pub payload_field : String → Option Value → Option Value
payload_field k none = none
payload_field k (some v) = property k v

-- `isInterim ?? true`, as a condition
abbrev pub or_interim : Option Value → Bool
or_interim none = true
or_interim (some null) = true
or_interim (some v) = truthy v

module _ (browser : Browser) where
  -- `new Error(frame.error?.message ?? "Request failed").message`
  abbrev message_of : Option Value → Option Value
  message_of none = none
  message_of (some e) = property "message" e

  abbrev failure_text : Option Value → String
  failure_text none = "Request failed"
  failure_text (some null) = "Request failed"
  failure_text (some v) = browser.to_text v

  abbrev pub answer_of : Value → Settled
  answer_of frame =
      if truthy? (property "ok" frame)
      then resolved (property "payload" frame)
      else rejected (failure_text (message_of (property "error" frame)))

  abbrev pub settle : Value → String → Page → Option Purpose → Acted
  settle frame id p none = (p, [])
  settle frame id p (some purpose) =
      and_then
        (
          record p { pending_requests = erase id p.pending_requests },
          settles id (answer_of frame) ∷ [],
        )
        (continue browser purpose (answer_of frame))

  abbrev pub response_to : Value → Page → Option Value → Acted
  response_to frame p (some (str id)) = settle frame id p (lookup id p.pending_requests)
  response_to frame p _ = (p, [])

  unfoldable pub handle_response : Value → Page → Acted
  handle_response frame p = response_to frame p (property "id" frame)

  abbrev client : Value
  client = obj (
      field "id" (str "webrtc-ui") (
        field "version" (str "2026.3.8")
          (field "platform" (str "browser") (field "mode" (str "frontend") end))))

  abbrev device : Moment → Option Value → Value
  device m nonce = obj (
      field "id" (str ("webrtc-ui-" ++ slice_start 8 m.device_uuid)) (
        field "publicKey" (str "") (
          field "signature" (str "")
            (field "signedAt" (num (pos m.now) 0) (optional "nonce" nonce end)))))

  unfoldable pub send_connect : Moment → Option Value → Page → Acted
  send_connect m nonce p =
      send_request browser m "connect"
        (obj (
          field "minProtocol" (num (pos 3) 0) (
            field "maxProtocol" (num (pos 3) 0) (
              field "client" client
                (field "role" (str "operator") (field "device" (device m nonce) end))))))
        for_nobody p

  -- `payload.nonce` of no payload throws, which the `message` listener catches.
  abbrev pub challenged : Moment → Option Value → Page → Acted
  challenged m none p = (p, [])
  challenged m (some null) p = (p, [])
  challenged m (some v) p = send_connect m (property "nonce" v) p

  abbrev pub delta_of : Option Value → Page → Acted
  delta_of none p = (p, [])
  delta_of (some v) p =
      if truthy v
      then (record p { shown = append_assistant_delta (browser.to_text v) p.shown }, [])
      else (p, [])

  abbrev pub transcript_of : Option Value → Bool → Page → Acted
  transcript_of none is_interim p = (p, [])
  transcript_of (some v) is_interim p =
      if truthy v
      then (record p { shown = show_transcript (browser.to_text v) is_interim p.shown }, [])
      else (p, [])

  abbrev pub named_event : Moment → String → Option Value → Page → Acted
  named_event m event payload p =
      if str_eq event "connect.challenge"
      then challenged m payload p
      else if str_eq event "chat.delta"
      then delta_of (payload_field "text" payload) p
      else if str_eq event "chat.done"
      then (record p { shown = finalize_assistant_message p.shown }, [])
      else if str_eq event "rtc.transcript"
      then transcript_of (payload_field "text" payload)
          (or_interim (payload_field "isInterim" payload)) p
      else if str_eq event "rtc.call.ended"
      then handle_call_ended p
      else (p, [])

  abbrev pub event_of : Moment → Option Value → Option Value → Page → Acted
  event_of m (some (str event)) payload p = named_event m event payload p
  event_of m _ payload p = (p, [])

  unfoldable pub handle_event : Moment → Value → Page → Acted
  unfolding send_connect
  handle_event m frame p = event_of m (property "event" frame) (property "payload" frame) p

  abbrev pub typed_frame : Moment → Option Value → Value → Page → Acted
  typed_frame m (some (str type)) frame p =
      if str_eq type "event"
      then handle_event m frame p
      else if str_eq type "res"
      then handle_response frame p
      else (p, [])
  typed_frame m _ frame p = (p, [])

  -- `frame.type` of null throws, which the `message` listener catches.
  unfoldable pub handle_frame : Moment → Value → Page → Acted
  unfolding handle_event handle_response
  handle_frame m null p = (p, [])
  handle_frame m frame p = typed_frame m (property "type" frame) frame p

  -- The `message` listener, with what `JSON.parse` makes of the data.
  unfoldable pub on_message : Moment → Option Value → Page → Acted
  unfolding handle_frame
  on_message m none p = (p, [])
  on_message m (some frame) p = handle_frame m frame p
