-- ===== src/Page/Web/Frames.antt =====
-- The gateway in plugin/ui/app.js: the frames that come from it, and the answers to requests.
use Prim.Native.String.{◌++◌}
use openclaw_rtc_plugin.Common.{
  String, str_eq, Bool, false, ◌||◌, ◌&&◌, Option, none, some, [], ◌∷◌, if◌then◌else◌,
}
use openclaw_rtc_plugin.Common.Maps.{lookup, erase}
use openclaw_rtc_plugin.Common.Texts.{is_empty, slice_start}
use openclaw_rtc_plugin.Common.Int.{pos}
use openclaw_rtc_plugin.Json.{Value, null, num, str, obj, end, field, property, truthy, optional}
use openclaw_rtc_plugin.Page.{Purpose, for_connect, settles, Page, Acted}
use openclaw_rtc_plugin.Page.Show.{append_assistant_delta, finalize_assistant_message}
use openclaw_rtc_plugin.Page.Call.{Moment, and_then, handle_call_ended}
use openclaw_rtc_plugin.Page.Frames.{answer_of, payload_field, or_interim, transcript_of}
use openclaw_rtc_plugin.Page.Web.{WebBrowser, continue, send_request}

-- `s.slice(1)`
abbrev without_first : String → String
without_first String.[] = String.[]
without_first (String.◌∷◌ c s) = s

-- `s || ""`
abbrev or_empty : Option String → String
or_empty none = ""
or_empty (some s) = s

-- `v === s`
abbrev pub is_text : String → Option Value → Bool
is_text s (some (str t)) = str_eq t s
is_text s _ = false

module _ (web : WebBrowser) where
  unfoldable pub get_token : String
  get_token = or_empty (web.search_param (without_first web.hash) "token")

  abbrev client : Value
  client = obj (
      field "id" (str "webchat-ui") (
        field "displayName" (str "WebRTC UI") (
          field "version" (str "2026.3.8") (
            field "platform" (str (if is_empty web.platform then "browser" else web.platform))
              (field "mode" (str "webchat") end)))))

  abbrev auth : String → Option Value
  auth token = if is_empty token then none else some (obj (field "token" (str token) end))

  abbrev device : Moment → Value → Value
  device m nonce = obj (
      field "id" (str ("webrtc-ui-" ++ slice_start 8 m.device_uuid)) (
        field "publicKey" (str "none") (
          field "signature" (str "none")
            (field "signedAt" (num (pos m.now) 0) (field "nonce" nonce end)))))

  abbrev pub connect_params : Moment → Value → Value
  connect_params m nonce = obj (
      field "minProtocol" (num (pos 3) 0) (
        field "maxProtocol" (num (pos 3) 0) (
          field "client" client (
            field "role" (str "operator")
              (optional "auth" (auth get_token) (field "device" (device m nonce) end))))))

  unfoldable pub send_connect : Moment → Value → Page → Acted
  send_connect m nonce p = send_request web m "connect" (connect_params m nonce) for_connect p

  abbrev pub settle : Value → String → Page → Option Purpose → Acted
  settle frame id p none = (p, [])
  settle frame id p (some purpose) =
      and_then
        (
          record p { pending_requests = erase id p.pending_requests },
          settles id (answer_of web.browser frame) ∷ [],
        )
        (continue web purpose (answer_of web.browser frame))

  abbrev pub response_to : Value → Page → Option Value → Acted
  response_to frame p (some (str id)) = settle frame id p (lookup id p.pending_requests)
  response_to frame p _ = (p, [])

  unfoldable pub handle_response : Value → Page → Acted
  handle_response frame p = response_to frame p (property "id" frame)

  -- A challenge without a nonce is left alone.
  abbrev pub challenged : Moment → Option Value → Page → Acted
  challenged m none p = (p, [])
  challenged m (some nonce) p = if truthy nonce then send_connect m nonce p else (p, [])

  abbrev pub delta_of : Value → Page → Acted
  delta_of text p =
      (record p { shown = append_assistant_delta (web.browser.to_text text) p.shown }, [])

  abbrev pub ends_answer : Bool → Page → Acted
  ends_answer b p =
      if b then (record p { shown = finalize_assistant_message p.shown }, []) else (p, [])

  -- A `chat` event, by its type and its text.
  abbrev pub chat_of : Option Value → Option Value → Page → Acted
  chat_of type none p = ends_answer (is_text "done" type || is_text "end" type) p
  chat_of type (some text) p =
      if is_text "delta" type && truthy text
      then delta_of text p
      else ends_answer (is_text "done" type || is_text "end" type) p

  abbrev pub named_event : Moment → String → Option Value → Page → Acted
  named_event m event payload p =
      if str_eq event "connect.challenge"
      then challenged m (payload_field "nonce" payload) p
      else if str_eq event "chat"
      then chat_of (payload_field "type" payload) (payload_field "text" payload) p
      else if str_eq event "rtc.transcript"
      then transcript_of web.browser (payload_field "text" payload)
          (or_interim (payload_field "isInterim" payload)) p
      else if str_eq event "rtc.call.ended"
      then handle_call_ended p
      else (p, [])

  abbrev pub event_of : Moment → Option Value → Option Value → Page → Acted
  event_of m (some (str event)) payload p = named_event m event payload p
  event_of m _ payload p = (p, [])

  unfoldable pub handle_event : Moment → Value → Page → Acted
  unfolding send_connect
  handle_event m frame p = event_of m (property "event" frame) (property "payload" frame) p

  abbrev pub typed_frame : Moment → Option Value → Value → Page → Acted
  typed_frame m (some (str type)) frame p =
      if str_eq type "event"
      then handle_event m frame p
      else if str_eq type "res"
      then handle_response frame p
      else (p, [])
  typed_frame m _ frame p = (p, [])

  -- `frame.type` of null throws, which the `message` listener catches.
  unfoldable pub handle_frame : Moment → Value → Page → Acted
  unfolding handle_event handle_response
  handle_frame m null p = (p, [])
  handle_frame m frame p = typed_frame m (property "type" frame) frame p

  -- The `message` listener, with what `JSON.parse` makes of the data.
  unfoldable pub on_message : Moment → Option Value → Page → Acted
  unfolding handle_frame
  on_message m none p = (p, [])
  on_message m (some frame) p = handle_frame m frame p
