-- ===== src/Page/Web/Events.antt =====
-- The frames and events of plugin/ui/app.js as moves, so that what holds of every step holds of it.
use openclaw_rtc_plugin.Common.{
  ℕ, String, str_eq, Bool, ◌||◌, ◌&&◌, ◌≡◌, refl, ap, Option, none, some, [], get_elem?,
}
use openclaw_rtc_plugin.Common.Maps.{lookup}
use openclaw_rtc_plugin.Common.Texts.{is_empty, trim}
use openclaw_rtc_plugin.Json.{Value, null, bool, num, str, obj, arr, property, truthy}
use openclaw_rtc_plugin.Page.{Purpose, for_connect, for_chat, Wait, Page}
use openclaw_rtc_plugin.Page.Peer.{pc_of, take_media}
use openclaw_rtc_plugin.Page.Call.{Moment, Outcome, streamed}
use openclaw_rtc_plugin.Page.Frames.{connect_gateway, on_close, payload_field, or_interim}
use openclaw_rtc_plugin.Page.Loop.{
  Event, script_run, socket_opened, message_received, socket_closed, socket_failed, reconnect_fired,
  hide_fired, typed, submitted, call_clicked, hangup_clicked, wait_over, ice_found, track_received,
  state_changed, fits,
}
use openclaw_rtc_plugin.Page.Moves.{shows, plays, answers, still, Does, once, Moves-trans, if-Does}
use openclaw_rtc_plugin.Page.Script.{IsInside, IsLater, Step, moves, loses, Script}
use openclaw_rtc_plugin.Page.Handlers.{handle_call_ended-Does, hangup-Does, on_ice_candidate-Does}
use openclaw_rtc_plugin.Page.Events.{reconnect_due-Step, transcript_of-Does}
use openclaw_rtc_plugin.Page.Web.{WebBrowser, start_call, on_connection_state_change, resume}
use openclaw_rtc_plugin.Page.Web.Frames.{
  is_text, connect_params, send_connect, settle, response_to, handle_response, challenged, delta_of,
  ends_answer, chat_of, named_event, event_of, handle_event, typed_frame, handle_frame, on_message,
}
use openclaw_rtc_plugin.Page.Web.Loop.{submit, wait_at, happen}
use openclaw_rtc_plugin.Page.Web.Moves.{
  dials-Does, state_of-Does, continue-Does, send_request-Does, resume-Does,
}

module _ (web : WebBrowser) (m : Moment) where
  settle-Does :
      (frame : Value) (id : String) (p : Page) (o : Option Purpose)
      → lookup id p.pending_requests ≡ o
      → Does p (settle web frame id p o)
  settle-Does frame id p none at = still
  settle-Does frame id p (some purpose) at =
      Moves-trans (once (answers id purpose _ at)) (continue-Does web purpose _ _)

  response_to-Does :
      (frame : Value) (p : Page) (o : Option Value) → Does p (response_to web frame p o)
  response_to-Does frame p none = still
  response_to-Does frame p (some null) = still
  response_to-Does frame p (some (bool b)) = still
  response_to-Does frame p (some (num n e)) = still
  response_to-Does frame p (some (str id)) =
      settle-Does frame id p (lookup id p.pending_requests) refl
  response_to-Does frame p (some (obj fs)) = still
  response_to-Does frame p (some (arr vs)) = still

  challenged-Does :
      (v : Option Value) (p : Page)
      → lookup m.uuid p.pending_requests ≡ none
      → Does p (challenged web m v p)
  unfolding send_connect
  challenged-Does none p fresh = still
  challenged-Does (some nonce) p fresh =
      if-Does p (truthy nonce) (send_connect web m nonce p) (p, [])
        (λ h. send_request-Does web m "connect" (connect_params web m nonce) for_connect p fresh)
        (λ h. still)

  ends_answer-Does : (b : Bool) (p : Page) → Does p (ends_answer web b p)
  ends_answer-Does b p = if-Does p b _ (p, []) (λ h. once (shows _)) (λ h. still)

  chat_of-Does : (type text : Option Value) (p : Page) → Does p (chat_of web type text p)
  chat_of-Does type none p = ends_answer-Does (is_text "done" type || is_text "end" type) p
  chat_of-Does type (some text) p =
      if-Does p (is_text "delta" type && truthy text) (delta_of web text p)
        (ends_answer web (is_text "done" type || is_text "end" type) p) (λ h. once (shows _))
        (λ h. ends_answer-Does (is_text "done" type || is_text "end" type) p)

  named_event-Does :
      (event : String) (payload : Option Value) (p : Page)
      → lookup m.uuid p.pending_requests ≡ none
      → Does p (named_event web m event payload p)
  named_event-Does event payload p fresh =
      if-Does p (str_eq event "connect.challenge") _ _
        (λ h. challenged-Does (payload_field "nonce" payload) p fresh)
        (λ h.
          if-Does p (str_eq event "chat") _ _
            (λ k. chat_of-Does (payload_field "type" payload) (payload_field "text" payload) p)
            (λ k.
              if-Does p (str_eq event "rtc.transcript") _ _
                (λ l.
                  transcript_of-Does web.browser m (payload_field "text" payload)
                    (or_interim (payload_field "isInterim" payload)) p)
                (λ l.
                  if-Does p (str_eq event "rtc.call.ended") _ _ (λ n. handle_call_ended-Does p)
                    (λ n. still))))

  event_of-Does :
      (event payload : Option Value) (p : Page)
      → lookup m.uuid p.pending_requests ≡ none
      → Does p (event_of web m event payload p)
  event_of-Does none payload p fresh = still
  event_of-Does (some null) payload p fresh = still
  event_of-Does (some (bool b)) payload p fresh = still
  event_of-Does (some (num n e)) payload p fresh = still
  event_of-Does (some (str s)) payload p fresh = named_event-Does s payload p fresh
  event_of-Does (some (obj fs)) payload p fresh = still
  event_of-Does (some (arr vs)) payload p fresh = still

  typed_frame-Does :
      (type : Option Value) (frame : Value) (p : Page)
      → lookup m.uuid p.pending_requests ≡ none
      → Does p (typed_frame web m type frame p)
  unfolding handle_event handle_response
  typed_frame-Does none frame p fresh = still
  typed_frame-Does (some null) frame p fresh = still
  typed_frame-Does (some (bool b)) frame p fresh = still
  typed_frame-Does (some (num n e)) frame p fresh = still
  typed_frame-Does (some (str s)) frame p fresh =
      if-Does p (str_eq s "event") _ _
        (λ h. event_of-Does (property "event" frame) (property "payload" frame) p fresh)
        (λ h.
          if-Does p (str_eq s "res") _ _ (λ k. response_to-Does frame p (property "id" frame))
            (λ k. still))
  typed_frame-Does (some (obj fs)) frame p fresh = still
  typed_frame-Does (some (arr vs)) frame p fresh = still

  on_message-Does :
      (frame : Option Value) (p : Page)
      → lookup m.uuid p.pending_requests ≡ none
      → Does p (on_message web m frame p)
  unfolding on_message handle_frame
  on_message-Does none p fresh = still
  on_message-Does (some null) p fresh = still
  on_message-Does (some (bool b)) p fresh =
      typed_frame-Does (property "type" (bool b)) (bool b) p fresh
  on_message-Does (some (num n e)) p fresh =
      typed_frame-Does (property "type" (num n e)) (num n e) p fresh
  on_message-Does (some (str s)) p fresh =
      typed_frame-Does (property "type" (str s)) (str s) p fresh
  on_message-Does (some (obj fs)) p fresh =
      typed_frame-Does (property "type" (obj fs)) (obj fs) p fresh
  on_message-Does (some (arr vs)) p fresh =
      typed_frame-Does (property "type" (arr vs)) (arr vs) p fresh

  submit-Does : (p : Page) → lookup m.uuid p.pending_requests ≡ none → Does p (submit web m p)
  unfolding submit
  submit-Does p fresh =
      if-Does p (is_empty (trim p.shown.chat_input)) (p, []) _ (λ h. still)
        (λ h. Moves-trans (once (shows _)) (send_request-Does web m _ _ for_chat _ fresh))

  wait_at-Does :
      (j : ℕ) (outcome : Outcome) (p : Page) (w : Option Wait)
      → get_elem? p.waits j ≡ w
      → lookup m.uuid p.pending_requests ≡ none
      → Does p (wait_at web m j outcome w p)
  wait_at-Does j outcome p none at fresh = still
  wait_at-Does j outcome p (some w) at fresh =
      if-Does p (fits w outcome) _ (p, []) (λ h. resume-Does web m j w outcome p at fresh)
        (λ h. still)

  inside-Does :
      (e : Event) (p : Page)
      → IsInside e
      → lookup m.uuid p.pending_requests ≡ none
      → Does p (happen web m e p)
  unfolding happen start_call on_connection_state_change
  inside-Does (script_run id) p h fresh = elim h [ ]
  inside-Does socket_opened p h fresh = once (shows _)
  inside-Does (message_received text) p h fresh =
      on_message-Does (web.browser.json_parse text) p fresh
  inside-Does socket_closed p h fresh = elim h [ ]
  inside-Does socket_failed p h fresh = still
  inside-Does (reconnect_fired id) p h fresh = elim h [ ]
  inside-Does hide_fired p h fresh = once (shows _)
  inside-Does (typed text) p h fresh = once (shows _)
  inside-Does submitted p h fresh = submit-Does p fresh
  inside-Does call_clicked p h fresh = dials-Does p p.rtc_peer refl
  inside-Does hangup_clicked p h fresh = hangup-Does web.browser m p fresh
  inside-Does (wait_over j outcome) p h fresh =
      wait_at-Does j outcome p (get_elem? p.waits j) refl fresh
  inside-Does (ice_found i v) p h fresh = on_ice_candidate-Does web.browser m v p fresh
  inside-Does (track_received i) p h fresh = once plays
  inside-Does (state_changed i state) p h fresh = state_of-Does state p (pc_of i p)

  -- Every event after the script is a sequence of moves, or it is about the connection.
  pub happen-Step :
      (e : Event) (p : Page)
      → IsLater e
      → lookup m.uuid p.pending_requests ≡ none
      → Step p e (happen web m e p).0 (happen web m e p).1
  unfolding happen on_close
  happen-Step (script_run id) p h fresh = elim h [ ]
  happen-Step socket_closed p h fresh = loses
  happen-Step (reconnect_fired id) p h fresh = reconnect_due-Step id p p.reconnects refl
  happen-Step socket_opened p h fresh = moves tt (inside-Does socket_opened p tt fresh)
  happen-Step (message_received text) p h fresh =
      moves tt (inside-Does (message_received text) p tt fresh)
  happen-Step socket_failed p h fresh = moves tt (inside-Does socket_failed p tt fresh)
  happen-Step hide_fired p h fresh = moves tt (inside-Does hide_fired p tt fresh)
  happen-Step (typed text) p h fresh = moves tt (inside-Does (typed text) p tt fresh)
  happen-Step submitted p h fresh = moves tt (inside-Does submitted p tt fresh)
  happen-Step call_clicked p h fresh = moves tt (inside-Does call_clicked p tt fresh)
  happen-Step hangup_clicked p h fresh = moves tt (inside-Does hangup_clicked p tt fresh)
  happen-Step (wait_over j outcome) p h fresh =
      moves tt (inside-Does (wait_over j outcome) p tt fresh)
  happen-Step (ice_found i v) p h fresh = moves tt (inside-Does (ice_found i v) p tt fresh)
  happen-Step (track_received i) p h fresh = moves tt (inside-Does (track_received i) p tt fresh)
  happen-Step (state_changed i state) p h fresh =
      moves tt (inside-Does (state_changed i state) p tt fresh)

-- plugin/ui/app.js
unfoldable pub app_js : WebBrowser → Script
unfolding happen connect_gateway resume take_media
app_js web = record {
  happen = happen web;
  first = λ m id. (_, refl);
  step = λ m e p h fresh. happen-Step web m e p h fresh;
  grant = λ m p j i stream pc at. ap (λ o. wait_at web m j (streamed stream pc) o p) at;
}
