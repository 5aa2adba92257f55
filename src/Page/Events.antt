-- ===== src/Page/Events.antt =====
-- The frames and events of plugin/ui/app.ts as moves.
use openclaw_rtc_plugin.Common.{
  ℕ, zero, suc, String, str_eq, Bool, ◌≡◌, refl, ap, Option, none, some, [], get_elem?,
}
use openclaw_rtc_plugin.Common.Maps.{lookup}
use openclaw_rtc_plugin.Common.Texts.{is_empty, trim}
use openclaw_rtc_plugin.Json.{Value, null, bool, num, str, obj, arr, property, truthy}
use openclaw_rtc_plugin.Page.{Browser, Purpose, for_chat, for_nobody, Wait, Page}
use openclaw_rtc_plugin.Page.Call.{streamed, resume, Moment, Outcome}
use openclaw_rtc_plugin.Page.Frames.{
  connect_gateway, on_close, settle, response_to, handle_response, send_connect, challenged,
  delta_of, payload_field, or_interim, transcript_of, named_event, event_of, handle_event,
  typed_frame, handle_frame, on_message,
}
use openclaw_rtc_plugin.Page.Loop.{
  Event, script_run, socket_opened, message_received, socket_closed, socket_failed, reconnect_fired,
  hide_fired, typed, submitted, call_clicked, hangup_clicked, wait_over, ice_found, track_received,
  state_changed, reconnect_due, submit, fits, wait_at, happen,
}
use openclaw_rtc_plugin.Page.Script.{
  IsInside, IsLater, Step, moves, loses, reconnects, unset, Script,
}
use openclaw_rtc_plugin.Page.Peer.{take_media}
use openclaw_rtc_plugin.Page.Moves.{shows, plays, answers, still, Does, once, Moves-trans, if-Does}
use openclaw_rtc_plugin.Page.Handlers.{
  handle_call_ended-Does, continue-Does, send_request-Does, resume-Does, hangup-Does,
  on_ice_candidate-Does, start_call-Does, on_connection_state_change-Does,
}

pub reconnect_due-Step :
    (id : ℕ) (p : Page) (n : ℕ)
    → p.reconnects ≡ n
    → Step p (reconnect_fired id) (reconnect_due id p n).0 (reconnect_due id p n).1
unfolding connect_gateway
reconnect_due-Step id p zero at = unset id at
reconnect_due-Step id p (suc n) at = reconnects id n at

module _ (browser : Browser) (m : Moment) where
  settle-Does :
      (frame : Value) (id : String) (p : Page) (o : Option Purpose)
      → lookup id p.pending_requests ≡ o
      → Does p (settle browser frame id p o)
  settle-Does frame id p none at = still
  settle-Does frame id p (some purpose) at =
      Moves-trans (once (answers id purpose _ at)) (continue-Does browser purpose _ _)

  response_to-Does :
      (frame : Value) (p : Page) (o : Option Value) → Does p (response_to browser frame p o)
  response_to-Does frame p none = still
  response_to-Does frame p (some null) = still
  response_to-Does frame p (some (bool b)) = still
  response_to-Does frame p (some (num n e)) = still
  response_to-Does frame p (some (str id)) =
      settle-Does frame id p (lookup id p.pending_requests) refl
  response_to-Does frame p (some (obj fs)) = still
  response_to-Does frame p (some (arr vs)) = still

  challenged-Does :
      (v : Option Value) (p : Page)
      → lookup m.uuid p.pending_requests ≡ none
      → Does p (challenged browser m v p)
  unfolding send_connect
  challenged-Does none p fresh = still
  challenged-Does (some null) p fresh = still
  challenged-Does (some (bool b)) p fresh = send_request-Does browser m _ _ for_nobody p fresh
  challenged-Does (some (num n e)) p fresh = send_request-Does browser m _ _ for_nobody p fresh
  challenged-Does (some (str s)) p fresh = send_request-Does browser m _ _ for_nobody p fresh
  challenged-Does (some (obj fs)) p fresh = send_request-Does browser m _ _ for_nobody p fresh
  challenged-Does (some (arr vs)) p fresh = send_request-Does browser m _ _ for_nobody p fresh

  delta_of-Does : (v : Option Value) (p : Page) → Does p (delta_of browser v p)
  delta_of-Does none p = still
  delta_of-Does (some v) p = if-Does p (truthy v) _ (p, []) (λ h. once (shows _)) (λ h. still)

  pub transcript_of-Does :
      (v : Option Value) (b : Bool) (p : Page) → Does p (transcript_of browser v b p)
  transcript_of-Does none b p = still
  transcript_of-Does (some v) b p =
      if-Does p (truthy v) _ (p, []) (λ h. once (shows _)) (λ h. still)

  named_event-Does :
      (event : String) (payload : Option Value) (p : Page)
      → lookup m.uuid p.pending_requests ≡ none
      → Does p (named_event browser m event payload p)
  named_event-Does event payload p fresh =
      if-Does p (str_eq event "connect.challenge") _ _ (λ h. challenged-Does payload p fresh)
        (λ h.
          if-Does p (str_eq event "chat.delta") _ _
            (λ k. delta_of-Does (payload_field "text" payload) p)
            (λ k.
              if-Does p (str_eq event "chat.done") _ _ (λ l. once (shows _))
                (λ l.
                  if-Does p (str_eq event "rtc.transcript") _ _
                    (λ n.
                      transcript_of-Does (payload_field "text" payload)
                        (or_interim (payload_field "isInterim" payload)) p)
                    (λ n.
                      if-Does p (str_eq event "rtc.call.ended") _ _ (λ o. handle_call_ended-Does p)
                        (λ o. still)))))

  event_of-Does :
      (event payload : Option Value) (p : Page)
      → lookup m.uuid p.pending_requests ≡ none
      → Does p (event_of browser m event payload p)
  event_of-Does none payload p fresh = still
  event_of-Does (some null) payload p fresh = still
  event_of-Does (some (bool b)) payload p fresh = still
  event_of-Does (some (num n e)) payload p fresh = still
  event_of-Does (some (str s)) payload p fresh = named_event-Does s payload p fresh
  event_of-Does (some (obj fs)) payload p fresh = still
  event_of-Does (some (arr vs)) payload p fresh = still

  typed_frame-Does :
      (type : Option Value) (frame : Value) (p : Page)
      → lookup m.uuid p.pending_requests ≡ none
      → Does p (typed_frame browser m type frame p)
  unfolding handle_event handle_response
  typed_frame-Does none frame p fresh = still
  typed_frame-Does (some null) frame p fresh = still
  typed_frame-Does (some (bool b)) frame p fresh = still
  typed_frame-Does (some (num n e)) frame p fresh = still
  typed_frame-Does (some (str s)) frame p fresh =
      if-Does p (str_eq s "event") _ _
        (λ h. event_of-Does (property "event" frame) (property "payload" frame) p fresh)
        (λ h.
          if-Does p (str_eq s "res") _ _ (λ k. response_to-Does frame p (property "id" frame))
            (λ k. still))
  typed_frame-Does (some (obj fs)) frame p fresh = still
  typed_frame-Does (some (arr vs)) frame p fresh = still

  on_message-Does :
      (frame : Option Value) (p : Page)
      → lookup m.uuid p.pending_requests ≡ none
      → Does p (on_message browser m frame p)
  unfolding on_message handle_frame
  on_message-Does none p fresh = still
  on_message-Does (some null) p fresh = still
  on_message-Does (some (bool b)) p fresh =
      typed_frame-Does (property "type" (bool b)) (bool b) p fresh
  on_message-Does (some (num n e)) p fresh =
      typed_frame-Does (property "type" (num n e)) (num n e) p fresh
  on_message-Does (some (str s)) p fresh =
      typed_frame-Does (property "type" (str s)) (str s) p fresh
  on_message-Does (some (obj fs)) p fresh =
      typed_frame-Does (property "type" (obj fs)) (obj fs) p fresh
  on_message-Does (some (arr vs)) p fresh =
      typed_frame-Does (property "type" (arr vs)) (arr vs) p fresh

  submit-Does : (p : Page) → lookup m.uuid p.pending_requests ≡ none → Does p (submit browser m p)
  unfolding submit
  submit-Does p fresh =
      if-Does p (is_empty (trim p.shown.chat_input)) (p, []) _ (λ h. still)
        (λ h. Moves-trans (once (shows _)) (send_request-Does browser m _ _ for_chat _ fresh))

  wait_at-Does :
      (j : ℕ) (outcome : Outcome) (p : Page) (w : Option Wait)
      → get_elem? p.waits j ≡ w
      → lookup m.uuid p.pending_requests ≡ none
      → Does p (wait_at browser m j outcome w p)
  wait_at-Does j outcome p none at fresh = still
  wait_at-Does j outcome p (some w) at fresh =
      if-Does p (fits w outcome) _ (p, []) (λ h. resume-Does browser m j w outcome p at fresh)
        (λ h. still)

  inside-Does :
      (e : Event) (p : Page)
      → IsInside e
      → lookup m.uuid p.pending_requests ≡ none
      → Does p (happen browser m e p)
  unfolding happen
  inside-Does (script_run id) p h fresh = elim h [ ]
  inside-Does socket_opened p h fresh = once (shows _)
  inside-Does (message_received text) p h fresh = on_message-Does (browser.json_parse text) p fresh
  inside-Does socket_closed p h fresh = elim h [ ]
  inside-Does socket_failed p h fresh = still
  inside-Does (reconnect_fired id) p h fresh = elim h [ ]
  inside-Does hide_fired p h fresh = once (shows _)
  inside-Does (typed text) p h fresh = once (shows _)
  inside-Does submitted p h fresh = submit-Does p fresh
  inside-Does call_clicked p h fresh = start_call-Does p
  inside-Does hangup_clicked p h fresh = hangup-Does browser m p fresh
  inside-Does (wait_over j outcome) p h fresh =
      wait_at-Does j outcome p (get_elem? p.waits j) refl fresh
  inside-Does (ice_found i v) p h fresh = on_ice_candidate-Does browser m v p fresh
  inside-Does (track_received i) p h fresh = once plays
  inside-Does (state_changed i state) p h fresh = on_connection_state_change-Does i state p

  -- Every event after the script is a sequence of moves, or it is about the connection.
  pub happen-Step :
      (e : Event) (p : Page)
      → IsLater e
      → lookup m.uuid p.pending_requests ≡ none
      → Step p e (happen browser m e p).0 (happen browser m e p).1
  unfolding happen on_close
  happen-Step (script_run id) p h fresh = elim h [ ]
  happen-Step socket_closed p h fresh = loses
  happen-Step (reconnect_fired id) p h fresh = reconnect_due-Step id p p.reconnects refl
  happen-Step socket_opened p h fresh = moves tt (inside-Does socket_opened p tt fresh)
  happen-Step (message_received text) p h fresh =
      moves tt (inside-Does (message_received text) p tt fresh)
  happen-Step socket_failed p h fresh = moves tt (inside-Does socket_failed p tt fresh)
  happen-Step hide_fired p h fresh = moves tt (inside-Does hide_fired p tt fresh)
  happen-Step (typed text) p h fresh = moves tt (inside-Does (typed text) p tt fresh)
  happen-Step submitted p h fresh = moves tt (inside-Does submitted p tt fresh)
  happen-Step call_clicked p h fresh = moves tt (inside-Does call_clicked p tt fresh)
  happen-Step hangup_clicked p h fresh = moves tt (inside-Does hangup_clicked p tt fresh)
  happen-Step (wait_over j outcome) p h fresh =
      moves tt (inside-Does (wait_over j outcome) p tt fresh)
  happen-Step (ice_found i v) p h fresh = moves tt (inside-Does (ice_found i v) p tt fresh)
  happen-Step (track_received i) p h fresh = moves tt (inside-Does (track_received i) p tt fresh)
  happen-Step (state_changed i state) p h fresh =
      moves tt (inside-Does (state_changed i state) p tt fresh)

-- plugin/ui/app.ts
unfoldable pub app_ts : Browser → Script
unfolding happen connect_gateway resume take_media
app_ts browser = record {
  happen = happen browser;
  first = λ m id. (_, refl);
  step = λ m e p h fresh. happen-Step browser m e p h fresh;
  grant = λ m p j i stream pc at. ap (λ o. wait_at browser m j (streamed stream pc) o p) at;
}
