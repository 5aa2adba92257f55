-- ===== src/Page/Loop.antt =====
-- The events that run the handlers of plugin/ui/app.ts and plugin/ui/rtc-peer.ts. Any order of
-- events is allowed.
use openclaw_rtc_plugin.Common.{
  ℕ, zero, suc, String, Bool, true, false, Option, none, some, [], ◌∷◌, if◌then◌else◌, get_elem?,
  remove_at,
}
use openclaw_rtc_plugin.Common.Texts.{is_empty, trim}
use openclaw_rtc_plugin.Json.{Value, str, obj, end, field}
use openclaw_rtc_plugin.Page.{
  Browser, for_chat, audio_played, user, connected, Wait, at_media, at_offer, at_local, at_remote,
  at_candidate, Page, Acted,
}
use openclaw_rtc_plugin.Page.Show.{append_message, set_status, hide_call_status}
use openclaw_rtc_plugin.Page.Call.{
  Moment, Outcome, streamed, offered, done, failed, send_request, start_call, resume, hangup,
  on_ice_candidate, on_connection_state_change,
}
use openclaw_rtc_plugin.Page.Frames.{connect_gateway, on_close, on_message}

-- What an event is. A timer fires only when it was set; sockets of timers are numbered with them.
pub data Event : Type 0 where
  script_run : ℕ → Event
  socket_opened : Event
  message_received : String → Event
  socket_closed : Event
  socket_failed : Event
  reconnect_fired : ℕ → Event
  hide_fired : Event
  typed : String → Event
  submitted : Event
  call_clicked : Event
  hangup_clicked : Event
  wait_over : ℕ → Outcome → Event
  ice_found : ℕ → Option Value → Event
  track_received : ℕ → Event
  state_changed : ℕ → String → Event

abbrev pub reconnect_due : ℕ → Page → ℕ → Acted
reconnect_due id p zero = (p, [])
reconnect_due id p (suc n) = connect_gateway id (record p { reconnects = n })

-- Whether the promise of a wait can come to that.
abbrev pub fits : Wait → Outcome → Bool
fits w (failed e) = true
fits (at_media i) (streamed s pc) = true
fits (at_offer i) (offered sdp) = true
fits (at_local i sdp) done = true
fits (at_remote v) done = true
fits (at_candidate cs) done = true
fits w outcome = false

module _ (browser : Browser) where
  abbrev pub submits : Moment → String → Page → Acted
  submits m text p =
      if is_empty text
      then (p, [])
      else send_request browser m "chat.send" (obj (field "text" (str text) end)) for_chat
          (record p { shown = record (append_message user text p.shown) { chat_input = "" } })

  -- The `submit` listener.
  unfoldable pub submit : Moment → Page → Acted
  submit m p = submits m (trim p.shown.chat_input) p

  abbrev pub wait_at : Moment → ℕ → Outcome → Option Wait → Page → Acted
  wait_at m i outcome none p = (p, [])
  wait_at m i outcome (some w) p =
      if fits w outcome
      then resume browser m w outcome (record p { waits = remove_at i p.waits })
      else (p, [])

  unfoldable pub happen : Moment → Event → Page → Acted
  unfolding connect_gateway submit
  happen m (script_run id) p = connect_gateway id p
  happen m socket_opened p = (record p { shown = set_status connected p.shown }, [])
  happen m (message_received text) p = on_message browser m (browser.json_parse text) p
  happen m socket_closed p = on_close p
  happen m socket_failed p = (p, [])
  happen m (reconnect_fired id) p = reconnect_due id p p.reconnects
  happen m hide_fired p = (record p { shown = hide_call_status p.shown }, [])
  happen m (typed text) p = (record p { shown = record p.shown { chat_input = text } }, [])
  happen m submitted p = submit m p
  happen m call_clicked p = start_call p
  happen m hangup_clicked p = hangup browser m p
  happen m (wait_over i outcome) p = wait_at m i outcome (get_elem? p.waits i) p
  happen m (ice_found i candidate) p = on_ice_candidate browser m candidate p
  happen m (track_received i) p = (p, audio_played ∷ [])
  happen m (state_changed i state) p = on_connection_state_change i state p
