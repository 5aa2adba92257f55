-- ===== src/Page/Web/Loop.antt =====
-- The events that run the handlers of plugin/ui/app.js.
use openclaw_rtc_plugin.Common.{
  ℕ, String, Option, none, some, [], ◌∷◌, if◌then◌else◌, get_elem?, remove_at,
}
use openclaw_rtc_plugin.Common.Texts.{is_empty, trim}
use openclaw_rtc_plugin.Json.{str, obj, end, field}
use openclaw_rtc_plugin.Page.{for_chat, audio_played, user, connected, Wait, Shown, Page, Acted}
use openclaw_rtc_plugin.Page.Show.{append_message, set_status, hide_call_status}
use openclaw_rtc_plugin.Page.Call.{Moment, Outcome, hangup, on_ice_candidate}
use openclaw_rtc_plugin.Page.Frames.{connect_gateway, on_close}
use openclaw_rtc_plugin.Page.Loop.{
  Event, script_run, socket_opened, message_received, socket_closed, socket_failed, reconnect_fired,
  hide_fired, typed, submitted, call_clicked, hangup_clicked, wait_over, ice_found, track_received,
  state_changed, reconnect_due, fits,
}
use openclaw_rtc_plugin.Page.Web.{
  WebBrowser, append_system_message, start_call, send_request, resume, on_connection_state_change,
}
use openclaw_rtc_plugin.Page.Web.Frames.{get_token, on_message}

module _ (web : WebBrowser) where
  abbrev pub submits : Moment → String → Page → Acted
  submits m text p =
      if is_empty text
      then (p, [])
      else send_request web m "chat.send" (obj (field "text" (str text) end)) for_chat
          (record p { shown = record (append_message user text p.shown) { chat_input = "" } })

  -- The `submit` listener.
  unfoldable pub submit : Moment → Page → Acted
  submit m p = submits m (trim p.shown.chat_input) p

  abbrev pub wait_at : Moment → ℕ → Outcome → Option Wait → Page → Acted
  wait_at m i outcome none p = (p, [])
  wait_at m i outcome (some w) p =
      if fits w outcome
      then resume web m w outcome (record p { waits = remove_at i p.waits })
      else (p, [])

  -- The last lines of the script, before `connectGateway()`.
  abbrev pub greeting : Shown → Shown
  greeting s =
      if is_empty (get_token web)
      then append_system_message "No token found. Add #token=YOUR_TOKEN to the URL." s
      else s

  unfoldable pub happen : Moment → Event → Page → Acted
  unfolding connect_gateway submit get_token
  happen m (script_run id) p = connect_gateway id (record p { shown = greeting p.shown })
  happen m socket_opened p = (record p { shown = set_status connected p.shown }, [])
  happen m (message_received text) p = on_message web m (web.browser.json_parse text) p
  happen m socket_closed p = on_close p
  happen m socket_failed p = (p, [])
  happen m (reconnect_fired id) p = reconnect_due id p p.reconnects
  happen m hide_fired p = (record p { shown = hide_call_status p.shown }, [])
  happen m (typed text) p = (record p { shown = record p.shown { chat_input = text } }, [])
  happen m submitted p = submit m p
  happen m call_clicked p = start_call p
  happen m hangup_clicked p = hangup web.browser m p
  happen m (wait_over i outcome) p = wait_at m i outcome (get_elem? p.waits i) p
  happen m (ice_found i candidate) p = on_ice_candidate web.browser m candidate p
  happen m (track_received i) p = (p, audio_played ∷ [])
  happen m (state_changed i state) p = on_connection_state_change i state p
