-- ===== src/Tests/Page.antt =====
-- Runs of the page of plugin/ui/app.ts: a call that connects, one that is hung up while the browser
-- asks for the microphone, and answers that stream in.
use openclaw_rtc_plugin.Common.{
  ◌+◌, ◌≡◌, refl, str_eq, none, some, List, [], ◌∷◌, ◌++◌ as append, ◌++◌, if◌then◌else◌, get_elem?,
  arith,
}
use openclaw_rtc_plugin.Common.Maps.{lookup}
use openclaw_rtc_plugin.Json.{Value, get, str, obj, nil, cons, end, field}
use openclaw_rtc_plugin.Socket.{established}
use openclaw_rtc_plugin.Page.{Browser, for_call, Effect, sent, user, Page, Acted, at_media, new}
use openclaw_rtc_plugin.Page.Peer
use openclaw_rtc_plugin.Page.Call.{Moment, streamed, failed, start_call, hangup}
use openclaw_rtc_plugin.Page.Frames.{connect_gateway, handle_response}
use openclaw_rtc_plugin.Page.Loop.{
  script_run, socket_closed, call_clicked, hangup_clicked, wait_over, happen,
}
use openclaw_rtc_plugin.Page.Events.{app_ts}
use openclaw_rtc_plugin.Page.Web.{WebBrowser}
use openclaw_rtc_plugin.Page.Web.Loop.{happen as served_happen}
use openclaw_rtc_plugin.Page.Web.Frames.{get_token}
use openclaw_rtc_plugin.Page.Web.Events.{app_js}
use openclaw_rtc_plugin.Page.Run.{sockets_made, Run, begin, then_event, now}
use openclaw_rtc_plugin.Page.Coherent.{IsCoherent}
use openclaw_rtc_plugin.Page.Connection.{IsLinked}
use openclaw_rtc_plugin.Page.Media.{microphone, taken, released, held}
use openclaw_rtc_plugin.Page.Sites.{
  with_ts, with_js, Run-IsCoherent, Run-IsLinked, Run-releases, late_grant_stays,
}
use openclaw_rtc_plugin.Page.Ending.{
  IsIdle, Ends, IsLost, peer_releases, hangup_request, failed_wait-Ends, hangup_tells,
  late_answer-IsLost,
}
use openclaw_rtc_plugin.Page.Answer.{delta, posted, answer_all, conversation, answers_are_whole}
use openclaw_rtc_plugin.Page.Dialing.{happen_all, call_started, call_events, call_effects}
use openclaw_rtc_plugin.Page.Connecting.{Connects, call_events-Connects}

abbrev started : Value
started = call_started "r1" (str "c1") (str "v=0") (cons (str "a") (cons (str "b") nil))

abbrev browser : Browser
browser = record {
  json_parse = λ text. if str_eq text "started" then some started else none;
  to_text = λ v. "text";
  type_error = "Cannot read properties of null";
}

abbrev moment : Moment
moment = record { ready = λ id. established; uuid = "r1"; device_uuid = "d1"; now = 5 }

abbrev loaded : Acted
loaded = happen browser moment (script_run 1) new

abbrev clicked : Acted
clicked = happen browser moment call_clicked loaded.0

abbrev hung_up : Acted
hung_up = happen browser moment hangup_clicked clicked.0

abbrev granted : Acted
granted = happen browser moment (wait_over 0 (streamed 7 8)) hung_up.0

abbrev log : List Effect
log = (loaded.1 ++ clicked.1) ++ hung_up.1

to_hung_up : Run (app_ts browser) hung_up.0 log 0
unfolding app_ts happen connect_gateway new start_call lookup
to_hung_up =
    then_event (then_event (begin moment 1) moment call_clicked tt tt refl) moment hangup_clicked tt
      tt refl

abbrev lost : Acted
lost = happen browser moment socket_closed hung_up.0

to_lost : Run (app_ts browser) lost.0 (log ++ lost.1) 1
unfolding app_ts happen connect_gateway new start_call hangup lookup sockets_made Peer.hangup
to_lost = then_event to_hung_up moment socket_closed tt (omega arith) refl

to_granted : Run (app_ts browser) granted.0 (log ++ granted.1) 0
unfolding app_ts happen connect_gateway new start_call hangup lookup Peer.hangup
to_granted = then_event to_hung_up moment (wait_over 0 (streamed 7 8)) tt tt refl

-- The same events on the page that is served.
abbrev web : WebBrowser
web = record {
  browser = browser;
  hash = "#token=t";
  search_param = λ s key. some "t";
  platform = "";
}

abbrev served : Acted
served = (app_js web).happen moment (script_run 1) new

abbrev served_call : Acted
served_call = (app_js web).happen moment call_clicked served.0

to_served_call : Run (app_js web) served_call.0 (served.1 ++ served_call.1) 0
unfolding app_js served_happen connect_gateway new lookup get_token
to_served_call = then_event (begin moment 1) moment call_clicked tt tt refl

Run-IsCoherent_example : IsCoherent served_call.0
Run-IsCoherent_example =
    Run-IsCoherent (with_js web) served_call.0 (served.1 ++ served_call.1) 0 to_served_call

Run-IsLinked_example : IsLinked lost.0 (sockets_made (log ++ lost.1)) 1
Run-IsLinked_example = Run-IsLinked (with_ts browser) lost.0 (log ++ lost.1) 1 to_lost

Run-releases_example :
    taken microphone 7 (log ++ granted.1)
    ≡ released microphone 7 (log ++ granted.1) + held microphone 7 granted.0.peers
Run-releases_example =
    Run-releases (with_ts browser) granted.0 (log ++ granted.1) 0 to_granted microphone 7

waits_for_media : get_elem? hung_up.0.waits 0 ≡ some (at_media 0)
unfolding app_ts happen connect_gateway new start_call hangup Peer.hangup
waits_for_media = refl

no_peer_left : hung_up.0.rtc_peer ≡ some 0 → ⊥
unfolding app_ts happen connect_gateway new start_call hangup Peer.hangup
no_peer_left e = ground (arith, e)

late_grant_stays_example :
    get_elem? granted.0.peers 0 ≡ some (record { pc = some 8; local_stream = some 7 })
unfolding app_ts happen
late_grant_stays_example =
    late_grant_stays (with_ts browser) hung_up.0 log 0 to_hung_up 0 0 waits_for_media no_peer_left
      moment 7 8 granted.0 [] now

failed_wait-Ends_example :
    Ends hung_up.0 (happen browser moment (wait_over 0 (failed "denied")) hung_up.0)
failed_wait-Ends_example =
    failed_wait-Ends browser moment hung_up.0 0 (at_media 0) "denied" waits_for_media

-- A page that waits for the answer to `rtc.call.start`, and one in a call.
abbrev dialled : Page
dialled = record new { ws = some 1; pending_requests = ("r1", for_call) ∷ [] }

abbrev in_call : Page
in_call = record new { ws = some 1; current_call_id = some (str "c1") }

hangup_tells_example :
    IsIdle (hangup browser moment in_call).0
    × ((hangup browser moment in_call).1
        ≡ append
            (hangup_request moment (some (str "c1")) (some 1))
            (peer_releases in_call.peers in_call.rtc_peer))
hangup_tells_example = hangup_tells browser moment in_call

asked_of_gateway :
    hangup_request moment (some (str "c1")) (some 1)
    ≡ sent 1 "r1" "rtc.call.hangup"
        (obj (field "callId" (str "c1") (field "reason" (str "user") end)))
      ∷ []
asked_of_gateway = refl

late_answer-IsLost_example :
    IsLost browser moment "r1" started (handle_response browser started dialled)
unfolding new get lookup
late_answer-IsLost_example = late_answer-IsLost browser moment dialled "r1" started refl refl refl

answers_are_whole_example :
    (answer_all (("Hel", delta "lo" ∷ posted user "hm" ∷ delta "!" ∷ []) ∷ []) new.shown).messages
    ≡ append new.shown.messages
        (conversation (("Hel", delta "lo" ∷ posted user "hm" ∷ delta "!" ∷ []) ∷ []))
unfolding new
answers_are_whole_example =
    answers_are_whole (("Hel", delta "lo" ∷ posted user "hm" ∷ delta "!" ∷ []) ∷ []) new.shown refl

abbrev idle : Page
idle = record new { ws = some 1 }

call_events-Connects_example :
    (let (q, es) = happen_all browser moment (call_events 0 7 8 "offer" "started" 2) idle in
      Connects idle 7 8 (str "c1") q × (es ≡ call_effects browser moment 7 8 1 "offer" 1 started))
unfolding new
call_events-Connects_example =
    call_events-Connects browser moment idle 7 8 1 "offer" "started" (str "c1") (str "v=0")
      (cons (str "a") (cons (str "b") nil)) refl refl refl refl
