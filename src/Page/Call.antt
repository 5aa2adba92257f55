-- ===== src/Page/Call.antt =====
-- The voice call of plugin/ui/app.ts: `startCall` in the parts between its awaits, `hangup`,
-- `cleanupCall`, and the callbacks of its peer. A promise that settles is continued at once, before
-- the browser's next event.
use Prim.Native.String.{◌++◌}
use openclaw_rtc_plugin.Common.{
  ℕ, suc, String, str_eq, true, false, ◌||◌, Option, none, some, List, [], ◌∷◌, ◌++◌ as append,
  if◌then◌else◌, length,
}
use openclaw_rtc_plugin.Common.Maps.{insert}
use openclaw_rtc_plugin.Common.Texts.{show}
use openclaw_rtc_plugin.Json.{
  Value, null, str, obj, arr, Items, nil, cons, Fields, end, field, property, truthy?,
}
use openclaw_rtc_plugin.Socket.{ReadyState, is_open}
use openclaw_rtc_plugin.Page.{
  Browser, Purpose, for_console, for_chat, for_call, Settled, resolved, rejected, sent, Wait,
  at_media, at_offer, at_local, at_remote, at_candidate, assistant, Page, Acted,
}
use openclaw_rtc_plugin.Page.Peer
use openclaw_rtc_plugin.Page.Peer.{blank, take_media, pc_of}
use openclaw_rtc_plugin.Page.Show.{append_message, set_call_status}

-- First `a`, then `k` on the page after it.
abbrev pub and_then : Acted → (Page → Acted) → Acted
and_then (p, done) k = let (p', more) = k p in (p', append done more)

-- What one handler needs of its surroundings: the sockets' states, the next two UUIDs and the time.
pub record Moment : Type 0 where
  pub ready : ℕ → ReadyState
  pub uuid : String
  pub device_uuid : String
  pub now : ℕ

-- What a promise of the browser that a `startCall` waits for comes to. The connection that is made
-- with a stream is numbered with it.
pub data Outcome : Type 0 where
  streamed : ℕ → ℕ → Outcome
  offered : String → Outcome
  done : Outcome
  failed : String → Outcome

abbrev pub waiting : Wait → Page → Acted
waiting w p = (record p { waits = append p.waits (w ∷ []) }, [])

abbrev pub says : String → Page → Page
says text p = record p { shown = set_call_status text p.shown }

abbrev pub drop_peer : Option ℕ → Page → Acted
drop_peer none p = (p, [])
drop_peer (some i) p =
    let (p', released) = Peer.hangup i p in (record p' { rtc_peer = none }, released)

abbrev pub idle : Page → Page
idle p = record p {
  current_call_id = none;
  call_hidden = false;
  hangup_hidden = true;
  shown = record p.shown { transcript_hidden = true };
}

unfoldable pub cleanup_call : Page → Acted
cleanup_call p = let (p', released) = drop_peer p.rtc_peer p in (idle p', released)

unfoldable pub handle_call_ended : Page → Acted
unfolding cleanup_call
handle_call_ended p = let (p', released) = cleanup_call p in (says "Call ended" p', released)

-- The `catch` of `startCall`.
unfoldable pub fail_call : String → Page → Acted
unfolding cleanup_call
fail_call e p = cleanup_call (says ("Failed: " ++ e) p)

-- `for (const x of v)`, or the TypeError of a value that is not iterable
abbrev texts : String → List Value
texts String.[] = []
texts (String.◌∷◌ c s) = str (String.◌∷◌ c String.[]) ∷ texts s

abbrev pub items : Items → List Value
items nil = []
items (cons v vs) = v ∷ items vs

abbrev pub iterated : Option Value → Option (List Value)
iterated (some (arr vs)) = some (items vs)
iterated (some (str s)) = some (texts s)
iterated _ = none

abbrev pub dials : Option ℕ → Page → Acted
dials (some i) p = (p, [])
dials none p = waiting (at_media (length p.peers)) (record (says "Dialing..." p) {
  call_hidden = true;
  hangup_hidden = false;
  peers = append p.peers (blank ∷ []);
  rtc_peer = some (length p.peers);
})

-- `startCall` up to the wait for the microphone.
unfoldable pub start_call : Page → Acted
start_call p = dials p.rtc_peer p

abbrev pub start_params : String → ℕ → Value
start_params sdp seq =
    obj (field "sdp" (str sdp) (field "sessionKey" (str ("webrtc-session-" ++ show seq)) end))

abbrev pub call_param : Option Value → Fields → Fields
call_param none fs = fs
call_param (some id) fs = field "callId" id fs

abbrev pub state_shown : String → Page → Acted
state_shown state p =
    if str_eq state "connected"
    then (says "Connected" p, [])
    else if str_eq state "disconnected" || str_eq state "failed"
    then handle_call_ended p
    else (p, [])

abbrev pub state_of : String → Page → Option ℕ → Acted
state_of state p none = (p, [])
state_of state p (some pc) = state_shown state p

-- The `connectionstatechange` listener of the peer `i`, and the callback that it calls.
unfoldable pub on_connection_state_change : ℕ → String → Page → Acted
on_connection_state_change i state p = state_of state p (pc_of i p)

-- The section's parameter is the browser.
module _ (browser : Browser) where
  -- A method of the current peer that needs its connection.
  abbrev pub on_pc : Wait → Page → Option ℕ → Acted
  on_pc w p none = fail_call "No PeerConnection" p
  on_pc w p (some pc) = waiting w p

  abbrev pub on_peer : Wait → Page → Option ℕ → Acted
  on_peer w p none = fail_call browser.type_error p
  on_peer w p (some i) = on_pc w p (pc_of i p)

  unfoldable pub add_candidates : List Value → Page → Acted
  add_candidates [] p = (says "Connecting..." p, [])
  add_candidates (c ∷ cs) p = on_peer (at_candidate cs) p p.rtc_peer

  abbrev pub candidates_from : Option (List Value) → Page → Acted
  candidates_from none p = fail_call browser.type_error p
  candidates_from (some cs) p = add_candidates cs p

  -- `startCall` with the answer to `rtc.call.start`.
  abbrev pub answered_with : Value → Page → Acted
  answered_with v p =
      on_peer (at_remote (property "candidates" v))
        (record p { current_call_id = property "callId" v }) p.rtc_peer

  unfoldable pub call_answered : Option Value → Page → Acted
  call_answered none p = fail_call browser.type_error p
  call_answered (some null) p = fail_call browser.type_error p
  call_answered (some v) p = answered_with v p

  -- What waits for a request goes on.
  unfoldable pub continue : Purpose → Settled → Page → Acted
  continue for_call (resolved payload) p = call_answered payload p
  continue for_call (rejected e) p = fail_call e p
  continue for_chat (rejected e) p =
      (record p { shown = append_message assistant ("Error: " ++ e) p.shown }, [])
  continue _ _ p = (p, [])

  abbrev pub send_on : Moment → String → Value → Purpose → Page → Option ℕ → Acted
  send_on m method params purpose p none = continue purpose (rejected "Not connected") p
  send_on m method params purpose p (some socket) =
      if is_open (m.ready socket)
      then (
        record p { pending_requests = insert m.uuid purpose p.pending_requests },
        sent socket m.uuid method params ∷ [],
      )
      else continue purpose (rejected "Not connected") p

  unfoldable pub send_request : Moment → String → Value → Purpose → Page → Acted
  unfolding continue
  send_request m method params purpose p = send_on m method params purpose p p.ws

  -- `this.pc.setLocalDescription(offer)`, where `this.pc` may have become null
  abbrev pub describes : ℕ → String → Page → Option ℕ → Acted
  describes i sdp p none = fail_call browser.type_error p
  describes i sdp p (some pc) = waiting (at_local i sdp) p

  abbrev pub requests_call : Moment → String → Page → Acted
  requests_call m sdp p =
      send_request m "rtc.call.start" (start_params sdp (suc p.message_seq)) for_call
        (record p { message_seq = suc p.message_seq })

  -- A `startCall` that has stopped waiting goes on. The last clause is of no wait: see `fits`.
  unfoldable pub resume : Moment → Wait → Outcome → Page → Acted
  unfolding send_request
  resume m w (failed e) p = fail_call e p
  resume m (at_media i) (streamed s pc) p = and_then (take_media i s pc p) (waiting (at_offer i))
  resume m (at_offer i) (offered sdp) p = describes i sdp p (pc_of i p)
  resume m (at_local i sdp) done p = requests_call m sdp p
  resume m (at_remote v) done p = candidates_from (iterated v) p
  resume m (at_candidate cs) done p = add_candidates cs p
  resume m w outcome p = (p, [])

  -- A request about the current call, if there is one.
  abbrev pub about_call : Moment → String → Fields → Page → Acted
  about_call m method fs p =
      if truthy? p.current_call_id
      then send_request m method (obj (call_param p.current_call_id fs)) for_console p
      else (p, [])

  unfoldable pub hangup : Moment → Page → Acted
  unfolding handle_call_ended
  hangup m p =
      and_then (about_call m "rtc.call.hangup" (field "reason" (str "user") end) p)
        handle_call_ended

  -- The callback `onIceCandidate`, with `event.candidate`.
  unfoldable pub on_ice_candidate : Moment → Option Value → Page → Acted
  on_ice_candidate m none p = (p, [])
  on_ice_candidate m (some v) p = about_call m "rtc.call.ice" (field "candidate" v end) p
