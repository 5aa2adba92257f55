-- ===== src/Page/Web.antt =====
-- plugin/ui/app.js, the script that is served, where it is not the same as plugin/ui/app.ts: its call,
-- its requests, and what it makes of their answers. `Frames` is the gateway, `Loop` the events, `Moves`
-- and `Events` take them apart.
pub mod Frames
pub mod Loop
pub mod Moves
pub mod Events
use Prim.Native.String.{◌++◌}
use openclaw_rtc_plugin.Common.{
  ℕ, suc, String, str_eq, Bool, true, false, ◌||◌, Option, none, some, List, [], ◌∷◌,
  ◌++◌ as append, if◌then◌else◌, length,
}
use openclaw_rtc_plugin.Common.Maps.{insert}
use openclaw_rtc_plugin.Json.{Value, null, bool, num, str, obj, arr, nil, property, truthy}
use openclaw_rtc_plugin.Socket.{is_open}
use openclaw_rtc_plugin.Page.{
  Browser, Purpose, for_connect, for_chat, for_call, Settled, resolved, rejected, Effect, sent,
  Wait, at_media, at_offer, at_local, at_remote, at_candidate, system, connected, disconnected,
  Shown, Page, Acted,
}
use openclaw_rtc_plugin.Page.Peer.{blank, take_media, pc_of}
use openclaw_rtc_plugin.Page.Show.{append_message, set_status, set_call_status}
use openclaw_rtc_plugin.Page.Call.{
  Moment, Outcome, streamed, offered, done, failed, says, waiting, and_then, handle_call_ended,
  fail_call, on_peer, add_candidates, candidates_from, iterated, describes, start_params,
}

-- The browser, and what of it only app.js reads: the hash of the page's address, `URLSearchParams`,
-- and `navigator.platform`.
pub record WebBrowser : Type 0 where
  pub browser : Browser
  pub hash : String
  pub search_param : String → String → Option String
  pub platform : String

-- `appendSystemMessage`
unfoldable pub append_system_message : String → Shown → Shown
unfolding append_message
append_system_message text s = append_message system text s

-- `result.candidates || []`
abbrev pub or_no_candidates : Option Value → Option Value
or_no_candidates none = some (arr nil)
or_no_candidates (some v) = if truthy v then some v else some (arr nil)

abbrev pub dials : Option ℕ → Page → Acted
dials (some i) p = (p, [])
dials none p =
    waiting (at_media (length p.peers))
      (record (says "Creating offer..." (says "Requesting microphone..." p)) {
        call_hidden = true;
        hangup_hidden = false;
        peers = append p.peers (blank ∷ []);
        rtc_peer = some (length p.peers);
      })

-- `startCall` up to the wait for the microphone.
unfoldable pub start_call : Page → Acted
start_call p = dials p.rtc_peer p

abbrev pub state_shown : String → Page → Acted
state_shown state p =
    if str_eq state "connected"
    then (says "In call" p, [])
    else if str_eq state "disconnected" || str_eq state "failed"
    then handle_call_ended p
    else (p, [])

abbrev pub state_of : String → Page → Option ℕ → Acted
state_of state p none = (p, [])
state_of state p (some pc) = state_shown state p

-- The `connectionstatechange` listener of the peer `i`, and the callback that it calls.
unfoldable pub on_connection_state_change : ℕ → String → Page → Acted
on_connection_state_change i state p = state_of state p (pc_of i p)

-- `result?.type === "hello-ok"`
abbrev is_hello : Option Value → Bool
is_hello (some (str s)) = str_eq s "hello-ok"
is_hello _ = false

abbrev type_of : Option Value → Option Value
type_of none = none
type_of (some v) = property "type" v

abbrev pub greets : Bool → Shown → Shown
greets true s = append_system_message "Connected to OpenClaw Gateway" (set_status connected s)
greets false s = s

module _ (web : WebBrowser) where
  -- `startCall` with the answer to `rtc.call.start`.
  abbrev pub answered_with : Value → Page → Acted
  answered_with v p =
      on_peer web.browser (at_remote (or_no_candidates (property "candidates" v)))
        (record p { current_call_id = property "callId" v }) p.rtc_peer

  unfoldable pub call_answered : Option Value → Page → Acted
  call_answered none p = fail_call web.browser.type_error p
  call_answered (some null) p = fail_call web.browser.type_error p
  call_answered (some v) p = answered_with v p

  -- What waits for a request goes on: `startCall`, the `catch` of a message, the `then` and the
  -- `catch` of `connect`.
  unfoldable pub continue : Purpose → Settled → Page → Acted
  unfolding append_system_message
  continue for_call (resolved payload) p = call_answered payload p
  continue for_call (rejected e) p = fail_call e p
  continue for_chat (rejected e) p =
      (record p { shown = append_message system ("Error: " ++ e) p.shown }, [])
  continue for_connect (resolved payload) p =
      (record p { shown = greets (is_hello (type_of payload)) p.shown }, [])
  continue for_connect (rejected e) p = (
    record p {
      shown = append_system_message ("Connection failed: " ++ e) (set_status disconnected p.shown);
    },
    [],
  )
  continue _ _ p = (p, [])

  abbrev pub send_on : Moment → String → Value → Purpose → Page → Option ℕ → Acted
  send_on m method params purpose p none = continue purpose (rejected "Not connected") p
  send_on m method params purpose p (some socket) =
      if is_open (m.ready socket)
      then (
        record p { pending_requests = insert m.uuid purpose p.pending_requests },
        sent socket m.uuid method params ∷ [],
      )
      else continue purpose (rejected "Not connected") p

  unfoldable pub send_request : Moment → String → Value → Purpose → Page → Acted
  unfolding continue
  send_request m method params purpose p = send_on m method params purpose p p.ws

  abbrev pub requests_call : Moment → String → Page → Acted
  requests_call m sdp p =
      let q = says "Dialing..." p in
      send_request m "rtc.call.start" (start_params sdp (suc q.message_seq)) for_call
        (record q { message_seq = suc q.message_seq })

  -- A `startCall` that has stopped waiting goes on.
  unfoldable pub resume : Moment → Wait → Outcome → Page → Acted
  unfolding send_request
  resume m w (failed e) p = fail_call e p
  resume m (at_media i) (streamed s pc) p = and_then (take_media i s pc p) (waiting (at_offer i))
  resume m (at_offer i) (offered sdp) p = describes web.browser i sdp p (pc_of i p)
  resume m (at_local i sdp) done p = requests_call m sdp p
  resume m (at_remote v) done p = candidates_from web.browser (iterated v) p
  resume m (at_candidate cs) done p = add_candidates web.browser cs p
  resume m w outcome p = (p, [])
