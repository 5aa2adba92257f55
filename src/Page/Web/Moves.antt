-- ===== src/Page/Web/Moves.antt =====
-- The handlers of the voice call of plugin/ui/app.js as moves.
use openclaw_rtc_plugin.Common.{
  ℕ, suc, String, str_eq, ◌||◌, ◌≡◌, refl, Option, none, some, [], ◌∷◌, get_elem?, remove_at,
}
use openclaw_rtc_plugin.Common.Maps.{lookup, insert}
use openclaw_rtc_plugin.Json.{Value, null, bool, num, str, obj, arr, property}
use openclaw_rtc_plugin.Socket.{is_open}
use openclaw_rtc_plugin.Page.{
  Purpose, for_nobody, for_connect, for_console, for_chat, for_call, Settled, resolved, rejected,
  sent, Wait, at_media, at_offer, at_local, at_remote, at_candidate, Page,
}
use openclaw_rtc_plugin.Page.Peer.{pc_of, take_media}
use openclaw_rtc_plugin.Page.Call.{
  Moment, Outcome, streamed, offered, done, failed, says, handle_call_ended, iterated, start_params,
}
use openclaw_rtc_plugin.Page.Moves.{
  shows, plays, asks, counts, takes, quits, answers, still, Does, once, Moves-trans, if-Does,
}
use openclaw_rtc_plugin.Page.Moves
use openclaw_rtc_plugin.Page.Handlers.{
  handle_call_ended-Does, fail_call-Does, answered_on-Does, candidates_from-Does,
  add_candidates-Does, describes-Does,
}
use openclaw_rtc_plugin.Page.Web.{
  WebBrowser, or_no_candidates, dials, state_of, answered_with, call_answered, continue, send_on,
  send_request, requests_call, resume,
}

pub dials-Does : (p : Page) (o : Option ℕ) → p.rtc_peer ≡ o → Does p (dials o p)
dials-Does p none at = once (Moves.dials _ at)
dials-Does p (some i) at = still

pub state_of-Does : (state : String) (p : Page) (pc : Option ℕ) → Does p (state_of state p pc)
state_of-Does state p none = still
state_of-Does state p (some pc) =
    if-Does p (str_eq state "connected") (says "In call" p, []) _ (λ h. once (shows _))
      (λ h.
        if-Does p (str_eq state "disconnected" || str_eq state "failed") (handle_call_ended p)
          (p, []) (λ k. handle_call_ended-Does p) (λ k. still))

module _ (web : WebBrowser) where
  answered_with-Does : (v : Value) (p : Page) → Does p (answered_with web v p)
  answered_with-Does v p =
      answered_on-Does web.browser (property "callId" v)
        (at_remote (or_no_candidates (property "candidates" v))) tt p p.rtc_peer refl

  call_answered-Does : (v : Option Value) (p : Page) → Does p (call_answered web v p)
  unfolding call_answered
  call_answered-Does none p = fail_call-Does web.browser.type_error p
  call_answered-Does (some null) p = fail_call-Does web.browser.type_error p
  call_answered-Does (some (bool b)) p = answered_with-Does (bool b) p
  call_answered-Does (some (num n e)) p = answered_with-Does (num n e) p
  call_answered-Does (some (str s)) p = answered_with-Does (str s) p
  call_answered-Does (some (obj fs)) p = answered_with-Does (obj fs) p
  call_answered-Does (some (arr vs)) p = answered_with-Does (arr vs) p

  pub continue-Does :
      (purpose : Purpose) (s : Settled) (p : Page) → Does p (continue web purpose s p)
  unfolding continue
  continue-Does for_call (resolved payload) p = call_answered-Does payload p
  continue-Does for_call (rejected e) p = fail_call-Does e p
  continue-Does for_chat (rejected e) p = once (shows _)
  continue-Does for_chat (resolved payload) p = still
  continue-Does for_connect (rejected e) p = once (shows _)
  continue-Does for_connect (resolved payload) p = once (shows _)
  continue-Does for_nobody s p = still
  continue-Does for_console s p = still

  module _ (m : Moment) where
    send_on-Does :
        (method : String) (params : Value) (purpose : Purpose) (p : Page) (o : Option ℕ)
        → p.ws ≡ o
        → lookup m.uuid p.pending_requests ≡ none
        → Does p (send_on web m method params purpose p o)
    send_on-Does method params purpose p none at fresh =
        continue-Does purpose (rejected "Not connected") p
    send_on-Does method params purpose p (some socket) at fresh =
        if-Does p (is_open (m.ready socket))
          (
            record p { pending_requests = insert m.uuid purpose p.pending_requests },
            sent socket m.uuid method params ∷ [],
          )
          (continue web purpose (rejected "Not connected") p)
          (λ h. once (asks socket m.uuid method params purpose at fresh))
          (λ h. continue-Does purpose (rejected "Not connected") p)

    pub send_request-Does :
        (method : String) (params : Value) (purpose : Purpose) (p : Page)
        → lookup m.uuid p.pending_requests ≡ none
        → Does p (send_request web m method params purpose p)
    unfolding send_request
    send_request-Does method params purpose p fresh =
        send_on-Does method params purpose p p.ws refl fresh

    requests_call-Does :
        (sdp : String) (p : Page)
        → lookup m.uuid p.pending_requests ≡ none
        → Does p (requests_call web m sdp p)
    requests_call-Does sdp p fresh =
        Moves-trans (Moves-trans (once (shows _)) (once (counts (suc p.message_seq)))) (
          send_request-Does "rtc.call.start" (start_params sdp (suc p.message_seq)) for_call
            (record (says "Dialing..." p) { message_seq = suc p.message_seq }) fresh)

    -- The wait at `j` is over.
    pub resume-Does :
        (j : ℕ) (w : Wait) (outcome : Outcome) (p : Page)
        → get_elem? p.waits j ≡ some w
        → lookup m.uuid p.pending_requests ≡ none
        → Does p (resume web m w outcome (record p { waits = remove_at j p.waits }))
    unfolding resume take_media
    resume-Does j w (failed e) p at fresh =
        Moves-trans (once (quits j)) (fail_call-Does e (record p { waits = remove_at j p.waits }))
    resume-Does j (at_media i) (streamed s pc) p at fresh = once (takes j i s pc at)
    resume-Does j (at_offer i) (offered sdp) p at fresh =
        Moves-trans (once (quits j)) (
          describes-Does web.browser m i sdp (record p { waits = remove_at j p.waits }) (pc_of i p))
    resume-Does j (at_local i sdp) done p at fresh =
        Moves-trans (once (quits j))
          (requests_call-Does sdp (record p { waits = remove_at j p.waits }) fresh)
    resume-Does j (at_remote v) done p at fresh =
        Moves-trans (once (quits j))
          (candidates_from-Does web.browser (iterated v) (record p { waits = remove_at j p.waits }))
    resume-Does j (at_candidate cs) done p at fresh =
        Moves-trans (once (quits j))
          (add_candidates-Does web.browser cs (record p { waits = remove_at j p.waits }))
    resume-Does j (at_media i) (offered sdp) p at fresh = once (quits j)
    resume-Does j (at_media i) done p at fresh = once (quits j)
    resume-Does j (at_offer i) (streamed s pc) p at fresh = once (quits j)
    resume-Does j (at_offer i) done p at fresh = once (quits j)
    resume-Does j (at_local i sdp) (streamed s pc) p at fresh = once (quits j)
    resume-Does j (at_local i sdp) (offered t) p at fresh = once (quits j)
    resume-Does j (at_remote v) (streamed s pc) p at fresh = once (quits j)
    resume-Does j (at_remote v) (offered t) p at fresh = once (quits j)
    resume-Does j (at_candidate cs) (streamed s pc) p at fresh = once (quits j)
    resume-Does j (at_candidate cs) (offered t) p at fresh = once (quits j)
