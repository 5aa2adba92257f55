-- ===== src/Page/Handlers.antt =====
-- The handlers of the voice call of plugin/ui/app.ts as moves.
use Prim.Native.String.{◌++◌}
use openclaw_rtc_plugin.Common.{
  ℕ, suc, String, str_eq, ◌||◌, ◌≡◌, refl, Option, none, some, List, [], ◌∷◌, get_elem?, remove_at,
  if◌then◌else◌,
}
use openclaw_rtc_plugin.Common.Maps.{lookup, insert}
use openclaw_rtc_plugin.Json.{Value, null, bool, num, str, obj, arr, property, truthy?, Fields}
use openclaw_rtc_plugin.Socket.{is_open}
use openclaw_rtc_plugin.Page.{
  Browser, Purpose, for_nobody, for_connect, for_console, for_chat, for_call, sent, Settled,
  resolved, rejected, Wait, at_media, at_offer, at_local, at_remote, at_candidate, Page,
}
use openclaw_rtc_plugin.Page.Peer.{pc_of, take_media}
use openclaw_rtc_plugin.Page.Peer
use openclaw_rtc_plugin.Page.Call.{
  Moment, Outcome, streamed, offered, done, failed, says, drop_peer, idle, cleanup_call,
  handle_call_ended, fail_call, on_pc, on_peer, add_candidates, candidates_from, iterated,
  answered_with, call_answered, continue, send_on, send_request, dials as dials_from, start_call,
  describes, start_params, requests_call, resume, call_param, about_call, hangup, on_ice_candidate,
  state_of, on_connection_state_change,
}
use openclaw_rtc_plugin.Page.Moves.{
  IsLater, Moves, shows, asks, counts, dials, takes, quits, joins, names, frees, rests, still, Does,
  then_last, once, Moves-trans, if-Does,
}

dropped-Does :
    (v : Option Value) (p : Page) (o : Option ℕ)
    → p.rtc_peer ≡ o
    → (let q = record p { current_call_id = v } in
        Moves p (idle (drop_peer o q).0) (drop_peer o q).1)
unfolding Peer.hangup
dropped-Does v p none at = once (rests at)
dropped-Does v p (some i) at = once (frees i at)

-- A call id that was just written is forgotten with the rest.
named_cleanup-Does :
    (v : Option Value) (p : Page) → Does p (cleanup_call (record p { current_call_id = v }))
unfolding cleanup_call
named_cleanup-Does v p = dropped-Does v p p.rtc_peer refl

cleanup_call-Does : (p : Page) → Does p (cleanup_call p)
cleanup_call-Does p = named_cleanup-Does p.current_call_id p

pub handle_call_ended-Does : (p : Page) → Does p (handle_call_ended p)
unfolding handle_call_ended
handle_call_ended-Does p = then_last (cleanup_call-Does p) (shows _)

pub fail_call-Does : (e : String) (p : Page) → Does p (fail_call e p)
unfolding fail_call
fail_call-Does e p = Moves-trans (once (shows _)) (cleanup_call-Does (says ("Failed: " ++ e) p))

named_fail-Does :
    (e : String) (v : Option Value) (p : Page)
    → Does p (fail_call e (record p { current_call_id = v }))
unfolding fail_call
named_fail-Does e v p =
    Moves-trans (once (shows _)) (named_cleanup-Does v (says ("Failed: " ++ e) p))

module _ (browser : Browser) where
  on_pc-Does : (w : Wait) → IsLater w → (p : Page) (pc : Option ℕ) → Does p (on_pc browser w p pc)
  on_pc-Does w later p none = fail_call-Does "No PeerConnection" p
  on_pc-Does w later p (some pc) = once (joins w later)

  on_peer-Does : (w : Wait) → IsLater w → (p : Page) (i : Option ℕ) → Does p (on_peer browser w p i)
  on_peer-Does w later p none = fail_call-Does browser.type_error p
  on_peer-Does w later p (some i) = on_pc-Does w later p (pc_of i p)

  pub add_candidates-Does : (cs : List Value) (p : Page) → Does p (add_candidates browser cs p)
  unfolding add_candidates
  add_candidates-Does [] p = once (shows _)
  add_candidates-Does (c ∷ cs) p = on_peer-Does (at_candidate cs) tt p p.rtc_peer

  pub candidates_from-Does :
      (cs : Option (List Value)) (p : Page) → Does p (candidates_from browser cs p)
  candidates_from-Does none p = fail_call-Does browser.type_error p
  candidates_from-Does (some cs) p = add_candidates-Does cs p

  pub answered_on-Does :
      (v : Option Value) (w : Wait)
      → IsLater w
      → (p : Page) (o : Option ℕ) → p.rtc_peer ≡ o
      → Does p (on_peer browser w (record p { current_call_id = v }) o)
  answered_on-Does v w later p none at = named_fail-Does browser.type_error v p
  answered_on-Does v w later p (some i) at =
      Moves-trans (once (names i v at))
        (on_pc-Does w later (record p { current_call_id = v }) (pc_of i p))

  answered_with-Does : (v : Value) (p : Page) → Does p (answered_with browser v p)
  answered_with-Does v p =
      answered_on-Does (property "callId" v) (at_remote (property "candidates" v)) tt p p.rtc_peer
        refl

  call_answered-Does : (v : Option Value) (p : Page) → Does p (call_answered browser v p)
  unfolding call_answered
  call_answered-Does none p = fail_call-Does browser.type_error p
  call_answered-Does (some null) p = fail_call-Does browser.type_error p
  call_answered-Does (some (bool b)) p = answered_with-Does (bool b) p
  call_answered-Does (some (num n e)) p = answered_with-Does (num n e) p
  call_answered-Does (some (str s)) p = answered_with-Does (str s) p
  call_answered-Does (some (obj fs)) p = answered_with-Does (obj fs) p
  call_answered-Does (some (arr vs)) p = answered_with-Does (arr vs) p

  pub continue-Does :
      (purpose : Purpose) (s : Settled) (p : Page) → Does p (continue browser purpose s p)
  unfolding continue
  continue-Does for_call (resolved payload) p = call_answered-Does payload p
  continue-Does for_call (rejected e) p = fail_call-Does e p
  continue-Does for_chat (rejected e) p = once (shows _)
  continue-Does for_chat (resolved payload) p = still
  continue-Does for_nobody s p = still
  continue-Does for_connect s p = still
  continue-Does for_console s p = still

  module _ (m : Moment) where
    send_on-Does :
        (method : String) (params : Value) (purpose : Purpose) (p : Page) (o : Option ℕ)
        → p.ws ≡ o
        → lookup m.uuid p.pending_requests ≡ none
        → Does p (send_on browser m method params purpose p o)
    send_on-Does method params purpose p none at fresh =
        continue-Does purpose (rejected "Not connected") p
    send_on-Does method params purpose p (some socket) at fresh =
        if-Does p (is_open (m.ready socket))
          (
            record p { pending_requests = insert m.uuid purpose p.pending_requests },
            sent socket m.uuid method params ∷ [],
          )
          (continue browser purpose (rejected "Not connected") p)
          (λ h. once (asks socket m.uuid method params purpose at fresh))
          (λ h. continue-Does purpose (rejected "Not connected") p)

    pub send_request-Does :
        (method : String) (params : Value) (purpose : Purpose) (p : Page)
        → lookup m.uuid p.pending_requests ≡ none
        → Does p (send_request browser m method params purpose p)
    unfolding send_request
    send_request-Does method params purpose p fresh =
        send_on-Does method params purpose p p.ws refl fresh

    requests_call-Does :
        (sdp : String) (p : Page)
        → lookup m.uuid p.pending_requests ≡ none
        → Does p (requests_call browser m sdp p)
    requests_call-Does sdp p fresh = Moves-trans (once (counts (suc p.message_seq))) (
        send_request-Does "rtc.call.start" (start_params sdp (suc p.message_seq)) for_call
          (record p { message_seq = suc p.message_seq }) fresh)

    pub describes-Does :
        (i : ℕ) (sdp : String) (p : Page) (pc : Option ℕ) → Does p (describes browser i sdp p pc)
    describes-Does i sdp p none = fail_call-Does browser.type_error p
    describes-Does i sdp p (some pc) = once (joins (at_local i sdp) tt)

    -- The wait at `j` is over.
    pub resume-Does :
        (j : ℕ) (w : Wait) (outcome : Outcome) (p : Page)
        → get_elem? p.waits j ≡ some w
        → lookup m.uuid p.pending_requests ≡ none
        → Does p (resume browser m w outcome (record p { waits = remove_at j p.waits }))
    unfolding resume take_media
    resume-Does j w (failed e) p at fresh =
        Moves-trans (once (quits j)) (fail_call-Does e (record p { waits = remove_at j p.waits }))
    resume-Does j (at_media i) (streamed s pc) p at fresh = once (takes j i s pc at)
    resume-Does j (at_offer i) (offered sdp) p at fresh =
        Moves-trans (once (quits j))
          (describes-Does i sdp (record p { waits = remove_at j p.waits }) (pc_of i p))
    resume-Does j (at_local i sdp) done p at fresh =
        Moves-trans (once (quits j))
          (requests_call-Does sdp (record p { waits = remove_at j p.waits }) fresh)
    resume-Does j (at_remote v) done p at fresh =
        Moves-trans (once (quits j))
          (candidates_from-Does (iterated v) (record p { waits = remove_at j p.waits }))
    resume-Does j (at_candidate cs) done p at fresh =
        Moves-trans (once (quits j))
          (add_candidates-Does cs (record p { waits = remove_at j p.waits }))
    resume-Does j (at_media i) (offered sdp) p at fresh = once (quits j)
    resume-Does j (at_media i) done p at fresh = once (quits j)
    resume-Does j (at_offer i) (streamed s pc) p at fresh = once (quits j)
    resume-Does j (at_offer i) done p at fresh = once (quits j)
    resume-Does j (at_local i sdp) (streamed s pc) p at fresh = once (quits j)
    resume-Does j (at_local i sdp) (offered t) p at fresh = once (quits j)
    resume-Does j (at_remote v) (streamed s pc) p at fresh = once (quits j)
    resume-Does j (at_remote v) (offered t) p at fresh = once (quits j)
    resume-Does j (at_candidate cs) (streamed s pc) p at fresh = once (quits j)
    resume-Does j (at_candidate cs) (offered t) p at fresh = once (quits j)

    about_call-Does :
        (method : String) (fs : Fields) (p : Page)
        → lookup m.uuid p.pending_requests ≡ none
        → Does p (about_call browser m method fs p)
    about_call-Does method fs p fresh =
        if-Does p (truthy? p.current_call_id)
          (send_request browser m method (obj (call_param p.current_call_id fs)) for_console p)
          (p, [])
          (λ h.
            send_request-Does method (obj (call_param p.current_call_id fs)) for_console p fresh)
          (λ h. still)

    pub hangup-Does :
        (p : Page) → lookup m.uuid p.pending_requests ≡ none → Does p (hangup browser m p)
    unfolding hangup
    hangup-Does p fresh =
        Moves-trans (about_call-Does "rtc.call.hangup" _ p fresh) (handle_call_ended-Does _)

    pub on_ice_candidate-Does :
        (v : Option Value) (p : Page)
        → lookup m.uuid p.pending_requests ≡ none
        → Does p (on_ice_candidate browser m v p)
    unfolding on_ice_candidate
    on_ice_candidate-Does none p fresh = still
    on_ice_candidate-Does (some v) p fresh = about_call-Does "rtc.call.ice" _ p fresh

pub start_call-Does : (p : Page) → Does p (start_call p)
unfolding start_call
start_call-Does p = dials-Does p p.rtc_peer refl
  where
    dials-Does : (p : Page) (o : Option ℕ) → p.rtc_peer ≡ o → Does p (dials_from o p)
    dials-Does p none at = once (dials _ at)
    dials-Does p (some i) at = still

state_of-Does : (state : String) (p : Page) (pc : Option ℕ) → Does p (state_of state p pc)
state_of-Does state p none = still
state_of-Does state p (some pc) =
    if-Does p (str_eq state "connected") (says "Connected" p, [])
      (if str_eq state "disconnected" || str_eq state "failed"
        then handle_call_ended p
        else (p, []))
      (λ h. once (shows _))
      (λ h.
        if-Does p (str_eq state "disconnected" || str_eq state "failed") (handle_call_ended p)
          (p, []) (λ k. handle_call_ended-Does p) (λ k. still))

pub on_connection_state_change-Does :
    (i : ℕ) (state : String) (p : Page) → Does p (on_connection_state_change i state p)
unfolding on_connection_state_change
on_connection_state_change-Does i state p = state_of-Does state p (pc_of i p)
