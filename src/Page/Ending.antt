-- ===== src/Page/Ending.antt =====
-- The ends of a call of plugin/ui/app.ts: by the hangup button, by a failure, and by an answer that
-- comes too late.
use Prim.Native.String.{◌++◌}
use openclaw_rtc_plugin.Common.{
  ℕ, String, Bool, true, false, ◌≡◌, refl, ap, sym, subst, ◌∙◌, Option, none, some, List, [], ◌∷◌,
  ◌++◌ as append, get_elem?, remove_at, if◌then◌else◌, arith,
}
use openclaw_rtc_plugin.Common.Maps.{lookup, insert, erase}
use openclaw_rtc_plugin.Json.{Value, null, bool, num, str, obj, arr, end, field, property, truthy?}
use openclaw_rtc_plugin.Socket.{is_open}
use openclaw_rtc_plugin.Page.{
  Browser, Purpose, for_console, for_call, Settled, resolved, rejected, Effect, sent, settles, Wait,
  RtcPeer, at_media, at_offer, at_local, at_remote, at_candidate, Page, Acted,
}
use openclaw_rtc_plugin.Page.Peer
use openclaw_rtc_plugin.Page.Peer.{releases?}
use openclaw_rtc_plugin.Page.Call.{
  Moment, and_then, failed, says, drop_peer, cleanup_call, handle_call_ended, fail_call, on_peer,
  call_answered, continue, send_on, send_request, resume, call_param, about_call, hangup,
}
use openclaw_rtc_plugin.Page.Frames.{answer_of, settle, response_to, handle_response}
use openclaw_rtc_plugin.Page.Loop.{wait_over, wait_at, happen}

-- What `hangup` of the peer does, if there is one.
abbrev pub peer_releases : List RtcPeer → Option ℕ → List Effect
peer_releases rs none = []
peer_releases rs (some i) = releases? (get_elem? rs i)

-- The page shows that there is no call and keeps nothing of one.
pub record IsIdle (p : Page) : Type 0 where
  pub no_peer : p.rtc_peer ≡ none
  pub no_call : p.current_call_id ≡ none
  pub can_call : p.call_hidden ≡ false
  pub cannot_hang_up : p.hangup_hidden ≡ true

-- The call of `p` has ended, and what its peer held is released.
abbrev pub Ends : Page → Acted → Type 0
Ends p (q, es) = IsIdle q × (es ≡ peer_releases p.peers p.rtc_peer)

-- An answer that only settles its promise, on a page from which then nothing can be hung up.
abbrev pub IsLost : Browser → Moment → String → Value → Acted → Type 0
IsLost browser m id frame (q, es) =
    IsIdle q × (es ≡ settles id (answer_of browser frame) ∷ []) × ((hangup browser m q).1 ≡ [])

abbrev IsLate : Acted → Type 0
IsLate (q, es) = IsIdle q × (es ≡ [])

drop_peer-none : (p : Page) (o : Option ℕ) → p.rtc_peer ≡ o → (drop_peer o p).0.rtc_peer ≡ none
drop_peer-none p none at = at
drop_peer-none p (some i) at = refl

drop_peer-releases : (p : Page) (o : Option ℕ) → (drop_peer o p).1 ≡ peer_releases p.peers o
unfolding Peer.hangup
drop_peer-releases p none = refl
drop_peer-releases p (some i) = refl

pub cleanup_call-IsIdle : (p : Page) → IsIdle (cleanup_call p).0
unfolding cleanup_call
cleanup_call-IsIdle p = record {
  no_peer = drop_peer-none p p.rtc_peer refl;
  no_call = refl;
  can_call = refl;
  cannot_hang_up = refl;
}

handle_call_ended-IsIdle : (p : Page) → IsIdle (handle_call_ended p).0
unfolding handle_call_ended cleanup_call
handle_call_ended-IsIdle p = record {
  no_peer = drop_peer-none p p.rtc_peer refl;
  no_call = refl;
  can_call = refl;
  cannot_hang_up = refl;
}

cleanup_call-releases : (p : Page) → (cleanup_call p).1 ≡ peer_releases p.peers p.rtc_peer
unfolding cleanup_call
cleanup_call-releases p = drop_peer-releases p p.rtc_peer

fail_call-Ends : (e : String) (p : Page) → Ends p (fail_call e p)
unfolding fail_call
fail_call-Ends e p =
    let q = says ("Failed: " ++ e) p in (cleanup_call-IsIdle q, cleanup_call-releases q)

-- Whichever wait of whichever `startCall` fails, of this call or of one that was hung up before,
-- the call that the page has now ends: its peer releases what it holds.
pub failed_wait-Ends :
    (browser : Browser) (m : Moment) (p : Page) (j : ℕ) (w : Wait) (e : String)
    → get_elem? p.waits j ≡ some w
    → Ends p (happen browser m (wait_over j (failed e)) p)
unfolding happen resume
failed_wait-Ends browser m p j w e at =
    subst (λ o. Ends p (wait_at browser m j (failed e) o p)) (sym at) (ended w)
  where
    ended : (w : Wait) → Ends p (wait_at browser m j (failed e) (some w) p)
    ended (at_media i) = fail_call-Ends e (record p { waits = remove_at j p.waits })
    ended (at_offer i) = fail_call-Ends e (record p { waits = remove_at j p.waits })
    ended (at_local i sdp) = fail_call-Ends e (record p { waits = remove_at j p.waits })
    ended (at_remote v) = fail_call-Ends e (record p { waits = remove_at j p.waits })
    ended (at_candidate cs) = fail_call-Ends e (record p { waits = remove_at j p.waits })

-- A page without a peer gets the answer to `rtc.call.start`, or a refusal.
fail_call-IsLate : (e : String) (p : Page) → p.rtc_peer ≡ none → IsLate (fail_call e p)
fail_call-IsLate e p at =
    let (idle, es) = fail_call-Ends e p in (idle, es ∙ ap (λ o. peer_releases p.peers o) at)

on_peer-IsLate :
    (browser : Browser) (w : Wait) (v : Option Value) (p : Page) (o : Option ℕ)
    → p.rtc_peer ≡ o
    → o ≡ none
    → IsLate (on_peer browser w (record p { current_call_id = v }) o)
on_peer-IsLate browser w v p none at gone =
    fail_call-IsLate browser.type_error (record p { current_call_id = v }) at
on_peer-IsLate browser w v p (some i) at gone = absurd (ground (arith, gone))

continue-IsLate :
    (browser : Browser) (s : Settled) (p : Page)
    → p.rtc_peer ≡ none
    → IsLate (continue browser for_call s p)
unfolding continue call_answered
continue-IsLate browser (rejected e) p at = fail_call-IsLate e p at
continue-IsLate browser (resolved none) p at = fail_call-IsLate browser.type_error p at
continue-IsLate browser (resolved (some null)) p at = fail_call-IsLate browser.type_error p at
continue-IsLate browser (resolved (some (bool b))) p at =
    on_peer-IsLate browser _ _ p p.rtc_peer refl at
continue-IsLate browser (resolved (some (num n e))) p at =
    on_peer-IsLate browser _ _ p p.rtc_peer refl at
continue-IsLate browser (resolved (some (str s))) p at =
    on_peer-IsLate browser _ _ p p.rtc_peer refl at
continue-IsLate browser (resolved (some (obj fs))) p at =
    on_peer-IsLate browser _ _ p p.rtc_peer refl at
continue-IsLate browser (resolved (some (arr vs))) p at =
    on_peer-IsLate browser _ _ p p.rtc_peer refl at

abbrev pub request_on : Moment → String → Value → Option ℕ → List Effect
request_on m method params none = []
request_on m method params (some socket) =
    if is_open (m.ready socket) then sent socket m.uuid method params ∷ [] else []

-- What the click on the hangup button asks of the gateway: with a call id, and on an open socket.
abbrev pub hangup_request : Moment → Option Value → Option ℕ → List Effect
hangup_request m id ws =
    if truthy? id
    then request_on m "rtc.call.hangup" (obj (call_param id (field "reason" (str "user") end))) ws
    else []

-- That is done, and the peers are as they were.
record Asks (p : Page) (es : List Effect) (a : Acted) : Type 0 where
  done : a.1 ≡ es
  same_peers : a.0.peers ≡ p.peers
  same_peer : a.0.rtc_peer ≡ p.rtc_peer

if-Asks :
    (p : Page) (b : Bool) (es fs : List Effect) (x y : Acted)
    → Asks p es x
    → Asks p fs y
    → Asks p (if b then es else fs) (if b then x else y)
if-Asks p true es fs x y h k = h
if-Asks p false es fs x y h k = k

nothing-Asks : (p : Page) → Asks p [] (p, [])
nothing-Asks p = record { done = refl; same_peers = refl; same_peer = refl }

send_on-Asks :
    (browser : Browser) (m : Moment) (method : String) (params : Value) (p : Page) (o : Option ℕ)
    → Asks p (request_on m method params o) (send_on browser m method params for_console p o)
unfolding continue
send_on-Asks browser m method params p none = nothing-Asks p
send_on-Asks browser m method params p (some socket) =
    if-Asks p (is_open (m.ready socket)) (sent socket m.uuid method params ∷ []) []
      (
        record p { pending_requests = insert m.uuid for_console p.pending_requests },
        sent socket m.uuid method params ∷ [],
      )
      (p, []) (record { done = refl; same_peers = refl; same_peer = refl }) (nothing-Asks p)

about_call-Asks :
    (browser : Browser) (m : Moment) (p : Page)
    → Asks p
        (hangup_request m p.current_call_id p.ws)
        (about_call browser m "rtc.call.hangup" (field "reason" (str "user") end) p)
unfolding send_request
about_call-Asks browser m p =
    let params = obj (call_param p.current_call_id (field "reason" (str "user") end)) in
    if-Asks p (truthy? p.current_call_id) (request_on m "rtc.call.hangup" params p.ws) []
      (send_on browser m "rtc.call.hangup" params for_console p p.ws) (p, [])
      (send_on-Asks browser m "rtc.call.hangup" params p p.ws) (nothing-Asks p)

ended-Ends :
    (p : Page) (es : List Effect) (a : Acted)
    → Asks p es a
    → (and_then a handle_call_ended).1 ≡ append es (peer_releases p.peers p.rtc_peer)
unfolding handle_call_ended
ended-Ends p es (q, fs) h =
    ap (append fs) (cleanup_call-releases q)
    ∙ ap (λ rs. append fs (peer_releases rs q.rtc_peer)) h.same_peers
    ∙ ap (λ o. append fs (peer_releases p.peers o)) h.same_peer
    ∙ ap (λ gs. append gs (peer_releases p.peers p.rtc_peer)) h.done

-- The hangup button ends the call on the page in every case, and releases what its peer holds. The
-- gateway is told when the page knows the call's id and its socket is open, and only then.
pub hangup_tells :
    (browser : Browser) (m : Moment) (p : Page)
    → (let (q, es) = hangup browser m p in
        IsIdle q
        × (es
            ≡ append (hangup_request m p.current_call_id p.ws) (peer_releases p.peers p.rtc_peer)))
unfolding hangup
hangup_tells browser m p = (
  handle_call_ended-IsIdle
      (about_call browser m "rtc.call.hangup" (field "reason" (str "user") end) p).0,
  ended-Ends p _ (about_call browser m "rtc.call.hangup" (field "reason" (str "user") end) p)
      (about_call-Asks browser m p),
)

idle_hangup : (browser : Browser) (m : Moment) (p : Page) → IsIdle p → (hangup browser m p).1 ≡ []
idle_hangup browser m p idle =
    (hangup_tells browser m p).1
    ∙ ap (λ id. append (hangup_request m id p.ws) (peer_releases p.peers p.rtc_peer)) idle.no_call
    ∙ ap (peer_releases p.peers) idle.no_peer

settle-IsLost :
    (browser : Browser) (m : Moment) (p : Page) (id : String) (frame : Value) (o : Option Purpose)
    → o ≡ some for_call
    → p.rtc_peer ≡ none
    → IsLost browser m id frame (settle browser frame id p o)
settle-IsLost browser m p id frame o at gone =
    let q = record p { pending_requests = erase id p.pending_requests } in
    let (idle, es) = continue-IsLate browser (answer_of browser frame) q gone in
    subst (λ x. IsLost browser m id frame (settle browser frame id p x)) (sym at)
      (idle, ap (◌∷◌ (settles id (answer_of browser frame))) es, idle_hangup browser m _ idle)

pub late_answer-IsLost :
    (browser : Browser) (m : Moment) (p : Page) (id : String) (frame : Value)
    → property "id" frame ≡ some (str id)
    → lookup id p.pending_requests ≡ some for_call
    → p.rtc_peer ≡ none
    → IsLost browser m id frame (handle_response browser frame p)
unfolding handle_response
late_answer-IsLost browser m p id frame named at gone =
    subst (λ v. IsLost browser m id frame (response_to browser frame p v)) (sym named)
      (settle-IsLost browser m p id frame (lookup id p.pending_requests) at gone)
