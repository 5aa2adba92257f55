-- ===== src/Page/Steps.antt =====
-- The steps of a call of plugin/ui/app.ts that goes well, from the click to the remote candidates.
use openclaw_rtc_plugin.Common.{
  ℕ, suc, String, true, false, ◌≡◌, refl, ap, ◌∙◌, Option, none, some, List, [], ◌∷◌,
  ◌++◌ as append, get_elem?, length, replicate, eq_refl, if◌then◌else◌,
}
use openclaw_rtc_plugin.Common.Maps.{Entries, lookup, insert, erase, lookup-insert}
use openclaw_rtc_plugin.Json.{Value, get, obj, arr, Items, end, field}
use openclaw_rtc_plugin.Socket.{is_open}
use openclaw_rtc_plugin.Page.{
  Browser, Purpose, Shown, for_call, resolved, rejected, sent, settles, RtcPeer, Wait, at_media,
  at_offer, at_local, at_remote, at_candidate, Page,
}
use openclaw_rtc_plugin.Page.Peer.{blank, put, pc_of?}
use openclaw_rtc_plugin.Page.Call.{
  Moment, offered, done, waiting, dials, describes, send_on, send_request, continue, call_answered,
  and_then, items, on_pc, on_peer, add_candidates, resume, start_call, start_params,
}
use openclaw_rtc_plugin.Page.Show.{set_call_status}
use openclaw_rtc_plugin.Page.Frames.{answer_of, settle, on_message, handle_frame}
use openclaw_rtc_plugin.Page.Waits.{get-put_same}
use openclaw_rtc_plugin.Page.Loop.{call_clicked, wait_over, message_received, happen}
use openclaw_rtc_plugin.Page.Dialing.{happen_all, wait_last, call_started}

get-length : (rs : List RtcPeer) (r : RtcPeer) → get_elem? (append rs (r ∷ [])) (length rs) ≡ some r
get-length [] r = refl
get-length (q ∷ rs) r = get-length rs r

abbrev holding : ℕ → ℕ → RtcPeer
holding stream pc = record { pc = some pc; local_stream = some stream }

inserted : (id : String) (es : Entries Purpose) → lookup id (insert id for_call es) ≡ some for_call
inserted id es =
    lookup-insert id id for_call es
    ∙ ap (λ b. if b then some for_call else lookup id es) (eq_refl id)

-- The page `p` in a call that was made on it.
module _ (browser : Browser) (m : Moment) (p : Page) (stream pc : ℕ) where
  abbrev peers_with : List RtcPeer
  peers_with = put (length p.peers) (holding stream pc) (append p.peers (blank ∷ []))

  abbrev pub in_call : Shown → Option Value → Entries Purpose → ℕ → List Wait → Page
  in_call s id pending seq ws = record p {
    shown = s;
    call_hidden = true;
    hangup_hidden = false;
    rtc_peer = some (length p.peers);
    current_call_id = id;
    pending_requests = pending;
    message_seq = seq;
    peers = peers_with;
    waits = ws;
  }

  pub has_pc : get_elem? peers_with (length p.peers) ≡ some (holding stream pc)
  has_pc =
      get-put_same (length p.peers) (holding stream pc) blank (append p.peers (blank ∷ []))
        (get-length p.peers blank)

  -- The peer has its connection, so a method of it that needs one waits for it.
  on_peer_waits :
      (w : Wait) (s : Shown) (id : Option Value) (pending : Entries Purpose) (seq : ℕ)
      (ws : List Wait)
      → on_peer browser w (in_call s id pending seq ws) (some (length p.peers))
        ≡ waiting w (in_call s id pending seq ws)
  on_peer_waits w s id pending seq ws =
      ap (λ r. on_pc browser w (in_call s id pending seq ws) (pc_of? r)) has_pc

  candidates_added :
      (cs : List Value) (s : Shown) (id : Option Value) (pending : Entries Purpose) (seq : ℕ)
      → and_then
          (add_candidates browser cs (in_call s id pending seq p.waits))
          (happen_all browser m (replicate (length cs) (wait_over (length p.waits) done)))
        ≡ (in_call (set_call_status "Connecting..." s) id pending seq p.waits, [])
  unfolding add_candidates happen_all resume
  candidates_added [] s id pending seq = refl
  candidates_added (c ∷ cs) s id pending seq =
      ap
        (λ a. and_then a (
          happen_all browser m (
            wait_over (length p.waits) done
            ∷ replicate (length cs) (wait_over (length p.waits) done))))
        (on_peer_waits (at_candidate cs) s id pending seq p.waits)
      ∙ ap
          (λ a.
            and_then a
              (happen_all browser m (replicate (length cs) (wait_over (length p.waits) done))))
          (wait_last browser m (in_call s id pending seq []) p.waits (at_candidate cs) done refl)
      ∙ candidates_added cs s id pending seq

  abbrev pub dialing : Shown
  dialing = set_call_status "Dialing..." p.shown

  -- The click makes a peer, which waits for the microphone.
  pub clicked :
      p.rtc_peer ≡ none
      → happen browser m call_clicked p ≡ (
        record p {
          shown = dialing;
          call_hidden = true;
          hangup_hidden = false;
          rtc_peer = some (length p.peers);
          peers = append p.peers (blank ∷ []);
          waits = append p.waits (at_media (length p.peers) ∷ []);
        },
        [],
      )
  unfolding happen start_call
  clicked at = ap (λ o. dials o p) at

  pub offer_made :
      (sdp : String)
      → resume browser m
          (at_offer (length p.peers))
          (offered sdp)
          (in_call dialing p.current_call_id p.pending_requests p.message_seq p.waits)
        ≡ waiting
            (at_local (length p.peers) sdp)
            (in_call dialing p.current_call_id p.pending_requests p.message_seq p.waits)
  unfolding resume
  offer_made sdp =
      ap
        (λ r.
          describes browser (length p.peers) sdp
            (in_call dialing p.current_call_id p.pending_requests p.message_seq p.waits) (pc_of? r))
        has_pc

  -- `rtc.call.start` goes out on an open socket.
  pub requested :
      (socket : ℕ) (sdp : String)
      → p.ws ≡ some socket
      → is_open (m.ready socket) ≡ true
      → resume browser m
          (at_local (length p.peers) sdp)
          done
          (in_call dialing p.current_call_id p.pending_requests p.message_seq p.waits)
        ≡ (
          in_call dialing p.current_call_id
              (insert m.uuid for_call p.pending_requests)
              (suc p.message_seq)
              p.waits,
          sent socket m.uuid "rtc.call.start" (start_params sdp (suc p.message_seq)) ∷ [],
        )
  unfolding resume send_request
  requested socket sdp at open_ =
      let q = in_call dialing p.current_call_id p.pending_requests (suc p.message_seq) p.waits in
      let params = start_params sdp (suc p.message_seq) in
      ap (λ o. send_on browser m "rtc.call.start" params for_call q o) at
      ∙ ap
          (λ b.
            if b
            then (
              record q { pending_requests = insert m.uuid for_call q.pending_requests },
              sent socket m.uuid "rtc.call.start" params ∷ [],
            )
            else continue browser for_call (rejected "Not connected") q)
          open_

  -- Its answer names the call, and the peer gets the remote description.
  pub answered :
      (call_id answer_sdp : Value) (candidates : Items)
      → handle_frame browser m (call_started m.uuid call_id answer_sdp candidates) (
          in_call dialing p.current_call_id
            (insert m.uuid for_call p.pending_requests)
            (suc p.message_seq)
            p.waits)
        ≡ (
          in_call dialing
              (some call_id)
              (erase m.uuid (insert m.uuid for_call p.pending_requests))
              (suc p.message_seq)
              (append p.waits (at_remote (some (arr candidates)) ∷ [])),
          settles m.uuid (
                resolved (
                  some (
                    obj (
                      field "callId" call_id
                        (field "answerSdp" answer_sdp (field "candidates" (arr candidates) end))))))
              ∷ [],
        )
  unfolding handle_frame get continue call_answered
  answered call_id answer_sdp candidates =
      let frame = call_started m.uuid call_id answer_sdp candidates in
      let pending = insert m.uuid for_call p.pending_requests in
      ap
        (settle browser frame m.uuid
          (in_call dialing p.current_call_id pending (suc p.message_seq) p.waits))
        (inserted m.uuid p.pending_requests)
      ∙ ap (λ a. (a.0, settles m.uuid (answer_of browser frame) ∷ a.1))
          (on_peer_waits (at_remote (some (arr candidates))) dialing (some call_id)
            (erase m.uuid pending) (suc p.message_seq) p.waits)

  -- The waits of the second half.
  pub candidates_taken :
      (call_id answer_sdp : Value) (candidates : Items) (pending : Entries Purpose)
      → happen_all browser m
          (wait_over (length p.waits) done
            ∷ replicate (length (items candidates)) (wait_over (length p.waits) done))
          (in_call dialing
            (some call_id)
            pending
            (suc p.message_seq)
            (append p.waits (at_remote (some (arr candidates)) ∷ [])))
        ≡ (
          in_call
              (set_call_status "Connecting..." dialing)
              (some call_id)
              pending
              (suc p.message_seq)
              p.waits,
          [],
        )
  unfolding happen_all resume
  candidates_taken call_id answer_sdp candidates pending =
      ap
        (λ a. and_then a (
          happen_all browser m
            (replicate (length (items candidates)) (wait_over (length p.waits) done))))
        (wait_last browser m (in_call dialing (some call_id) pending (suc p.message_seq) []) p.waits
          (at_remote (some (arr candidates))) done refl)
      ∙ candidates_added (items candidates) dialing (some call_id) pending (suc p.message_seq)

  pub parsed_frame :
      (text : String) (frame : Value)
      → browser.json_parse text ≡ some frame
      → (q : Page)
      → happen browser m (message_received text) q ≡ on_message browser m (some frame) q
  unfolding happen
  parsed_frame text frame parsed q = ap (λ o. on_message browser m o q) parsed
