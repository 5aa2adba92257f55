-- ===== src/Page/Connecting.antt =====
-- A call of plugin/ui/app.ts that goes well, from the click to the remote candidates.
use openclaw_rtc_plugin.Common.{
  ℕ, suc, String, true, false, ◌≡◌, refl, sym, subst, ◌∙◌, none, some, [], ◌∷◌, ◌++◌ as append,
  get_elem?, length,
}
use openclaw_rtc_plugin.Common.Maps.{insert, erase}
use openclaw_rtc_plugin.Json.{Value, get, Items}
use openclaw_rtc_plugin.Socket.{is_open}
use openclaw_rtc_plugin.Page.{Browser, for_call, at_media, at_offer, at_local, Page}
use openclaw_rtc_plugin.Page.Peer.{blank, take_media}
use openclaw_rtc_plugin.Page.Call.{Moment, streamed, offered, done, items, resume}
use openclaw_rtc_plugin.Page.Show.{set_call_status}
use openclaw_rtc_plugin.Page.Frames.{on_message}
use openclaw_rtc_plugin.Page.Loop.{call_clicked}
use openclaw_rtc_plugin.Page.Dialing.{
  happen_all, wait_last, then_step, call_started, call_events, call_effects,
}
use openclaw_rtc_plugin.Page.Steps.{
  in_call, has_pc, dialing, clicked, offer_made, requested, answered, candidates_taken,
  parsed_frame,
}

-- The page `p` has come to be in the call.
pub record Connects (p : Page) (stream pc : ℕ) (call_id : Value) (q : Page) : Type 0 where
  pub has_id : q.current_call_id ≡ some call_id
  pub has_peer : q.rtc_peer ≡ some (length p.peers)
  pub peer_holds :
      get_elem? q.peers (length p.peers)
      ≡ some (record { pc = some pc; local_stream = some stream })
  pub can_hang_up : q.hangup_hidden ≡ false
  pub status : q.shown.call_status ≡ "Connecting..."
  pub no_more : q.waits ≡ p.waits

module _ (browser : Browser) (m : Moment) (p : Page) (stream pc : ℕ) where
  call_runs :
      (socket : ℕ) (sdp text : String) (call_id answer_sdp : Value) (candidates : Items)
      → p.rtc_peer ≡ none
      → p.ws ≡ some socket
      → is_open (m.ready socket) ≡ true
      → browser.json_parse text ≡ some (call_started m.uuid call_id answer_sdp candidates)
      → happen_all browser m
          (call_events (length p.waits) stream pc sdp text (length (items candidates)))
          p
        ≡ (
          in_call browser m p stream pc
              (set_call_status "Connecting..." (dialing browser m p stream pc))
              (some call_id)
              (erase m.uuid (insert m.uuid for_call p.pending_requests))
              (suc p.message_seq)
              p.waits,
          call_effects browser m stream pc socket sdp
              (suc p.message_seq)
              (call_started m.uuid call_id answer_sdp candidates),
        )
  unfolding resume take_media on_message get
  call_runs socket sdp text call_id answer_sdp candidates idle at open_ parsed =
      let media = record p {
        shown = (dialing browser m p stream pc);
        call_hidden = true;
        hangup_hidden = false;
        rtc_peer = some (length p.peers);
        peers = append p.peers (blank ∷ []);
      } in
      let called =
        in_call browser m p stream pc (dialing browser m p stream pc) p.current_call_id
          p.pending_requests p.message_seq [] in
      then_step browser m call_clicked _ p _ _ _ (clicked browser m p stream pc idle) (
        then_step browser m _ _ _ _ _ _
          (wait_last browser m media p.waits (at_media (length p.peers)) (streamed stream pc) refl)
          (then_step browser m _ _ _ _ _ _
            (wait_last browser m called p.waits (at_offer (length p.peers)) (offered sdp) refl
              ∙ offer_made browser m p stream pc sdp)
            (then_step browser m _ _ _ _ _ _
              (wait_last browser m called p.waits (at_local (length p.peers) sdp) done refl
                ∙ requested browser m p stream pc socket sdp at open_)
              (then_step browser m _ _ _ _ _ _
                (parsed_frame browser m p stream pc text _ parsed _
                  ∙ answered browser m p stream pc call_id answer_sdp candidates)
                (candidates_taken browser m p stream pc call_id answer_sdp candidates
                  (erase m.uuid (insert m.uuid for_call p.pending_requests)))))))

  -- On a page without a call, whose socket is open: when the microphone is granted, the connection
  -- makes its offer, and the gateway answers with a call id and candidates that the connection
  -- takes, the request goes out with that offer and the page is in that call, with its peer, and
  -- waits no more.
  pub call_events-Connects :
      (socket : ℕ) (sdp text : String) (call_id answer_sdp : Value) (candidates : Items)
      → p.rtc_peer ≡ none
      → p.ws ≡ some socket
      → is_open (m.ready socket) ≡ true
      → browser.json_parse text ≡ some (call_started m.uuid call_id answer_sdp candidates)
      → (let (q, es) =
            happen_all browser m
              (call_events (length p.waits) stream pc sdp text (length (items candidates)))
              p in
          Connects p stream pc call_id q
          × (es
              ≡ call_effects browser m stream pc socket sdp
                  (suc p.message_seq)
                  (call_started m.uuid call_id answer_sdp candidates)))
  unfolding set_call_status
  call_events-Connects socket sdp text call_id answer_sdp candidates idle at open_ parsed =
      subst
        (λ a.
          Connects p stream pc call_id a.0
          × (a.1
              ≡ call_effects browser m stream pc socket sdp (suc p.message_seq)
                  (call_started m.uuid call_id answer_sdp candidates)))
        (sym (call_runs socket sdp text call_id answer_sdp candidates idle at open_ parsed))
        (
          record {
            has_id = refl;
            has_peer = refl;
            peer_holds = has_pc browser m p stream pc;
            can_hang_up = refl;
            status = refl;
            no_more = refl;
          },
          refl,
        )
