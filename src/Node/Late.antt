-- ===== src/Node/Late.antt =====
-- What plugin/node/index.ts and plugin/node/peer-manager.ts do with a hangup that comes while the call
-- is still being accepted.
use openclaw_rtc_plugin.Common.{
  ℕ, String, ◌≡◌, refl, ap, sym, subst, ◌∙◌, Option, none, some, [], ◌∷◌, ok, get_elem?, remove_at,
  if◌then◌else◌, eq_refl,
}
use openclaw_rtc_plugin.Common.Maps.{lookup, lookup-insert}
use openclaw_rtc_plugin.Json.{Value, str, obj, arr, Items, end, field}
use openclaw_rtc_plugin.Peers.{
  RtcPeerManager, peer_stored, accept_call, drop_loopback, drop_peer, close_peer, and_then,
}
use openclaw_rtc_plugin.Peers.Accept.{
  at_local, answered, fine, closing, close_wait, returns, resume,
}
use openclaw_rtc_plugin.Node.Commands.{
  RtcNode, at_peers, replied, param_of, of_peers, settle, hangup_command, handle_command, wait_over,
  go_on, commanded, went_on, happen,
}

-- Nothing is known of the call.
close_peer-none :
    (id : String) (m : RtcPeerManager)
    → lookup id m.peers ≡ none
    → lookup id m.loopbacks ≡ none
    → closing id m ≡ (m, [], returns fine)
unfolding close_peer
close_peer-none id m no_peer no_loopback =
    ap
      (λ l.
        let (m', es) = and_then (drop_loopback id m l) (λ q. drop_peer id q (lookup id q.peers)) in
        (m', es, close_wait (lookup id m.peers)))
      no_loopback
    ∙ ap (λ o. let (m', es) = drop_peer id m o in (m', es, close_wait o)) no_peer

hangup_none :
    (to_text : Value → String) (type_error : String) (node : RtcNode) (id : Value) (call : String)
    (params : Option Value)
    → param_of "callId" params ≡ some (str call)
    → lookup call node.manager.peers ≡ none
    → lookup call node.manager.loopbacks ≡ none
    → happen to_text type_error (commanded id (str "rtc.call.hangup") params) node
      ≡ (node, replied id (ok fine) ∷ [])
unfolding happen handle_command of_peers
hangup_none to_text type_error node id call params named no_peer no_loopback =
    ap (λ v. settle id (hangup_command to_text type_error v node.manager) node) named
    ∙ ap (λ w. settle id w node) (close_peer-none call node.manager no_peer no_loopback)

stored_late :
    (to_text : Value → String) (type_error : String) (node : RtcNode) (id : Value)
    (call sdp : String) (pc i : ℕ) (candidates : Items)
    → get_elem? node.waiting i ≡ some (id, at_local call pc)
    → happen to_text type_error (went_on i (answered sdp candidates)) node ≡ (
      record node {
        manager = (accept_call call pc node.manager).0;
        waiting = remove_at i node.waiting;
      },
      at_peers (peer_stored pc)
          ∷ replied id
              (ok (obj (field "answerSdp" (str sdp) (field "candidates" (arr candidates) end))))
          ∷ [],
    )
unfolding happen go_on resume accept_call of_peers
stored_late to_text type_error node id call sdp pc i candidates at =
    ap
      (λ o.
        wait_over to_text type_error (answered sdp candidates) o
          (record node { waiting = remove_at i node.waiting }))
      at

stored-lookup :
    (call : String) (pc : ℕ) (m : RtcPeerManager)
    → lookup call (accept_call call pc m).0.peers ≡ some pc
unfolding accept_call
stored-lookup call pc m =
    lookup-insert call call pc m.peers
    ∙ ap (λ b. if b then some pc else lookup call m.peers) (eq_refl call)

pub hangup_before_stored :
    (to_text : Value → String) (type_error : String) (node : RtcNode) (id hangup_id : Value)
    (call sdp : String) (pc i : ℕ) (candidates : Items) (params : Option Value)
    → param_of "callId" params ≡ some (str call)
    → lookup call node.manager.peers ≡ none
    → lookup call node.manager.loopbacks ≡ none
    → get_elem? node.waiting i ≡ some (id, at_local call pc)
    → (let (hung_up, es) =
          happen to_text type_error (commanded hangup_id (str "rtc.call.hangup") params) node in
        let (late, fs) = happen to_text type_error (went_on i (answered sdp candidates)) hung_up in
        (es ≡ replied hangup_id (ok fine) ∷ [])
        × (fs
            ≡ at_peers (peer_stored pc)
              ∷ replied id
                  (ok (obj (field "answerSdp" (str sdp) (field "candidates" (arr candidates) end))))
              ∷ [])
        × (lookup call late.manager.peers ≡ some pc))
hangup_before_stored to_text type_error node id hangup_id call sdp pc i candidates params named
      no_peer no_loopback at =
    let late = stored_late to_text type_error node id call sdp pc i candidates at in
    subst
      (λ a.
        (a.1 ≡ replied hangup_id (ok fine) ∷ [])
        × ((happen to_text type_error (went_on i (answered sdp candidates)) a.0).1
            ≡ at_peers (peer_stored pc)
              ∷ replied id
                  (ok (obj (field "answerSdp" (str sdp) (field "candidates" (arr candidates) end))))
              ∷ [])
        × (lookup call
              (happen to_text type_error (went_on i (answered sdp candidates)) a.0).0.manager.peers
            ≡ some pc))
      (sym (hangup_none to_text type_error node hangup_id call params named no_peer no_loopback))
      (
        refl,
        ap (λ a. a.1) late,
        ap (λ a. lookup call a.0.manager.peers) late ∙ stored-lookup call pc node.manager,
      )
