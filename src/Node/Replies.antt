-- ===== src/Node/Replies.antt =====
-- The commands of plugin/node/index.ts are answered once each.
use openclaw_rtc_plugin.Common.{
  ℕ, zero, suc, ◌+◌, String, str_eq, Bool, true, false, ◌||◌, ◌≡◌, refl, Option, none, some, List,
  [], ◌∷◌, ◌++◌, get_elem?, remove_at, if◌then◌else◌, arith, ap, ok, err,
}
use openclaw_rtc_plugin.Json.{Value}
use openclaw_rtc_plugin.Peers
use openclaw_rtc_plugin.Peers.Accept.{Wait, Outcome, waits, returns, throws, Went, resume}
use openclaw_rtc_plugin.Node.Commands.{
  RtcNode, Effect, at_peers, replied, Acted, new, of_peers, settle, command_of, handle_command,
  wait_over, go_on, state_changed, Event, commanded, went_on, changed, looped, stopped, happen,
}

-- Invocations are counted by any weight of their ids: by one for each, or by one for those with a
-- given id.
module _ (f : Value → ℕ) where
  abbrev replies_of : Effect → ℕ
  replies_of (replied id r) = f id
  replies_of (at_peers e) = 0

  unfoldable pub replies : List Effect → ℕ
  replies [] = 0
  replies (e ∷ es) = replies_of e + replies es

  unfoldable pub held : List (Value × Wait) → ℕ
  held [] = 0
  held (w ∷ ws) = f w.0 + held ws

  replies-append : (es fs : List Effect) → replies (es ++ fs) ≡ replies es + replies fs
  unfolding replies
  replies-append [] fs = omega arith
  replies-append (e ∷ es) fs = omega (arith, replies-append es fs)

  held-append : (ws vs : List (Value × Wait)) → held (ws ++ vs) ≡ held ws + held vs
  unfolding held
  held-append [] vs = omega arith
  held-append (w ∷ ws) vs = omega (arith, held-append ws vs)

  held-remove_at :
      (i : ℕ) (w : Value × Wait) (ws : List (Value × Wait))
      → get_elem? ws i ≡ some w
      → held ws ≡ f w.0 + held (remove_at i ws)
  unfolding held
  held-remove_at i w [] at = absurd (ground arith)
  held-remove_at zero w (v ∷ ws) at = omega (arith, ap weight at)
    where
      weight : Option (Value × Wait) → ℕ
      weight none = 0
      weight (some u) = f u.0
  held-remove_at (suc i) w (v ∷ ws) at = omega (arith, held-remove_at i w ws at)

  remove_at-past : (i : ℕ) (ws : List (Value × Wait)) → get_elem? ws i ≡ none → remove_at i ws ≡ ws
  remove_at-past i [] at = refl
  remove_at-past zero (w ∷ ws) at = absurd (ground (arith, at))
  remove_at-past (suc i) (w ∷ ws) at = ap (◌∷◌ w) (remove_at-past i ws at)

  peers_reply_nothing : (es : List Peers.Effect) → replies (of_peers es) ≡ 0
  unfolding replies of_peers
  peers_reply_nothing [] = refl
  peers_reply_nothing (e ∷ es) = omega (arith, peers_reply_nothing es)

  -- `n` is what was asked.
  abbrev IsBalanced : ℕ → RtcNode → Acted → Type 0
  IsBalanced n node (node', es) = n + held node.waiting ≡ replies es + held node'.waiting

  settle-IsBalanced :
      (id : Value) (w : Went) (node : RtcNode) → IsBalanced (f id) node (settle id w node)
  unfolding replies held
  settle-IsBalanced id (m, es, waits w) node =
      omega (arith, peers_reply_nothing es, held-append node.waiting ((id, w) ∷ []))
  settle-IsBalanced id (m, es, returns v) node =
      omega (arith, peers_reply_nothing es, replies-append (of_peers es) (replied id (ok v) ∷ []))
  settle-IsBalanced id (m, es, throws e) node =
      omega (arith, peers_reply_nothing es, replies-append (of_peers es) (replied id (err e) ∷ []))

  wait_over-IsBalanced :
      (to_text : Value → String) (type_error : String) (outcome : Outcome) (i : ℕ) (node : RtcNode)
      (o : Option (Value × Wait))
      → get_elem? node.waiting i ≡ o
      → IsBalanced 0 node (
          wait_over to_text type_error outcome o
            (record node { waiting = remove_at i node.waiting }))
  unfolding replies
  wait_over-IsBalanced to_text type_error outcome i node none at =
      omega (arith, ap held (remove_at-past i node.waiting at))
  wait_over-IsBalanced to_text type_error outcome i node (some (id, w)) at = omega (
    arith,
    held-remove_at i (id, w) node.waiting at,
    settle-IsBalanced id (resume type_error w outcome node.manager)
        (record node { waiting = remove_at i node.waiting }),
  )

  -- The weight of an event's command.
  abbrev pub weight_of : Event → ℕ
  weight_of (commanded id command params) = f id
  weight_of _ = 0

  changed-IsBalanced :
      (b : Bool) (m : Peers.Acted) (node : RtcNode)
      → IsBalanced 0 node (if b then (record node { manager = m.0 }, of_peers m.1) else (node, []))
  unfolding replies
  changed-IsBalanced true m node = omega (arith, peers_reply_nothing m.1)
  changed-IsBalanced false m node = omega arith

  happen-IsBalanced :
      (to_text : Value → String) (type_error : String) (e : Event) (node : RtcNode)
      → IsBalanced (weight_of e) node (happen to_text type_error e node)
  unfolding happen handle_command go_on state_changed
  happen-IsBalanced to_text type_error (commanded id command params) node =
      settle-IsBalanced id (command_of to_text type_error command params node.manager) node
  happen-IsBalanced to_text type_error (went_on i outcome) node =
      wait_over-IsBalanced to_text type_error outcome i node (get_elem? node.waiting i) refl
  happen-IsBalanced to_text type_error (changed call state) node =
      changed-IsBalanced
        (str_eq state "disconnected" || str_eq state "failed" || str_eq state "closed")
        (Peers.close_peer call node.manager) node
  happen-IsBalanced to_text type_error (looped call timer) node =
      changed-IsBalanced true (Peers.start_delayed_loopback call timer node.manager) node
  happen-IsBalanced to_text type_error stopped node =
      changed-IsBalanced true (Peers.close_all node.manager) node

-- The nodes that some events lead to, with what was done, and the weight of what was asked.
pub data Run (to_text : Value → String) (type_error : String) (f : Value → ℕ)
    : RtcNode → List Effect → ℕ → Type 0 where
  begin : Run to_text type_error f new [] 0
  then_event :
      {node : RtcNode} {es : List Effect} {n : ℕ}
      → Run to_text type_error f node es n
      → (e : Event)
      → Run to_text type_error f
          (happen to_text type_error e node).0
          (es ++ (happen to_text type_error e node).1)
          (weight_of f e + n)

pub Run-answers :
    (to_text : Value → String) (type_error : String) (f : Value → ℕ) (node : RtcNode)
    (es : List Effect) (n : ℕ)
    → Run to_text type_error f node es n
    → n ≡ replies f es + held f node.waiting
unfolding replies held new
Run-answers to_text type_error f _ _ _ begin = refl
Run-answers to_text type_error f _ _ _ (then_event {node} {es} {n} r e) = omega (
  arith,
  Run-answers to_text type_error f node es n r,
  happen-IsBalanced f to_text type_error e node,
  replies-append f es (happen to_text type_error e node).1,
)
