-- ===== src/Plugin/Accept.antt =====
-- The second half of `rtc.call.start` in plugin/index.ts: what the browser is told when the node's
-- reply comes, whatever happened to the call since.
use openclaw_rtc_plugin.Common.{
  remove_at, ℕ, String, true, false, ◌≡◌, ap, subst, ◌≢◌, inl, inr, Option, none, some, ok, arith,
  Bool-cases, get_elem?, eq_refl,
}
use openclaw_rtc_plugin.Common.Maps.{lookup, lookup-insert}
use openclaw_rtc_plugin.Json.{property, Value, Fields, obj, get, truthy}
use openclaw_rtc_plugin.Call.{initiating, connecting, error, is_terminal, state_eq, RtcCallRecord}
use openclaw_rtc_plugin.Orchestrator.{
  CallOrchestrator, wrong_state, message, write, require_call, assert_state, handle_answer, ended,
  set_error,
}
use openclaw_rtc_plugin.Plugin.{Settled, Response, failed, started, Settings}
use openclaw_rtc_plugin.Plugin.Handlers.{accepting, start_end, error_detail, or_nil}
use openclaw_rtc_plugin.Plugin.Server.{Server, Suspended, settled, outcome, resumed, serve, Served}
use openclaw_rtc_plugin.Plugin.Known.{Known, suspended-Known}

-- What the browser is told when the node has accepted.
abbrev pub accepted : String → Value → CallOrchestrator → Response
accepted id v o =
    started id (property "answerSdp" v) (or_nil (property "candidates" v)) o.options.ice_servers

-- The orchestrator and the answer that an `await` which gives `v` leads to, by the call's state.
pub data Accepts (o : CallOrchestrator) (id : String) (now : ℕ) (c : RtcCallRecord) (v : Value)
    : CallOrchestrator × Response → Type 0 where
  connects :
      truthy v ≡ true
      → c.state ≡ initiating
      → Accepts o id now c v (
        write o id (record c { answer_sdp = property "answerSdp" v; state = connecting }),
        accepted id v o,
      )
  too_late :
      truthy v ≡ true
      → c.state ≢ initiating
      → Accepts o id now c v (o, failed (message (wrong_state c.call_id c.state initiating)))
  refused :
      truthy v ≡ false
      → is_terminal c.state ≡ false
      → Accepts o id now c v
          (write o id (ended error (error_detail v) now c), failed (error_detail v))
  refused_ended :
      truthy v ≡ false
      → is_terminal c.state ≡ true
      → Accepts o id now c v (o, failed (error_detail v))

start_end-Accepts :
    (o : CallOrchestrator) (id : String) (now : ℕ) (c : RtcCallRecord) (v : Value)
    → lookup id o.calls ≡ some c
    → Accepts o id now c v (start_end id (ok v) now o)
unfolding start_end handle_answer set_error require_call assert_state
start_end-Accepts o id now c v found = elim (Bool-cases (truthy v)) [
  | inl good ↦ elim (Bool-cases (state_eq c.state initiating)) [
    | inl same ↦ rw (good, found, require_call, same) (connects good (ground arith))
    | inr other ↦ rw (good, found, require_call, other) (too_late good (ground arith))
  ]
  | inr bad ↦ elim (Bool-cases (is_terminal c.state)) [
    | inl over ↦ rw (bad, found, require_call, over) (refused_ended bad over)
    | inr live ↦ rw (bad, found, require_call, live) (refused bad live)
  ]
]

answerless :
    (o : CallOrchestrator) (id : String) (now : ℕ) (fs : Fields) (c : RtcCallRecord)
    → get "answerSdp" fs ≡ none
    → lookup id o.calls ≡ some c
    → state_eq c.state initiating ≡ true
    → let (o', response) = start_end id (ok (obj fs)) now o in
      (response ≡ started id none (or_nil (get "candidates" fs)) o.options.ice_servers)
      × (lookup id o'.calls ≡ some (record c { state = connecting; answer_sdp = none }))
unfolding start_end handle_answer require_call assert_state write
answerless o id now fs c missing found same =
    rw (found, require_call, same) (rw missing, rw lookup-insert (rw (eq_refl id, missing)))

module _ (parse : String → Option Value) (settings : Settings) (o : CallOrchestrator) (s : Server)
    (served : Served parse settings o s) (i : ℕ) (w : Suspended) (id : String)
    (at : get_elem? s.suspended i ≡ some w) (is_start : w.waiting ≡ accepting id) where
  its_call : (c : RtcCallRecord) × (lookup id s.orchestrator.calls ≡ some c)
  its_call =
      subst (Known s.orchestrator) is_start (suspended-Known parse settings o s served i w at)

  settle-start_end :
      (r : Settled) (now : ℕ)
      → let p = start_end id (outcome parse w.sent r) now s.orchestrator in
        serve parse settings s (settled i r now)
        ≡ (record { orchestrator = p.0; suspended = remove_at i s.suspended }, some p.1)
  unfolding serve
  settle-start_end r now = rw (at, resumed, is_start)

  -- When the node call of a start request settles, the call that it made is there, the request is
  -- answered once, and by the state that the call is in by then: a truthy reply connects a call
  -- that is still initiating and is refused for any other; a falsy one ends the call as an error.
  pub settle-Accepts :
      (r : Settled) (now : ℕ) (v : Value)
      → outcome parse w.sent r ≡ ok v
      → (c : RtcCallRecord) × (lookup id s.orchestrator.calls ≡ some c)
        × (p : CallOrchestrator × Response) × Accepts s.orchestrator id now c v p
        × (serve parse settings s (settled i r now)
            ≡ (record { orchestrator = p.0; suspended = remove_at i s.suspended }, some p.1))
  settle-Accepts r now v e =
      let (c, found) = its_call in
      (
        c,
        found,
        start_end id (ok v) now s.orchestrator,
        start_end-Accepts s.orchestrator id now c v found,
        rw (← e) (settle-start_end r now),
      )

  -- With no RTC node connected the browser is told that the node's invocation failed.
  no_node_message :
      w.sent ≡ none
      → (r : Settled) (now : ℕ)
      → (serve parse settings s (settled i r now)).1
        ≡ some (failed "RTC node invoke failed (check gateway logs)")
  unfolding start_end set_error require_call
  no_node_message unsent r now =
      let (c, found) = its_call in
      rw (settle-start_end r now, unsent, outcome) (rw (found, require_call))

  -- A reply with no `answerSdp`, such as `{ error }`, counts as an acceptance: the browser is told
  -- that the call has started, with no answer, and the call goes to connecting.
  accept_without_answer :
      (r : Settled) (now : ℕ) (fs : Fields) (c : RtcCallRecord)
      → outcome parse w.sent r ≡ ok (obj fs)
      → get "answerSdp" fs ≡ none
      → lookup id s.orchestrator.calls ≡ some c
      → c.state ≡ initiating
      → let (s', response) = serve parse settings s (settled i r now) in
        (response
          ≡ some
              (started id none (or_nil (get "candidates" fs)) s.orchestrator.options.ice_servers))
        × (lookup id s'.orchestrator.calls
            ≡ some (record c { state = connecting; answer_sdp = none }))
  accept_without_answer r now fs c e missing found same =
      rw (settle-start_end r now, e)
        (let (told, kept) = answerless s.orchestrator id now fs c missing found (ground arith) in
          (ap some told, kept))

  pub accept_after_hangup :
      (r : Settled) (now : ℕ) (v : Value) (c : RtcCallRecord)
      → outcome parse w.sent r ≡ ok v
      → truthy v ≡ true
      → lookup id s.orchestrator.calls ≡ some c
      → is_terminal c.state ≡ true
      → serve parse settings s (settled i r now) ≡ (
        record s { suspended = remove_at i s.suspended },
        some (failed (message (wrong_state c.call_id c.state initiating))),
      )
  unfolding start_end handle_answer require_call assert_state
  accept_after_hangup r now v c e good found over =
      let other : state_eq c.state initiating ≡ false = ground arith in
      rw (settle-start_end r now, e) (rw (good, found, require_call, other))
