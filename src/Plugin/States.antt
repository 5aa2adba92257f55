-- ===== src/Plugin/States.antt =====
-- Which records the plugin of plugin/index.ts can produce: it calls neither `setActive` nor
-- `setTimeout` nor `addTranscript`.
use openclaw_rtc_plugin.Common.{
  ℕ, String, str_eq, Bool, true, false, ◌≡◌, subst, ◌≢◌, inl, inr, Option, none, some, List, [],
  Result, ◌>>=◌, arith, Bool-cases, Option-cases, if◌then◌else◌, leb,
}
use openclaw_rtc_plugin.Common.Maps.{lookup, lookup-insert}
use openclaw_rtc_plugin.Json.{Value}
use openclaw_rtc_plugin.Call.{
  initiating, active, hangup_user, hangup_node, timeout, state_eq, IceServer, RtcCallRecord,
}
use openclaw_rtc_plugin.Orchestrator.{
  CallOrchestrator, CallError, StartCallParams, local, remote, new, new_record, admit, start_call,
  blocking_call, active_calls, write, require_call, assert_state, handle_answer,
  handle_ice_candidate, ended, hangup, set_error,
}
use openclaw_rtc_plugin.Orchestrator.Run.{
  Operation, starts, answers, trickles, activates, hangs_up, fails, times_out, transcribes, after,
  step,
}
use openclaw_rtc_plugin.Plugin.{Settings}
use openclaw_rtc_plugin.Plugin.Server.{Server, Served}
use openclaw_rtc_plugin.Plugin.Refine.{IsPluginOp, PluginRun, here, more, Served-PluginRun}

-- A call in which no media was reported.
pub record IsSilent (c : RtcCallRecord) : Type 0 where
  pub not_active : c.state ≢ active
  pub not_timed_out : c.state ≢ timeout
  pub not_connected : c.connected_at ≡ none
  pub nothing_said : c.transcript ≡ []
  pub nothing_local : c.local_candidates ≡ []

abbrev AllSilent : CallOrchestrator → Type 0
AllSilent o = (k : String) (c : RtcCallRecord) → lookup k o.calls ≡ some c → IsSilent c

write-AllSilent :
    (o : CallOrchestrator) (id : String) (r' : RtcCallRecord)
    → AllSilent o
    → IsSilent r'
    → AllSilent (write o id r')
unfolding write
write-AllSilent o id r' all s k c h = elim (Bool-cases (str_eq id k)) [
  | inl hit ↦ subst IsSilent (ground (arith, lookup-insert id k r' o.calls)) s
  | inr miss ↦ all k c (ground (arith, lookup-insert id k r' o.calls))
]

admit-AllSilent :
    (o : CallOrchestrator) (p : StartCallParams) (id : String) (now : ℕ)
    → AllSilent o
    → AllSilent (admit o p id now)
unfolding admit
admit-AllSilent o p id now all k c h = elim (Bool-cases (str_eq id k)) [
  | inl hit ↦
      let e : new_record p id now ≡ c =
        ground (arith, lookup-insert id k (new_record p id now) o.calls) in
      subst IsSilent e (unfold new_record in ground arith)
  | inr miss ↦ all k c (ground (arith, lookup-insert id k (new_record p id now) o.calls))
]

require-AllSilent :
    (o : CallOrchestrator) (id : String) (f : RtcCallRecord → Result CallError CallOrchestrator)
    → AllSilent o
    → ((r : RtcCallRecord) → IsSilent r → AllSilent (after o (f r)))
    → AllSilent (after o (require_call o id >>= f))
unfolding require_call
require-AllSilent o id f all k = elim (Option-cases (lookup id o.calls)) [
  | inl missing ↦ rw (missing, require_call) all
  | inr (r, found) ↦ rw (found, require_call) (k r (all id r found))
]

unless-AllSilent :
    (o : CallOrchestrator) (b : Bool) (id : String) (r' : RtcCallRecord)
    → AllSilent o
    → IsSilent r'
    → AllSilent (if b then o else write o id r')
unless-AllSilent o true id r' all s = all
unless-AllSilent o false id r' all s = write-AllSilent o id r' all s

start-AllSilent :
    (o : CallOrchestrator) (p : StartCallParams) (id : String) (now : ℕ)
    → AllSilent o
    → AllSilent (after o (start_call o p id now))
unfolding start_call
start-AllSilent o p id now all =
    elim (Bool-cases (leb o.options.max_concurrent_calls (active_calls o))) [
      | inl full ↦ rw full all
      | inr room ↦ elim (Option-cases (blocking_call o p.session_key)) [
        | inl clear ↦ rw (room, clear, start_call) (admit-AllSilent o p id now all)
        | inr (k, busy) ↦ rw (room, busy, start_call) all
      ]
    ]

answer-AllSilent :
    (o : CallOrchestrator) (id : String) (sdp : Option Value)
    → AllSilent o
    → AllSilent (after o (handle_answer o id sdp))
unfolding handle_answer
answer-AllSilent o id sdp all = require-AllSilent o id _ all λ r s.
    elim (Bool-cases (state_eq r.state initiating)) [
      | inl same ↦ rw (same, assert_state) (write-AllSilent o id _ all (ground arith))
      | inr other ↦ rw (other, assert_state) all
    ]

hangup_state_IsSilent :
    (b : Bool) (reason : String) (now : ℕ) (r : RtcCallRecord)
    → IsSilent r
    → IsSilent (ended (if b then hangup_user else hangup_node) reason now r)
hangup_state_IsSilent true reason now r s = ground arith
hangup_state_IsSilent false reason now r s = ground arith

step-AllSilent :
    (o : CallOrchestrator) (op : Operation) → IsPluginOp op → AllSilent o → AllSilent (step o op)
unfolding step handle_ice_candidate hangup set_error
step-AllSilent o (starts p id now) allowed all = start-AllSilent o p id now all
step-AllSilent o (answers id sdp) allowed all = answer-AllSilent o id sdp all
step-AllSilent o (trickles id v remote) allowed all =
    require-AllSilent o id _ all λ r s. unless-AllSilent o _ id _ all (ground arith)
step-AllSilent o (trickles id v local) allowed all = absurd allowed
step-AllSilent o (activates id now) allowed all = absurd allowed
step-AllSilent o (hangs_up id reason now) allowed all = require-AllSilent o id _ all λ r s.
    unless-AllSilent o _ id _ all (hangup_state_IsSilent (str_eq reason "user") reason now r s)
step-AllSilent o (fails id reason now) allowed all =
    require-AllSilent o id _ all λ r s. unless-AllSilent o _ id _ all (ground arith)
step-AllSilent o (times_out id reason now) allowed all = absurd allowed
step-AllSilent o (transcribes id role text now) allowed all = absurd allowed

PluginRun-AllSilent : {o o' : CallOrchestrator} → AllSilent o → PluginRun o o' → AllSilent o'
PluginRun-AllSilent all here = all
PluginRun-AllSilent all (more {o'} r op allowed fresh) =
    step-AllSilent o' op allowed (PluginRun-AllSilent all r)

-- Whatever events come, no call in the plugin becomes active or times out, and none gets a
-- transcript, a connection time or a local candidate.
pub Served-IsSilent :
    (parse : String → Option Value) (settings : Settings) (most : Option ℕ)
    (servers : Option (List IceServer)) (s : Server)
    → Served parse settings (new most servers) s
    → (k : String) (c : RtcCallRecord) → lookup k s.orchestrator.calls ≡ some c
    → IsSilent c
unfolding new lookup
Served-IsSilent parse settings most servers s served =
    PluginRun-AllSilent (λ k c h. absurd (ground arith))
      (Served-PluginRun parse settings (new most servers) s served)
