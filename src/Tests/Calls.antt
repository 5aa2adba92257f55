-- ===== src/Tests/Calls.antt =====
-- Runs of plugin/src/orchestrator.ts: a session that calls, is answered, hangs up and calls again.
use openclaw_rtc_plugin.Common.{◌≡◌, refl, ◌<◌, String, ◌↔◌, none, some, ok, err}
use openclaw_rtc_plugin.Common.Maps.{lookup, insert, count}
use openclaw_rtc_plugin.Json.{str}
use openclaw_rtc_plugin.Call.{connecting, RtcCallRecord}
use openclaw_rtc_plugin.Orchestrator.{
  CallOrchestrator, StartCallParams, new, active_calls, admit, start_call, new_record, write,
  hangup, require_call, handle_answer, blocking_call, max_calls_reached,
}
use openclaw_rtc_plugin.Orchestrator.Run.{
  Operation, starts, answers, hangs_up, step, Reach, here, more,
}
use openclaw_rtc_plugin.Orchestrator.Valid.{IsValid, Reach-IsValid}
use openclaw_rtc_plugin.Orchestrator.Lifecycle.{Later, Reach-Later}
use openclaw_rtc_plugin.Orchestrator.Slots.{start_call_iff, IsFree}

abbrev offer : StartCallParams
offer = record { sdp = "v=0"; session_key = "ann" }

abbrev empty : CallOrchestrator
empty = new (some 1) none

abbrev ringing : CallOrchestrator
ringing = step empty (starts offer "c1" 10)

abbrev answer : Operation
answer = answers "c1" (some (str "v=1"))

abbrev linked : CallOrchestrator
linked = step ringing answer

abbrev over : CallOrchestrator
over = step linked (hangs_up "c1" "user" 30)

to_ringing : Reach empty ringing
unfolding new lookup
to_ringing = more here (starts offer "c1" 10) (refl, refl)

to_linked : Reach empty linked
to_linked = more to_ringing answer tt

abbrev linked_call : RtcCallRecord
linked_call = record (new_record offer "c1" 10) {
  state = connecting;
  answer_sdp = some (str "v=1");
}

at_linked : lookup "c1" linked.calls ≡ some linked_call
unfolding new step start_call handle_answer lookup active_calls count blocking_call admit insert
    new_record write
at_linked = refl

Reach-IsValid_example : IsValid linked
Reach-IsValid_example = Reach-IsValid (some 1) none linked to_linked

abbrev first_id : String
first_id = "c1"

Reach-Later_example : Later over "c1" linked_call
Reach-Later_example =
    Reach-Later (more here (hangs_up "c1" "user" 30) tt) "c1" linked_call at_linked

abbrev again : StartCallParams
again = record { sdp = "v=2"; session_key = "bob" }

start_call_iff_example :
    (start_call empty again "c2" 20 ≡ ok (admit empty again "c2" 20))
    ↔ ((active_calls empty < 1) × IsFree empty "bob")
unfolding new
start_call_iff_example = start_call_iff (some 1) none empty here again "c2" 20

-- With one slot, the second call of another session is refused while the first is live.
full : start_call linked again "c2" 20 ≡ err (max_calls_reached 1)
unfolding new step start_call handle_answer lookup active_calls count blocking_call admit insert
    new_record write hangup require_call
full = refl

hung_up : active_calls over ≡ 0
unfolding new step start_call handle_answer lookup active_calls count blocking_call admit insert
    new_record write hangup require_call
hung_up = refl
