-- ===== src/Plugin/Service.antt =====
-- The service of plugin/index.ts: `stop` hangs up every call that has not ended.
use openclaw_rtc_plugin.Common.{
  ℕ, String, Option, none, some, List, [], ◌∷◌, if◌then◌else◌, Result, ok, ◌>>=◌,
}
use openclaw_rtc_plugin.Common.Maps.{lookup, keys}
use openclaw_rtc_plugin.Call.{is_terminal, RtcCallRecord}
use openclaw_rtc_plugin.Orchestrator.{CallOrchestrator, CallError, hangup}

-- The body of the loop, on the record under `k`: `getAllCalls` returns the records themselves, so
-- each is read at its turn.
abbrev pub stop_record :
    ℕ → CallOrchestrator → Option RtcCallRecord → Result CallError CallOrchestrator
stop_record now o none = ok o
stop_record now o (some call) =
    if is_terminal call.state then ok o else hangup o call.call_id "gateway-shutdown" now

unfoldable pub stop_one : ℕ → CallOrchestrator → String → Result CallError CallOrchestrator
stop_one now o k = stop_record now o (lookup k o.calls)

unfoldable pub stop_each : ℕ → List String → CallOrchestrator → Result CallError CallOrchestrator
stop_each now [] o = ok o
stop_each now (k ∷ ks) o = do o' ← stop_one now o k; stop_each now ks o'

unfoldable pub stop : ℕ → CallOrchestrator → Result CallError CallOrchestrator
unfolding stop_each
stop now o = stop_each now (keys o.calls) o
