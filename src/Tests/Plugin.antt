-- ===== src/Tests/Plugin.antt =====
-- Runs of the handlers of plugin/index.ts: a start request whose node answers in time, late, with no
-- answer, or is not there.
use openclaw_rtc_plugin.Common.{
  remove_at, ◌≡◌, refl, String, true, Option, none, some, List, [], ◌∷◌, ok, get_elem?,
}
use openclaw_rtc_plugin.Common.Maps.{lookup, insert, count}
use openclaw_rtc_plugin.Common.Texts.{trim}
use openclaw_rtc_plugin.Json.{Value, Fields, str, obj, end, field, get}
use openclaw_rtc_plugin.Call.{
  initiating, hangup_user, is_terminal, RtcCallRecord, default_ice_servers,
}
use openclaw_rtc_plugin.Orchestrator.{
  CallOrchestrator, new, new_record, write, wrong_state, message, ended, start_call, active_calls,
  blocking_call, admit, hangup, require_call,
}
use openclaw_rtc_plugin.Plugin.{
  NodeSession, Settled, resolved, Response, Settings, failed, accept_call,
}
use openclaw_rtc_plugin.Plugin.Handlers.{accepting, start_begin, send, hangup_begin}
use openclaw_rtc_plugin.Plugin.Node.{find_rtc_node, invoked}
use openclaw_rtc_plugin.Plugin.Service.{stop}
use openclaw_rtc_plugin.Plugin.Server.{
  Suspended, Server, start_requested, hangup_requested, serve, Served, opened, next, outcome,
  settled,
}
use openclaw_rtc_plugin.Plugin.Refine.{PluginRun, Served-PluginRun}
use openclaw_rtc_plugin.Plugin.States.{IsSilent, Served-IsSilent}
use openclaw_rtc_plugin.Plugin.Shutdown.{stop-ends}
use openclaw_rtc_plugin.Plugin.Accept.{Accepts, settle-Accepts, accept_after_hangup}

abbrev parse : String → Option Value
parse s = none

abbrev settings : Settings
settings = record {
  config = record {
    enabled = true;
    ice_servers = default_ice_servers;
    volc_app_id = some "app";
    volc_access_key = some "key";
    volc_resource_id = "volc.speech.dialog";
    volc_speaker = "speaker";
    max_concurrent_calls = 1;
    max_call_duration_sec = 1800;
    silence_timeout_sec = 60;
  };
  validation = record { valid = true; errors = [] };
}

abbrev node : NodeSession
node = record { node_id = "n1"; caps = "webrtc" ∷ []; commands = []; display_name = none }

abbrev request : Option Fields
request = some (field "sdp" (str "v=0") (field "sessionKey" (str "ann") end))

abbrev empty : CallOrchestrator
empty = new (some 1) none

abbrev opening : Server
opening = record { orchestrator = empty; suspended = [] }

-- A start request with the nodes that are connected.
abbrev asked : List NodeSession → Server
asked nodes = (serve parse settings opening (start_requested (some nodes) request "c1" 10)).0

to_asked : (nodes : List NodeSession) → Served parse settings empty (asked nodes)
unfolding new lookup
to_asked nodes = next opened (start_requested (some nodes) request "c1" 10) (refl, refl)

abbrev pending : Suspended
pending = record {
  waiting = accepting "c1";
  sent = some (node, accept_call "c1" "v=0" default_ice_servers);
}

at_asked : get_elem? (asked (node ∷ [])).suspended 0 ≡ some pending
unfolding serve start_begin trim get start_call new active_calls count blocking_call lookup send
    find_rtc_node admit insert new_record
at_asked = refl

abbrev stranded : Suspended
stranded = record { waiting = accepting "c1"; sent = none }

at_stranded : get_elem? (asked []).suspended 0 ≡ some stranded
unfolding serve start_begin trim get start_call new active_calls count blocking_call lookup send
    find_rtc_node admit insert new_record
at_stranded = refl

abbrev call : RtcCallRecord
call = new_record (record { sdp = "v=0"; session_key = "ann" }) "c1" 10

call_at : lookup "c1" (asked (node ∷ [])).orchestrator.calls ≡ some call
unfolding serve start_begin trim get start_call new active_calls count blocking_call lookup send
    find_rtc_node admit insert new_record
call_at = refl

abbrev answer : Value
answer = obj (field "answerSdp" (str "v=1") end)

-- The node's reply, as `nodeRegistry.invoke` resolves to it.
abbrev reply : Value → Settled
reply v =
    resolved (record { ok = true; payload = some v; payload_json = none; error_message = none })

got : (v : Value) → outcome parse pending.sent (reply v) ≡ ok v
unfolding invoked
got v = refl

Served-PluginRun_example : PluginRun empty (asked (node ∷ [])).orchestrator
Served-PluginRun_example =
    Served-PluginRun parse settings empty (asked (node ∷ [])) (to_asked (node ∷ []))

Served-IsSilent_example : IsSilent call
Served-IsSilent_example =
    Served-IsSilent parse settings (some 1) none (asked (node ∷ [])) (to_asked (node ∷ [])) "c1"
      call call_at

stop-ends_example :
    (o : CallOrchestrator) × (stop 20 (asked (node ∷ [])).orchestrator ≡ ok o)
    × ((k : String) (c : RtcCallRecord) → lookup k o.calls ≡ some c → is_terminal c.state ≡ true)
stop-ends_example =
    stop-ends parse settings (some 1) none (asked (node ∷ [])) (to_asked (node ∷ [])) 20

settle-Accepts_example :
    (c : RtcCallRecord) × (lookup "c1" (asked (node ∷ [])).orchestrator.calls ≡ some c)
    × (p : CallOrchestrator × Response) × Accepts
        (asked (node ∷ [])).orchestrator
        "c1"
        20
        c
        answer
        p
    × (serve parse settings (asked (node ∷ [])) (settled 0 (reply answer) 20) ≡ (
      record { orchestrator = p.0; suspended = remove_at 0 (asked (node ∷ [])).suspended },
      some p.1,
    ))
settle-Accepts_example =
    settle-Accepts parse settings empty (asked (node ∷ [])) (to_asked (node ∷ [])) 0 pending "c1"
      at_asked refl (reply answer) 20 answer (got answer)

-- The reply of a node that knows no such command.
abbrev complaint : Fields
complaint = field "error" (str "no handler") end

abbrev hung_up : Server
hung_up =
    (serve parse settings (asked (node ∷ []))
      (hangup_requested none (some (field "callId" (str "c1") end)) 15)).0

abbrev ended_call : RtcCallRecord
ended_call = ended hangup_user "user" 15 call

at_hung_up : get_elem? hung_up.suspended 0 ≡ some pending
unfolding serve start_begin trim get start_call new active_calls count blocking_call lookup send
    find_rtc_node admit insert new_record hangup_begin hangup require_call write
at_hung_up = refl

ended_at : lookup "c1" hung_up.orchestrator.calls ≡ some ended_call
unfolding serve start_begin trim get start_call new active_calls count blocking_call lookup send
    find_rtc_node admit insert new_record hangup_begin hangup require_call write
ended_at = refl

accept_after_hangup_example : serve parse settings hung_up (settled 0 (reply answer) 20) ≡ (
  record hung_up { suspended = remove_at 0 hung_up.suspended },
  some (failed (message (wrong_state "c1" hangup_user initiating))),
)
unfolding new_record
accept_after_hangup_example =
    accept_after_hangup parse settings empty hung_up
      (next (to_asked (node ∷ [])) (hangup_requested none (some (field "callId" (str "c1") end)) 15)
        tt)
      0 pending "c1" at_hung_up refl (reply answer) 20 answer ended_call (got answer) refl ended_at
      refl
