-- ===== src/Orchestrator.antt =====
-- plugin/src/orchestrator.ts. A method returns the orchestrator after it, or the error that it
-- throws, which it does before any change. `Date.now()` and `randomUUID()` are the arguments `now`
-- and `id`. A record that the source mutates in place is written back under its key.
pub mod Run
pub mod Effect
pub mod Records
pub mod Valid
pub mod Lifecycle
pub mod Slots
use Prim.Native.String.{◌++◌}
use openclaw_rtc_plugin.Common.{
  ℕ, String, str_eq, Bool, true, false, not, ◌||◌, Option, none, some, List, [], ◌∷◌,
  ◌++◌ as append, leb, if◌then◌else◌, Result, ok, err, ◌>>=◌, ◌>>◌,
}
use openclaw_rtc_plugin.Common.Texts.{is_empty, show}
use openclaw_rtc_plugin.Common.Maps.{Entries, lookup, insert, values, count}
use openclaw_rtc_plugin.Json.{Value}
use openclaw_rtc_plugin.Call.{
  RtcCallState, initiating, connecting, active, hangup_user, hangup_node, timeout, error,
  is_terminal, state_eq, state_text, IceServer, default_ice_servers, Role, RtcCallRecord, is_live,
}

pub record OrchestratorOptions : Type 0 where
  pub max_concurrent_calls : ℕ
  pub ice_servers : List IceServer

pub record CallOrchestrator : Type 0 where
  pub calls : Entries RtcCallRecord
  pub session_call_map : Entries String
  pub options : OrchestratorOptions

pub data CallError : Type 0 where
  max_calls_reached : ℕ → CallError
  session_busy : String → String → CallError
  call_not_found : String → CallError
  wrong_state : String → RtcCallState → RtcCallState → CallError

-- The text of the `Error` that is thrown.
pub message : CallError → String
message (max_calls_reached n) = "Max concurrent calls (" ++ show n ++ ") reached"
message (session_busy key id) = "Session " ++ key ++ " already has an active call: " ++ id
message (call_not_found id) = "Call not found: " ++ id
message (wrong_state id state expected) =
    "Call "
    ++ id
    ++ " is in state \""
    ++ state_text state
    ++ "\", expected \""
    ++ state_text expected
    ++ "\""

abbrev or_default {ℓ} : {A : Type ℓ} → Option A → A → A
or_default none d = d
or_default (some a) d = a

unfoldable pub new : Option ℕ → Option (List IceServer) → CallOrchestrator
new max_calls servers = record {
  calls = [];
  session_call_map = [];
  options = record {
    max_concurrent_calls = or_default max_calls 5;
    ice_servers = or_default servers default_ice_servers;
  };
}

unfoldable pub active_calls : CallOrchestrator → ℕ
active_calls o = count is_live o.calls

pub record StartCallParams : Type 0 where
  pub sdp : String
  pub session_key : String

unfoldable pub get_call : CallOrchestrator → String → Option RtcCallRecord
get_call o id = lookup id o.calls

-- The call of the session that blocks a new one, if there is one.
abbrev blocks : Option RtcCallRecord → Bool
blocks none = false
blocks (some call) = is_live call

unfoldable pub blocking_call : CallOrchestrator → String → Option String
blocking_call o key = elim (lookup key o.session_call_map) [
  | none ↦ none
  | some id ↦ if is_empty id then none else if blocks (lookup id o.calls) then some id else none
]

unfoldable pub new_record : StartCallParams → String → ℕ → RtcCallRecord
new_record p id now = record {
  call_id = id;
  session_key = p.session_key;
  state = initiating;
  offer_sdp = p.sdp;
  answer_sdp = none;
  started_at = now;
  connected_at = none;
  ended_at = none;
  end_reason = none;
  local_candidates = [];
  remote_candidates = [];
  transcript = [];
}

-- The two `set` calls of `startCall`.
unfoldable pub admit : CallOrchestrator → StartCallParams → String → ℕ → CallOrchestrator
admit o p id now = record o {
  calls = insert id (new_record p id now) o.calls;
  session_call_map = insert p.session_key id o.session_call_map;
}

unfoldable pub start_call :
    CallOrchestrator → StartCallParams → String → ℕ → Result CallError CallOrchestrator
start_call o p id now =
    if leb o.options.max_concurrent_calls (active_calls o)
    then err (max_calls_reached o.options.max_concurrent_calls)
    else elim (blocking_call o p.session_key) [
      | some existing ↦ err (session_busy p.session_key existing)
      | none ↦ ok (admit o p id now)
    ]

unfoldable pub require_call : CallOrchestrator → String → Result CallError RtcCallRecord
require_call o id = elim (lookup id o.calls) [
  | none ↦ err (call_not_found id)
  | some call ↦ ok call
]

unfoldable pub assert_state : RtcCallRecord → RtcCallState → Result CallError (Unit {0})
assert_state call expected =
    if state_eq call.state expected
    then ok tt
    else err (wrong_state call.call_id call.state expected)

-- The object under `id` after an assignment to its fields.
unfoldable pub write : CallOrchestrator → String → RtcCallRecord → CallOrchestrator
write o id call = record o { calls = insert id call o.calls }

unfoldable pub handle_answer :
    CallOrchestrator → String → Option Value → Result CallError CallOrchestrator
unfolding require_call assert_state
handle_answer o id sdp = do
  call ← require_call o id
  assert_state call initiating
  ok (write o id (record call { answer_sdp = sdp; state = connecting }))

pub data Direction : Type 0 where
  local remote : Direction

abbrev pub push_candidate : Direction → Value → RtcCallRecord → RtcCallRecord
push_candidate local c call = record call {
  local_candidates = append call.local_candidates (c ∷ []);
}
push_candidate remote c call = record call {
  remote_candidates = append call.remote_candidates (c ∷ []);
}

unfoldable pub handle_ice_candidate :
    CallOrchestrator → String → Value → Direction → Result CallError CallOrchestrator
unfolding require_call
handle_ice_candidate o id c direction = do
  call ← require_call o id
  ok (if is_terminal call.state then o else write o id (push_candidate direction c call))

unfoldable pub set_active : CallOrchestrator → String → ℕ → Result CallError CallOrchestrator
unfolding require_call
set_active o id now = do
  call ← require_call o id
  ok (
      if state_eq call.state connecting || state_eq call.state initiating
      then write o id (record call { state = active; connected_at = some now })
      else o)

-- The three assignments that end a call.
abbrev pub ended : RtcCallState → String → ℕ → RtcCallRecord → RtcCallRecord
ended state reason now call = record call {
  state = state;
  ended_at = some now;
  end_reason = some reason;
}

unfoldable pub hangup : CallOrchestrator → String → String → ℕ → Result CallError CallOrchestrator
unfolding require_call
hangup o id reason now = do
  call ← require_call o id
  ok (
      if is_terminal call.state
      then o
      else write o id
          (ended (if str_eq reason "user" then hangup_user else hangup_node) reason now call))

unfoldable pub set_error :
    CallOrchestrator → String → String → ℕ → Result CallError CallOrchestrator
unfolding require_call
set_error o id reason now = do
  call ← require_call o id
  ok (if is_terminal call.state then o else write o id (ended error reason now call))

unfoldable pub set_timeout :
    CallOrchestrator → String → String → ℕ → Result CallError CallOrchestrator
unfolding require_call
set_timeout o id reason now = do
  call ← require_call o id
  ok (if is_terminal call.state then o else write o id (ended timeout reason now call))

unfoldable pub add_transcript :
    CallOrchestrator → String → Role → String → ℕ → Result CallError CallOrchestrator
unfolding require_call
add_transcript o id role text now = do
  call ← require_call o id
  ok (
      write o id (record call {
        transcript =
            append call.transcript ((record { role = role; text = text; timestamp = now }) ∷ []);
      }))

unfoldable pub get_call_by_session : CallOrchestrator → String → Option RtcCallRecord
get_call_by_session o key = elim (lookup key o.session_call_map) [
  | none ↦ none
  | some id ↦ if is_empty id then none else lookup id o.calls
]

unfoldable pub get_all_calls : CallOrchestrator → List RtcCallRecord
get_all_calls o = values o.calls
