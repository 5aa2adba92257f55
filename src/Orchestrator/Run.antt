-- ===== src/Orchestrator/Run.antt =====
-- Calls of the orchestrator's methods as data: one step, a history, and the states that a history
-- reaches when each new call gets an id that is not in use.
use openclaw_rtc_plugin.Common.{ℕ, String, false, ◌≡◌, Option, none, Result, ok, err}
use openclaw_rtc_plugin.Common.Texts.{is_empty}
use openclaw_rtc_plugin.Common.Maps.{lookup}
use openclaw_rtc_plugin.Json.{Value}
use openclaw_rtc_plugin.Call.{Role}
use openclaw_rtc_plugin.Orchestrator.{
  CallOrchestrator, CallError, StartCallParams, Direction, start_call, handle_answer,
  handle_ice_candidate, set_active, hangup, set_error, set_timeout, add_transcript,
}

pub data Operation : Type 0 where
  starts : StartCallParams → String → ℕ → Operation
  answers : String → Option Value → Operation
  trickles : String → Value → Direction → Operation
  activates : String → ℕ → Operation
  hangs_up : String → String → ℕ → Operation
  fails : String → String → ℕ → Operation
  times_out : String → String → ℕ → Operation
  transcribes : String → Role → String → ℕ → Operation

unfoldable pub apply : CallOrchestrator → Operation → Result CallError CallOrchestrator
apply o (starts p id now) = start_call o p id now
apply o (answers id sdp) = handle_answer o id sdp
apply o (trickles id c direction) = handle_ice_candidate o id c direction
apply o (activates id now) = set_active o id now
apply o (hangs_up id reason now) = hangup o id reason now
apply o (fails id reason now) = set_error o id reason now
apply o (times_out id reason now) = set_timeout o id reason now
apply o (transcribes id role text now) = add_transcript o id role text now

-- A method that throws leaves the orchestrator as it was.
abbrev pub after : CallOrchestrator → Result CallError CallOrchestrator → CallOrchestrator
after o (ok o') = o'
after o (err e) = o

unfoldable pub step : CallOrchestrator → Operation → CallOrchestrator
unfolding apply
step o op = after o (apply o op)

-- What `randomUUID` promises of the ids of new calls.
abbrev pub IsFresh : CallOrchestrator → Operation → Type 0
IsFresh o (starts p id now) = (lookup id o.calls ≡ none) × (is_empty id ≡ false)
IsFresh o _ = Unit

pub data Reach (o : CallOrchestrator) : CallOrchestrator → Type 0 where
  here : Reach o o
  more :
      {o' : CallOrchestrator} → Reach o o' → (op : Operation) → IsFresh o' op → Reach o (step o' op)
