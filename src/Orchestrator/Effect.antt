-- ===== src/Orchestrator/Effect.antt =====
-- What one method of plugin/src/orchestrator.ts can do to the state: nothing, a change of one
-- record that is kept, or the admission of a new call.
use openclaw_rtc_plugin.Common.{
  ℕ, String, str_eq, Bool, true, false, ◌≡◌, refl, ◌⊎◌, inl, inr, Option, none, some, [], ◌∷◌, ◌++◌,
  Result, ◌>>=◌, arith, Bool-cases, Option-cases, leb, ◌<◌, ◌||◌, if◌then◌else◌,
}
use openclaw_rtc_plugin.Common.Texts.{is_empty}
use openclaw_rtc_plugin.Common.Maps.{lookup}
use openclaw_rtc_plugin.Json.{Value}
use openclaw_rtc_plugin.Call.{
  RtcCallState, initiating, connecting, active, hangup_user, hangup_node, timeout, error,
  is_terminal, state_eq, TranscriptEntry, RtcCallRecord,
}
use openclaw_rtc_plugin.Orchestrator.{
  CallOrchestrator, CallError, StartCallParams, Direction, active_calls, blocking_call, admit,
  start_call, write, require_call, handle_answer, push_candidate, handle_ice_candidate, set_active,
  ended, hangup, set_error, set_timeout, add_transcript,
}
use openclaw_rtc_plugin.Orchestrator.Run.{
  Operation, starts, answers, trickles, activates, hangs_up, fails, times_out, transcribes, after,
  step, IsFresh,
}

-- The assignments that a method makes to a record, each with the guard it makes them under.
pub data Change (r r' : RtcCallRecord) : Type 0 where
  answered :
      (sdp : Option Value)
      → r.state ≡ initiating
      → r' ≡ record r { answer_sdp = sdp; state = connecting }
      → Change r r'
  trickled :
      (d : Direction) (c : Value)
      → is_terminal r.state ≡ false
      → r' ≡ push_candidate d c r
      → Change r r'
  activated :
      (now : ℕ)
      → (r.state ≡ connecting) ⊎ (r.state ≡ initiating)
      → r' ≡ record r { state = active; connected_at = some now }
      → Change r r'
  finished :
      (t : RtcCallState) (reason : String) (now : ℕ)
      → is_terminal r.state ≡ false
      → is_terminal t ≡ true
      → r' ≡ ended t reason now r
      → Change r r'
  noted :
      (e : TranscriptEntry) → r' ≡ record r { transcript = r.transcript ++ e ∷ [] } → Change r r'

pub data Effect (o o' : CallOrchestrator) : Type 0 where
  idle : o' ≡ o → Effect o o'
  changed :
      (id : String) (r r' : RtcCallRecord)
      → lookup id o.calls ≡ some r
      → Change r r'
      → o' ≡ write o id r'
      → Effect o o'
  admitted :
      (p : StartCallParams) (id : String) (now : ℕ)
      → lookup id o.calls ≡ none
      → is_empty id ≡ false
      → active_calls o < o.options.max_concurrent_calls
      → blocking_call o p.session_key ≡ none
      → o' ≡ admit o p id now
      → Effect o o'

start_call-Effect :
    (o : CallOrchestrator) (p : StartCallParams) (id : String) (now : ℕ)
    → IsFresh o (starts p id now)
    → Effect o (after o (start_call o p id now))
unfolding start_call
start_call-Effect o p id now fresh =
    elim (Bool-cases (leb o.options.max_concurrent_calls (active_calls o))) [
      | inl full ↦ idle (rw full)
      | inr free ↦ elim (Option-cases (blocking_call o p.session_key)) [
        | inl clear ↦ admitted p id now fresh.0 fresh.1 (ground arith) clear (ground arith)
        | inr (k, busy) ↦ idle (ground arith)
      ]
    ]

require_cases :
    (o : CallOrchestrator) (id : String) (f : RtcCallRecord → Result CallError CallOrchestrator)
    → ((r : RtcCallRecord) → lookup id o.calls ≡ some r → Effect o (after o (f r)))
    → Effect o (after o (require_call o id >>= f))
unfolding require_call
require_cases o id f k = elim (Option-cases (lookup id o.calls)) [
  | inl missing ↦ idle (rw (missing, require_call))
  | inr (r, found) ↦ rw (found, require_call) (k r found)
]

-- A method that does nothing when its test holds, and one change when it fails.
unless_cases :
    (o : CallOrchestrator) (b : Bool) (id : String) (r r' : RtcCallRecord)
    → lookup id o.calls ≡ some r
    → (b ≡ false → Change r r')
    → Effect o (if b then o else write o id r')
unless_cases o true id r r' found k = idle refl
unless_cases o false id r r' found k = changed id r r' found (k refl) refl

handle_answer-Effect :
    (o : CallOrchestrator) (id : String) (sdp : Option Value)
    → Effect o (after o (handle_answer o id sdp))
unfolding handle_answer
handle_answer-Effect o id sdp = require_cases o id _ λ r found.
    elim (Bool-cases (state_eq r.state initiating)) [
      | inl same ↦
          changed id r (record r { answer_sdp = sdp; state = connecting }) found
            (answered sdp (ground arith) refl) (ground arith)
      | inr other ↦ idle (ground arith)
    ]

set_active-Effect :
    (o : CallOrchestrator) (id : String) (now : ℕ) → Effect o (after o (set_active o id now))
unfolding set_active
set_active-Effect o id now = require_cases o id _ λ r found.
    elim (Bool-cases (state_eq r.state connecting || state_eq r.state initiating)) [
      | inl can ↦
          changed id r (record r { state = active; connected_at = some now }) found
            (activated now (ground arith) refl) (ground arith)
      | inr cannot ↦ idle (ground arith)
    ]

hangup_state : (b : Bool) → is_terminal (if b then hangup_user else hangup_node) ≡ true
hangup_state true = refl
hangup_state false = refl

-- Each method that is called, thrown or returned, has one of the three effects.
pub step-Effect : (o : CallOrchestrator) (op : Operation) → IsFresh o op → Effect o (step o op)
unfolding step handle_ice_candidate hangup set_error set_timeout add_transcript
step-Effect o (starts p id now) fresh = start_call-Effect o p id now fresh
step-Effect o (answers id sdp) _ = handle_answer-Effect o id sdp
step-Effect o (trickles id c d) _ =
    require_cases o id _ λ r found. unless_cases o _ id r _ found (λ live. trickled d c live refl)
step-Effect o (activates id now) _ = set_active-Effect o id now
step-Effect o (hangs_up id reason now) _ = require_cases o id _ λ r found.
    unless_cases o _ id r _ found
      (λ live. finished _ reason now live (hangup_state (str_eq reason "user")) refl)
step-Effect o (fails id reason now) _ =
    require_cases o id _
      λ r found. unless_cases o _ id r _ found (λ live. finished error reason now live refl refl)
step-Effect o (times_out id reason now) _ =
    require_cases o id _
      λ r found. unless_cases o _ id r _ found (λ live. finished timeout reason now live refl refl)
step-Effect o (transcribes id role text now) _ =
    require_cases o id _ λ r found. changed id r _ found (noted _ refl) refl
