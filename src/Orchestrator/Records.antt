-- ===== src/Orchestrator/Records.antt =====
-- What each method of plugin/src/orchestrator.ts keeps of a single record.
use openclaw_rtc_plugin.Common.{true, false, ◌≡◌, ◌≢◌, none, arith}
use openclaw_rtc_plugin.Call.{initiating, connecting, active, is_terminal, RtcCallRecord, is_live}
use openclaw_rtc_plugin.Orchestrator.{local, remote}
use openclaw_rtc_plugin.Orchestrator.Effect.{Change, answered, trickled, activated, finished, noted}

-- Which optional fields a record has in each state.
pub record IsConsistent (call : RtcCallRecord) : Type 0 where
  pub open_end : is_terminal call.state ≡ false → (call.ended_at ≡ none) × (call.end_reason ≡ none)
  pub closed_end : is_terminal call.state ≡ true → (call.ended_at ≢ none) × (call.end_reason ≢ none)
  pub unanswered : call.state ≡ initiating → (call.answer_sdp ≡ none) × (call.connected_at ≡ none)
  pub unconnected : call.state ≡ connecting → call.connected_at ≡ none
  pub connection_known : call.state ≡ active → call.connected_at ≢ none

-- Every change keeps the id and the session, and none brings an ended call back.
pub record Keeps (r r' : RtcCallRecord) : Type 0 where
  pub same_id : r'.call_id ≡ r.call_id
  pub same_session : r'.session_key ≡ r.session_key
  pub no_revival : is_live r' ≡ true → is_live r ≡ true

pub Change-Keeps : {r r' : RtcCallRecord} → Change r r' → Keeps r r'
Change-Keeps (answered sdp was e) = ground arith
Change-Keeps (trickled local c live e) = ground arith
Change-Keeps (trickled remote c live e) = ground arith
Change-Keeps (activated now was e) = ground arith
Change-Keeps (finished t reason now live over e) = ground arith
Change-Keeps (noted entry e) = ground arith

pub Change-IsConsistent : {r r' : RtcCallRecord} → Change r r' → IsConsistent r → IsConsistent r'
Change-IsConsistent (answered sdp was e) c = ground arith
Change-IsConsistent (trickled local x live e) c = ground arith
Change-IsConsistent (trickled remote x live e) c = ground arith
Change-IsConsistent (activated now was e) c = ground arith
Change-IsConsistent (finished t reason now live over e) c = ground arith
Change-IsConsistent (noted entry e) c = ground arith
