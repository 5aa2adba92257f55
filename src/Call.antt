-- ===== src/Call.antt =====
-- plugin/src/types.ts: the states of a call, and the record that is kept of it.
pub mod Schema
use openclaw_rtc_plugin.Common.{
  ℕ, ◌==◌, String, Bool, true, false, not, Option, none, List, [], ◌∷◌,
}
use openclaw_rtc_plugin.Json.{Value}

pub data RtcCallState : Type 0 where
  initiating connecting active hangup_user hangup_node timeout error : RtcCallState

-- `TERMINAL_STATES.has(state)`
abbrev pub is_terminal : RtcCallState → Bool
is_terminal hangup_user = true
is_terminal hangup_node = true
is_terminal timeout = true
is_terminal error = true
is_terminal _ = false

-- `a === b` on states, which are text constants in the source
abbrev pub tag : RtcCallState → ℕ
tag initiating = 0
tag connecting = 1
tag active = 2
tag hangup_user = 3
tag hangup_node = 4
tag timeout = 5
tag error = 6

abbrev pub state_eq : RtcCallState → RtcCallState → Bool
state_eq a b = tag a == tag b

abbrev pub state_text : RtcCallState → String
state_text initiating = "initiating"
state_text connecting = "connecting"
state_text active = "active"
state_text hangup_user = "hangup-user"
state_text hangup_node = "hangup-node"
state_text timeout = "timeout"
state_text error = "error"

-- `urls` is one text or a list of texts.
pub data Urls : Type 0 where
  one : String → Urls
  many : List String → Urls

pub record IceServer : Type 0 where
  pub urls : Urls
  pub username : Option String
  pub credential : Option String

abbrev pub default_ice_servers : List IceServer
default_ice_servers =
    (record { urls = one "stun:stun.l.google.com:19302"; username = none; credential = none }) ∷ []

pub data Role : Type 0 where
  user assistant : Role

pub record TranscriptEntry : Type 0 where
  pub role : Role
  pub text : String
  pub timestamp : ℕ

pub record RtcCallRecord : Type 0 where
  pub call_id : String
  pub session_key : String
  pub state : RtcCallState
  pub offer_sdp : String
  pub answer_sdp : Option Value  -- what the node returned: its type is not checked
  pub started_at : ℕ
  pub connected_at : Option ℕ
  pub ended_at : Option ℕ
  pub end_reason : Option String
  pub local_candidates : List Value
  pub remote_candidates : List Value
  pub transcript : List TranscriptEntry

-- A call that holds one of the concurrent slots.
abbrev pub is_live : RtcCallRecord → Bool
is_live call = not (is_terminal call.state)
