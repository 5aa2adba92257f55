-- ===== src/Page.antt =====
-- plugin/ui/app.ts, the page of the browser: what it keeps, and what it does to its surroundings.
-- `Peer` is plugin/ui/rtc-peer.ts, `Show` the elements, `Call` the voice call, `Frames` the gateway,
-- `Loop` the browser's events. `Web` is plugin/ui/app.js, the script that is served, where it differs.
pub mod Peer
pub mod Show
pub mod Call
pub mod Frames
pub mod Loop
pub mod Moves
pub mod Script
pub mod Handlers
pub mod Events
pub mod Run
pub mod Web
pub mod Coherent
pub mod Connection
pub mod Waits
pub mod Media
pub mod Abandoned
pub mod Ending
pub mod Sites
pub mod Answer
pub mod Dialing
pub mod Steps
pub mod Connecting
use openclaw_rtc_plugin.Common.{ℕ, String, Bool, true, false, Option, none, List, []}
use openclaw_rtc_plugin.Common.Maps.{Entries}
use openclaw_rtc_plugin.Json.{Value}

-- What the code takes from the browser: JSON, `String(v)`, and the text of a TypeError.
pub record Browser : Type 0 where
  pub json_parse : String → Option Value
  pub to_text : Value → String
  pub type_error : String

-- Why a request is made: who waits for its answer. `for_console` is `.catch(console.error)`,
-- `for_nobody` the `connect` request of app.ts, and `for_connect` that of app.js.
pub data Purpose : Type 0 where
  for_nobody : Purpose
  for_connect : Purpose
  for_console : Purpose
  for_chat : Purpose
  for_call : Purpose

-- How a promise settles: with a payload or with the message of an `Error`.
pub data Settled : Type 0 where
  resolved : Option Value → Settled
  rejected : String → Settled

-- Sockets, media streams and peer connections are told apart by numbers.
pub data Effect : Type 0 where
  socket_made : ℕ → Effect
  sent : ℕ → String → String → Value → Effect  -- on a socket: id, method and params
  settles : String → Settled → Effect
  stream_taken : ℕ → Effect
  stream_stopped : ℕ → Effect
  pc_made : ℕ → Effect
  pc_closed : ℕ → Effect
  audio_played : Effect

-- An `RtcPeer`, whose fields are null or set.
pub record RtcPeer : Type 0 where
  pub pc : Option ℕ
  pub local_stream : Option ℕ

-- Where a `startCall` waits: in `createOffer` of its peer at the microphone, at the offer and at the
-- local description, then at the remote description and at a candidate, with the candidates left.
-- Its wait for the answer to `rtc.call.start` is the pending request.
pub data Wait : Type 0 where
  at_media : ℕ → Wait
  at_offer : ℕ → Wait
  at_local : ℕ → String → Wait
  at_remote : Option Value → Wait
  at_candidate : List Value → Wait

-- `system` is of app.js alone.
pub data Role : Type 0 where
  user assistant system : Role

pub record Message : Type 0 where
  pub role : Role
  pub text : String

pub data Status : Type 0 where
  connected disconnected connecting : Status

-- What the elements show, apart from the two buttons.
pub record Shown : Type 0 where
  pub status : Status
  pub messages : List Message
  pub chat_input : String
  pub call_status : String
  pub call_status_hidden : Bool
  pub transcript : String
  pub transcript_hidden : Bool
  pub current_assistant_message : Option ℕ  -- its place in `messages`
  pub assistant_buffer : String
  pub hide_timers : ℕ  -- that will hide the call status

pub record Page : Type 0 where
  pub shown : Shown
  pub call_hidden : Bool
  pub hangup_hidden : Bool
  pub ws : Option ℕ
  pub rtc_peer : Option ℕ  -- its place in `peers`
  pub current_call_id : Option Value  -- `none` also stands for `undefined`
  pub pending_requests : Entries Purpose
  pub message_seq : ℕ
  pub peers : List RtcPeer  -- every peer that was made
  pub waits : List Wait
  pub reconnects : ℕ  -- timers that will call `connectGateway`

-- The page when its script begins, as index.html has it.
unfoldable pub new : Page
new = record {
  shown = record {
    status = disconnected;
    messages = [];
    chat_input = "";
    call_status = "";
    call_status_hidden = true;
    transcript = "";
    transcript_hidden = true;
    current_assistant_message = none;
    assistant_buffer = "";
    hide_timers = 0;
  };
  call_hidden = false;
  hangup_hidden = true;
  ws = none;
  rtc_peer = none;
  current_call_id = none;
  pending_requests = [];
  message_seq = 0;
  peers = [];
  waits = [];
  reconnects = 0;
}

abbrev pub Acted : Type 0
Acted = Page × List Effect
