-- ===== src/Peers/Loopback.antt =====
-- The player of `startDelayedLoopback` in plugin/node/peer-manager.ts, for one loopback of a call: it
-- records for some seconds, switches the sender to its own track, and plays what it recorded over and
-- over.
use openclaw_rtc_plugin.Common.{
  ℕ, zero, suc, Bool, true, false, Option, none, some, List, [], ◌∷◌, ◌++◌, get_elem?,
  if◌then◌else◌,
}

-- An RTP packet: of its header the code writes the payload type.
pub record Packet : Type 0 where
  pub payload_type : ℕ
  pub body : ℕ

-- What is to come: the timer that ends the recording, the promise of `replaceTrack`, the timer of
-- `playNext` with its index, the timer of `loopOnce`, or nothing.
pub data Phase : Type 0 where
  at_record : Phase
  at_switch : Phase
  at_play : ℕ → Phase
  at_loop : Phase
  ended : Phase

pub record Loopback : Type 0 where
  pub payload_type : Option ℕ  -- of the negotiated codec
  pub recording : Bool
  pub buffer : List Packet
  pub phase : Phase
  pub kept : Bool  -- `this.loopbacks.has(callId)`

abbrev pub Acted : Type 0
Acted = Loopback × List Packet

unfoldable pub start : Option ℕ → Loopback
start payload_type = record {
  payload_type = payload_type;
  recording = true;
  buffer = [];
  phase = at_record;
  kept = true;
}

-- The `onReceiveRtp` listener.
unfoldable pub receive : Packet → Loopback → Loopback
receive packet l = if l.recording then record l { buffer = l.buffer ++ packet ∷ [] } else l

-- `rtp.header.payloadType = payloadType`, if there is one
abbrev pub typed : Option ℕ → Packet → Packet
typed none packet = packet
typed (some t) packet = record packet { payload_type = t }

unfoldable pub set_at : ℕ → Packet → List Packet → List Packet
set_at i packet [] = []
set_at zero packet (q ∷ qs) = packet ∷ qs
set_at (suc i) packet (q ∷ qs) = q ∷ set_at i packet qs

-- The packet at the index is given its type and written, which may throw.
abbrev pub writes : Bool → ℕ → Packet → Loopback → Acted
writes true i packet l = (
  record l { buffer = set_at i (typed l.payload_type packet) l.buffer; phase = at_play (suc i) },
  typed l.payload_type packet ∷ [],
)
writes false i packet l =
    (record l { buffer = set_at i (typed l.payload_type packet) l.buffer; phase = ended }, [])

abbrev pub plays_at : Bool → Bool → ℕ → Option Packet → Loopback → Acted
plays_at fine false i o l = (record l { phase = ended }, [])
plays_at fine true i none l = (record l { phase = at_loop }, [])
plays_at fine true i (some packet) l = writes fine i packet l

-- `playNext` at the index, and whether its write goes well.
unfoldable pub play_next : Bool → ℕ → Loopback → Acted
play_next fine i l = plays_at fine l.kept i (get_elem? l.buffer i) l

unfoldable pub loop_once : Bool → Loopback → Acted
unfolding play_next
loop_once fine l = if l.kept then play_next fine 0 l else (record l { phase = ended }, [])

abbrev pub recorded : List Packet → Phase
recorded [] = ended
recorded (packet ∷ packets) = at_switch

-- The timer fires that is set.
abbrev pub fires : Bool → Phase → Loopback → Acted
fires fine at_record l = (record l { recording = false; phase = recorded l.buffer }, [])
fires fine (at_play i) l = play_next fine i l
fires fine at_loop l = loop_once fine l
fires fine _ l = (l, [])

unfoldable pub fire : Bool → Loopback → Acted
unfolding loop_once
fire fine l = fires fine l.phase l

-- `replaceTrack` settles: well, or not.
abbrev pub switches : Bool → Bool → Phase → Loopback → Acted
switches well fine at_switch l = if well then loop_once fine l else (record l { phase = ended }, [])
switches well fine _ l = (l, [])

unfoldable pub switch : Bool → Bool → Loopback → Acted
switch well fine l = switches well fine l.phase l

-- `closePeer` clears the timer and removes the loopback; a promise goes on.
abbrev pub cut : Phase → Phase
cut at_switch = at_switch
cut _ = ended

unfoldable pub close : Loopback → Loopback
close l = record l { kept = false; phase = cut l.phase }

pub data Event : Type 0 where
  received : Packet → Event
  fired : Bool → Event
  switched : Bool → Bool → Event
  closed : Event

unfoldable pub happen : Event → Loopback → Acted
happen (received packet) l = (receive packet l, [])
happen (fired fine) l = fire fine l
happen (switched well fine) l = switch well fine l
happen closed l = (close l, [])
