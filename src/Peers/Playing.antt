-- ===== src/Peers/Playing.antt =====
-- What the loopback of plugin/node/peer-manager.ts plays.
use openclaw_rtc_plugin.Common.{
  ℕ, ◌≡◌, refl, ap, subst, ◌∙◌, Bool, true, false, Option, List, [], ◌∷◌, ◌++◌, length, append-nil,
  if◌then◌else◌,
}
use openclaw_rtc_plugin.Peers.Loopback.{
  Packet, Phase, at_record, at_switch, at_play, at_loop, ended, Loopback, start, receive, loop_once,
  fire, switches, switch, cut, close, Event, received, fired, switched, closed, happen,
}
use openclaw_rtc_plugin.Peers.Rounds.{sound, rounds}
use openclaw_rtc_plugin.Peers.Plays.{
  IsPlace, IsEarly, Plays, loop_once-Plays, unchanged, fires-Plays, not_recording,
}

switched-Plays :
    (well fine : Bool) (l : Loopback) (played : List Packet)
    → l.phase ≡ at_switch
    → Plays l played
    → (let a = if well then loop_once fine l else (record l { phase = ended }, []) in
        Plays a.0 (played ++ a.1))
switched-Plays true fine l played at h =
    let start_ : h.place ≡ 0 = subst (λ q. IsPlace q h.place (length l.buffer)) at h.at in
    loop_once-Plays fine h.whole l played (h.so_far ∙ ap (λ k. rounds h.whole k (sound l)) start_)
      (not_recording at_switch l played at h (λ e. e))
switched-Plays false fine l played at h = record {
  whole = h.whole;
  place = h.place;
  so_far = append-nil played ∙ h.so_far;
  silent = λ r. append-nil played ∙ h.silent r;
  early = λ r. tt;
  at = tt;
}

switches-Plays :
    (well fine : Bool) (phase : Phase) (l : Loopback) (played : List Packet)
    → l.phase ≡ phase
    → Plays l played
    → Plays (switches well fine phase l).0 (played ++ (switches well fine phase l).1)
switches-Plays well fine at_switch l played at h = switched-Plays well fine l played at h
switches-Plays well fine at_record l played at h = unchanged l played h
switches-Plays well fine (at_play i) l played at h = unchanged l played h
switches-Plays well fine at_loop l played at h = unchanged l played h
switches-Plays well fine ended l played at h = unchanged l played h

early-IsPlace : (phase : Phase) (n : ℕ) → IsEarly phase → IsPlace phase 0 n
early-IsPlace at_record n h = refl
early-IsPlace ended n h = tt
early-IsPlace at_switch n h = elim h [ ]
early-IsPlace (at_play i) n h = elim h [ ]
early-IsPlace at_loop n h = elim h [ ]

received-Plays :
    (b : Bool) (packet : Packet) (l : Loopback) (played : List Packet)
    → l.recording ≡ b
    → Plays l played
    → Plays (if b then record l { buffer = l.buffer ++ packet ∷ [] } else l) (played ++ [])
received-Plays true packet l played on h = record {
  whole = 0;
  place = 0;
  so_far = append-nil played ∙ h.silent on;
  silent = λ r. append-nil played ∙ h.silent r;
  early = h.early;
  at = early-IsPlace l.phase (length (l.buffer ++ packet ∷ [])) (h.early on);
}
received-Plays false packet l played on h = unchanged l played h

cut-IsPlace : (phase : Phase) (i n : ℕ) → IsPlace phase i n → IsPlace (cut phase) i n
cut-IsPlace at_record i n h = tt
cut-IsPlace at_switch i n h = h
cut-IsPlace (at_play j) i n h = tt
cut-IsPlace at_loop i n h = tt
cut-IsPlace ended i n h = tt

cut-IsEarly : (phase : Phase) → IsEarly phase → IsEarly (cut phase)
cut-IsEarly at_record h = tt
cut-IsEarly at_switch h = h
cut-IsEarly (at_play j) h = tt
cut-IsEarly at_loop h = tt
cut-IsEarly ended h = tt

happen-Plays :
    (e : Event) (l : Loopback) (played : List Packet)
    → Plays l played
    → Plays (happen e l).0 (played ++ (happen e l).1)
unfolding happen receive fire switch close
happen-Plays (received packet) l played h = received-Plays l.recording packet l played refl h
happen-Plays (fired fine) l played h = fires-Plays fine l.phase l played refl h
happen-Plays (switched well fine) l played h = switches-Plays well fine l.phase l played refl h
happen-Plays closed l played h = record {
  whole = h.whole;
  place = h.place;
  so_far = append-nil played ∙ h.so_far;
  silent = λ r. append-nil played ∙ h.silent r;
  early = λ r. cut-IsEarly l.phase (h.early r);
  at = cut-IsPlace l.phase h.place (length l.buffer) h.at;
}

-- The loopbacks that some events lead to, and the packets that were written.
pub data Run (t : Option ℕ) : Loopback → List Packet → Type 0 where
  begin : Run t (start t) []
  then_event :
      {l : Loopback} {played : List Packet}
      → Run t l played
      → (e : Event) → Run t (happen e l).0 (played ++ (happen e l).1)

Run-Plays : (t : Option ℕ) {l : Loopback} {played : List Packet} → Run t l played → Plays l played
unfolding start
Run-Plays t begin = record {
  whole = 0;
  place = 0;
  so_far = refl;
  silent = λ r. refl;
  early = λ r. tt;
  at = refl;
}
Run-Plays t (then_event {l} {played} r e) = happen-Plays e l played (Run-Plays t r)

-- Whatever comes, and in any order: what the loopback has written is its recording, with the type of
-- the negotiated codec, some whole times and then from its start up to some packet: nothing is left
-- out, repeated or out of order. Nothing is written while it records.
pub Run-rounds :
    (t : Option ℕ) (l : Loopback) (played : List Packet)
    → Run t l played
    → ((n : ℕ) × (i : ℕ) × (played ≡ rounds n i (sound l))) × (l.recording ≡ true → played ≡ [])
Run-rounds t l played r = let h = Run-Plays t r in ((h.whole, h.place, h.so_far), h.silent)
