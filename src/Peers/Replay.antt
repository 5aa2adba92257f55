-- ===== src/Peers/Replay.antt =====
-- What the loopback of plugin/node/peer-manager.ts plays when nobody hangs up and every write goes well.
use openclaw_rtc_plugin.Common.{
  ℕ, suc, ◌+◌, ◌*◌, ◌≡◌, refl, ap, sym, subst, ◌∙◌, true, false, Option, none, some, List, [], ◌∷◌,
  ◌++◌, map, get_elem?, concat, replicate, length, append-nil, append_assoc, if◌then◌else◌, arith,
}
use openclaw_rtc_plugin.Peers.Loopback.{
  Packet, at_record, at_switch, at_loop, ended, Loopback, Acted, start, receive, typed, plays_at,
  play_next, loop_once, fires, fire, recorded, switches, switch,
}
use openclaw_rtc_plugin.Peers.Rounds.{length-map}
use openclaw_rtc_plugin.Peers.Fires.{fire_times, Played, due-fire, rounds-Played}

unfoldable pub receive_all : List Packet → Loopback → Loopback
receive_all [] l = l
receive_all (packet ∷ packets) l = receive_all packets (receive packet l)

-- `replaceTrack` settles as the timer of `loopOnce` fires.
as_looping :
    (l : Loopback) (o : Option Packet)
    → plays_at true true 0 o (record l { phase = at_loop }) ≡ plays_at true true 0 o l
as_looping l none = refl
as_looping l (some p) = refl

loops_kept :
    (l : Loopback)
    → l.kept ≡ true
    → loop_once true l ≡ plays_at true true 0 (get_elem? l.buffer 0) l
unfolding loop_once play_next
loops_kept l kept =
    ap
      (λ b.
        if b then plays_at true b 0 (get_elem? l.buffer 0) l else (record l { phase = ended }, []))
      kept

switch-fire :
    (l : Loopback)
    → l.phase ≡ at_switch
    → l.kept ≡ true
    → switch true true l ≡ fire true (record l { phase = at_loop })
unfolding switch fire
switch-fire l at kept =
    let looping : Loopback = record l { phase = at_loop } in
    ap (λ x. switches true true x l) at
    ∙ loops_kept l kept
    ∙ sym (as_looping l (get_elem? l.buffer 0))
    ∙ sym (due-fire looping 0 at_loop refl kept)

-- A recording of these packets.
record Recording (t : Option ℕ) (packets : List Packet) (l : Loopback) : Type 0 where
  of_type : l.payload_type ≡ t
  on : l.recording ≡ true
  taped : l.buffer ≡ packets
  kept : l.kept ≡ true
  waiting : l.phase ≡ at_record

start-Recording : (t : Option ℕ) → Recording t [] (start t)
unfolding start
start-Recording t = record { of_type = refl; on = refl; taped = refl; kept = refl; waiting = refl }

receive-Recording :
    (t : Option ℕ) (packets : List Packet) (p : Packet) (l : Loopback)
    → Recording t packets l
    → Recording t (packets ++ p ∷ []) (receive p l)
unfolding receive
receive-Recording t packets p l r =
    subst
      (λ b.
        Recording t (packets ++ p ∷ []) (if b then record l { buffer = l.buffer ++ p ∷ [] } else l))
      (sym r.on)
      (record {
        of_type = r.of_type;
        on = r.on;
        taped = ap (λ qs. qs ++ p ∷ []) r.taped;
        kept = r.kept;
        waiting = r.waiting;
      })

receive_all-Recording :
    (t : Option ℕ) (before packets : List Packet) (l : Loopback)
    → Recording t before l
    → Recording t (before ++ packets) (receive_all packets l)
unfolding receive_all
receive_all-Recording t before [] l r = subst (λ qs. Recording t qs l) (sym (append-nil before)) r
receive_all-Recording t before (p ∷ packets) l r =
    subst (λ qs. Recording t qs (receive_all packets (receive p l)))
      (append_assoc before (p ∷ []) packets)
      (receive_all-Recording t (before ++ p ∷ []) packets (receive p l)
        (receive-Recording t before p l r))

-- Records the packets, waits for the timer and the promise, and plays so many times.
abbrev pub loop_back : Option ℕ → List Packet → ℕ → Acted
loop_back t packets k =
    let taped = (fire true (receive_all packets (start t))).0 in
    fire_times k (switch true true taped)

times_of : (n m : ℕ) → suc n * suc m ≡ suc (m + n * suc m)
times_of n m = ground arith

taped-Played :
    (t : Option ℕ) (p : Packet) (packets : List Packet) (l : Loopback)
    → Recording t (p ∷ packets) l
    → (n : ℕ)
    → Played (map (typed t) (p ∷ packets)) (suc n) 0 (
        fire_times
          (length (p ∷ packets) + n * suc (length (p ∷ packets)))
          (switch true true (fire true l).0))
unfolding fire fire_times
taped-Played t p packets l r n =
    let packets' : List Packet = p ∷ packets in
    let s : List Packet = map (typed t) packets' in
    let over : Loopback = record l { recording = false; phase = at_switch } in
    let looping : Loopback = record over { phase = at_loop } in
    let stops : fire true l ≡ (over, []) =
      ap (λ x. fires true x l) r.waiting
      ∙ ap (λ b. (record l { recording = false; phase = recorded b }, [])) r.taped in
    let begins : Played s 0 0 (looping, []) = record {
      so_far = refl;
      same = ap (λ u. map (typed u) l.buffer) r.of_type ∙ ap (map (typed t)) r.taped;
      kept = r.kept;
      due = refl;
    } in
    let times : suc n * suc (length s) ≡ suc (length packets' + n * suc (length packets')) =
      ap (λ m. suc n * suc m) (length-map t packets') ∙ times_of n (length packets') in
    let rounds' : suc n + 0 ≡ suc n = omega arith in
    subst (λ a. Played s (suc n) 0 (fire_times (length packets' + n * suc (length packets')) a))
      (sym (ap (λ a. switch true true a.0) stops ∙ switch-fire over refl r.kept))
      (subst (λ m. Played s (suc n) 0 (fire_times m (looping, []))) times
        (subst (λ m. Played s m 0 (fire_times (suc n * suc (length s)) (looping, []))) rounds'
          (rounds-Played s (suc n) 0 (looping, []) begins)))

-- When a loopback receives at least one packet, is then not closed, the sender takes its track and every
-- write goes well, it writes what was received, in its order and with the type of the negotiated codec,
-- and again for each round of its timer, of one more step than packets.
pub loop_back-rounds :
    (t : Option ℕ) (p : Packet) (packets : List Packet) (n : ℕ)
    → (loop_back t (p ∷ packets) (length (p ∷ packets) + n * suc (length (p ∷ packets)))).1
      ≡ concat (replicate (suc n) (map (typed t) (p ∷ packets)))
loop_back-rounds t p packets n =
    let h =
      taped-Played t p packets _
        (receive_all-Recording t [] (p ∷ packets) (start t) (start-Recording t)) n in
    h.so_far ∙ append-nil _
