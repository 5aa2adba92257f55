-- ===== src/Peers/Fires.antt =====
-- The timer of the loopback of plugin/node/peer-manager.ts when nobody hangs up and every write goes
-- well.
use openclaw_rtc_plugin.Common.{
  ℕ, zero, suc, ◌+◌, ◌*◌, ◌<◌, ◌≡◌, refl, ap, sym, subst, ◌∙◌, true, Option, none, some, List, [],
  ◌∷◌, ◌++◌, get_elem?, length, append-nil, if◌then◌else◌, arith,
}
use openclaw_rtc_plugin.Peers.Loopback.{
  Packet, Phase, at_record, at_switch, at_play, at_loop, ended, Loopback, Acted, typed, plays_at,
  play_next, loop_once, fires, fire,
}
use openclaw_rtc_plugin.Peers.Rounds.{
  sound, rounds, length-map, round_done, past_end, rounds-suc, map-set_at, in_range,
}

-- The timer fires so many times, and every write goes well.
unfoldable pub fire_times : ℕ → Acted → Acted
fire_times zero a = a
fire_times (suc k) a = fire_times k ((fire true a.0).0, a.1 ++ (fire true a.0).1)

-- The packet that is due.
abbrev pub IsDue : Phase → ℕ → Type 0
IsDue (at_play j) k = j ≡ k
IsDue at_loop k = k ≡ 0
IsDue _ k = ⊥

-- So many rounds and so many packets of one more are played.
pub record Played (s : List Packet) (n : ℕ) (k : ℕ) (a : Acted) : Type 0 where
  pub so_far : a.1 ≡ rounds n k s
  pub same : sound a.0 ≡ s
  pub kept : a.0.kept ≡ true
  pub due : IsDue a.0.phase k

pub due-fire :
    (l : Loopback) (k : ℕ) (phase : Phase)
    → IsDue phase k
    → l.kept ≡ true
    → fires true phase l ≡ plays_at true true k (get_elem? l.buffer k) l
unfolding play_next loop_once
due-fire l k (at_play j) due kept =
    ap (λ i. plays_at true l.kept i (get_elem? l.buffer i) l) due
    ∙ ap (λ b. plays_at true b k (get_elem? l.buffer k) l) kept
due-fire l k at_loop due kept =
    ap
      (λ b.
        if b then plays_at true b 0 (get_elem? l.buffer 0) l else (record l { phase = ended }, []))
      kept
    ∙ ap (λ i. plays_at true true i (get_elem? l.buffer i) l) (sym due)
due-fire l k at_record due kept = elim due [ ]
due-fire l k at_switch due kept = elim due [ ]
due-fire l k ended due kept = elim due [ ]

-- One more packet.
writes-Played :
    (s : List Packet) (n k : ℕ) (l : Loopback) (w : List Packet)
    → Played s n k (l, w)
    → (o : Option Packet) → get_elem? l.buffer k ≡ o
    → k < length s
    → Played s n (suc k) ((plays_at true true k o l).0, w ++ (plays_at true true k o l).1)
writes-Played s n k l w h (some p) at small = record {
  so_far =
      ap (λ v. v ++ typed l.payload_type p ∷ []) (h.so_far ∙ ap (rounds n k) (sym h.same))
      ∙ rounds-suc n k l.payload_type p l.buffer at
      ∙ ap (rounds n (suc k)) (map-set_at l.payload_type k p l.buffer at ∙ h.same);
  same = map-set_at l.payload_type k p l.buffer at ∙ h.same;
  kept = h.kept;
  due = refl;
}
writes-Played s n k l w h none at small = absurd (
    omega
      (arith, past_end k l.buffer at, length-map l.payload_type l.buffer, ap length h.same, small))

-- The end of a round.
turns-Played :
    (s : List Packet) (n k : ℕ) (l : Loopback) (w : List Packet)
    → Played s n k (l, w)
    → (o : Option Packet) → get_elem? l.buffer k ≡ o
    → k ≡ length s
    → Played s (suc n) 0 ((plays_at true true k o l).0, w ++ (plays_at true true k o l).1)
turns-Played s n k l w h none at full = record {
  so_far = append-nil w ∙ h.so_far ∙ round_done n k s (omega (arith, full));
  same = h.same;
  kept = h.kept;
  due = refl;
}
turns-Played s n k l w h (some p) at full = absurd (
    omega
      (arith, in_range k p l.buffer at, length-map l.payload_type l.buffer, ap length h.same, full))

fired-Played :
    (s : List Packet) (n k : ℕ) (a : Acted)
    → Played s n k a
    → k < length s
    → Played s n (suc k) ((fire true a.0).0, a.1 ++ (fire true a.0).1)
unfolding fire
fired-Played s n k (l, w) h small =
    subst (λ x. Played s n (suc k) (x.0, w ++ x.1)) (sym (due-fire l k l.phase h.due h.kept))
      (writes-Played s n k l w h (get_elem? l.buffer k) refl small)

turned-Played :
    (s : List Packet) (n k : ℕ) (a : Acted)
    → Played s n k a
    → k ≡ length s
    → Played s (suc n) 0 ((fire true a.0).0, a.1 ++ (fire true a.0).1)
unfolding fire
turned-Played s n k (l, w) h full =
    subst (λ x. Played s (suc n) 0 (x.0, w ++ x.1)) (sym (due-fire l k l.phase h.due h.kept))
      (turns-Played s n k l w h (get_elem? l.buffer k) refl full)

-- What is left of a round, with its end.
rest-Played :
    (s : List Packet) (n k left : ℕ) (a : Acted)
    → Played s n k a
    → k + left ≡ length s
    → Played s (suc n) 0 (fire_times (suc left) a)
unfolding fire_times
rest-Played s n k zero a h full = turned-Played s n k a h (omega (arith, full))
rest-Played s n k (suc left) a h full =
    rest-Played s n (suc k) left _ (fired-Played s n k a h (omega (arith, full)))
      (omega (arith, full))

fire_times-add : (m k : ℕ) (a : Acted) → fire_times (m + k) a ≡ fire_times k (fire_times m a)
unfolding fire_times
fire_times-add zero k a =
    let none_more : 0 + k ≡ k = omega arith in ap (λ x. fire_times x a) none_more
fire_times-add (suc m) k a =
    let one_more : suc m + k ≡ suc (m + k) = omega arith in
    ap (λ x. fire_times x a) one_more ∙ fire_times-add m k _

pub rounds-Played :
    (s : List Packet) (m n : ℕ) (a : Acted)
    → Played s n 0 a
    → Played s (m + n) 0 (fire_times (m * suc (length s)) a)
unfolding fire_times
rounds-Played s zero n a h =
    let no_rounds : n ≡ 0 + n = omega arith in
    let no_times : 0 ≡ 0 * suc (length s) = ground arith in
    subst (λ x. Played s x 0 (fire_times (0 * suc (length s)) a)) no_rounds
      (subst (λ x. Played s n 0 (fire_times x a)) no_times h)
rounds-Played s (suc m) n a h =
    let one_round : m + suc n ≡ suc m + n = omega arith in
    let times : suc (length s) + m * suc (length s) ≡ suc m * suc (length s) = ground arith in
    subst (λ x. Played s x 0 (fire_times (suc m * suc (length s)) a)) one_round
      (subst (λ x. Played s (m + suc n) 0 (fire_times x a)) times
        (subst (Played s (m + suc n) 0)
          (sym (fire_times-add (suc (length s)) (m * suc (length s)) a))
          (rounds-Played s m (suc n) _ (rest-Played s n 0 (length s) a h (omega arith)))))
