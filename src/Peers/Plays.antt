-- ===== src/Peers/Plays.antt =====
-- The place of the loopback of plugin/node/peer-manager.ts in what it plays, when a timer fires.
use openclaw_rtc_plugin.Common.{
  ℕ, suc, ◌≤◌, ◌≡◌, refl, ap, sym, subst, ◌∙◌, Bool, true, false, Option, none, some, List, [], ◌∷◌,
  ◌++◌, get_elem?, length, append-nil, if◌then◌else◌, arith,
}
use openclaw_rtc_plugin.Peers.Loopback.{
  Packet, Phase, at_record, at_switch, at_play, at_loop, ended, Loopback, typed, plays_at,
  play_next, loop_once, recorded, fires,
}
use openclaw_rtc_plugin.Peers.Rounds.{
  sound, rounds, length-map, round_done, past_end, rounds-suc, map-set_at,
}

-- What the phase says of the place in the sound.
abbrev pub IsPlace : Phase → ℕ → ℕ → Type 0
IsPlace at_record i n = i ≡ 0
IsPlace at_switch i n = i ≡ 0
IsPlace (at_play j) i n = j ≡ i
IsPlace at_loop i n = n ≤ i
IsPlace _ i n = Unit

-- A phase in which the recording may still go on.
abbrev pub IsEarly : Phase → Type 0
IsEarly at_record = Unit
IsEarly ended = Unit
IsEarly _ = ⊥

pub record Plays (l : Loopback) (played : List Packet) : Type 0 where
  pub whole : ℕ
  pub place : ℕ
  pub so_far : played ≡ rounds whole place (sound l)
  pub silent : l.recording ≡ true → played ≡ []
  pub early : l.recording ≡ true → IsEarly l.phase
  pub at : IsPlace l.phase place (length l.buffer)

plays_at-Plays :
    (fine kept : Bool) (n i : ℕ) (o : Option Packet) (l : Loopback) (played : List Packet)
    → get_elem? l.buffer i ≡ o
    → played ≡ rounds n i (sound l)
    → (l.recording ≡ true → ⊥)
    → Plays (plays_at fine kept i o l).0 (played ++ (plays_at fine kept i o l).1)
plays_at-Plays fine false n i o l played at h still = record {
  whole = n;
  place = i;
  so_far = append-nil played ∙ h;
  silent = λ r. absurd (still r);
  early = λ r. absurd (still r);
  at = tt;
}
plays_at-Plays fine true n i none l played at h still = record {
  whole = n;
  place = i;
  so_far = append-nil played ∙ h;
  silent = λ r. absurd (still r);
  early = λ r. absurd (still r);
  at = past_end i l.buffer at;
}
plays_at-Plays true true n i (some p) l played at h still = record {
  whole = n;
  place = suc i;
  so_far =
      ap (λ qs. qs ++ typed l.payload_type p ∷ []) h ∙ rounds-suc n i l.payload_type p l.buffer at;
  silent = λ r. absurd (still r);
  early = λ r. absurd (still r);
  at = refl;
}
plays_at-Plays false true n i (some p) l played at h still = record {
  whole = n;
  place = i;
  so_far =
      append-nil played ∙ h ∙ sym (ap (rounds n i) (map-set_at l.payload_type i p l.buffer at));
  silent = λ r. absurd (still r);
  early = λ r. absurd (still r);
  at = tt;
}

play_next-Plays :
    (fine : Bool) (n i : ℕ) (l : Loopback) (played : List Packet)
    → played ≡ rounds n i (sound l)
    → (l.recording ≡ true → ⊥)
    → Plays (play_next fine i l).0 (played ++ (play_next fine i l).1)
unfolding play_next
play_next-Plays fine n i l played h still =
    plays_at-Plays fine l.kept n i (get_elem? l.buffer i) l played refl h still

loops-Plays :
    (fine kept : Bool) (n : ℕ) (l : Loopback) (played : List Packet)
    → played ≡ rounds n 0 (sound l)
    → (l.recording ≡ true → ⊥)
    → (let a = if kept then play_next fine 0 l else (record l { phase = ended }, []) in
        Plays a.0 (played ++ a.1))
loops-Plays fine true n l played h still = play_next-Plays fine n 0 l played h still
loops-Plays fine false n l played h still = record {
  whole = n;
  place = 0;
  so_far = append-nil played ∙ h;
  silent = λ r. absurd (still r);
  early = λ r. absurd (still r);
  at = tt;
}

pub loop_once-Plays :
    (fine : Bool) (n : ℕ) (l : Loopback) (played : List Packet)
    → played ≡ rounds n 0 (sound l)
    → (l.recording ≡ true → ⊥)
    → Plays (loop_once fine l).0 (played ++ (loop_once fine l).1)
unfolding loop_once
loop_once-Plays fine n l played h still = loops-Plays fine l.kept n l played h still

recorded-IsPlace : (ps : List Packet) (i n : ℕ) → i ≡ 0 → IsPlace (recorded ps) i n
recorded-IsPlace [] i n h = tt
recorded-IsPlace (p ∷ ps) i n h = h

pub unchanged : (l : Loopback) (played : List Packet) → Plays l played → Plays l (played ++ [])
unchanged l played h = subst (Plays l) (sym (append-nil played)) h

-- A phase that is not an early one comes after the recording.
pub not_recording :
    (phase : Phase) (l : Loopback) (played : List Packet)
    → l.phase ≡ phase
    → Plays l played
    → (IsEarly phase → ⊥)
    → l.recording ≡ true
    → ⊥
not_recording phase l played at h late r = late (subst IsEarly at (h.early r))

pub fires-Plays :
    (fine : Bool) (phase : Phase) (l : Loopback) (played : List Packet)
    → l.phase ≡ phase
    → Plays l played
    → Plays (fires fine phase l).0 (played ++ (fires fine phase l).1)
fires-Plays fine at_record l played at h = record {
  whole = h.whole;
  place = h.place;
  so_far = append-nil played ∙ h.so_far;
  silent = λ r. absurd (ground (arith, r));
  early = λ r. absurd (ground (arith, r));
  at =
      recorded-IsPlace l.buffer h.place (length l.buffer)
        (subst (λ q. IsPlace q h.place (length l.buffer)) at h.at);
}
fires-Plays fine (at_play i) l played at h =
    let same : i ≡ h.place = subst (λ q. IsPlace q h.place (length l.buffer)) at h.at in
    play_next-Plays fine h.whole i l played
      (h.so_far ∙ ap (λ k. rounds h.whole k (sound l)) (sym same))
      (not_recording (at_play i) l played at h (λ e. e))
fires-Plays fine at_loop l played at h =
    let past : length l.buffer ≤ h.place =
      subst (λ q. IsPlace q h.place (length l.buffer)) at h.at in
    loop_once-Plays fine (suc h.whole) l played
      (h.so_far
        ∙ round_done h.whole h.place (sound l)
            (omega (arith, past, length-map l.payload_type l.buffer)))
      (not_recording at_loop l played at h (λ e. e))
fires-Plays fine at_switch l played at h = unchanged l played h
fires-Plays fine ended l played at h = unchanged l played h
