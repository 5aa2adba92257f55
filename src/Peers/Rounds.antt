-- ===== src/Peers/Rounds.antt =====
-- Rounds of a recording, for the loopback of plugin/node/peer-manager.ts.
use openclaw_rtc_plugin.Common.{
  ℕ, zero, suc, ◌≤◌, ◌<◌, ◌≡◌, refl, ap, sym, ◌∙◌, Option, none, some, List, [], ◌∷◌, ◌++◌, map,
  get_elem?, take, concat, replicate, length, take_all, append_assoc, append-nil, arith,
}
use openclaw_rtc_plugin.Peers.Loopback.{Packet, Loopback, typed, set_at}

-- What is played of a buffer: its packets with the type of the codec.
abbrev pub sound : Loopback → List Packet
sound l = map (typed l.payload_type) l.buffer

-- The sound so many times, and some packets of it once more.
abbrev pub rounds : ℕ → ℕ → List Packet → List Packet
rounds n i packets = concat (replicate n packets) ++ take i packets

typed_twice : (t : Option ℕ) (p : Packet) → typed t (typed t p) ≡ typed t p
typed_twice none p = refl
typed_twice (some t) p = refl

pub map-set_at :
    (t : Option ℕ) (i : ℕ) (p : Packet) (ps : List Packet)
    → get_elem? ps i ≡ some p
    → map (typed t) (set_at i (typed t p) ps) ≡ map (typed t) ps
unfolding set_at
map-set_at t i p [] at = refl
map-set_at t zero p (q ∷ ps) at =
    ap (λ x. x ∷ map (typed t) ps) (typed_twice t p ∙ sym (ap same at))
  where
    same : Option Packet → Packet
    same none = typed t q
    same (some r) = typed t r
map-set_at t (suc i) p (q ∷ ps) at = ap (◌∷◌ (typed t q)) (map-set_at t i p ps at)

pub take-suc :
    (t : Option ℕ) (i : ℕ) (p : Packet) (ps : List Packet)
    → get_elem? ps i ≡ some p
    → take (suc i) (map (typed t) ps) ≡ take i (map (typed t) ps) ++ typed t p ∷ []
take-suc t i p [] at = absurd (ground (arith, at))
take-suc t zero p (q ∷ ps) at = ap (λ x. x ∷ []) (ap same at)
  where
    same : Option Packet → Packet
    same none = typed t q
    same (some r) = typed t r
take-suc t (suc i) p (q ∷ ps) at = ap (◌∷◌ (typed t q)) (take-suc t i p ps at)

replicate-suc :
    (n : ℕ) (ps : List Packet) → concat (replicate (suc n) ps) ≡ concat (replicate n ps) ++ ps
replicate-suc zero ps = append-nil ps
replicate-suc (suc n) ps =
    ap (λ qs. ps ++ qs) (replicate-suc n ps) ∙ sym (append_assoc ps (concat (replicate n ps)) ps)

pub length-map : (t : Option ℕ) (ps : List Packet) → length (map (typed t) ps) ≡ length ps
length-map t [] = refl
length-map t (p ∷ ps) = ap suc (length-map t ps)

-- A full round is one more.
pub round_done : (n i : ℕ) (ps : List Packet) → length ps ≤ i → rounds n i ps ≡ rounds (suc n) 0 ps
round_done n i ps h =
    ap (λ qs. concat (replicate n ps) ++ qs) (take_all i ps h)
    ∙ sym (replicate-suc n ps)
    ∙ sym (append-nil (concat (replicate (suc n) ps)))

pub past_end : (i : ℕ) (ps : List Packet) → get_elem? ps i ≡ none → length ps ≤ i
past_end i [] at = omega arith
past_end zero (p ∷ ps) at = absurd (ground (arith, at))
past_end (suc i) (p ∷ ps) at = omega (arith, past_end i ps at)

pub rounds-suc :
    (n i : ℕ) (t : Option ℕ) (p : Packet) (ps : List Packet)
    → get_elem? ps i ≡ some p
    → rounds n i (map (typed t) ps) ++ typed t p ∷ []
      ≡ rounds n (suc i) (map (typed t) (set_at i (typed t p) ps))
rounds-suc n i t p ps at =
    append_assoc (concat (replicate n (map (typed t) ps))) (take i (map (typed t) ps))
      (typed t p ∷ [])
    ∙ ap (λ qs. concat (replicate n (map (typed t) ps)) ++ qs) (sym (take-suc t i p ps at))
    ∙ sym (ap (rounds n (suc i)) (map-set_at t i p ps at))

pub in_range : (i : ℕ) (p : Packet) (ps : List Packet) → get_elem? ps i ≡ some p → i < length ps
in_range i p [] at = absurd (ground (arith, at))
in_range zero p (q ∷ ps) at = omega arith
in_range (suc i) p (q ∷ ps) at = omega (arith, in_range i p ps at)
