-- ===== src/Audio/Frames/Cut.antt =====
-- The loop of `push` in plugin/node/audio-pipeline.ts against its specification: whole frames and a
-- rest shorter than a frame, which together are the buffer.
use openclaw_rtc_plugin.Common.{
  ℕ, zero, suc, ◌≤◌, ◌<◌, ◌≡◌, refl, ap, ◌∙◌, sym, inl, inr, some, List, [], ◌∷◌, ◌++◌, arith, leb,
  Bool-cases, length, take, drop, concat, All, append_assoc, length-append, length-take,
  length-drop, take-append-drop, take-append, drop-append,
}
use openclaw_rtc_plugin.Audio.{Buffer}
use openclaw_rtc_plugin.Audio.Frames.{cut_frames}

abbrev pub IsFrame : ℕ → Buffer → Type 0
IsFrame size f = length f ≡ size

pub record Cuts (size : ℕ) (frames : List Buffer) (rest buf : Buffer) : Type 0 where
  pub whole : All (IsFrame size) frames
  pub short : length rest < size
  pub joined : concat frames ++ rest ≡ buf

pub cut_frames-Cuts :
    (fuel size : ℕ) (buf : Buffer)
    → 0 < size
    → length buf < fuel
    → (r : List Buffer × Buffer) × (cut_frames fuel size buf ≡ some r) × Cuts size r.0 r.1 buf
unfolding cut_frames
cut_frames-Cuts zero size buf pos enough = absurd (omega arith)
cut_frames-Cuts (suc fuel) size buf pos enough = elim (Bool-cases (leb size (length buf))) [
  | inl long ↦
      let (r, e, c) =
        cut_frames-Cuts fuel size (drop size buf) pos (ground (arith, length-drop size buf)) in
      (
        (take size buf ∷ r.0, r.1),
        rw (long, e),
        record {
          whole = (ground (arith, length-take size buf), c.whole);
          short = c.short;
          joined =
              append_assoc (take size buf) (concat r.0) r.1
              ∙ (rw c.joined (take-append-drop size buf));
        },
      )
  | inr fits ↦ (([], buf), rw fits, record { whole = tt; short = ground arith; joined = refl })
]

module _ (size : ℕ) (f : Buffer) (fs : List Buffer) (p buf : Buffer)
    (c : Cuts size (f ∷ fs) p buf) where
  front : buf ≡ f ++ (concat fs ++ p)
  front = sym c.joined ∙ append_assoc f (concat fs) p

  pub Cuts-long : size ≤ length buf
  Cuts-long = omega (arith, c.whole.0, ap length front, length-append f (concat fs ++ p))

  pub Cuts-head : take size buf ≡ f
  Cuts-head = rw (front, ← c.whole.0) (take-append f (concat fs ++ p))

  pub Cuts-tail : Cuts size fs p (drop size buf)
  Cuts-tail = record {
    whole = c.whole.1;
    short = c.short;
    joined = rw (front, ← c.whole.0) (sym (drop-append f (concat fs ++ p)));
  }

-- The specification has one solution.
pub Cuts-unique :
    (size : ℕ) (fs gs : List Buffer) (p q buf : Buffer)
    → Cuts size fs p buf
    → Cuts size gs q buf
    → (fs ≡ gs) × (p ≡ q)
Cuts-unique size [] [] p q buf c d = (refl, c.joined ∙ sym d.joined)
Cuts-unique size [] (g ∷ gs) p q buf c d =
    absurd (omega (arith, Cuts-long size g gs q buf d, c.short, ap length c.joined))
Cuts-unique size (f ∷ fs) [] p q buf c d =
    absurd (omega (arith, Cuts-long size f fs p buf c, d.short, ap length d.joined))
Cuts-unique size (f ∷ fs) (g ∷ gs) p q buf c d =
    let (same, rest) =
      Cuts-unique size fs gs p q (drop size buf) (Cuts-tail size f fs p buf c)
        (Cuts-tail size g gs q buf d) in
    (cc (Cuts-head size f fs p buf c, Cuts-head size g gs q buf d), rest)
