-- ===== src/Audio/Frames/Chunks.antt =====
-- `chunkPcm` of plugin/node/audio-pipeline.ts yields whole frames, the last filled up with zeros.
use openclaw_rtc_plugin.Common.{
  ℕ, zero, suc, ◌+◌, ◌-◌, ◌≤◌, ◌<◌, ◌≡◌, refl, ap, sym, ◌∙◌, min, some, List, [], ◌∷◌, ◌++◌, arith,
  length, take, drop, concat, replicate, All, append_assoc, append-nil, length-append, length-drop,
  length-take, length-replicate, take_all, drop-drop,
}
use openclaw_rtc_plugin.Audio.{Buffer}
use openclaw_rtc_plugin.Audio.Frames.{subarray, padded, chunk_from, chunk_pcm}
use openclaw_rtc_plugin.Audio.Frames.Cut.{
  IsFrame, Cuts, Cuts-long, Cuts-head, Cuts-tail, cut_frames-Cuts,
}

-- The chunk for a rest, if there is one.
abbrev pub last_chunk : ℕ → Buffer → List Buffer
last_chunk size [] = []
last_chunk size (b ∷ bs) = padded size (b ∷ bs) ∷ []

module _ (size : ℕ) (pos : 0 < size) (audio : Buffer) where
  -- The loop is at the end of the audio.
  chunk_from-past : (fuel i : ℕ) → length audio ≤ i → chunk_from (suc fuel) audio size i ≡ some []
  unfolding chunk_from
  chunk_from-past fuel i h = ground arith

  past_end : (fuel i : ℕ) → length audio ≤ i → 0 < fuel → chunk_from fuel audio size i ≡ some []
  past_end zero i h room = absurd (omega arith)
  past_end (suc fuel) i h room = chunk_from-past fuel i h

  subarray_rest :
      (i : ℕ)
      → length audio ≤ i + size
      → subarray audio i (min (i + size) (length audio)) ≡ drop i audio
  subarray_rest i h = take_all _ (drop i audio) (omega (arith, length-drop i audio))

  subarray_frame :
      (i : ℕ)
      → i + size ≤ length audio
      → subarray audio i (min (i + size) (length audio)) ≡ take size (drop i audio)
  subarray_frame i h =
      let e : min (i + size) (length audio) - i ≡ size = omega arith in
      ap (λ n. take n (drop i audio)) e

  step_rest :
      (fuel i : ℕ)
      → i < length audio
      → length audio < i + size
      → 0 < fuel
      → chunk_from (suc fuel) audio size i ≡ some (padded size (drop i audio) ∷ [])
  unfolding chunk_from
  step_rest fuel i inside short room =
      ground (arith, subarray_rest i, length-drop i audio, past_end fuel (i + size))

  step_frame :
      (fuel i : ℕ) (cs : List Buffer)
      → i < length audio
      → i + size ≤ length audio
      → chunk_from fuel audio size (i + size) ≡ some cs
      → chunk_from (suc fuel) audio size i ≡ some (take size (drop i audio) ∷ cs)
  unfolding chunk_from
  step_frame fuel i cs inside long rest =
      ground (arith, subarray_frame i, length-drop i audio, length-take size (drop i audio))

  -- From index `i` the loop yields the frames of what is left, and then its padded rest.
  chunk_from-Cuts :
      (fuel i : ℕ) (fs : List Buffer) (rest : Buffer)
      → length audio - i < fuel
      → Cuts size fs rest (drop i audio)
      → chunk_from fuel audio size i ≡ some (fs ++ last_chunk size rest)
  chunk_from-Cuts zero i fs rest enough c = absurd (omega arith)
  chunk_from-Cuts (suc fuel) i [] [] enough c =
      chunk_from-past fuel i (omega (arith, ap length c.joined, length-drop i audio))
  chunk_from-Cuts (suc fuel) i [] (b ∷ bs) enough c = rw c.joined (
      step_rest fuel i (omega (arith, ap length c.joined, length-drop i audio))
        (omega (arith, ap length c.joined, length-drop i audio))
        (omega (arith, ap length c.joined, length-drop i audio)))
  chunk_from-Cuts (suc fuel) i (f ∷ fs) rest enough c =
      let long = Cuts-long size f fs rest (drop i audio) c in
      let head = Cuts-head size f fs rest (drop i audio) c in
      let tail : Cuts size fs rest (drop (i + size) audio) =
        rw (← drop-drop i size audio) (Cuts-tail size f fs rest (drop i audio) c) in
      rw (← head) (
        step_frame fuel i _ (omega (arith, length-drop i audio))
          (omega (arith, length-drop i audio))
          (chunk_from-Cuts fuel (i + size) fs rest (omega (arith, length-drop i audio)) tail))

padded_short :
    (size : ℕ) (buf : Buffer)
    → length buf ≤ size
    → padded size buf ≡ buf ++ replicate (size - length buf) 0
unfolding padded
padded_short size buf h = rw (take_all size buf h)

length-padded : (size : ℕ) (buf : Buffer) → length (padded size buf) ≡ size
unfolding padded
length-padded size buf = omega (
  arith,
  length-append (take size buf) (replicate (size - length buf) 0),
  length-take size buf,
  length-replicate {A = ℕ} (size - length buf) 0,
)

All-append-last :
    (size : ℕ) (fs : List Buffer) (rest : Buffer)
    → All (IsFrame size) fs
    → All (IsFrame size) (fs ++ last_chunk size rest)
All-append-last size [] [] h = tt
All-append-last size [] (b ∷ bs) h = (length-padded size (b ∷ bs), tt)
All-append-last size (f ∷ fs) rest h = (h.0, All-append-last size fs rest h.1)

-- How many zeros the last chunk is filled up with.
abbrev padding : ℕ → Buffer → ℕ
padding size [] = 0
padding size (b ∷ bs) = size - length (b ∷ bs)

concat-last :
    (size : ℕ) (fs : List Buffer) (rest : Buffer)
    → length rest < size
    → concat (fs ++ last_chunk size rest) ≡ (concat fs ++ rest) ++ replicate (padding size rest) 0
concat-last size [] [] h = refl
concat-last size [] (b ∷ bs) h =
    append-nil (padded size (b ∷ bs)) ∙ padded_short size (b ∷ bs) (omega arith)
concat-last size (f ∷ fs) rest h = rw (concat-last size fs rest h) (
    sym (append_assoc f (concat fs ++ rest) _)
    ∙ ap (λ x. x ++ replicate (padding size rest) 0) (sym (append_assoc f (concat fs) rest)))

padding-lt : (size : ℕ) (rest : Buffer) → length rest < size → padding size rest < size
padding-lt size [] h = h
padding-lt size (b ∷ bs) h = omega arith

pub chunk_pcm-Cuts :
    (size : ℕ) (audio rest : Buffer) (fs : List Buffer)
    → 0 < size
    → Cuts size fs rest audio
    → chunk_pcm audio size ≡ some (fs ++ last_chunk size rest)
unfolding chunk_pcm
chunk_pcm-Cuts size audio rest fs pos c =
    chunk_from-Cuts size pos audio (suc (length audio)) 0 fs rest (omega arith) c

-- For a positive size the generator ends: each chunk has that size, and joined they are the audio
-- with fewer than `size` zeros behind it.
pub chunk_pcm_total :
    (size : ℕ) (audio : Buffer)
    → 0 < size
    → (cs : List Buffer) × (k : ℕ) × (chunk_pcm audio size ≡ some cs)
      × All (IsFrame size) cs
      × (k < size)
      × (concat cs ≡ audio ++ replicate k 0)
chunk_pcm_total size audio pos =
    let ((fs, rest), _, c) = cut_frames-Cuts (suc (length audio)) size audio pos (omega arith) in
    (
      fs ++ last_chunk size rest,
      padding size rest,
      chunk_pcm-Cuts size audio rest fs pos c,
      All-append-last size fs rest c.whole,
      padding-lt size rest c.short,
      concat-last size fs rest c.short
          ∙ ap (λ (x : Buffer). x ++ replicate (padding size rest) 0) c.joined,
    )
