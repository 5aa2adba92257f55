-- ===== src/Audio/Resample/Samples.antt =====
-- Samples of plugin/node/audio-pipeline.ts: reading, interpolating, clamping and writing them.
use openclaw_rtc_plugin.Common.{
  ℕ, zero, suc, ◌+◌, ◌*◌, ◌/◌, ◌%◌, ◌≤◌, ◌<◌, ◌≡◌, refl, ap, subst, none, some, [], ◌∷◌, arith,
  Result, ok, err, length, get_elem?, All,
}
use openclaw_rtc_plugin.Common.Int.{ℤ, pos, negsuc, pos_part, neg_part, sub_ℕ, ◌≤ℤ◌}
use openclaw_rtc_plugin.Audio.{Buffer}
use openclaw_rtc_plugin.Audio.Resample.{
  AudioError, out_of_range, read_int16_le, signed16, word16, clamp16, interpolate, floor_div,
  sample_at, resample_from,
}

abbrev pub IsByte : ℕ → Type 0
IsByte b = b < 256

abbrev pub IsInt16 : ℤ → Type 0
IsInt16 z = (negsuc 32767 ≤ℤ z) × (z ≤ℤ pos 32767)

get_elem?-in :
    (xs : Buffer) (i : ℕ)
    → All IsByte xs
    → i < length xs
    → (x : ℕ) × (get_elem? xs i ≡ some x) × (x < 256)
get_elem?-in [] i bytes h = absurd (omega arith)
get_elem?-in (x ∷ xs) zero bytes h = (x, refl, bytes.0)
get_elem?-in (x ∷ xs) (suc i) bytes h = get_elem?-in xs i bytes.1 (omega arith)

get_elem?-past : (xs : Buffer) (i : ℕ) → length xs ≤ i → get_elem? xs i ≡ none
get_elem?-past [] i h = refl
get_elem?-past (x ∷ xs) zero h = absurd (omega arith)
get_elem?-past (x ∷ xs) (suc i) h = get_elem?-past xs i (omega arith)

-- A read inside the buffer gives an int16, and one that passes the end throws.
pub read_int16_le-in :
    (buf : Buffer) (offset : ℕ)
    → All IsByte buf
    → offset + 1 < length buf
    → (z : ℤ) × (read_int16_le buf offset ≡ ok z) × IsInt16 z
unfolding read_int16_le
read_int16_le-in buf offset bytes h =
    let (lo, at_lo, small_lo) = get_elem?-in buf offset bytes (omega arith) in
    let (hi, at_hi, small_hi) = get_elem?-in buf (offset + 1) bytes h in
    (signed16 (lo + 256 * hi), rw (at_lo, at_hi), (ground arith, ground arith))

pub read_int16_le-past :
    (buf : Buffer) (offset : ℕ)
    → length buf ≤ offset + 1
    → read_int16_le buf offset ≡ err (out_of_range offset)
unfolding read_int16_le
read_int16_le-past buf offset h = ground (arith, get_elem?-past buf (offset + 1))

-- The clamp leaves an int16 as it is.
pub clamp16-id : (z : ℤ) → IsInt16 z → clamp16 z ≡ z
unfolding clamp16
clamp16-id z h = ground arith

pub clamp16-IsInt16 : (z : ℤ) → IsInt16 (clamp16 z)
unfolding clamp16
clamp16-IsInt16 z = ground arith

pub interpolate-16000 : (a b : ℤ) → interpolate a b 0 16000 ≡ a
unfolding interpolate
interpolate-16000 a b = ground arith

pub interpolate-48000 : (a b : ℤ) → interpolate a b 0 48000 ≡ a
unfolding interpolate
interpolate-48000 a b = ground arith

-- Half-way between two samples, a half rounded up.
abbrev pub midpoint : ℤ → ℤ → ℤ
midpoint a b = floor_div (sub_ℕ (pos_part a + pos_part b + 1) (neg_part a + neg_part b)) 2

pub interpolate_half : (a b : ℤ) → interpolate a b 24000 48000 ≡ midpoint a b
unfolding interpolate
interpolate_half a b = ground arith

pub midpoint-IsInt16 : (a b : ℤ) → IsInt16 a → IsInt16 b → IsInt16 (midpoint a b)
midpoint-IsInt16 a b h k = ground arith

signed16-word16 : (z : ℤ) → IsInt16 z → signed16 (word16 z % 256 + 256 * (word16 z / 256)) ≡ z
signed16-word16 z h = ground arith

-- What is written at a sample's place is read back.
read_int16_le-cons :
    (a b : ℕ) (buf : Buffer) (k : ℕ) {z : ℤ}
    → read_int16_le buf (2 * k) ≡ ok z
    → read_int16_le (a ∷ b ∷ buf) (2 * suc k) ≡ ok z
unfolding read_int16_le
read_int16_le-cons a b buf k h =
    let lo : get_elem? (a ∷ b ∷ buf) (2 * suc k) ≡ get_elem? buf (2 * k) =
      let e : 2 * suc k ≡ suc (suc (2 * k)) = omega arith in ap (get_elem? (a ∷ b ∷ buf)) e in
    let hi : get_elem? (a ∷ b ∷ buf) (2 * suc k + 1) ≡ get_elem? buf (2 * k + 1) =
      let e : 2 * suc k + 1 ≡ suc (suc (2 * k + 1)) = omega arith in
      ap (get_elem? (a ∷ b ∷ buf)) e in
    ground arith

read_int16_le-head :
    (z : ℤ) (buf : Buffer)
    → IsInt16 z
    → read_int16_le (word16 z % 256 ∷ word16 z / 256 ∷ buf) 0 ≡ ok z
unfolding read_int16_le
read_int16_le-head z buf h = rw (signed16-word16 z h)

-- The loop yields a buffer exactly when each sample can be computed, and sample `j` of the buffer
-- is the one computed in round `i + j`.
pub resample_from-reads :
    (input : Buffer) (from to n i : ℕ) (sample : ℕ → ℤ)
    → ((j : ℕ) → j < n → (sample_at input from to (i + j) ≡ ok (sample j)) × IsInt16 (sample j))
    → (out : Buffer) × (resample_from input from to n i ≡ ok out)
      × (length out ≡ 2 * n)
      × ((j : ℕ) → j < n → read_int16_le out (2 * j) ≡ ok (sample j))
unfolding resample_from
resample_from-reads input from to zero i sample h = ([], refl, refl, λ j lt. elim lt [ ])
resample_from-reads input from to (suc n) i sample h =
    let first = h 0 (omega arith) in
    let now : sample_at input from to i ≡ ok (sample 0) =
      let e : i + 0 ≡ i = omega arith in
      subst (λ k. sample_at input from to k ≡ ok (sample 0)) e first.0 in
    let (out, e, len, reads) =
      resample_from-reads input from to n (i + 1) (λ j. sample (suc j)) (later h) in
    (
      word16 (sample 0) % 256 ∷ word16 (sample 0) / 256 ∷ out,
      rw (now, e),
      omega arith,
      λ j lt. at_index out reads first.1 j lt,
    )
  where
    later :
        ((j : ℕ)
          → j < suc n
          → (sample_at input from to (i + j) ≡ ok (sample j)) × IsInt16 (sample j))
        → (j : ℕ) → j < n
        → (sample_at input from to (i + 1 + j) ≡ ok (sample (suc j))) × IsInt16 (sample (suc j))
    later h j lt =
        let e : i + suc j ≡ i + 1 + j = omega arith in
        subst (λ k. (sample_at input from to k ≡ ok (sample (suc j))) × IsInt16 (sample (suc j))) e
          (h (suc j) (omega arith))

    at_index :
        (out : Buffer)
        → ((j : ℕ) → j < n → read_int16_le out (2 * j) ≡ ok (sample (suc j)))
        → IsInt16 (sample 0)
        → (j : ℕ) → j < suc n
        → read_int16_le (word16 (sample 0) % 256 ∷ word16 (sample 0) / 256 ∷ out) (2 * j)
          ≡ ok (sample j)
    at_index out reads fits zero lt = read_int16_le-head (sample 0) out fits
    at_index out reads fits (suc j) lt = read_int16_le-cons _ _ out j (reads j (omega arith))

-- The value of a read, where it is known to succeed.
abbrev pub value : Result AudioError ℤ → ℤ
value (ok z) = z
value (err e) = pos 0

-- A read of an int16 from a buffer of bytes, with its value.
pub read-value :
    (buf : Buffer) (offset : ℕ)
    → All IsByte buf
    → offset + 1 < length buf
    → (read_int16_le buf offset ≡ ok (value (read_int16_le buf offset)))
      × IsInt16 (value (read_int16_le buf offset))
read-value buf offset bytes h =
    let (z, e, fits) = read_int16_le-in buf offset bytes h in (rw e, rw e fits)

-- The first round that throws ends the loop.
pub resample_from-throws :
    (input : Buffer) (from to n i k : ℕ) (e : AudioError) (sample : ℕ → ℤ)
    → k < n
    → ((j : ℕ) → j < k → sample_at input from to (i + j) ≡ ok (sample j))
    → sample_at input from to (i + k) ≡ err e
    → resample_from input from to n i ≡ err e
unfolding resample_from
resample_from-throws input from to zero i k e sample lt good bad = elim lt [ ]
resample_from-throws input from to (suc n) i zero e sample lt good bad =
    let same : i + 0 ≡ i = omega arith in
    let now : sample_at input from to i ≡ err e =
      subst (λ k. sample_at input from to k ≡ err e) same bad in
    rw now
resample_from-throws input from to (suc n) i (suc k) e sample lt good bad =
    let same : i + 0 ≡ i = omega arith in
    let now : sample_at input from to i ≡ ok (sample 0) =
      subst (λ k. sample_at input from to k ≡ ok (sample 0)) same (good 0 (omega arith)) in
    let shift : i + suc k ≡ i + 1 + k = omega arith in
    rw now (
      rw (
        resample_from-throws input from to n (i + 1) k e (λ j. sample (suc j)) (omega arith)
          (later good) (subst (λ k. sample_at input from to k ≡ err e) shift bad)))
  where
    later :
        ((j : ℕ) → j < suc k → sample_at input from to (i + j) ≡ ok (sample j))
        → (j : ℕ) → j < k
        → sample_at input from to (i + 1 + j) ≡ ok (sample (suc j))
    later good j lt =
        let e' : i + suc j ≡ i + 1 + j = omega arith in
        subst (λ k. sample_at input from to k ≡ ok (sample (suc j))) e' (good (suc j) (omega arith))
