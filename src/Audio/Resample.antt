-- ===== src/Audio/Resample.antt =====
-- `resamplePcm` of plugin/node/audio-pipeline.ts with its two uses. `fromRate / toRate` is taken as
-- an exact fraction: it is one in double precision for the rates that the file uses, 48000 to
-- 16000 (3) and 24000 to 48000 (1/2), and so are the products and sums made with it.
pub mod Samples
pub mod Down
pub mod Up
use openclaw_rtc_plugin.Common.{
  ℕ, zero, suc, ◌+◌, ◌-◌, ◌*◌, ◌/◌, ◌%◌, min, Bool, true, false, Option, none, some, List, [], ◌∷◌,
  ltb, ◌==◌, if◌then◌else◌, Result, ok, err, ◌>>=◌, length, get_elem?,
}
use openclaw_rtc_plugin.Common.Int.{ℤ, pos, negsuc, pos_part, neg_part, sub_ℕ, leb_ℤ}
use openclaw_rtc_plugin.Audio.{Buffer, volc_input_rate, volc_output_rate, webrtc_rate}

-- The RangeError of `readInt16LE`.
pub data AudioError : Type 0 where
  out_of_range : ℕ → AudioError

-- The value of the bytes lo, hi of an int16.
abbrev pub signed16 : ℕ → ℤ
signed16 w = if ltb w 32768 then pos w else negsuc (65535 - w)

abbrev read_bytes : ℕ → Option ℕ → Option ℕ → Result AudioError ℤ
read_bytes offset (some lo) (some hi) = ok (signed16 (lo + 256 * hi))
read_bytes offset _ _ = err (out_of_range offset)

unfoldable pub read_int16_le : Buffer → ℕ → Result AudioError ℤ
read_int16_le buf offset = read_bytes offset (get_elem? buf offset) (get_elem? buf (offset + 1))

-- The 16 bits of an integer in the range of an int16.
abbrev pub word16 : ℤ → ℕ
word16 (pos n) = n
word16 (negsuc n) = 65535 - n

abbrev max_ℤ : ℤ → ℤ → ℤ
max_ℤ a b = if leb_ℤ a b then b else a

abbrev min_ℤ : ℤ → ℤ → ℤ
min_ℤ a b = if leb_ℤ a b then a else b

unfoldable pub clamp16 : ℤ → ℤ
clamp16 v = max_ℤ (negsuc 32767) (min_ℤ (pos 32767) v)

-- `Math.floor` of a fraction.
abbrev pub floor_div : ℤ → ℕ → ℤ
floor_div (pos n) d = pos (n / d)
floor_div (negsuc n) d = negsuc (n / d)

-- `Math.round(s0 + frac * (s1 - s0))` for frac = r / q, that is ⌊(s0 (q - r) + s1 r) / q + 1/2⌋
unfoldable pub interpolate : ℤ → ℤ → ℕ → ℕ → ℤ
interpolate s0 s1 r q =
    floor_div
      (sub_ℕ (2 * (pos_part s0 * (q - r) + pos_part s1 * r) + q)
        (2 * (neg_part s0 * (q - r) + neg_part s1 * r)))
      (2 * q)

-- The body of the loop, up to the write. `nextIdx * 2` is an offset also where the number of
-- samples is not whole.
unfoldable pub sample_at : Buffer → ℕ → ℕ → ℕ → Result AudioError ℤ
sample_at input from to i = do
  s0 ← read_int16_le input (i * from / to * 2)
  s1 ← read_int16_le input (min ((i * from / to + 1) * 2) (length input - 2))
  ok (clamp16 (interpolate s0 s1 (i * from % to) to))

-- The loop with `n` samples to go. The output is filled from its start, two bytes a round.
unfoldable pub resample_from : Buffer → ℕ → ℕ → ℕ → ℕ → Result AudioError Buffer
resample_from input from to zero i = ok []
resample_from input from to (suc n) i = do
  sample ← sample_at input from to i
  rest ← resample_from input from to n (i + 1)
  ok (word16 sample % 256 ∷ word16 sample / 256 ∷ rest)

-- `Math.floor(inputSamples / ratio)`
abbrev pub output_samples : Buffer → ℕ → ℕ → ℕ
output_samples input from to = length input * to / (2 * from)

unfoldable pub resample_pcm : Buffer → ℕ → ℕ → Result AudioError Buffer
resample_pcm input from to =
    if from == to then ok input else resample_from input from to (output_samples input from to) 0

unfoldable pub downsample48to16 : Buffer → Result AudioError Buffer
downsample48to16 input = resample_pcm input webrtc_rate volc_input_rate

unfoldable pub upsample24to48 : Buffer → Result AudioError Buffer
upsample24to48 input = resample_pcm input volc_output_rate webrtc_rate
