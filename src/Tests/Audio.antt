-- ===== src/Tests/Audio.antt =====
-- Runs of plugin/node/audio-pipeline.ts on a few bytes.
use openclaw_rtc_plugin.Common.{
  ℕ, ◌+◌, ◌*◌, ◌/◌, ◌<◌, ◌≡◌, refl, min, Bool, true, some, List, [], ◌∷◌, ◌++◌, ok, length, concat,
  ltb, ◌&&◌, replicate, All, arith,
}
use openclaw_rtc_plugin.Audio.{Buffer}
use openclaw_rtc_plugin.Audio.Frames.{
  AudioFrameAccumulator, new, flush, chunk_pcm, chunk_from, padded,
}
use openclaw_rtc_plugin.Audio.Frames.Cut.{IsFrame}
use openclaw_rtc_plugin.Audio.Frames.Chunks.{chunk_pcm_total}
use openclaw_rtc_plugin.Audio.Frames.Stream.{push_all, flushed, stream-chunk_pcm}
use openclaw_rtc_plugin.Audio.Resample.{
  read_int16_le, downsample48to16, upsample24to48, resample_pcm, resample_from, sample_at,
  interpolate, clamp16,
}
use openclaw_rtc_plugin.Audio.Resample.Samples.{value, IsByte, midpoint}
use openclaw_rtc_plugin.Audio.Resample.Down.{downsample_samples}
use openclaw_rtc_plugin.Audio.Resample.Up.{upsample_samples}

abbrev three : Buffer
three = 1 ∷ 2 ∷ 3 ∷ []

abbrev pieces : List Buffer
pieces = three ∷ [] ∷ (4 ∷ 5 ∷ []) ∷ []

abbrev held : AudioFrameAccumulator
held = record { buffer = 9 ∷ []; frame_size = 2 }

stream-chunk_pcm_example :
    (a : AudioFrameAccumulator) × (frames : List Buffer) × (push_all (new 2) pieces
      ≡ some (a, frames))
    × (chunk_pcm (concat pieces) 2 ≡ some (frames ++ flushed (flush a).1))
stream-chunk_pcm_example = stream-chunk_pcm 2 pieces (omega arith)

chunk_pcm_total_example :
    (cs : List Buffer) × (k : ℕ) × (chunk_pcm three 2 ≡ some cs)
    × All (IsFrame 2) cs
    × (k < 2)
    × (concat cs ≡ three ++ replicate k 0)
chunk_pcm_total_example = chunk_pcm_total 2 three (omega arith)

chunked : chunk_pcm three 2 ≡ some ((1 ∷ 2 ∷ []) ∷ (3 ∷ 0 ∷ []) ∷ [])
unfolding chunk_pcm chunk_from padded
chunked = refl

-- Two samples, 100 and -2, at two bytes each.
abbrev two : Buffer
two = 100 ∷ 0 ∷ 254 ∷ 255 ∷ []

all_small : Buffer → Bool
all_small [] = true
all_small (b ∷ bs) = ltb b 256 && all_small bs

bytes : (buf : Buffer) → all_small buf ≡ true → All IsByte buf
unfolding all_small
bytes [] h = tt
bytes (b ∷ bs) h = (ground arith, bytes bs (ground arith))

upsample_samples_example :
    (out : Buffer) × (upsample24to48 two ≡ ok out)
    × (length out ≡ 8)
    × ((j : ℕ)
        → j < 2
        → (read_int16_le out (4 * j) ≡ read_int16_le two (2 * j))
          × (read_int16_le out (4 * j + 2)
              ≡ ok (
                  midpoint
                    (value (read_int16_le two (2 * j)))
                    (value (read_int16_le two (min (2 * j + 2) 2))))))
unfolding all_small
upsample_samples_example = upsample_samples two (bytes two refl) 2 refl

upsampled : upsample24to48 two ≡ ok (100 ∷ 0 ∷ 49 ∷ 0 ∷ 254 ∷ 255 ∷ 254 ∷ 255 ∷ [])
unfolding upsample24to48 resample_pcm resample_from sample_at interpolate clamp16 read_int16_le
upsampled = refl

-- Four samples at 48 kHz.
abbrev four : Buffer
four = 1 ∷ 0 ∷ 2 ∷ 0 ∷ 3 ∷ 0 ∷ 4 ∷ 128 ∷ []

downsampled : downsample48to16 four ≡ ok (1 ∷ 0 ∷ [])
unfolding downsample48to16 resample_pcm resample_from sample_at interpolate clamp16 read_int16_le
downsampled = refl

downsample_samples_example :
    (out : Buffer) × (downsample48to16 four ≡ ok out)
    × (length out ≡ 2 * (8 / 6))
    × ((j : ℕ) → j < 8 / 6 → read_int16_le out (2 * j) ≡ read_int16_le four (6 * j))
unfolding all_small
downsample_samples_example = downsample_samples four (bytes four refl)
