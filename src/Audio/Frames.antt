-- ===== src/Audio/Frames.antt =====
-- `chunkPcm` and `AudioFrameAccumulator` of plugin/node/audio-pipeline.ts. Both loops take fuel; a
-- frame size of 0 makes them run for ever in the source, and `none` here.
use openclaw_rtc_plugin.Common.{
  ℕ, zero, suc, ◌+◌, ◌-◌, min, Bool, true, false, Option, none, some, List, [], ◌∷◌, ◌++◌, ltb, leb,
  ◌==◌, if◌then◌else◌, length, take, drop, replicate,
}
pub mod Cut
pub mod Chunks
pub mod Stream
use mathlib.Core.Option
use openclaw_rtc_plugin.Audio.{Buffer}

-- `buf.subarray(from, to)`
abbrev pub subarray : Buffer → ℕ → ℕ → Buffer
subarray buf from to = take (to - from) (drop from buf)

-- `Buffer.alloc(size)` with `buf` copied in, as far as it fits.
unfoldable pub padded : ℕ → Buffer → Buffer
padded size buf = take size buf ++ replicate (size - length buf) 0

-- The loop of `chunkPcm` from index `i`: the chunks that it yields.
unfoldable pub chunk_from : ℕ → Buffer → ℕ → ℕ → Option (List Buffer)
chunk_from zero audio size i = none
chunk_from (suc fuel) audio size i =
    let rest = chunk_from fuel audio size (i + size) in
    let chunk = subarray audio i (min (i + size) (length audio)) in
    let first = if ltb (length chunk) size then padded size chunk else chunk in
    if ltb i (length audio) then Option.map (λ cs. first ∷ cs) rest else some []

-- One round for each byte and the last test are enough.
unfoldable pub chunk_pcm : Buffer → ℕ → Option (List Buffer)
chunk_pcm audio size = chunk_from (suc (length audio)) audio size 0

pub record AudioFrameAccumulator : Type 0 where
  pub buffer : Buffer
  pub frame_size : ℕ

unfoldable pub new : ℕ → AudioFrameAccumulator
new size = record { buffer = []; frame_size = size }

-- The loop of `push`: the frames that it cuts off, and the buffer that is left.
unfoldable pub cut_frames : ℕ → ℕ → Buffer → Option (List Buffer × Buffer)
cut_frames zero size buf = none
cut_frames (suc fuel) size buf =
    let rest = cut_frames fuel size (drop size buf) in
    if leb size (length buf)
    then Option.map (λ r. (take size buf ∷ r.0, r.1)) rest
    else some ([], buf)

unfoldable pub push : AudioFrameAccumulator → Buffer → Option (AudioFrameAccumulator × List Buffer)
push a chunk =
    let buf = a.buffer ++ chunk in
    Option.map (λ r. (record a { buffer = r.1 }, r.0))
      (cut_frames (suc (length buf)) a.frame_size buf)

unfoldable pub flush : AudioFrameAccumulator → AudioFrameAccumulator × Option Buffer
flush a =
    if length a.buffer == 0
    then (a, none)
    else (record a { buffer = [] }, some (padded a.frame_size a.buffer))

unfoldable pub reset : AudioFrameAccumulator → AudioFrameAccumulator
reset a = record a { buffer = [] }
