-- ===== src/Audio/Resample/Down.antt =====
-- `downsample48to16` of plugin/node/audio-pipeline.ts.
use openclaw_rtc_plugin.Common.{
  ℕ, ◌+◌, ◌-◌, ◌*◌, ◌/◌, ◌%◌, ◌<◌, ◌≡◌, ap, sym, subst, ◌∙◌, min, ok, arith, length, All,
}
use openclaw_rtc_plugin.Common.Int.{ℤ}
use openclaw_rtc_plugin.Audio.{Buffer}
use openclaw_rtc_plugin.Audio.Resample.{
  read_int16_le, sample_at, output_samples, resample_pcm, downsample48to16,
}
use openclaw_rtc_plugin.Audio.Resample.Samples.{
  IsByte, IsInt16, clamp16-id, interpolate-16000, value, read-value, resample_from-reads,
}

module _ (input : Buffer) (bytes : All IsByte input) where
  sample : ℕ → ℤ
  sample j = value (read_int16_le input (6 * j))

  sample_at-down :
      (j : ℕ)
      → j < length input / 6
      → (sample_at input 48000 16000 (0 + j) ≡ ok (sample j)) × IsInt16 (sample j)
  unfolding sample_at sample
  sample_at-down j lt =
      let (first, fits) = read-value input (6 * j) bytes (omega arith) in
      let offset : (0 + j) * 48000 / 16000 * 2 ≡ 6 * j = omega arith in
      let at : read_int16_le input ((0 + j) * 48000 / 16000 * 2)
          ≡ ok (value (read_int16_le input (6 * j))) =
        subst (λ k. read_int16_le input k ≡ ok (value (read_int16_le input (6 * j)))) (sym offset)
          first in
      let (second, _) =
        read-value input (min (((0 + j) * 48000 / 16000 + 1) * 2) (length input - 2)) bytes
          (omega arith) in
      let rest : (0 + j) * 48000 % 16000 ≡ 0 = omega arith in
      (rw (at, second, rest, interpolate-16000) (ap ok (clamp16-id _ fits)), fits)

  -- Downsampling of any buffer of bytes succeeds, and keeps every third sample as it is.
  pub downsample_samples :
      (out : Buffer) × (downsample48to16 input ≡ ok out)
      × (length out ≡ 2 * (length input / 6))
      × ((j : ℕ) → j < length input / 6 → read_int16_le out (2 * j) ≡ read_int16_le input (6 * j))
  unfolding downsample48to16 resample_pcm sample
  downsample_samples =
      let count : output_samples input 48000 16000 ≡ length input / 6 = omega arith in
      let (out, e, len, reads) =
        resample_from-reads input 48000 16000 (length input / 6) 0 sample sample_at-down in
      (
        out,
        rw count e,
        len,
        λ j lt. reads j lt ∙ sym (read-value input (6 * j) bytes (omega arith)).0,
      )
