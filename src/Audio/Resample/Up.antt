-- ===== src/Audio/Resample/Up.antt =====
-- `upsample24to48` of plugin/node/audio-pipeline.ts.
use openclaw_rtc_plugin.Common.{
  ℕ, zero, suc, ◌+◌, ◌-◌, ◌*◌, ◌/◌, ◌%◌, ◌<◌, ◌≡◌, ap, sym, subst, ◌∙◌, min, ok, err, arith, length,
  All,
}
use openclaw_rtc_plugin.Common.Int.{ℤ}
use openclaw_rtc_plugin.Audio.{Buffer}
use openclaw_rtc_plugin.Audio.Resample.{
  out_of_range, read_int16_le, sample_at, resample_from, output_samples, resample_pcm,
  upsample24to48,
}
use openclaw_rtc_plugin.Audio.Resample.Samples.{
  IsByte, IsInt16, clamp16-id, interpolate-48000, interpolate_half, midpoint, midpoint-IsInt16,
  value, read-value, read_int16_le-past, resample_from-reads, resample_from-throws,
}

module _ (input : Buffer) (bytes : All IsByte input) where
  -- The sample at a byte offset of the input.
  source : ℕ → ℤ
  source k = value (read_int16_le input k)

  -- Where the next sample starts, the last one standing for its own successor.
  next_offset : ℕ → ℕ
  next_offset j = min (2 * j + 2) (length input - 2)

  sample_even :
      (j : ℕ)
      → 2 * j + 1 < length input
      → (sample_at input 24000 48000 (2 * j) ≡ ok (source (2 * j))) × IsInt16 (source (2 * j))
  unfolding sample_at source
  sample_even j lt =
      let (first, fits) = read-value input (2 * j) bytes lt in
      let offset : 2 * j * 24000 / 48000 * 2 ≡ 2 * j = omega arith in
      let at : read_int16_le input (2 * j * 24000 / 48000 * 2)
          ≡ ok (value (read_int16_le input (2 * j))) =
        subst (λ k. read_int16_le input k ≡ ok (value (read_int16_le input (2 * j)))) (sym offset)
          first in
      let (second, _) =
        read-value input (min ((2 * j * 24000 / 48000 + 1) * 2) (length input - 2)) bytes
          (omega arith) in
      let rest : 2 * j * 24000 % 48000 ≡ 0 = omega arith in
      (rw (at, second, rest, interpolate-48000) (ap ok (clamp16-id _ fits)), fits)

  sample_odd :
      (j : ℕ)
      → 2 * j + 1 < length input
      → (sample_at input 24000 48000 (2 * j + 1)
          ≡ ok (midpoint (source (2 * j)) (source (next_offset j))))
        × IsInt16 (midpoint (source (2 * j)) (source (next_offset j)))
  unfolding sample_at source next_offset
  sample_odd j lt =
      let (first, fits) = read-value input (2 * j) bytes lt in
      let offset : (2 * j + 1) * 24000 / 48000 * 2 ≡ 2 * j = omega arith in
      let at : read_int16_le input ((2 * j + 1) * 24000 / 48000 * 2)
          ≡ ok (value (read_int16_le input (2 * j))) =
        subst (λ k. read_int16_le input k ≡ ok (value (read_int16_le input (2 * j)))) (sym offset)
          first in
      let (second, fits') =
        read-value input (min (2 * j + 2) (length input - 2)) bytes (omega arith) in
      let offset' : min (2 * j + 2) (length input - 2)
          ≡ min (((2 * j + 1) * 24000 / 48000 + 1) * 2) (length input - 2) =
        omega arith in
      let at' : read_int16_le input (min (((2 * j + 1) * 24000 / 48000 + 1) * 2) (length input - 2))
          ≡ ok (value (read_int16_le input (min (2 * j + 2) (length input - 2)))) =
        subst
          (λ k.
            read_int16_le input k
            ≡ ok (value (read_int16_le input (min (2 * j + 2) (length input - 2)))))
          offset' second in
      let rest : (2 * j + 1) * 24000 % 48000 ≡ 24000 = omega arith in
      let inside = midpoint-IsInt16 _ _ fits fits' in
      (rw (at, at', rest, interpolate_half) (ap ok (clamp16-id _ inside)), inside)

  -- Output sample `i`, by the parity of `i`.
  abbrev by_parity : ℕ → ℕ → ℤ
  by_parity j zero = source (2 * j)
  by_parity j (suc _) = midpoint (source (2 * j)) (source (next_offset j))

  abbrev sample : ℕ → ℤ
  sample i = by_parity (i / 2) (i % 2)

  sample_at-up :
      (i : ℕ)
      → 2 * (i / 2) + 1 < length input
      → (sample_at input 24000 48000 (0 + i) ≡ ok (sample i)) × IsInt16 (sample i)
  sample_at-up i lt = split (i / 2) (i % 2) (omega arith) (omega arith) lt
    where
      split :
          (j r : ℕ)
          → i ≡ 2 * j + r
          → r < 2
          → 2 * j + 1 < length input
          → (sample_at input 24000 48000 (0 + i) ≡ ok (by_parity j r)) × IsInt16 (by_parity j r)
      split j zero e small lt' =
          let e' : 2 * j ≡ 0 + i = omega arith in
          subst
            (λ k. (sample_at input 24000 48000 k ≡ ok (by_parity j 0)) × IsInt16 (by_parity j 0)) e'
            (sample_even j lt')
      split j (suc zero) e small lt' =
          let e' : 2 * j + 1 ≡ 0 + i = omega arith in
          subst
            (λ k. (sample_at input 24000 48000 k ≡ ok (by_parity j 1)) × IsInt16 (by_parity j 1)) e'
            (sample_odd j lt')
      split j (suc (suc r)) e small lt' = absurd (omega arith)

  sample_first : (j : ℕ) (a : ℤ) → read_int16_le input (2 * j) ≡ ok a → sample (2 * j) ≡ a
  unfolding source
  sample_first j a at_a =
      let half : 2 * j / 2 ≡ j = omega arith in
      let rest : 2 * j % 2 ≡ 0 = omega arith in (λ i. by_parity (half i) (rest i)) ∙ ap value at_a

  sample_second :
      (j : ℕ) (a b : ℤ)
      → read_int16_le input (2 * j) ≡ ok a
      → read_int16_le input (min (2 * j + 2) (length input - 2)) ≡ ok b
      → sample (2 * j + 1) ≡ midpoint a b
  unfolding source next_offset
  sample_second j a b at_a at_b =
      let half : (2 * j + 1) / 2 ≡ j = omega arith in
      let rest : (2 * j + 1) % 2 ≡ 1 = omega arith in
      (λ i. by_parity (half i) (rest i)) ∙ (λ i. midpoint (value (at_a i)) (value (at_b i)))

  upsample_reads :
      (n : ℕ)
      → length input ≡ 2 * n
      → (out : Buffer) × (upsample24to48 input ≡ ok out)
        × (length out ≡ 4 * n)
        × ((j : ℕ)
            → j < n
            → (a b : ℤ) → read_int16_le input (2 * j) ≡ ok a
            → read_int16_le input (min (2 * j + 2) (length input - 2)) ≡ ok b
            → (read_int16_le out (4 * j) ≡ ok a)
              × (read_int16_le out (4 * j + 2) ≡ ok (midpoint a b)))
  unfolding upsample24to48 resample_pcm
  upsample_reads n even =
      let count : output_samples input 24000 48000 ≡ 2 * n = omega arith in
      let (out, e, len, reads) =
        resample_from-reads input 24000 48000 (2 * n) 0 sample
          (λ i lt. sample_at-up i (omega arith)) in
      (
        out,
        ap (λ k. resample_from input 24000 48000 k 0) count ∙ e,
        omega arith,
        λ j lt a b at_a at_b.
            let first = reads (2 * j) (omega arith) ∙ ap ok (sample_first j a at_a) in
            let second = reads (2 * j + 1) (omega arith) ∙ ap ok (sample_second j a b at_a at_b) in
            let e_first : 2 * (2 * j) ≡ 4 * j = omega arith in
            let e_second : 2 * (2 * j + 1) ≡ 4 * j + 2 = omega arith in
            (
              subst (λ k. read_int16_le out k ≡ ok a) e_first first,
              subst (λ k. read_int16_le out k ≡ ok (midpoint a b)) e_second second,
            ),
      )

  -- On a whole number of samples, `n`, upsampling succeeds and gives twice as many: sample 2j is
  -- sample j of the input, and sample 2j + 1 is half-way from it to the next one, a half rounded up,
  -- or, behind the last sample, the last sample again.
  pub upsample_samples :
      (n : ℕ)
      → length input ≡ 2 * n
      → (out : Buffer) × (upsample24to48 input ≡ ok out)
        × (length out ≡ 4 * n)
        × ((j : ℕ)
            → j < n
            → (read_int16_le out (4 * j) ≡ read_int16_le input (2 * j))
              × (read_int16_le out (4 * j + 2)
                  ≡ ok (
                      midpoint
                        (value (read_int16_le input (2 * j)))
                        (value (read_int16_le input (min (2 * j + 2) (length input - 2)))))))
  upsample_samples n even =
      let (out, e, len, reads) = upsample_reads n even in
      (
        out,
        e,
        len,
        λ j lt.
            let here_j = (read-value input (2 * j) bytes (omega arith)).0 in
            let next_j =
              (read-value input (min (2 * j + 2) (length input - 2)) bytes (omega arith)).0 in
            let (first, second) = reads j lt _ _ here_j next_j in (first ∙ sym here_j, second),
      )

  -- A buffer of bytes that ends in half a sample makes upsampling throw, at that half.
  upsample_odd_throws :
      (n : ℕ) → length input ≡ 2 * n + 1 → upsample24to48 input ≡ err (out_of_range (2 * n))
  unfolding upsample24to48 resample_pcm sample_at
  upsample_odd_throws n odd =
      let count : output_samples input 24000 48000 ≡ 2 * n + 1 = omega arith in
      let offset : (0 + 2 * n) * 24000 / 48000 * 2 ≡ 2 * n = omega arith in
      let past : read_int16_le input ((0 + 2 * n) * 24000 / 48000 * 2)
          ≡ err (out_of_range (2 * n)) =
        subst (λ k. read_int16_le input k ≡ err (out_of_range (2 * n))) (sym offset)
          (read_int16_le-past input (2 * n) (omega arith)) in
      ap (λ k. resample_from input 24000 48000 k 0) count
      ∙ resample_from-throws input 24000 48000 (2 * n + 1) 0 (2 * n) (out_of_range (2 * n)) sample
          (omega arith) (λ i lt. (sample_at-up i (omega arith)).0) (rw past)
