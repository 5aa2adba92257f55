-- ===== src/Audio/Frames/Stream.antt =====
-- `AudioFrameAccumulator` of plugin/node/audio-pipeline.ts over a stream of buffers.
use mathlib.Core.Option
use openclaw_rtc_plugin.Common.{
  ℕ, suc, ◌<◌, ◌≡◌, refl, ap, subst, sym, ◌∙◌, Option, none, some, List, [], ◌∷◌, ◌++◌, arith,
  length, concat, append_assoc, append-nil, concat-append, All-append,
}
use openclaw_rtc_plugin.Audio.{Buffer}
use openclaw_rtc_plugin.Audio.Frames.{AudioFrameAccumulator, new, push, flush, chunk_pcm}
use openclaw_rtc_plugin.Audio.Frames.Cut.{IsFrame, Cuts, cut_frames-Cuts, Cuts-unique}
use openclaw_rtc_plugin.Audio.Frames.Chunks.{last_chunk, chunk_pcm-Cuts}

-- For a positive frame size `push` ends: it returns whole frames and keeps a rest shorter than one,
-- and no byte is lost, made up or moved.
push-Cuts :
    (a : AudioFrameAccumulator) (chunk : Buffer)
    → 0 < a.frame_size
    → (b : AudioFrameAccumulator) × (frames : List Buffer) × (push a chunk ≡ some (b, frames))
      × (b.frame_size ≡ a.frame_size)
      × Cuts a.frame_size frames b.buffer (a.buffer ++ chunk)
unfolding push
push-Cuts a chunk pos =
    let (r, e, c) =
      cut_frames-Cuts (suc (length (a.buffer ++ chunk))) a.frame_size (a.buffer ++ chunk) pos
        (omega arith) in
    (record a { buffer = r.1 }, r.0, rw e, refl, c)

-- The buffers of a stream, pushed one after another.
unfoldable pub push_all :
    AudioFrameAccumulator → List Buffer → Option (AudioFrameAccumulator × List Buffer)
push_all a [] = some (a, [])
push_all a (d ∷ ds) = elim (push a d) [
  | none ↦ none
  | some (b, frames) ↦ Option.map (λ r. (r.0, frames ++ r.1)) (push_all b ds)
]

Cuts-append :
    (size : ℕ) (fs gs : List Buffer) (p q buf more : Buffer)
    → Cuts size fs p buf
    → Cuts size gs q (p ++ more)
    → Cuts size (fs ++ gs) q (buf ++ more)
Cuts-append size fs gs p q buf more c d = record {
  whole = All-append (IsFrame size) fs gs c.whole d.whole;
  short = d.short;
  joined =
      ap (λ (x : Buffer). x ++ q) (concat-append fs gs)
      ∙ append_assoc (concat fs) (concat gs) q
      ∙ ap (λ (x : Buffer). concat fs ++ x) d.joined
      ∙ sym (append_assoc (concat fs) p more)
      ∙ ap (λ (x : Buffer). x ++ more) c.joined;
}

push_all-Cuts :
    (a : AudioFrameAccumulator) (ds : List Buffer)
    → 0 < a.frame_size
    → length a.buffer < a.frame_size
    → (b : AudioFrameAccumulator) × (frames : List Buffer) × (push_all a ds ≡ some (b, frames))
      × (b.frame_size ≡ a.frame_size)
      × Cuts a.frame_size frames b.buffer (a.buffer ++ concat ds)
unfolding push_all
push_all-Cuts a [] pos short =
    (a, [], refl, refl, record { whole = tt; short = short; joined = sym (append-nil a.buffer) })
push_all-Cuts a (d ∷ ds) pos short =
    let (b, frames, e, size, c) = push-Cuts a d pos in
    let (b', more, e', size', c') = push_all-Cuts b ds (omega arith) (rw size c.short) in
    (
      b',
      frames ++ more,
      rw (e, push_all, e'),
      size' ∙ size,
      rw (← append_assoc a.buffer d (concat ds)) (
          Cuts-append a.frame_size frames more b.buffer b'.buffer (a.buffer ++ d) (concat ds) c
            (subst (λ n. Cuts n more b'.buffer (b.buffer ++ concat ds)) size c')),
    )

same_result :
    (a b : AudioFrameAccumulator) (fs gs : List Buffer)
    → a.buffer ≡ b.buffer
    → a.frame_size ≡ b.frame_size
    → fs ≡ gs
    → ◌≡◌ {A = Option (AudioFrameAccumulator × List Buffer)} (some (a, fs)) (some (b, gs))
same_result a b fs gs p q r = λ i. some (record { buffer = p i; frame_size = q i }, r i)

-- For a positive frame size, a stream that is pushed in pieces gives the frames, and leaves the
-- rest, that one push of the whole gives.
push_all-push :
    (size : ℕ) (ds : List Buffer) → 0 < size → push_all (new size) ds ≡ push (new size) (concat ds)
unfolding new
push_all-push size ds pos =
    let (b, fs, e, same, c) = push_all-Cuts (new size) ds pos pos in
    let (b', gs, e', same', c') = push-Cuts (new size) (concat ds) pos in
    let (frames_eq, rest_eq) = Cuts-unique size fs gs b.buffer b'.buffer (concat ds) c c' in
    e ∙ same_result b b' fs gs rest_eq (same ∙ sym same') frames_eq ∙ sym e'

abbrev pub flushed : Option Buffer → List Buffer
flushed none = []
flushed (some b) = b ∷ []

flush-last_chunk :
    (a : AudioFrameAccumulator) → flushed (flush a).1 ≡ last_chunk a.frame_size a.buffer
unfolding flush
flush-last_chunk a = on_buffer a.frame_size a.buffer
  where
    on_buffer :
        (size : ℕ) (buf : Buffer)
        → flushed (flush (record { buffer = buf; frame_size = size })).1 ≡ last_chunk size buf
    on_buffer size [] = refl
    on_buffer size (b ∷ bs) = ground arith

-- For a positive frame size, the frames of a stream that is pushed in pieces, with the flushed one
-- behind them, are the chunks of the whole audio.
pub stream-chunk_pcm :
    (size : ℕ) (ds : List Buffer)
    → 0 < size
    → (a : AudioFrameAccumulator) × (frames : List Buffer) × (push_all (new size) ds
        ≡ some (a, frames))
      × (chunk_pcm (concat ds) size ≡ some (frames ++ flushed (flush a).1))
unfolding new
stream-chunk_pcm size ds pos =
    let (b, fs, e, same, c) = push_all-Cuts (new size) ds pos pos in
    (b, fs, e, rw (flush-last_chunk b, same) (chunk_pcm-Cuts size (concat ds) b.buffer fs pos c))
