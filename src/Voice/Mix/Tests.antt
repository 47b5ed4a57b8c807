-- ===== src/Voice/Mix/Tests.antt =====
-- Mixing at concrete inputs, those of mix.test.ts among them.
use otacon.Prelude.{ℕ, ◌≡◌, refl, List, [], ◌∷◌, some, length}
use otacon.Prelude.Int.{pos, negsuc, ◌+ℤ◌}
use otacon.Voice.Pcm.{samples, read_sample, clamp16}
use otacon.Voice.Mix.{
  CallMix, empty, model, trim, line, take_bytes, take_loop, mix_loop, sends, plays, drops, run,
}
use otacon.Voice.Mix.Queue.{buffered, IsTidy, run-IsTidy}
use otacon.Voice.Mix.Pace.{line_lem, mixed}

-- A burst of 10, 20 and 30, in one chunk.
abbrev burst : CallMix
burst = record { queue = (10 ∷ 0 ∷ 20 ∷ 0 ∷ 30 ∷ 0 ∷ []) ∷ []; queued = 6 }

queues_burst : model empty (10 ∷ 0 ∷ 20 ∷ 0 ∷ 30 ∷ 0 ∷ []) ≡ burst
unfolding model trim
queues_burst = refl

plays_along : (line burst (1 ∷ 0 ∷ 1 ∷ 0 ∷ [])).0 ≡ some (11 ∷ 0 ∷ 21 ∷ 0 ∷ [])
unfolding line take_bytes take_loop mix_loop read_sample clamp16 ◌+ℤ◌
plays_along = refl

clips :
    mixed (pos 32000 ∷ negsuc 31999 ∷ []) (pos 32000 ∷ negsuc 31999 ∷ [])
    ≡ pos 32767 ∷ negsuc 32767 ∷ []
unfolding clamp16 ◌+ℤ◌
clips = refl

line_lem_example :
    (out : List ℕ) × ((line burst (1 ∷ 0 ∷ [])).0 ≡ some out)
    × (samples out ≡ mixed (samples (1 ∷ 0 ∷ [])) (samples (buffered burst.queue)))
    × (length out ≡ 2)
    × (buffered (line burst (1 ∷ 0 ∷ [])).1.queue ≡ 20 ∷ 0 ∷ 30 ∷ 0 ∷ [])
line_lem_example = line_lem burst (1 ∷ 0 ∷ []) tt

run-IsTidy_example : IsTidy (
    run empty (
      sends (10 ∷ 0 ∷ 20 ∷ 0 ∷ 30 ∷ 0 ∷ [])
      ∷ plays (1 ∷ 0 ∷ [])
      ∷ sends (5 ∷ 0 ∷ [])
      ∷ drops
      ∷ sends (7 ∷ 0 ∷ [])
      ∷ []))
run-IsTidy_example = run-IsTidy (
    sends (10 ∷ 0 ∷ 20 ∷ 0 ∷ 30 ∷ 0 ∷ [])
    ∷ plays (1 ∷ 0 ∷ [])
    ∷ sends (5 ∷ 0 ∷ [])
    ∷ drops
    ∷ sends (7 ∷ 0 ∷ [])
    ∷ [])
