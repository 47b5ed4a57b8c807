-- ===== src/Voice/Mix.antt =====
-- mix.ts: what a listener hears, both sides of a call mixed at the pace of the line.
pub mod Queue
pub mod Pace
mod Tests
use otacon.Prelude.{
  ℕ, suc, ◌+◌, ◌-◌, ◌≡◌, List, [], ◌∷◌, ◌++◌, Option, none, some, ltb, ◌==◌, if◌then◌else◌, length,
  take, drop, min,
}
use otacon.Prelude.Int.{ℤ, pos, ◌+ℤ◌}
use otacon.Voice.Pcm.{read_sample, low_byte, high_byte, clamp16}

-- The voice model's audio not yet played, oldest chunk first, and its size in bytes.
pub record CallMix : Type 0 where
  pub queue : List (List ℕ)
  pub queued : ℕ

abbrev pub max_queued_bytes : ℕ
max_queued_bytes = 960000

abbrev pub empty : CallMix
empty = record { queue = []; queued = 0 }

-- The loop of `model`: old chunks go while the queue is too long, but never the last chunk.
pub trim : List (List ℕ) → ℕ → CallMix
trim [] queued = record { queue = []; queued = queued }
trim (x ∷ []) queued = record { queue = x ∷ []; queued = queued }
trim (x ∷ y ∷ queue) queued =
    if ltb max_queued_bytes queued
    then trim (y ∷ queue) (queued - length x)
    else record { queue = x ∷ y ∷ queue; queued = queued }

unfoldable pub model : CallMix → List ℕ → CallMix
model m [] = m
model m (b ∷ bs) = trim (m.queue ++ (b ∷ bs) ∷ []) (m.queued + length (b ∷ bs))

unfoldable pub clear : CallMix → CallMix
clear m = empty

-- The loop of `take`: what it takes, and the queue that stays.
unfoldable pub take_loop : ℕ → List (List ℕ) → List ℕ × List (List ℕ)
take_loop left [] = ([], [])
take_loop left (head ∷ queue) =
    let n = min (length head) left in
    let rest = take_loop (left - n) queue in
    if left == 0
    then ([], head ∷ queue)
    else if n == length head
    then (head ++ rest.0, rest.1)
    else (take n head, drop n head ∷ queue)

unfoldable pub take_bytes : CallMix → ℕ → List ℕ × CallMix
unfolding take_loop
take_bytes m bytes =
    let (got, queue) = take_loop bytes m.queue in
    (got, record { queue = queue; queued = m.queued - length got })

-- The loop of `line`. A read past the end of the model's audio throws, which is `none`.
unfoldable pub mix_loop : List ℕ → List ℕ → Option (List ℕ)
mix_loop [] model = some []
mix_loop (lo ∷ []) model = some []
mix_loop (lo ∷ hi ∷ pcm) [] = elim (mix_loop pcm []) [
  | none ↦ none
  | some out ↦ let s = clamp16 (read_sample lo hi +ℤ pos 0) in some (low_byte s ∷ high_byte s ∷ out)
]
mix_loop (lo ∷ hi ∷ pcm) (m ∷ []) = none
mix_loop (lo ∷ hi ∷ pcm) (mlo ∷ mhi ∷ model) = elim (mix_loop pcm model) [
  | none ↦ none
  | some out ↦
      let s = clamp16 (read_sample lo hi +ℤ read_sample mlo mhi) in
      some (low_byte s ∷ high_byte s ∷ out)
]

-- `pcm.length - (pcm.length % 2)`
abbrev pub whole_bytes : List ℕ → ℕ
whole_bytes [] = 0
whole_bytes (lo ∷ []) = 0
whole_bytes (lo ∷ hi ∷ pcm) = suc (suc (whole_bytes pcm))

unfoldable pub line : CallMix → List ℕ → Option (List ℕ) × CallMix
line m pcm = let (got, m') = take_bytes m (whole_bytes pcm) in (mix_loop pcm got, m')

-- What the owner of a mix calls: with the model's audio, with a chunk of the line, or at a barge-in.
pub data Input : Type 0 where
  sends plays : List ℕ → Input
  drops : Input

-- The mix after a call. A `line` that throws has taken the model's audio before.
unfoldable pub step : CallMix → Input → CallMix
step m (sends pcm) = model m pcm
step m (plays pcm) = (line m pcm).1
step m drops = clear m

unfoldable pub run : CallMix → List Input → CallMix
run m [] = m
run m (i ∷ is) = run (step m i) is
