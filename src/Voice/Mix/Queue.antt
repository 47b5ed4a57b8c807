-- ===== src/Voice/Mix/Queue.antt =====
-- What the queue of a mix holds, and in which order it is played.
use mathlib.Core.List.{append-nil, append_assoc}
use otacon.Prelude.{
  ℕ, zero, suc, false, ◌+◌, ◌-◌, ◌≤◌, ◌≡◌, refl, ap, sym, ◌∙◌, ◌⊎◌, inl, inr, List, [], ◌∷◌, ◌++◌,
  arith, ltb, length, take, drop, min, length-append, length-take, length-drop, take-append,
  drop-append, take_all, drop_all, ◌==◌, Bool-cases,
}
use otacon.Voice.Mix.{
  CallMix, max_queued_bytes, trim, model, take_loop, take_bytes, line, whole_bytes, clear, empty,
  Input, sends, plays, drops, step, run,
}

-- Everything queued, in order.
abbrev pub buffered : List (List ℕ) → List ℕ
buffered [] = []
buffered (x ∷ queue) = x ++ buffered queue

-- The queue gives out its oldest bytes, in order, as many as asked for if there are as many.
pub take_loop_lem :
    (n : ℕ) (queue : List (List ℕ))
    → ((take_loop n queue).0 ≡ take n (buffered queue))
      × (buffered (take_loop n queue).1 ≡ drop n (buffered queue))
unfolding take_loop
take_loop_lem zero [] = (refl, refl)
take_loop_lem (suc n) [] = (refl, refl)
take_loop_lem zero (head ∷ queue) = (refl, refl)
take_loop_lem (suc n) (head ∷ queue) =
    elim (Bool-cases (min (length head) (suc n) == length head)) [
      | inl whole ↦
          let fits : length head ≤ suc n = ground (arith, whole) in
          let same : min (length head) (suc n) ≡ length head = ground (arith, whole) in
          let (got, kept) = take_loop_lem (suc n - length head) queue in
          rw (going, whole, same, take_append_fit fits, drop_append_fit fits)
            (ap (◌++◌ head) got, kept)
      | inr part ↦
          let over : suc n ≤ length head = ground (arith, part) in
          let same : min (length head) (suc n) ≡ suc n = omega arith in
          rw (going, part, same, take_append_over over, drop_append_over over) (refl, refl)
    ]
  where
    going : (suc n == 0) ≡ false
    going = ground arith

    take_append_fit :
        length head ≤ suc n
        → take (suc n) (head ++ buffered queue)
          ≡ head ++ take (suc n - length head) (buffered queue)
    take_append_fit fits = rw (take-append (suc n) head, take_all (suc n) head fits)

    drop_append_fit :
        length head ≤ suc n
        → drop (suc n) (head ++ buffered queue) ≡ drop (suc n - length head) (buffered queue)
    drop_append_fit fits = rw (drop-append (suc n) head, drop_all (suc n) head fits)

    take_append_over :
        suc n ≤ length head → take (suc n) (head ++ buffered queue) ≡ take (suc n) head
    take_append_over over =
        let none_left : suc n - length head ≡ 0 = omega arith in
        rw (take-append (suc n) head, none_left, append-nil)

    drop_append_over :
        suc n ≤ length head
        → drop (suc n) (head ++ buffered queue) ≡ drop (suc n) head ++ buffered queue
    drop_append_over over =
        let none_left : suc n - length head ≡ 0 = omega arith in
        rw (drop-append (suc n) head, none_left)

-- The size is counted right, and the queue is within its limit or a single chunk.
pub record IsTidy (m : CallMix) : Type 0 where
  pub counted : m.queued ≡ length (buffered m.queue)
  pub limited : (m.queued ≤ max_queued_bytes) ⊎ (length m.queue ≤ 1)

trim-IsTidy : (queue : List (List ℕ)) (n : ℕ) → n ≡ length (buffered queue) → IsTidy (trim queue n)
unfolding trim
trim-IsTidy [] n h = record { counted = h; limited = inr (omega arith) }
trim-IsTidy (x ∷ []) n h = record { counted = h; limited = inr (omega arith) }
trim-IsTidy (x ∷ y ∷ queue) n h = elim (Bool-cases (ltb max_queued_bytes n)) [
  | inl over ↦ rw over (
      trim-IsTidy (y ∷ queue) (n - length x)
        (omega (arith, h, length-append {0} x (buffered (y ∷ queue)))))
  | inr fits ↦ rw fits (record { counted = h; limited = inl (ground (arith, fits)) })
]

buffered-append : (q r : List (List ℕ)) → buffered (q ++ r) ≡ buffered q ++ buffered r
buffered-append [] r = refl
buffered-append (x ∷ q) r =
    ap (◌++◌ x) (buffered-append q r) ∙ sym (append_assoc x (buffered q) (buffered r))

pub model-IsTidy : (m : CallMix) (pcm : List ℕ) → IsTidy m → IsTidy (model m pcm)
unfolding model
model-IsTidy m [] t = t
model-IsTidy m (b ∷ bs) t = trim-IsTidy (m.queue ++ (b ∷ bs) ∷ []) (m.queued + length (b ∷ bs)) (
    omega (
      arith,
      t.counted,
      ap length (buffered-append m.queue ((b ∷ bs) ∷ [])),
      length-append {0} (buffered m.queue) (b ∷ bs ++ []),
      length-append {0} (b ∷ bs) [],
    ))

length-take_loop : (n : ℕ) (queue : List (List ℕ)) → length (take_loop n queue).1 ≤ length queue
unfolding take_loop
length-take_loop n [] = omega arith
length-take_loop n (head ∷ queue) = ground (arith, length-take_loop (n - min (length head) n) queue)

pub take_bytes-IsTidy : (m : CallMix) (n : ℕ) → IsTidy m → IsTidy (take_bytes m n).1
unfolding take_bytes
take_bytes-IsTidy m n t = record {
  counted = rw (got, kept) (omega (arith, t.counted, length-take {0} n all, length-drop {0} n all));
  limited = limit t.limited;
}
  where
    all : List ℕ
    all = buffered m.queue

    got : (take_loop n m.queue).0 ≡ take n all
    got = (take_loop_lem n m.queue).0

    kept : buffered (take_loop n m.queue).1 ≡ drop n all
    kept = (take_loop_lem n m.queue).1

    limit :
        (m.queued ≤ max_queued_bytes) ⊎ (length m.queue ≤ 1)
        → (m.queued - length (take_loop n m.queue).0 ≤ max_queued_bytes)
          ⊎ (length (take_loop n m.queue).1 ≤ 1)
    limit (inl h) = inl (omega arith)
    limit (inr h) = inr (omega (arith, length-take_loop n m.queue))

step-IsTidy : (m : CallMix) (i : Input) → IsTidy m → IsTidy (step m i)
unfolding step line clear
step-IsTidy m (sends pcm) t = model-IsTidy m pcm t
step-IsTidy m (plays pcm) t = take_bytes-IsTidy m (whole_bytes pcm) t
step-IsTidy m drops t = record { counted = refl; limited = inl (omega arith) }

run_from-IsTidy : (m : CallMix) (is : List Input) → IsTidy m → IsTidy (run m is)
unfolding run
run_from-IsTidy m [] t = t
run_from-IsTidy m (i ∷ is) t = run_from-IsTidy (step m i) is (step-IsTidy m i t)

-- Whatever the voice model sends, the line plays and barge-ins drop, in any order from the start, the
-- queue's size in bytes is counted right, and the queue stays within its limit of 30 seconds unless it
-- is a single chunk.
pub run-IsTidy : (is : List Input) → IsTidy (run empty is)
run-IsTidy is = run_from-IsTidy empty is (record { counted = refl; limited = inl (omega arith) })
