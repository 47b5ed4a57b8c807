-- ===== src/Voice/Mission/Poll.antt =====
-- What waits for the model to speak is not kept waiting.
use otacon.Prelude.{
  ℕ, zero, suc, ◌+◌, ◌-◌, ◌*◌, ◌<◌, ◌≤◌, ◌≡◌, refl, ◌⊎◌, inl, inr, true, false, ◌&&◌, ◌||◌, Option,
  some, none, arith, ltb, Bool-cases, if-true, if-false,
}
use otacon.Voice.Mission.Tools.{
  Seen, Polled, gives_up, runs, polls_again, poll, poll_next, poll_from,
}

-- Why a poll is the last: the call is over; or it is not, and the model has spoken since and has then
-- been silent for 1.2 s, or 15 s have gone by.
abbrev pub Decides : ℕ → Seen → Polled → Type 0
Decides since s gives_up = s.over ≡ true
Decides since s runs =
    (s.over ≡ false)
    × (((since < s.speech_at) × (1200 < s.now - s.speech_at)) ⊎ (since + 15_000 < s.now))
Decides since s polls_again = ⊥

abbrev Goes : ℕ → Seen → Polled → Type 0
Goes since s p = Decides since s p ⊎ ((p ≡ polls_again) × (s.now ≤ since + 15_000))

poll-Goes : (since : ℕ) (s : Seen) → Goes since s (poll since s)
unfolding poll
poll-Goes since s = elim (Bool-cases s.over) [
  | inl over ↦ if-true (Goes since s) s.over gives_up _ over (inl over)
  | inr on ↦
      if-false (Goes since s) s.over gives_up _ on
        (elim (Bool-cases (
          (ltb since s.speech_at && ltb 1200 (s.now - s.speech_at))
          || ltb (since + 15_000) s.now)) [
            | inl due ↦ if-true (Goes since s) _ runs polls_again due (inl (on, why due))
            | inr early ↦
                if-false (Goes since s) _ runs polls_again early (inr (refl, ground (arith, early)))
          ])
]
  where
    why :
        ((ltb since s.speech_at && ltb 1200 (s.now - s.speech_at)) || ltb (since + 15_000) s.now)
          ≡ true
        → ((since < s.speech_at) × (1200 < s.now - s.speech_at)) ⊎ (since + 15_000 < s.now)
    why due = ground (arith, due)

abbrev pub Ends : ℕ → (ℕ → Seen) → Option (ℕ × Polled) → Type 0
Ends since seen none = ⊥
Ends since seen (some (k, p)) = (k ≤ 76) × Decides since (seen k) p

poll_next-Ends :
    (since : ℕ) (seen : ℕ → Seen) (p : Polled) (later : Option (ℕ × Polled)) (k : ℕ)
    → k ≤ 76
    → Goes since (seen k) p
    → ((seen k).now ≤ since + 15_000 → Ends since seen later)
    → Ends since seen (poll_next p later k)
poll_next-Ends since seen gives_up later k le (inl h) next = (le, h)
poll_next-Ends since seen runs later k le (inl h) next = (le, h)
poll_next-Ends since seen polls_again later k le (inr (e, early)) next = next early
poll_next-Ends since seen polls_again later k le (inl h) next = elim h [ ]
poll_next-Ends since seen gives_up later k le (inr (e, early)) next = absurd (cc e)
poll_next-Ends since seen runs later k le (inr (e, early)) next = absurd (cc e)

poll_from-Ends :
    (since : ℕ) (seen : ℕ → Seen)
    → ((k : ℕ) → since + 200 * k ≤ (seen k).now)
    → (fuel k : ℕ) → k + suc fuel ≡ 77
    → Ends since seen (poll_from (suc fuel) since seen k)
unfolding poll_from
poll_from-Ends since seen late zero k left =
    poll_next-Ends since seen (poll since (seen k)) none k (omega arith) (poll-Goes since (seen k))
      (λ early. absurd (omega (arith, late k, early, left)))
poll_from-Ends since seen late (suc fuel) k left =
    poll_next-Ends since seen (poll since (seen k)) (poll_from (suc fuel) since seen (suc k)) k
      (omega arith) (poll-Goes since (seen k))
      (λ early. poll_from-Ends since seen late fuel (suc k) (omega (arith, left)))

-- Polled every 200 ms or less often, what waits for the model to speak is run or given up by the 77th
-- poll: run only if the call is not over and either the model has spoken since and has then been silent
-- for 1.2 s, or 15 s have gone by; given up only if the call is over.
pub polls-Ends :
    (since : ℕ) (seen : ℕ → Seen)
    → ((k : ℕ) → since + 200 * k ≤ (seen k).now)
    → Ends since seen (poll_from 77 since seen 0)
polls-Ends since seen late = poll_from-Ends since seen late 76 0 refl
