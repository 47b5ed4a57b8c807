-- ===== src/Voice/LineSound/Quiet.antt =====
-- The quiet that the line plays now: music and silence since the last speech.
use otacon.Prelude.{
  ℕ, ◌-◌, ◌≤◌, ◌≡◌, refl, ap, true, false, ◌∙◌, none, some, List, [], ◌∷◌, ◌++◌, arith, inl, inr,
  Bool-cases, Option-cases, All,
}
use otacon.Voice.LineSound.{
  SoundRun, is_speech, hold_after_seconds, last_to, quiet_from, quiet_since,
}

abbrev pub IsQuiet : SoundRun → Type 0
IsQuiet r = is_speech r.sound ≡ false

-- No run at all, or speech last.
abbrev pub EndsInSpeech : List SoundRun → Type 0
EndsInSpeech [] = Unit
EndsInSpeech (r ∷ runs) = is_speech r.sound ≡ true

-- The runs since the last speech, and the start of their first.
abbrev pub QuietFrom : List SoundRun → ℕ → Type 0
QuietFrom runs from =
    (newer : List SoundRun) × (first : SoundRun) × (older : List SoundRun) × (runs
      ≡ newer ++ first ∷ older)
    × All IsQuiet newer
    × IsQuiet first
    × EndsInSpeech older
    × (first.from ≡ from)

quiet_from-none : (runs : List SoundRun) → quiet_from runs ≡ none → EndsInSpeech runs
unfolding quiet_from
quiet_from-none [] e = tt
quiet_from-none (r ∷ runs) e = ground (arith, e)

quiet_from_lem :
    (runs : List SoundRun) (from : ℕ) → quiet_from runs ≡ some from → QuietFrom runs from
unfolding quiet_from
quiet_from_lem [] from e = cc
quiet_from_lem (r ∷ runs) from e = elim (Bool-cases (is_speech r.sound)) [
  | inl speaks ↦ cc (rw speaks at e)
  | inr quiet ↦ elim (Option-cases (quiet_from runs)) [
    | inl ends ↦
        ([], r, runs, refl, tt, quiet, quiet_from-none runs ends, ground (arith, e, quiet, ends))
    | inr (f, later) ↦
        let (newer, first, older, split, all, one, ends, start) = quiet_from_lem runs f later in
        (
          r ∷ newer,
          first,
          older,
          ap (◌∷◌ r) split,
          (quiet, all),
          one,
          ends,
          ground (arith, e, quiet, later, start),
        )
  ]
]

-- When the line is said to be quiet since a time, every run since the last speech is music or
-- silence, the first of them began at that time, and the newest ends five seconds or more later.
pub quiet_since_lem :
    (runs : List SoundRun) (from : ℕ)
    → quiet_since runs ≡ some from
    → QuietFrom runs from × (hold_after_seconds ≤ last_to runs - from)
unfolding quiet_since
quiet_since_lem runs from e = elim (Option-cases (quiet_from runs)) [
  | inl ends ↦ absurd (ground (arith, e, ends))
  | inr (f, found) ↦
      let same : f ≡ from = ground (arith, e, found) in
      (quiet_from_lem runs from (found ∙ ap some same), ground (arith, e, found))
]
