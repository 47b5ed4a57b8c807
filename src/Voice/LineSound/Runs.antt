-- ===== src/Voice/LineSound/Runs.antt =====
-- The runs cover the seconds, each run sounds as its seconds do, and short interruptions are folded in.
use mathlib.Core.List.{reverse, reverse_aux, append_assoc}
use otacon.Prelude.{
  ℕ, suc, ◌+◌, ◌-◌, ◌<◌, ◌≡◌, ◌⊎◌, inl, inr, refl, sym, ap, ◌∙◌, subst, true, false, List, [], ◌∷◌,
  ◌++◌, arith, length, length-append, ltb, ◌&&◌, if-cases,
}
use otacon.Voice.LineSound.{
  Sound, SoundRun, same_sound, same_sound-eq, blip_seconds, add_second, runs_from, runs,
}

-- From the newest run back to `start` there is neither a gap nor an overlap.
abbrev pub Covers : ℕ → List SoundRun → ℕ → Type 0
Covers start [] end_ = start ≡ end_
Covers start (r ∷ runs) end_ = (r.to ≡ end_) × (r.from < r.to) × Covers start runs r.from

-- Neighbours differ, and what stands between two runs of one sound is no blip.
abbrev pub Folded : List SoundRun → Type 0
Folded [] = Unit
Folded (r ∷ []) = Unit
Folded (r ∷ s ∷ []) = same_sound s.sound r.sound ≡ false
Folded (r ∷ s ∷ t ∷ runs) =
    (same_sound s.sound r.sound ≡ false)
    × ((same_sound t.sound r.sound && ltb (s.to - s.from) blip_seconds) ≡ false)
    × Folded (s ∷ t ∷ runs)

add_second-Covers :
    (start : ℕ) (rs : List SoundRun) (sound : Sound) (t : ℕ)
    → Covers start rs t
    → Covers start (add_second rs sound t) (suc t)
unfolding add_second
add_second-Covers start [] sound t c = (omega arith, omega arith, c)
add_second-Covers start (last ∷ []) sound t c = ground arith
add_second-Covers start (last ∷ before ∷ rs) sound t c = ground arith

add_second-Folded :
    (rs : List SoundRun) (sound : Sound) (t : ℕ) → Folded rs → Folded (add_second rs sound t)
unfolding add_second
add_second-Folded [] sound t f = tt
add_second-Folded (last ∷ []) sound t f = ground arith
add_second-Folded (last ∷ before ∷ []) sound t f = ground arith
add_second-Folded (last ∷ before ∷ first ∷ []) sound t f = ground arith
add_second-Folded (last ∷ before ∷ first ∷ second ∷ rs) sound t f = ground arith

-- The seconds of one run, from either end: they begin and end with its sound, and a second of another
-- sound stands alone between two of its own.
abbrev pub Sounds : Sound → List Sound → Type 0
Sounds sound [] = ⊥
Sounds sound (x ∷ []) = x ≡ sound
Sounds sound (x ∷ y ∷ secs) = (x ≡ sound) × (Sounds sound (y ∷ secs) ⊎ Sounds sound secs)

-- The seconds are those of the runs, one stretch for each; both lists have the newest at their heads.
abbrev pub Plays : List Sound → List SoundRun → Type 0
Plays past [] = past ≡ []
Plays past (r ∷ runs) =
    (own : List Sound) × (before : List Sound) × (past ≡ own ++ before)
    × (length own ≡ r.to - r.from)
    × Sounds r.sound own
    × Plays before runs

module _ (sound : Sound) where
  Sounds-cons : (own : List Sound) → Sounds sound own → Sounds sound (sound ∷ own)
  Sounds-cons [] h = refl
  Sounds-cons (x ∷ own) h = (refl, inl h)

  Sounds-over :
      (other : Sound) (blip own : List Sound)
      → Sounds other blip
      → length blip < blip_seconds
      → Sounds sound own
      → Sounds sound (sound ∷ (blip ++ own))
  Sounds-over other (x ∷ []) own b short h = (refl, inr h)
  Sounds-over other [] own b short h = absurd b
  Sounds-over other (x ∷ y ∷ blip) own b short h = absurd (omega arith)

module _ (start : ℕ) (sound : Sound) (t : ℕ) (past : List Sound) where
  Plays-begin :
      (rs : List SoundRun)
      → Plays past rs
      → Plays (sound ∷ past) (record { sound = sound; from = t; to = t + 1 } ∷ rs)
  Plays-begin rs h = (sound ∷ [], past, refl, omega arith, refl, h)

  Plays-go_on :
      (last : SoundRun) (rs : List SoundRun)
      → Covers start (last ∷ rs) t
      → same_sound last.sound sound ≡ true
      → Plays past (last ∷ rs)
      → Plays (sound ∷ past) (record last { to = t + 1 } ∷ rs)
  Plays-go_on last rs (ends, some_, _) same (own, before, e, n, h, rest) = (
    sound ∷ own,
    before,
    ap (◌∷◌ sound) e,
    omega (arith, n, ends, some_),
    subst (λ s. Sounds s (sound ∷ own)) (sym (same_sound-eq last.sound sound same))
        (Sounds-cons sound own (subst (λ s. Sounds s own) (same_sound-eq last.sound sound same) h)),
    rest,
  )

  Plays-fold :
      (last before : SoundRun) (rs : List SoundRun)
      → Covers start (last ∷ before ∷ rs) t
      → same_sound before.sound sound ≡ true
      → last.to - last.from < blip_seconds
      → Plays past (last ∷ before ∷ rs)
      → Plays (sound ∷ past) (record before { to = t + 1 } ∷ rs)
  Plays-fold last before rs (ends, some_, (meets, some_', _)) same short
        (blip, earlier, e, n, b, (own, rest, e', n', h, plays)) =
      (
        sound ∷ (blip ++ own),
        rest,
        ap (◌∷◌ sound) (e ∙ ap (◌++◌ blip) e' ∙ sym (append_assoc blip own rest)),
        omega (arith, n, n', ends, some_, meets, some_', length-append {0} blip own),
        subst (λ s. Sounds s (sound ∷ (blip ++ own))) (sym (same_sound-eq before.sound sound same))
            (Sounds-over sound last.sound blip own b (omega (arith, n, short))
              (subst (λ s. Sounds s own) (same_sound-eq before.sound sound same) h)),
        plays,
      )

  add_second-Plays :
      (rs : List SoundRun)
      → Covers start rs t
      → Plays past rs
      → Plays (sound ∷ past) (add_second rs sound t)
  unfolding add_second
  add_second-Plays [] c h = Plays-begin [] h
  add_second-Plays (last ∷ []) c h =
      if-cases (Plays (sound ∷ past)) (same_sound last.sound sound) _ _
        (λ same. Plays-go_on last [] c same h) (λ other. Plays-begin (last ∷ []) h)
  add_second-Plays (last ∷ before ∷ rs) c h =
      if-cases (Plays (sound ∷ past)) (same_sound last.sound sound) _ _
        (λ same. Plays-go_on last (before ∷ rs) c same h)
        (λ other.
          if-cases (Plays (sound ∷ past))
            (same_sound before.sound sound && ltb (last.to - last.from) blip_seconds) _ _
            (λ folds. Plays-fold last before rs c (ground (arith, folds)) (ground (arith, folds)) h)
            (λ stays. Plays-begin (last ∷ before ∷ rs) h))

runs_from_lem :
    (start : ℕ) (rs : List SoundRun) (t : ℕ) (past secs : List Sound)
    → Covers start rs t
    → Folded rs
    → Plays past rs
    → Covers start (runs_from rs t secs) (t + length secs)
      × Folded (runs_from rs t secs)
      × Plays (reverse_aux secs past) (runs_from rs t secs)
unfolding runs_from
runs_from_lem start rs t past [] c f p = (subst (Covers start rs) (omega arith) c, f, p)
runs_from_lem start rs t past (sound ∷ secs) c f p =
    let (c', f', p') =
      runs_from_lem start (add_second rs sound t) (suc t) (sound ∷ past) secs
        (add_second-Covers start rs sound t c) (add_second-Folded rs sound t f)
        (add_second-Plays start sound t past rs c p) in
    (subst (Covers start (runs_from (add_second rs sound t) (suc t) secs)) (omega arith) c', f', p')

-- The runs of a call cover its seconds from the first to the last, each second once and in order. The
-- seconds of a run begin and end with its sound, and one of another sound stands alone between two of
-- the run's own. Neighbouring runs differ in sound, and a run between two of the same sound lasts two
-- seconds or more: shorter interruptions, and no others, are folded into the run around them.
pub runs_lem :
    (start : ℕ) (secs : List Sound)
    → Covers start (runs start secs) (start + length secs)
      × Folded (runs start secs)
      × Plays (reverse secs) (runs start secs)
unfolding runs
runs_lem start secs = runs_from_lem start [] start [] secs refl tt refl
