-- ===== src/Voice/Navigator/Ends.antt =====
-- A navigator that has stopped, and the last thing that a navigator does.
use otacon.Prelude.{
  ℕ, ◌≡◌, refl, ◌⊎◌, inl, inr, Bool, true, false, ◌&&◌, ◌||◌, not, Option, none, some, List, [],
  ◌∷◌, arith, if-elim, if-true, String, leb,
}
use otacon.Prelude.Scan.{is_nil, trim}
use otacon.Voice.LineSound.{Loudness, Sound}
use otacon.Voice.Navigator.{
  Side, the_assistant, Phase, deciding, pressing, MenuNavigator, line_text, assistant_said, pressed,
  line_sound,
}
use otacon.Voice.Navigator.Check.{
  check, decided, press_key, key_of, Input, hears, says, assistant_presses, sounds, checks, answers,
  request_fails, press_ends, stops, step, run, resume, chose, is_idle, state, Effect, decide,
  hand_off, hang_up, press, reason_of,
}

or-left : (a b : Bool) → a ≡ true → (a || b) ≡ true
or-left a b e = ground (arith, e)

abbrev pub is_final : Effect → Bool
is_final hand_off = true
is_final (hang_up r) = true
is_final _ = false

-- Nothing comes after a hand-off or a hang-up.
abbrev pub FinalLast : List Effect → Type 0
FinalLast [] = Unit
FinalLast (e ∷ es) = ((is_final e ≡ false) ⊎ (es ≡ [])) × FinalLast es

module _ (loudness : Loudness) where
  abbrev Nav : Type 0
  Nav = MenuNavigator loudness

  abbrev Rests : Nav × List Effect → Type 0
  Rests r = (r.0.stopped ≡ true) × (r.1 ≡ [])

  abbrev IsStopped : Nav → Type 0
  IsStopped n = n.stopped ≡ true

  line_text-Stopped :
      (n : Nav) (delta : List ℕ) (now : ℕ)
      → IsStopped n
      → IsStopped (line_text loudness n delta now)
  unfolding line_text
  line_text-Stopped n delta now e =
      if-true IsStopped (n.stopped || is_nil delta) n _ (or-left _ _ e) e

  assistant_said-Stopped :
      (n : Nav) (text : List ℕ) (now : ℕ)
      → IsStopped n
      → IsStopped (assistant_said loudness n text now)
  unfolding assistant_said
  assistant_said-Stopped n text now e =
      if-true IsStopped (n.stopped || is_nil (trim text)) n _ (or-left _ _ e) e

  pressed-Stopped :
      (n : Nav) (by : Side) (keys : List ℕ) (now : ℕ)
      → IsStopped n
      → IsStopped (pressed loudness n by keys now)
  unfolding pressed
  pressed-Stopped n by keys now e = if-true IsStopped n.stopped n _ e e

  line_sound-Stopped :
      (n : Nav) (speaks : Bool) (rms : loudness.Rms) (second : ℕ)
      → IsStopped n
      → IsStopped (line_sound loudness n speaks rms second).0
  unfolding line_sound
  line_sound-Stopped n speaks rms second e =
      if-true (λ (r : Nav × Option Sound). IsStopped r.0) n.stopped _ _ e e

  check-Rests : (n : Nav) (now : ℕ) → IsStopped n → Rests (check loudness n now)
  unfolding check
  check-Rests n now e =
      if-true Rests (n.stopped || not (is_idle loudness n.phase)) _ _ (or-left _ _ e) (e, refl)

  resume-Rests :
      (p : Phase) (n : Nav) (threshold : ℕ) (i : Input loudness)
      → IsStopped n
      → Rests (resume loudness p n threshold i)
  unfolding decided
  resume-Rests deciding n threshold (answers a now) e = if-true Rests n.stopped _ _ e (e, refl)
  resume-Rests deciding n threshold request_fails e = (e, refl)
  resume-Rests (pressing at made) n threshold (press_ends true) e = (e, refl)
  resume-Rests (pressing at made) n threshold (press_ends false) e = (e, refl)
  resume-Rests p n threshold i e = (e, refl)

  step-Rests :
      (threshold : ℕ) (n : Nav) (i : Input loudness)
      → IsStopped n
      → Rests (step loudness threshold n i)
  unfolding step
  step-Rests threshold n (hears delta now) e = (line_text-Stopped n delta now e, refl)
  step-Rests threshold n (says text now) e = (assistant_said-Stopped n text now e, refl)
  step-Rests threshold n (assistant_presses keys now) e =
      (pressed-Stopped n the_assistant keys now e, refl)
  step-Rests threshold n (sounds speaks rms second) e =
      (line_sound-Stopped n speaks rms second e, refl)
  step-Rests threshold n (checks now) e = check-Rests n now e
  step-Rests threshold n stops e = (refl, refl)
  step-Rests threshold n (answers a now) e = resume-Rests n.phase n threshold (answers a now) e
  step-Rests threshold n request_fails e = resume-Rests n.phase n threshold request_fails e
  step-Rests threshold n (press_ends ok) e = resume-Rests n.phase n threshold (press_ends ok) e

  pub run-Rests :
      (threshold : ℕ) (n : Nav) (is : List (Input loudness))
      → n.stopped ≡ true
      → ((run loudness threshold n is).0.stopped ≡ true) × ((run loudness threshold n is).1 ≡ [])
  unfolding run
  run-Rests threshold n [] e = (e, refl)
  run-Rests threshold n (i ∷ is) e =
      let (f, none_yet) = step-Rests threshold n i e in
      let (g, no_more) = run-Rests threshold (step loudness threshold n i).0 is f in
      (g, rw (none_yet, no_more) refl)

  -- A step does at most one thing, and only a stopped navigator's is final.
  abbrev Ends : Nav × List Effect → Type 0
  Ends r =
      (r.1 ≡ []) ⊎ ((e : Effect) × (r.1 ≡ e ∷ []) × ((is_final e ≡ false) ⊎ (r.0.stopped ≡ true)))

  check-Ends : (n : Nav) (now : ℕ) → Ends (check loudness n now)
  unfolding check
  check-Ends n now = if-elim Ends (n.stopped || not (is_idle loudness n.phase)) _ _ (inl refl) (λ e.
      if-elim Ends _ _ _ (inl refl) (λ e'. inr (decide (state loudness n now), refl, inl refl)))

  press_key-Ends : (n : Nav) (now : ℕ) (k : Option String) → Ends (press_key loudness n now k)
  press_key-Ends n now none = inl refl
  press_key-Ends n now (some k) = inr (press k, refl, inl refl)

  resume-Ends :
      (p : Phase) (n : Nav) (threshold : ℕ) (i : Input loudness)
      → Ends (resume loudness p n threshold i)
  unfolding decided
  resume-Ends deciding n threshold (answers a now) = if-elim Ends n.stopped _ _ (inl refl) (λ up.
      if-elim Ends (chose a.action "hand_off" && leb threshold (a.p "action" "hand_off")) _ _
        (inr (hand_off, refl, inr refl))
        (λ e.
          if-elim Ends (chose a.action "hang_up" && leb threshold (a.p "action" "hang_up")) _ _
            (inr (hang_up (reason_of a), refl, inr refl))
            (λ e'. press_key-Ends n now (key_of a threshold a.key))))
  resume-Ends deciding n threshold request_fails = inl refl
  resume-Ends (pressing at made) n threshold (press_ends ok) = inl refl
  resume-Ends p n threshold i = inl refl

  step-Ends : (threshold : ℕ) (n : Nav) (i : Input loudness) → Ends (step loudness threshold n i)
  unfolding step
  step-Ends threshold n (hears delta now) = inl refl
  step-Ends threshold n (says text now) = inl refl
  step-Ends threshold n (assistant_presses keys now) = inl refl
  step-Ends threshold n (sounds speaks rms second) = inl refl
  step-Ends threshold n (checks now) = check-Ends n now
  step-Ends threshold n stops = inl refl
  step-Ends threshold n (answers a now) = resume-Ends n.phase n threshold (answers a now)
  step-Ends threshold n request_fails = resume-Ends n.phase n threshold request_fails
  step-Ends threshold n (press_ends ok) = resume-Ends n.phase n threshold (press_ends ok)

  -- Whatever happens to a navigator, in any order, it asks for nothing more once it has handed off or
  -- hung up: a hand-off or a hang-up is the last of its effects.
  pub run-FinalLast :
      (threshold : ℕ) (n : Nav) (is : List (Input loudness))
      → FinalLast (run loudness threshold n is).1
  unfolding run
  run-FinalLast threshold n [] = tt
  run-FinalLast threshold n (i ∷ is) =
      let m = (step loudness threshold n i).0 in
      elim (step-Ends threshold n i) [
        | inl quiet ↦ rw quiet (run-FinalLast threshold m is)
        | inr (e, one, inl early) ↦ rw one (inl early, run-FinalLast threshold m is)
        | inr (e, one, inr over) ↦ rw (one, (run-Rests threshold m is over).1) (inr refl, tt)
      ]
