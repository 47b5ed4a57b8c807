-- ===== src/Voice/Navigator/Heard.antt =====
-- What the line says, over a whole run of a navigator.
use mathlib.Core.List.{append-nil, append_assoc}
use otacon.Prelude.{
  ℕ, ◌<◌, ◌≡◌, refl, sym, ap, ◌∙◌, inl, inr, Bool, true, false, ◌&&◌, ◌||◌, not, Option, none, some,
  List, [], ◌∷◌, ◌++◌, if-elim, Bool-cases, All-keep, String, leb, subst, length,
}
use otacon.Prelude.Scan.{codes}
use otacon.Voice.LineSound.{Loudness, Sound}
use otacon.Voice.Navigator.{
  Entry, navigator, the_assistant, Phase, idle, deciding, pressing, MenuNavigator, new_navigator,
  assistant_said, pressed, line_sound, stop,
}
use otacon.Voice.Navigator.Check.{
  other_than, check, decided, press_sent, press_key, key_of, Input, hears, says, assistant_presses,
  sounds, checks, answers, request_fails, press_ends, stops, step, run, resume, Answers, chose,
  is_idle, Effect,
}
use otacon.Voice.Navigator.Ink.{ink, kept, kept-line_text, kept-assistant_said, kept-pressed}
use otacon.Voice.Navigator.Sane.{
  Numbered, Sane, SaneNav, SaneNav-line_text, SaneNav-assistant_said, SaneNav-pressed, pressed-Sane,
  line_ink-keep,
}
use otacon.Voice.Navigator.Ends.{run-Rests}

module _ (loudness : Loudness) where
  abbrev Nav : Type 0
  Nav = MenuNavigator loudness

  abbrev Nexts : Type 0
  Nexts = Nav × List Effect

  -- What an input keeps: the numbering and all that the line said.
  abbrev Keeps : Nav → Nexts → Type 0
  Keeps n r = SaneNav loudness r.0 × (kept loudness r.0 ≡ kept loudness n)

  Numbered-Sane : (next : ℕ) (entries : List Entry) → Numbered next entries → Sane entries next idle
  Numbered-Sane next entries h = (h, tt)

  check-Keeps : (n : Nav) (now : ℕ) → SaneNav loudness n → Keeps n (check loudness n now)
  unfolding check
  check-Keeps n now h =
      if-elim (Keeps n) (n.stopped || not (is_idle loudness n.phase)) _ _ (h, refl)
        (λ e. if-elim (Keeps n) _ _ _ (h, refl) (λ e'. ((h.0, tt), refl)))

  press_key-Keeps :
      (n : Nav) (now : ℕ) (k : Option String)
      → n.stopped ≡ false
      → SaneNav loudness n
      → Keeps n (press_key loudness n now k)
  press_key-Keeps n now none up h = ((h.0, tt), refl)
  press_key-Keeps n now (some k) up h = (
    pressed-Sane loudness n (codes k) now (length n.presses) up h,
    kept-pressed loudness n navigator (codes k) now,
  )

  decided-Keeps :
      (n : Nav) (a : Answers) (threshold now : ℕ)
      → SaneNav loudness n
      → Keeps n (decided loudness n a threshold now)
  unfolding decided
  decided-Keeps n a threshold now h =
      if-elim (Keeps n) n.stopped _ _ ((h.0, tt), refl)
        (λ up.
          if-elim (Keeps n) (chose a.action "hand_off" && leb threshold (a.p "action" "hand_off")) _
            _ ((h.0, tt), refl)
            (λ e.
              if-elim (Keeps n) (chose a.action "hang_up" && leb threshold (a.p "action" "hang_up"))
                _ _ ((h.0, tt), refl)
                (λ e'. press_key-Keeps n now (key_of a threshold a.key) up h)))

  press_sent-Keeps :
      (n : Nav) (ok : Bool) (at made : ℕ)
      → Sane n.entries n.next_entry (pressing at made)
      → Keeps n (press_sent loudness n ok at made, [])
  press_sent-Keeps n true at made h = ((h.0, tt), refl)
  press_sent-Keeps n false at made h = (
    (All-keep (λ (e : Entry). e.made < n.next_entry) (other_than made) n.entries h.0, tt),
    ap (λ x. x ++ ink n.partial) (line_ink-keep made n.entries h.1.1),
  )

  resume-Keeps :
      (p : Phase) (n : Nav) (threshold : ℕ) (i : Input loudness)
      → n.phase ≡ p
      → SaneNav loudness n
      → Keeps n (resume loudness p n threshold i)
  resume-Keeps deciding n threshold (answers a now) e h = decided-Keeps n a threshold now h
  resume-Keeps deciding n threshold request_fails e h = ((h.0, tt), refl)
  resume-Keeps (pressing at made) n threshold (press_ends ok) e h =
      press_sent-Keeps n ok at made (subst (Sane n.entries n.next_entry) e h)
  resume-Keeps p n threshold i e h = (h, refl)

  -- What the line says in an input.
  abbrev pub told : Input loudness → List ℕ
  told (hears delta now) = ink delta
  told _ = []

  abbrev pub all_told : List (Input loudness) → List ℕ
  all_told [] = []
  all_told (i ∷ is) = told i ++ all_told is

  abbrev Tells : Nav → Input loudness → Nav → Type 0
  Tells n i m = SaneNav loudness m × (kept loudness m ≡ kept loudness n ++ told i)

  quietly :
      (n m : Nav) → Keeps n (m, []) → SaneNav loudness m × (kept loudness m ≡ kept loudness n ++ [])
  quietly n m (h, k) = (h, k ∙ sym (append-nil (kept loudness n)))

  line_sound-Keeps :
      (n : Nav) (speaks : Bool) (rms : loudness.Rms) (second : ℕ)
      → SaneNav loudness n
      → Keeps n ((line_sound loudness n speaks rms second).0, [])
  unfolding line_sound
  line_sound-Keeps n speaks rms second h =
      if-elim (λ (r : Nav × Option Sound). Keeps n (r.0, [])) n.stopped _ _ (h, refl)
        (λ e. (h, refl))

  step-Tells :
      (threshold : ℕ) (n : Nav) (i : Input loudness)
      → SaneNav loudness n
      → n.stopped ≡ false
      → Tells n i (step loudness threshold n i).0
  unfolding step
  step-Tells threshold n (hears delta now) h up =
      (SaneNav-line_text loudness n delta now h, kept-line_text loudness n delta now up)
  step-Tells threshold n (says text now) h up =
      quietly n (assistant_said loudness n text now)
        (SaneNav-assistant_said loudness n text now h, kept-assistant_said loudness n text now)
  step-Tells threshold n (assistant_presses keys now) h up =
      quietly n (pressed loudness n the_assistant keys now) (
        SaneNav-pressed loudness n the_assistant keys now h,
        kept-pressed loudness n the_assistant keys now,
      )
  step-Tells threshold n (sounds speaks rms second) h up =
      quietly n ((line_sound loudness n speaks rms second).0)
        (line_sound-Keeps n speaks rms second h)
  step-Tells threshold n (checks now) h up =
      quietly n ((check loudness n now).0) (check-Keeps n now h)
  step-Tells threshold n stops h up = quietly n (stop loudness n) (h, refl)
  step-Tells threshold n (answers a now) h up =
      quietly n ((resume loudness n.phase n threshold (answers a now)).0)
        (resume-Keeps n.phase n threshold (answers a now) refl h)
  step-Tells threshold n request_fails h up =
      quietly n ((resume loudness n.phase n threshold request_fails).0)
        (resume-Keeps n.phase n threshold request_fails refl h)
  step-Tells threshold n (press_ends ok) h up =
      quietly n ((resume loudness n.phase n threshold (press_ends ok)).0)
        (resume-Keeps n.phase n threshold (press_ends ok) refl h)

  run-Tells :
      (threshold : ℕ) (n : Nav) (is : List (Input loudness))
      → SaneNav loudness n
      → (run loudness threshold n is).0.stopped ≡ false
      → kept loudness (run loudness threshold n is).0 ≡ kept loudness n ++ all_told is
  unfolding run
  run-Tells threshold n [] h up = sym (append-nil (kept loudness n))
  run-Tells threshold n (i ∷ is) h up = elim (Bool-cases n.stopped) [
    | inl over ↦ absurd (no (sym (run-Rests loudness threshold n (i ∷ is) over).0 ∙ up))
    | inr on ↦
        let (s, k) = step-Tells threshold n i h on in
        run-Tells threshold (step loudness threshold n i).0 is s up
        ∙ ap (λ x. x ++ all_told is) k
        ∙ append_assoc (kept loudness n) (told i) (all_told is)
  ]
    where
      no : ¬ (true ≡ false)
      no e = cc e

  -- While a new navigator has not stopped, all that the line has said, white space aside, is in its
  -- entries and its unfinished text, in order: nothing is lost or repeated, whatever else happens, be
  -- it failed presses that are forgotten.
  pub kept-run :
      (threshold : ℕ) (is : List (Input loudness))
      → (run loudness threshold (new_navigator loudness) is).0.stopped ≡ false
      → kept loudness (run loudness threshold (new_navigator loudness) is).0 ≡ all_told is
  kept-run threshold is up = run-Tells threshold (new_navigator loudness) is (tt, tt) up
