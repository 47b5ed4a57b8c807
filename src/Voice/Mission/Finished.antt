-- ===== src/Voice/Mission/Finished.antt =====
-- A mission that ends is reported: `finish` comes to its end.
use mathlib.Core.List.{reverse, reverse_aux}
use otacon.Prelude.{
  ℕ, zero, suc, ◌+◌, ◌<◌, ◌≤◌, ◌≡◌, refl, sym, ap, ◌∙◌, Bool, true, false, ◌||◌, Option, some, List,
  [], ◌∷◌, ◌++◌, arith, length, if◌then◌else◌, if-elim, if-false, subst,
}
use otacon.Voice.CallAudio.{Resampling, AudioEffect, unmute}
use otacon.Voice.Mission.{
  Outcome, Line, EndNote, Effect, report, Finishing, not_finishing, hanging_up, last_words, closing,
  Summary, CallMission, live_lines, call_ids, stop_navigator, stop_listeners, sounds, hang_ups,
  navigator_stops,
}
use otacon.Voice.Mission.Ending.{
  wait_last_words, words_over, hang_up_next, begin_finish, finish, hung_up, heard_last,
  session_closed, to_list, leaves_lines, or_before,
}
use otacon.Voice.Mission.Steps.{
  Input, hang_up_answered, last_words_over, finish_session_closed, handle, step, run,
}

length-reverse_aux :
    {A : Type 0} (xs ys : List A) → length (reverse_aux xs ys) ≡ length xs + length ys
length-reverse_aux [] ys = omega arith
length-reverse_aux (x ∷ xs) ys = omega (arith, length-reverse_aux xs (x ∷ ys))

length-reverse : {A : Type 0} (xs : List A) → length (reverse xs) ≡ length xs
length-reverse xs = omega (arith, length-reverse_aux xs [])

length-call_ids : (ls : List Line) → length (call_ids ls) ≡ length ls
length-call_ids [] = refl
length-call_ids (l ∷ ls) = ap suc (length-call_ids ls)

-- The outcomes of the reports.
abbrev pub reported : List Effect → List Outcome
reported [] = []
reported (report r ∷ es) = r.outcome ∷ reported es
reported (e ∷ es) = reported es

reported-append : (es fs : List Effect) → reported (es ++ fs) ≡ reported es ++ reported fs
reported-append [] fs = refl
reported-append (report r ∷ es) fs = ap (◌∷◌ r.outcome) (reported-append es fs)
reported-append (e ∷ es) fs = reported-append es fs

reported-sounds : (es : List AudioEffect) → reported (sounds es) ≡ []
reported-sounds [] = refl
reported-sounds (e ∷ es) = reported-sounds es

reported-hang_ups : (ids : List ℕ) → reported (hang_ups ids) ≡ []
reported-hang_ups [] = refl
reported-hang_ups (id ∷ ids) = reported-hang_ups ids

reported-quiet :
    (es fs : List Effect) → reported es ≡ [] → reported fs ≡ [] → reported (es ++ fs) ≡ []
reported-quiet es fs e f = reported-append es fs ∙ ap (λ os. os ++ reported fs) e ∙ f

-- The line answers that many hang-ups.
abbrev pub answers : ℕ → List (ℕ × Input) → List (ℕ × Input)
answers zero is = is
answers (suc k) is = (0, hang_up_answered) ∷ answers k is

abbrev pub ending_inputs : ℕ → List (ℕ × Input)
ending_inputs k = answers k ((0, last_words_over) ∷ (0, finish_session_closed) ∷ [])

-- Whether `k` answers are enough for the hang-ups that are left.
abbrev Ready : ℕ → Finishing → Type 0
Ready k (hanging_up ids wait) = length ids < k
Ready k not_finishing = ⊥
Ready k f = Unit

module _ (resampling : Resampling) where
  abbrev Mission : Type 0
  Mission = CallMission resampling

  abbrev Next : Type 0
  Next = Mission × List Effect

  -- On the way to the end, with the outcome that the mission has.
  abbrev Going : ℕ → Outcome → Next → Type 0
  Going k o r = Ready k r.0.finishing × (r.0.outcome ≡ o) × (reported r.1 ≡ [])

  words_over-Going : (k : ℕ) (m : Mission) → Going k m.outcome (words_over resampling m)
  words_over-Going k m =
      (tt, refl, if-elim (λ es. reported es ≡ []) m.audio.has_session _ _ refl (λ e. refl))

  hang_up_next-Going :
      (k : ℕ) (m : Mission) (ids : List ℕ) (wait : Bool)
      → length ids ≤ k
      → Going k m.outcome (hang_up_next resampling m ids wait)
  unfolding wait_last_words
  hang_up_next-Going k m (id ∷ ids) wait le = (omega arith, refl, refl)
  hang_up_next-Going k m [] true le =
      if-elim (Going k m.outcome) m.audio.has_session _ _ (tt, refl, refl)
        (λ e. words_over-Going k m)
  hang_up_next-Going k m [] false le = words_over-Going k m

  hung_up-Going :
      (k : ℕ) (f : Finishing) (m : Mission)
      → m.finishing ≡ f
      → Ready (suc k) f
      → Going k m.outcome (hung_up resampling f m)
  hung_up-Going k (hanging_up ids wait) m e le = hang_up_next-Going k m ids wait (omega (arith, le))
  hung_up-Going k last_words m e r = (subst (Ready k) (sym e) tt, refl, refl)
  hung_up-Going k closing m e r = (subst (Ready k) (sym e) tt, refl, refl)
  hung_up-Going k not_finishing m e r = elim r [ ]

  heard_last-Going :
      (f : Finishing) (m : Mission)
      → m.finishing ≡ f
      → Ready 0 f
      → ((heard_last resampling f m).0.finishing ≡ closing)
        × Going 0 m.outcome (heard_last resampling f m)
  heard_last-Going last_words m e r = (refl, words_over-Going 0 m)
  heard_last-Going closing m e r = (e, (subst (Ready 0) (sym e) tt, refl, refl))
  heard_last-Going (hanging_up ids wait) m e r = absurd (omega (arith, r))
  heard_last-Going not_finishing m e r = elim r [ ]

  session_closed-reported :
      (f : Finishing) (m : Mission)
      → f ≡ closing
      → reported (session_closed resampling f m).1 ≡ m.outcome ∷ []
  session_closed-reported closing m e = refl
  session_closed-reported f m e = absurd (cc e)

  ending-reported :
      (k : ℕ) (m : Mission)
      → Ready k m.finishing
      → reported (run resampling m (ending_inputs k)).1 ≡ m.outcome ∷ []
  unfolding run step handle
  ending-reported zero m r =
      let n : Mission = record m { now = 0 } in
      let h = heard_last resampling m.finishing n in
      let (closes, (on, same, none_yet)) = heard_last-Going m.finishing n refl r in
      let last = session_closed resampling h.0.finishing (record h.0 { now = 0 }) in
      reported-append h.1 (last.1 ++ [])
      ∙ ap (λ os. os ++ reported (last.1 ++ [])) none_yet
      ∙ reported-append last.1 []
      ∙ ap (λ os. os ++ []) (session_closed-reported h.0.finishing (record h.0 { now = 0 }) closes)
      ∙ ap (λ o. o ∷ []) same
  ending-reported (suc k) m r =
      let n : Mission = record m { now = 0 } in
      let h = hung_up resampling m.finishing n in
      let (on, same, none_yet) = hung_up-Going k m.finishing n refl r in
      reported-append h.1 (run resampling h.0 (ending_inputs k)).1
      ∙ ap (λ os. os ++ reported (run resampling h.0 (ending_inputs k)).1) none_yet
      ∙ ending-reported k h.0 on
      ∙ ap (λ o. o ∷ []) same

  stop_navigator-quiet : (m : Mission) → reported (stop_navigator resampling m).1 ≡ []
  unfolding stop_navigator
  stop_navigator-quiet m =
      let unmuted = (unmute resampling m.audio m.detached).1 in
      reported-quiet (sounds unmuted) (if m.audio.navigating then navigator_stops ∷ [] else [])
        (reported-sounds unmuted)
        (if-elim (λ es. reported es ≡ []) m.audio.navigating _ _ refl (λ e. refl))

  begin_finish-Going :
      (k : ℕ) (m : Mission) (outcome : Outcome) (summary : Option Summary) (wait : Bool)
      (end_note : Option EndNote)
      → length (live_lines m.lines) ≤ k
      → Going k outcome (begin_finish resampling m outcome summary wait end_note)
  unfolding begin_finish stop_listeners stop_navigator
  begin_finish-Going k m outcome summary wait end_note enough =
      let over : Mission = record m {
        ended = true;
        outcome = outcome;
        finish_outcome = outcome;
        summary = or_before summary m.summary;
      } in
      let b : Mission = (stop_navigator resampling over).0 in
      let ids = if leaves_lines outcome then [] else reverse (call_ids (live_lines b.lines)) in
      let fits : length ids ≤ k =
        if-elim (λ (xs : List ℕ). length xs ≤ k) (leaves_lines outcome) _ _ (omega arith)
          (λ e. omega (
            arith,
            length-reverse (call_ids (live_lines m.lines)),
            length-call_ids (live_lines m.lines),
            enough,
          )) in
      let h = hang_up_next resampling (record b { end_notes = some (to_list end_note) }) ids wait in
      let (ready, same, quiet) =
        hang_up_next-Going k (record b { end_notes = some (to_list end_note) }) ids wait fits in
      let stops = (stop_navigator resampling over).1 in
      let left = hang_ups b.audio.listeners in
      (
        ready,
        same,
        reported-quiet (stops ++ left) h.1
            (reported-quiet stops left (stop_navigator-quiet over)
              (reported-hang_ups b.audio.listeners))
            quiet,
      )

  -- A mission that has neither ended nor left and now ends is reported with the outcome of its
  -- end, and once, `finish` itself included, if the line then answers a hang-up for each line that
  -- is up, well or badly, the wait for the last words ends and the session closes, with nothing in
  -- between; answers that are more than the hang-ups do no harm.
  pub finish-reported :
      (k : ℕ) (m : Mission) (outcome : Outcome) (summary : Option Summary) (wait : Bool)
      (end_note : Option EndNote)
      → m.ended ≡ false
      → m.detached ≡ false
      → length (live_lines m.lines) ≤ k
      → let begun = finish resampling m outcome summary wait end_note in
        reported (begun.1 ++ (run resampling begun.0 (ending_inputs k)).1) ≡ outcome ∷ []
  unfolding finish
  finish-reported k m outcome summary wait end_note on here enough =
      if-false
        (λ (r : Next). reported (r.1 ++ (run resampling r.0 (ending_inputs k)).1) ≡ outcome ∷ [])
        (m.ended || m.detached) _ _ (ground (arith, on, here))
        (let begun = begin_finish resampling m outcome summary wait end_note in
          let ended = (run resampling begun.0 (ending_inputs k)).1 in
          let (ready, same, quiet) = begin_finish-Going k m outcome summary wait end_note enough in
          reported-append begun.1 ended
          ∙ ap (λ os. os ++ reported ended) quiet
          ∙ ending-reported k begun.0 ready
          ∙ ap (λ o. o ∷ []) same)
