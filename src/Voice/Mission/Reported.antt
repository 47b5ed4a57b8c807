-- ===== src/Voice/Mission/Reported.antt =====
-- A mission is reported once, whatever happens to it, and twice if a merge goes through while it ends.
use otacon.Prelude.{ℕ, ◌≤◌, ◌≡◌, refl, Bool, true, false, List, [], ◌∷◌, ◌++◌, arith, if◌then◌else◌}
use otacon.Voice.CallAudio.{Resampling}
use otacon.Voice.Mission.{
  Line, Effect, close_session, Finishing, closing, CallMission, new_mission, stop_listeners,
  hang_ups,
}
use otacon.Voice.Mission.Once.{reports, reports-append, reports-hang_ups, Spends}
use otacon.Voice.Mission.Ending.{session_closed}
use otacon.Voice.Mission.Parties.{merged, left_merged}
use otacon.Voice.Mission.Steps.{
  Input, finish_session_closed, merge_done, merge_session_closed, handle, step, run,
}
use otacon.Voice.Mission.Spending.{quiet_if}
use otacon.Voice.Mission.Handled.{Allowed, step-Spends}

module _ (resampling : Resampling) where
  abbrev Mission : Type 0
  Mission = CallMission resampling

  abbrev Next : Type 0
  Next = Mission × List Effect

  abbrev Spending : Mission → Next → Type 0
  Spending m r = Spends resampling m r

  abbrev pub Merges : Mission → List (ℕ × Input) → Type 0
  Merges m [] = Unit
  Merges m (i ∷ is) = Allowed resampling m i.1 × Merges (step resampling m i).0 is

  run-Spends :
      (m : Mission) (is : List (ℕ × Input)) → Merges m is → Spending m (run resampling m is)
  unfolding run
  run-Spends m [] ok = omega arith
  run-Spends m (i ∷ is) ok =
      let (next, es) = step resampling m i in
      let first = step-Spends resampling m i ok.0 in
      let rest = run-Spends next is ok.1 in
      omega (arith, reports-append es (run resampling next is).1, first, rest)

  -- Whatever happens to a new mission, in whatever order, it is reported at most once; provided that
  -- the line merges calls only while the mission has neither ended nor left.
  pub run-reports :
      (is : List (ℕ × Input))
      → Merges (new_mission resampling) is
      → reports (run resampling (new_mission resampling) is).1 ≤ 1
  run-reports is ok = let h = run-Spends (new_mission resampling) is ok in omega (arith, h)

  closing_reports :
      (f : Finishing) (m : Mission)
      → f ≡ closing
      → (reports (session_closed resampling f m).1 ≡ 1)
        × ((session_closed resampling f m).0.leaving ≡ m.leaving)
  closing_reports closing m e = (refl, refl)
  closing_reports f m e = absurd (cc e)

  leaving_reports :
      (leaving : Bool) (m : Mission)
      → leaving ≡ true
      → reports (left_merged resampling leaving m).1 ≡ 1
  leaving_reports true m e = refl
  leaving_reports false m e = absurd (cc e)

  -- While a mission waits for its session to close, a merge that the line has still
  -- made is reported too: the mission is then reported twice.
  pub merge_while_ending-reports :
      (m : Mission) (other current : Line) (a b c : ℕ)
      → m.finishing ≡ closing
      → reports
          (run resampling m (
            (a, merge_done other current)
            ∷ (b, finish_session_closed)
            ∷ (c, merge_session_closed)
            ∷ [])).1
        ≡ 2
  unfolding run step handle merged stop_listeners
  merge_while_ending-reports m other current a b c ends =
      let gone = (merged resampling (record m { now = a }) other current).0 in
      let (one_now, still) = closing_reports m.finishing (record gone { now = b }) ends in
      let closed = (session_closed resampling m.finishing (record gone { now = b })).0 in
      let one_more = leaving_reports closed.leaving (record closed { now = c }) still in
      omega (
        arith,
        reports-append
            (hang_ups m.audio.listeners ++ (if m.audio.has_session then close_session ∷ [] else []))
            _,
        reports-append (hang_ups m.audio.listeners)
            (if m.audio.has_session then close_session ∷ [] else []),
        reports-append (session_closed resampling m.finishing (record gone { now = b })).1 _,
        reports-append (left_merged resampling closed.leaving (record closed { now = c })).1 [],
        reports-hang_ups m.audio.listeners,
        quiet_if resampling m m.audio.has_session close_session refl,
        one_now,
        one_more,
      )
