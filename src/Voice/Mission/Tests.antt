-- ===== src/Voice/Mission/Tests.antt =====
-- Missions at concrete inputs: two lines, one of which ends; a mission that ends and is reported; and a
-- merge that goes through while it ends.
use otacon.Prelude.{
  ◌≡◌, ◌≤◌, ◌+◌, ◌*◌, ◌⊎◌, refl, true, false, some, none, List, [], ◌∷◌, ◌++◌, ℕ, arith,
}
use otacon.Voice.Line.{active, held, ended}
use otacon.Voice.CallAudio.{Resampling, new_audio}
use otacon.Voice.Mission.{
  Line, remote, max_duration, resume_then_tell, back_with, closing, CallMission, new_mission,
  is_live, live_lines, set_state,
}
use otacon.Voice.Mission.Ending.{finish, on_call_event}
use otacon.Voice.Mission.Steps.{
  Input, line_answered, makes_session, max_time, hang_up_answered, last_words_over,
  finish_session_closed, merge_done, merge_session_closed, run,
}
use otacon.Voice.Mission.Once.{reports}
use otacon.Voice.Mission.Reported.{run-reports, merge_while_ending-reports}
use otacon.Voice.Mission.Finished.{ending_inputs, reported, finish-reported}
use otacon.Voice.Mission.Back.{on_call_event-back}
use otacon.Voice.Mission.Tools.{Seen, poll_from}
use otacon.Voice.Mission.Poll.{Ends, polls-Ends}

abbrev plain : Resampling
plain = record { Resampler = ℕ; up = 0; down = 0; process = λ n pcm. (pcm, n + 1) }

abbrev clinic : Line
clinic = record {
  n = 1;
  call_id = 70;
  party = record { name = "clinic"; number = 5550100; is_primary = true };
  state = held;
}

abbrev friend : Line
friend = record {
  n = 2;
  call_id = 71;
  party = record { name = "friend"; number = 5550101; is_primary = false };
  state = active;
}

abbrev two_lines : CallMission plain
two_lines = record (new_mission plain) {
  lines = clinic ∷ friend ∷ [];
  active = some 2;
  audio = record (new_audio plain) { has_session = true };
}

abbrev whole_call : List (ℕ × Input)
whole_call =
    (0, line_answered 70 active clinic.party)
    ∷ (100, makes_session false)
    ∷ (60_000, max_time)
    ∷ (60_100, hang_up_answered)
    ∷ (60_900, last_words_over)
    ∷ (61_000, finish_session_closed)
    ∷ []

run-reports_example : reports (run plain (new_mission plain) whole_call).1 ≤ 1
run-reports_example = run-reports plain whole_call (tt, (tt, (tt, (tt, (tt, (tt, tt))))))

abbrev closing_two : CallMission plain
closing_two = record two_lines { ended = true; finishing = closing }

merge_while_ending-reports_example :
    reports
      (run plain closing_two (
        (1, merge_done clinic friend)
        ∷ (2, finish_session_closed)
        ∷ (3, merge_session_closed)
        ∷ [])).1
    ≡ 2
merge_while_ending-reports_example =
    merge_while_ending-reports plain closing_two clinic friend 1 2 3 refl

finish-reported_example :
    let begun = finish plain two_lines max_duration none true none in
    reported (begun.1 ++ (run plain begun.0 (ending_inputs 2)).1) ≡ max_duration ∷ []
finish-reported_example =
    finish-reported plain 2 two_lines max_duration none true none refl refl (omega arith)

on_call_event-back_example :
    let r = on_call_event plain two_lines 71 none remote 0 in
    let up = live_lines (set_state two_lines.lines 2 ended) in
    ((up ≡ []) × (r.0.ended ≡ true))
    ⊎ ((other : Line) × (rest : List Line) × (up ≡ other ∷ rest)
        × (is_live other ≡ true)
        × (r.0.active ≡ some other.n)
        × (r.1 ≡ resume_then_tell (back_with "friend" 2 remote other.party.name other.n) ∷ []))
on_call_event-back_example =
    on_call_event-back plain two_lines 71 friend remote 0 refl refl refl refl

abbrev every_200 : ℕ → Seen
every_200 k = record { now = 1000 + 200 * k; speech_at = 1400; over = false }

polls-Ends_example : Ends 1000 every_200 (poll_from 77 1000 every_200 0)
polls-Ends_example = polls-Ends 1000 every_200 on_time
  where
    on_time : (k : ℕ) → 1000 + 200 * k ≤ (every_200 k).now
    on_time k = omega arith
