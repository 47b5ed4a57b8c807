-- ===== src/Voice/Runtime/Tests.antt =====
-- A runtime with one line, whose allowed caller rings, is answered and, at the agent's request, hung up.
use otacon.Prelude.{ℕ, ◌≡◌, ◌≤◌, refl, true, false, some, none, Option, List, [], ◌∷◌, String, take}
use otacon.Prelude.{◌+◌}
use otacon.Voice.CallAudio.{Resampling}
use otacon.Voice.Line.{active}
use otacon.Voice.Mission.{Party}
use otacon.Voice.Mission.Handled.{Allowed}
use otacon.Voice.Mission.Steps.{line_answered, hang_up_answered, finish_session_closed}
use otacon.Voice.Runtime.{RuntimeConfig, Slot, Running, Runtime, newest}
use otacon.Voice.Runtime.Traversed.{OkOf}
use otacon.Voice.Runtime.Once.{told_of}
use otacon.Voice.Runtime.Reported.{run-told_of}
use otacon.Voice.Runtime.Recent.{reported, run-recent}
use otacon.Voice.Runtime.Steps.{Input, calls_in, ends_call, mission_goes_on, run}

abbrev plain : Resampling
plain = record { Resampler = ℕ; up = 0; down = 0; process = λ n pcm. (pcm, n + 1) }

abbrev shown : ℕ → String
shown n = "a number"

abbrev one_caller : RuntimeConfig
one_caller = record {
  allowlist = true;
  allow_from = 5550100 ∷ [];
  contacts = record { name = "clinic"; number = 5550100 } ∷ [];
  default_line = 1;
  listen = none;
  agent_id = 7;
  inbound_session_key = none;
  max_call_seconds = 1_800;
  owns = λ n. false;
}

abbrev first_slot : Slot
first_slot = record { link = some (record { open_ = true; can_listen = false }); mission = none }

abbrev at_rest : Runtime plain
at_rest = record {
  config = one_caller;
  slots = (1, first_slot) ∷ [];
  missions = [];
  next = 0;
  recent = [];
}

abbrev clinic : Party
clinic = record { name = "clinic"; number = 5550100; is_primary = true }

abbrev a_call : List Input
a_call =
    calls_in 1 true (some 5550100) 70
    ∷ mission_goes_on 0 900 (line_answered 70 active clinic)
    ∷ ends_call none
    ∷ mission_goes_on 0 60_000 hang_up_answered
    ∷ mission_goes_on 0 60_900 finish_session_closed
    ∷ []

answered-Allowed :
    (o : Option (Running plain)) → OkOf (Allowed plain) o (line_answered 70 active clinic)
answered-Allowed none = tt
answered-Allowed (some m) = tt

hung_up-Allowed : (o : Option (Running plain)) → OkOf (Allowed plain) o hang_up_answered
hung_up-Allowed none = tt
hung_up-Allowed (some m) = tt

closed-Allowed : (o : Option (Running plain)) → OkOf (Allowed plain) o finish_session_closed
closed-Allowed none = tt
closed-Allowed (some m) = tt

run-told_of_example : told_of 0 (run plain shown at_rest a_call).1 ≤ 1
run-told_of_example =
    run-told_of plain shown at_rest a_call 0 refl
      (tt, (answered-Allowed _, (tt, (hung_up-Allowed _, (closed-Allowed _, tt)))))

run-recent_example :
    let (s, es) = run plain shown at_rest a_call in s.recent ≡ take newest (reported es [])
run-recent_example = run-recent plain shown at_rest a_call refl
