-- ===== src/Orchestrator/Gate/Tests.antt =====
-- The gate at concrete calls and turns.
use otacon.Prelude.{String, ◌≡◌, refl, true, false, some, none, Option, List, [], ◌∷◌}
use otacon.Prelude.Scan.{codes}
use otacon.Orchestrator.Mutating.{
  is_mutating, match_command, is_mutating_otacon, is_space, is_terminator,
}
use otacon.Orchestrator.Transcript.{approve, reject, requested, resolves}
use otacon.Orchestrator.Gate.{
  ServerApprovalGateOpts, ToolCall, pass, block, approval_aborted, waiting, Turn, arrives, writes,
  tick, abort, run, step, opened, gate, verdict, command_of,
}
use otacon.Orchestrator.Gate.Asked.{Posted, gate_passes}
use otacon.Orchestrator.Gate.Heard.{gate_hears, gate_aborts}

abbrev manual_opts : ServerApprovalGateOpts
manual_opts = record { auto_approve = false; auto_reject = false }

abbrev tap_call : ToolCall
tap_call = record { name = "bash"; command = some (codes "otacon tap e5"); token = 4; payload = 9 }

tap_mutates : is_mutating (command_of tap_call.command) ≡ true
unfolding is_mutating match_command is_mutating_otacon is_space is_terminator
tap_mutates = refl

-- Two requests race; both write, and the poll reads between.
abbrev race : List Turn
race =
    tick true
    ∷ arrives reject (some "wait")
    ∷ arrives approve none
    ∷ writes 1
    ∷ tick false
    ∷ tick true
    ∷ writes 0
    ∷ []

race_passes : (gate manual_opts tap_call false race 1 2).result ≡ some pass
unfolding gate is_mutating match_command is_mutating_otacon is_space is_terminator run step
race_passes = refl

gate_passes_example : (m : Option String) × Posted approve m race
gate_passes_example =
    gate_passes manual_opts tap_call false race 1 2 refl tap_mutates refl race_passes

gate_hears_example :
    gate manual_opts tap_call false
      (tick true
        ∷ tick false
        ∷ arrives reject (some "no")
        ∷ tick true
        ∷ arrives approve none
        ∷ writes 0
        ∷ tick false
        ∷ tick true
        ∷ abort
        ∷ [])
      1
      2
    ≡ record {
      events = requested 4 9 1 ∷ resolves 4 reject (some "no") 2 ∷ [];
      result = some (verdict reject (some "no"));
    }
gate_hears_example =
    gate_hears manual_opts tap_call (tick true ∷ tick false ∷ [])
      (tick true ∷ arrives approve none ∷ []) (tick false ∷ []) (abort ∷ []) reject (some "no") 1 2
      refl tap_mutates refl refl (tt, (tt, tt)) (tt, (tt, tt)) (tt, tt)

unread : (run (opened false) (arrives approve none ∷ writes 0 ∷ [])).poll ≡ waiting
unfolding run step
unread = refl

gate_aborts_example :
    gate manual_opts tap_call false (arrives approve none ∷ writes 0 ∷ abort ∷ tick true ∷ []) 1 2
    ≡ record {
      events = requested 4 9 1 ∷ resolves 4 reject (some "aborted") 2 ∷ [];
      result = some (block approval_aborted);
    }
gate_aborts_example =
    gate_aborts manual_opts tap_call (arrives approve none ∷ writes 0 ∷ []) (tick true ∷ []) 1 2
      refl tap_mutates refl refl unread
