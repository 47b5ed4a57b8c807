-- ===== src/Orchestrator/Mutating/Tests.antt =====
-- Commands at concrete texts.
use otacon.Prelude.{ℕ, ◌≡◌, refl, true, false, List, ◌++◌, ◌∷◌, [], inl}
use otacon.Prelude.Scan.{codes, any, EachIs, Stops}
use otacon.Orchestrator.Mutating.{
  is_mutating, match_command, is_mutating_otacon, is_space, is_terminator, is_text, trim, words,
}
use otacon.Orchestrator.Mutating.Matched.{Matches}
use otacon.Orchestrator.Mutating.Verdict.{
  is_mutating_of_match, is_mutating-Matches, many_lines_pass,
}

verdicts :
    (is_mutating (codes "  otacon tap e5 ") ≡ true)
    × (is_mutating (codes "otacon apps") ≡ false)
    × (is_mutating (codes "otacon apps launch com.x") ≡ true)
    × (is_mutating (codes "otacon sms list") ≡ false)
    × (is_mutating (codes "ls") ≡ false)
    × (is_mutating (codes "otacon tap e5" ++ 10 ∷ codes "ls") ≡ false)
unfolding is_mutating match_command is_mutating_otacon is_space is_terminator
verdicts = (refl, refl, refl, refl, refl, refl)

tap-Matches : Matches (trim (codes " otacon  tap e5 ")) (codes "tap") (codes "e5")
unfolding is_space is_terminator
tap-Matches = record {
  space = 32 ∷ 32 ∷ [];
  gap = 32 ∷ [];
  shape = refl;
  space_spaces = (refl, (refl, tt));
  space_some = refl;
  verb_text = (refl, (refl, (refl, tt)));
  verb_some = refl;
  gap_spaces = (refl, tt);
  optional = inl refl;
  one_line = refl;
}

is_mutating_of_match_example :
    is_mutating (codes " otacon  tap e5 ") ≡ is_mutating_otacon (codes "tap") (words (codes "e5"))
is_mutating_of_match_example =
    is_mutating_of_match (codes " otacon  tap e5 ") (codes "tap") (codes "e5") tap-Matches

sends : is_mutating (codes "otacon sms send 5") ≡ true
unfolding is_mutating match_command is_mutating_otacon is_space is_terminator
sends = refl

is_mutating-Matches_example :
    (verb rest : List ℕ) × Matches (trim (codes "otacon sms send 5")) verb rest
    × (is_mutating_otacon verb (words rest) ≡ true)
is_mutating-Matches_example = is_mutating-Matches (codes "otacon sms send 5") sends

two_spaces : EachIs is_space (32 ∷ 10 ∷ [])
unfolding is_space
two_spaces = (refl, (refl, tt))

-- A tap, and a second tap on the next line.
abbrev two_taps : List ℕ
two_taps = codes "otacon tap e5" ++ 10 ∷ codes "otacon tap e6"

abbrev second_tap : List ℕ
second_tap = codes "e5" ++ 10 ∷ codes "otacon tap e6"

two_taps_facts :
    (trim two_taps ≡ codes "otacon" ++ ((32 ∷ []) ++ (codes "tap" ++ ((32 ∷ []) ++ second_tap))))
    × EachIs is_space (32 ∷ [])
    × EachIs is_text (codes "tap")
    × Stops is_space second_tap
    × (any is_terminator second_tap ≡ true)
unfolding is_space is_terminator
two_taps_facts = (refl, (refl, tt), (refl, (refl, (refl, tt))), refl, refl)

many_lines_pass_example : is_mutating two_taps ≡ false
many_lines_pass_example =
    many_lines_pass two_taps (32 ∷ []) (codes "tap") (32 ∷ []) second_tap two_taps_facts.0
      two_taps_facts.1 two_taps_facts.2 refl two_taps_facts.1 refl two_taps_facts.3 two_taps_facts.4
