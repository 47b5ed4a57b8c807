-- ===== src/Orchestrator/Mutating/Verdict.antt =====
-- What `isMutating` answers, by what the regular expression matches.
use otacon.Prelude.{
  ℕ, ◌≡◌, refl, ap, sym, ◌∙◌, inl, inr, true, false, none, List, [], ◌∷◌, ◌++◌, arith, Bool-cases,
  Option-cases,
}
use otacon.Prelude.Scan.{
  codes, is_nil, any, after, after-append, drop_while, drop_end, drop_while-append, drop_while-stop,
  drop_end-append, EachIs, Stops,
}
use otacon.Orchestrator.Mutating.{
  is_space, is_terminator, is_text, match_command, match_rest, match_after, is_mutating,
  is_mutating_otacon, words, trim, verdict,
}
use otacon.Orchestrator.Mutating.Matched.{
  Matches, match_command_sound, match_command_complete, text-Stops,
}

words-skip : (s : List ℕ) → words (drop_while is_space s) ≡ words s
words-skip [] = refl
words-skip (c ∷ s) = elim (Bool-cases (is_space c)) [
  | inl e ↦ rw e (words-skip s)
  | inr e ↦ rw e (ground (arith, e))
]

-- Where the regular expression matches the trimmed command, the answer is the one for its verb
-- and for the words after it.
pub is_mutating_of_match :
    (command verb rest : List ℕ)
    → Matches (trim command) verb rest
    → is_mutating command ≡ is_mutating_otacon verb (words rest)
unfolding is_mutating
is_mutating_of_match command verb rest m =
    ap verdict (match_command_complete (trim command) verb rest m)
    ∙ ap (is_mutating_otacon verb) (words-skip rest)

-- A command is called mutating only where the regular expression matches it trimmed, and the verb
-- with the words after it is called mutating.
pub is_mutating-Matches :
    (command : List ℕ)
    → is_mutating command ≡ true
    → (verb rest : List ℕ) × Matches (trim command) verb rest
      × (is_mutating_otacon verb (words rest) ≡ true)
unfolding is_mutating
is_mutating-Matches command h = elim (Option-cases (match_command (trim command))) [
  | inl e ↦ absurd (no (ap verdict (sym e) ∙ h))
  | inr ((verb, rest), e) ↦
      (verb, rest, match_command_sound (trim command) verb rest e, ap verdict (sym e) ∙ h)
]
  where
    no : ¬ (false ≡ true)
    no e = cc e

trim-pad :
    (s after_s : List ℕ)
    → EachIs is_space after_s
    → drop_end is_space (drop_while is_space (s ++ after_s))
      ≡ drop_end is_space (drop_while is_space s)
trim-pad [] t h = ap (drop_end is_space) (sym (drop_while_nil t h))
  where
    drop_while_nil : (t : List ℕ) → EachIs is_space t → [] ≡ drop_while is_space t
    drop_while_nil [] h = refl
    drop_while_nil (c ∷ t) h = rw h.0 (drop_while_nil t h.1)
trim-pad (c ∷ s) t h = elim (Bool-cases (is_space c)) [
  | inl e ↦ rw e (trim-pad s t h)
  | inr e ↦ rw e (drop_end-append is_space (c ∷ s) t h)
]

-- White space around a command does not change the answer.
pub is_mutating-pad :
    (before command after_it : List ℕ)
    → EachIs is_space before
    → EachIs is_space after_it
    → is_mutating (before ++ (command ++ after_it)) ≡ is_mutating command
unfolding is_mutating
is_mutating-pad before command after_it b a =
    ap (λ s. verdict (match_command (drop_end is_space s)))
      (drop_while-append is_space before (command ++ after_it) b)
    ∙ ap (λ s. verdict (match_command s)) (trim-pad command after_it a)

-- Where the trimmed command is `otacon`, a verb and arguments, and a line terminator stands among the
-- arguments, after their first character, which is no white space, the command is not called mutating,
-- whatever its verb: the regular expression has no match.
pub many_lines_pass :
    (command space verb gap rest : List ℕ)
    → trim command ≡ codes "otacon" ++ (space ++ (verb ++ (gap ++ rest)))
    → EachIs is_space space
    → EachIs is_text verb
    → is_nil verb ≡ false
    → EachIs is_space gap
    → is_nil gap ≡ false
    → Stops is_space rest
    → any is_terminator rest ≡ true
    → is_mutating command ≡ false
unfolding is_mutating match_command
many_lines_pass command space verb gap rest e s v vn g gn r bad =
    ap (λ t. verdict (match_after (after (codes "otacon") t))) e
    ∙ ap (λ t. verdict (match_after t))
        (after-append (codes "otacon") (space ++ (verb ++ (gap ++ rest))))
    ∙ ap verdict unmatched
  where
    verb_next : Stops is_space (verb ++ (gap ++ rest))
    verb_next = text-Stops verb v vn (gap ++ rest)

    gap_next : (xs : List ℕ) → EachIs is_space xs → is_nil xs ≡ false → Stops is_text (xs ++ rest)
    gap_next [] h n = cc
    gap_next (c ∷ xs) h n = ground (arith, h.0)

    unmatched : match_rest (space ++ (verb ++ (gap ++ rest))) ≡ none
    unmatched =
        rw
          (
            drop_while-append is_space space (verb ++ (gap ++ rest)) s,
            drop_while-stop is_space (verb ++ (gap ++ rest)) verb_next,
            drop_while-append is_text verb (gap ++ rest) v,
            drop_while-stop is_text (gap ++ rest) (gap_next gap g gn),
            drop_while-append is_space gap rest g,
            drop_while-stop is_space rest r,
            bad,
          )
          (ground arith)
