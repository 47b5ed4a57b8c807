-- ===== src/Orchestrator/Mutating/Matched.antt =====
-- The deterministic scan against what the regular expression says.
use mathlib.Core.Option.{some-ne-none}
use otacon.Prelude.{
  ℕ, ◌≡◌, refl, ap, sym, ◌∙◌, ◌⊎◌, inl, inr, subst, Bool, true, false, ◌||◌, Option, none, some,
  List, [], ◌∷◌, ◌++◌, arith, if◌then◌else◌,
}
use otacon.Prelude.Scan.{
  codes, is_nil, any, after, after-append, after_lem, take_while, drop_while, take_drop_while,
  take_while-Each, drop_while-Stops, drop_while-append, take_while-append, drop_while-stop,
  drop_while-None, EachIs, Stops,
}
use otacon.Orchestrator.Mutating.{
  is_space, is_terminator, is_text, match_command, match_after, match_rest,
}

-- A text that `/^otacon\s+(\S+)(?:\s+(.*))?$/` matches with these captures.
pub record Matches (s verb rest : List ℕ) : Type 0 where
  pub space : List ℕ
  pub gap : List ℕ
  pub shape : s ≡ codes "otacon" ++ (space ++ (verb ++ (gap ++ rest)))
  pub space_spaces : EachIs is_space space
  pub space_some : is_nil space ≡ false
  pub verb_text : EachIs is_text verb
  pub verb_some : is_nil verb ≡ false
  pub gap_spaces : EachIs is_space gap
  pub optional : is_nil gap ≡ false ⊎ is_nil rest ≡ true
  pub one_line : any is_terminator rest ≡ false

-- After a word, either a gap comes or nothing does.
gap_or_end :
    (xs : List ℕ)
    → Stops is_text xs
    → (is_nil (take_while is_space xs) ≡ false) ⊎ (is_nil (drop_while is_space xs) ≡ true)
gap_or_end [] h = inr refl
gap_or_end (x ∷ xs) h = inl (ground (arith, h))

scanned :
    (bad : Bool) (v w r t : List ℕ)
    → (if◌then◌else◌ {A = Option (List ℕ × List ℕ)} bad none (some (v, r))) ≡ some (w, t)
    → (bad ≡ false) × (v ≡ w) × (r ≡ t)
scanned true v w r t h = cc
scanned false v w r t h = (refl, ground (arith, h), ground (arith, h))

-- A text is its leading characters of a kind, and the rest of it.
split_at : (p : ℕ → Bool) (xs : List ℕ) → xs ≡ take_while p xs ++ drop_while p xs
split_at p xs = sym (take_drop_while p xs)

or_false : (a b : Bool) → (a || b) ≡ false → (a ≡ false) × (b ≡ false)
or_false a b h = ground (arith, h)

match_rest-Matches :
    (s r verb rest : List ℕ)
    → s ≡ codes "otacon" ++ r
    → match_rest r ≡ some (verb, rest)
    → Matches s verb rest
match_rest-Matches s r verb rest e h =
    let on = drop_while is_space r in
    let tail = drop_while is_text on in
    let (ok, v, t) =
      scanned
        (is_nil (take_while is_space r)
          || is_nil (take_while is_text on)
          || any is_terminator (drop_while is_space tail))
        (take_while is_text on) verb (drop_while is_space tail) rest h in
    let (some_ok, line_ok) = or_false _ (any is_terminator (drop_while is_space tail)) ok in
    let (space_ok, verb_ok) = or_false (is_nil (take_while is_space r)) _ some_ok in
    subst (λ w. Matches s w rest) v
      (subst (λ x. Matches s (take_while is_text on) x) t
        (record {
          space = take_while is_space r;
          gap = take_while is_space tail;
          shape =
              e
              ∙ ap (◌++◌ (codes "otacon")) (
                  split_at is_space r
                  ∙ ap (◌++◌ (take_while is_space r)) (
                      split_at is_text on
                      ∙ ap (◌++◌ (take_while is_text on)) (split_at is_space tail)));
          space_spaces = take_while-Each is_space r;
          space_some = space_ok;
          verb_text = take_while-Each is_text on;
          verb_some = verb_ok;
          gap_spaces = take_while-Each is_space tail;
          optional = gap_or_end tail (drop_while-Stops is_text on);
          one_line = line_ok;
        }))

-- What the scan finds, the regular expression matches with these captures.
pub match_command_sound :
    (s verb rest : List ℕ) → match_command s ≡ some (verb, rest) → Matches s verb rest
unfolding match_command
match_command_sound s verb rest h = go (after (codes "otacon") s) refl
  where
    go : (found : Option (List ℕ)) → after (codes "otacon") s ≡ found → Matches s verb rest
    go none e = absurd (some-ne-none (verb, rest) (sym h ∙ ap match_after e))
    go (some r) e =
        match_rest-Matches s r verb rest (after_lem (codes "otacon") s r e)
          (sym (ap match_after e) ∙ h)

pub text-Stops :
    (xs : List ℕ)
    → EachIs is_text xs
    → is_nil xs ≡ false
    → (ys : List ℕ) → Stops is_space (xs ++ ys)
text-Stops [] h n ys = cc
text-Stops (x ∷ xs) h n ys = ground (arith, h.0)

space-Stops :
    (xs ys : List ℕ)
    → EachIs is_space xs
    → (is_nil xs ≡ false) ⊎ (is_nil ys ≡ true)
    → Stops is_text (xs ++ ys)
space-Stops [] [] h o = tt
space-Stops [] (y ∷ ys) h (inl o) = cc o
space-Stops [] (y ∷ ys) h (inr o) = cc o
space-Stops (x ∷ xs) ys h o = ground (arith, h.0)

-- What the regular expression matches, the scan finds, with the gap as long as it can be.
pub match_command_complete :
    (s verb rest : List ℕ)
    → Matches s verb rest
    → match_command s ≡ some (verb, drop_while is_space rest)
unfolding match_command
match_command_complete s verb rest m =
    ap (λ t. match_after (after (codes "otacon") t)) m.shape
    ∙ ap match_after (after-append (codes "otacon") (m.space ++ (verb ++ (m.gap ++ rest))))
    ∙ rw
        (
          take_while-append is_space m.space (verb ++ (m.gap ++ rest)) m.space_spaces verb_next,
          drop_while-append is_space m.space (verb ++ (m.gap ++ rest)) m.space_spaces,
          drop_while-stop is_space (verb ++ (m.gap ++ rest)) verb_next,
          take_while-append is_text verb (m.gap ++ rest) m.verb_text gap_next,
          drop_while-append is_text verb (m.gap ++ rest) m.verb_text,
          drop_while-stop is_text (m.gap ++ rest) gap_next,
          drop_while-append is_space m.gap rest m.gap_spaces,
          m.space_some,
          m.verb_some,
          drop_while-None is_space is_terminator rest m.one_line,
        )
        refl
  where
    verb_next : Stops is_space (verb ++ (m.gap ++ rest))
    verb_next = text-Stops verb m.verb_text m.verb_some (m.gap ++ rest)

    gap_next : Stops is_text (m.gap ++ rest)
    gap_next = space-Stops m.gap rest m.gap_spaces m.optional
