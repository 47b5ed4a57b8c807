-- ===== src/Voice/Report/Kept.antt =====
-- report.ts: the entries of the log that a report keeps.
use mathlib.Core.List.{reverse, append-nil}
use otacon.Prelude.{
  ℕ, ◌+◌, ◌≤◌, ◌<◌, ◌≡◌, refl, subst, ◌∙◌, ◌⊎◌, if-cases, inl, inr, List, [], ◌∷◌, ◌++◌, arith,
  length, leb,
}
use otacon.Voice.Report.{Text, keep_loop, keep_end}

-- The characters of lines, each with the end of its line.
abbrev pub cost : List Text → ℕ
cost [] = 0
cost (l ∷ ls) = length l + 1 + cost ls

-- The lines with their latest first.
abbrev pub onto : List Text → List Text → List Text
onto [] ls = ls
onto (l ∷ older) ls = onto older (l ∷ ls)

-- `older`, the latest first, is what was left out of `all`: it is nothing, or its latest does not fit.
abbrev pub Stops : ℕ → List Text → List Text → Type 0
Stops space kept [] = Unit
Stops space kept (l ∷ older) = space < 80 + cost kept + length l + 1

pub record Cut (space : ℕ) (all kept : List Text) : Type 0 where
  pub older : List Text
  pub whole : onto older kept ≡ all
  pub stops : Stops space kept older
  pub fits : (kept ≡ []) ⊎ (80 + cost kept ≤ space)

loop-Cut :
    (space used : ℕ) (ls kept : List Text)
    → used ≡ 80 + cost kept
    → (kept ≡ []) ⊎ (80 + cost kept ≤ space)
    → Cut space (onto ls kept) (keep_loop space used ls kept)
unfolding keep_loop
loop-Cut space used [] kept e fit = record { older = []; whole = refl; stops = tt; fits = fit }
loop-Cut space used (l ∷ ls) kept e fit =
    if-cases (Cut space (onto ls (l ∷ kept))) (leb (used + length l + 1) space) _ _
      (λ room.
        loop-Cut space (used + (length l + 1)) ls (l ∷ kept) (omega (arith, e))
          (inr (ground (arith, room, e))))
      (λ full. record { older = l ∷ ls; whole = refl; stops = ground (arith, full, e); fits = fit })

onto-onto : (ls xs acc : List Text) → onto (onto ls xs) acc ≡ onto xs (ls ++ acc)
onto-onto [] xs acc = refl
onto-onto (l ∷ ls) xs acc = onto-onto ls (l ∷ xs) acc

onto-reverse : (ls : List Text) → onto (reverse ls) [] ≡ ls
onto-reverse ls = onto-onto ls [] [] ∙ append-nil ls

-- What is kept of a log that does not fit is its end, as many entries as there is room for.
pub keep_end-Cut : (space : ℕ) (lines : List Text) → Cut space lines (keep_end space lines)
unfolding keep_end
keep_end-Cut space lines =
    subst (λ all. Cut space all (keep_loop space 80 (reverse lines) [])) (onto-reverse lines)
      (loop-Cut space 80 (reverse lines) [] refl (inl refl))
