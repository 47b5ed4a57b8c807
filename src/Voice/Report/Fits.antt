-- ===== src/Voice/Report/Fits.antt =====
-- report.ts: a report is never longer than its limit.
use native.Mathlib.Nat.{pow-suc}
use otacon.Prelude.{
  ℕ, zero, suc, ◌+◌, ◌-◌, ◌/◌, ◌%◌, ◌^◌, ◌≤◌, ◌<◌, ◌≡◌, ap, ◌⊎◌, inl, inr, some, List, [], ◌∷◌,
  ◌++◌, arith, length, length-append, ltb, ◌==◌, if-cases, if-elim,
}
use otacon.Prelude.Scan.{codes}
use otacon.Voice.Recent.{join_lines}
use otacon.Voice.Report.{
  Text, Parts, digits_of, digits, unless_empty, opening, kept_lines, heading, log_part,
  format_report, goal,
}
use otacon.Voice.Report.Kept.{cost, onto, Cut, keep_end-Cut}

cost-append : (xs ys : List Text) → cost (xs ++ ys) ≡ cost xs + cost ys
cost-append [] ys = omega arith
cost-append (x ∷ xs) ys = omega (arith, cost-append xs ys)

cost-join_lines : (l : Text) (ls : List Text) → length (join_lines (l ∷ ls)) + 1 ≡ cost (l ∷ ls)
cost-join_lines l [] = omega arith
cost-join_lines l (m ∷ ls) =
    omega (arith, length-append l (10 ∷ join_lines (m ∷ ls)), cost-join_lines m ls)

cost-unless_empty : (s : Text) → cost (unless_empty s) ≤ length s + 1
cost-unless_empty [] = omega arith
cost-unless_empty (c ∷ s) = omega arith

digits_of-length : (fuel n k : ℕ) → n < 10 ^ suc k → length (digits_of fuel n) ≤ suc k
unfolding digits_of
digits_of-length zero n k h = omega arith
digits_of-length (suc fuel) n k h =
    if-cases (λ (s : Text). length s ≤ suc k) (ltb n 10) _ _ (λ e. omega arith)
      (λ e. longer k h (ground (arith, e)) (digits_of-length fuel (n / 10)))
  where
    longer :
        (k : ℕ)
        → n < 10 ^ suc k
        → 10 ≤ n
        → ((j : ℕ) → n / 10 < 10 ^ suc j → length (digits_of fuel (n / 10)) ≤ suc j)
        → length (digits_of fuel (n / 10) ++ (48 + n % 10) ∷ []) ≤ suc k
    longer zero h le f = absurd (omega arith)
    longer (suc j) h le f = omega (
      arith,
      length-append (digits_of fuel (n / 10)) ((48 + n % 10) ∷ []),
      f j (omega (arith, pow-suc 10 (suc j))),
    )

digits-length : (n : ℕ) → n < 1_000 → length (digits n) ≤ 3
unfolding digits
digits-length n h = digits_of-length 20 n 2 h

abbrev opens : Text
opens = codes "Call log (the last "

abbrev closes : Text
closes = codes " entries; the earlier ones are in otacon_call_log):"

heading-length : (kept all : ℕ) → kept ≤ all → all < 1_000 → length (heading kept all) ≤ 81
unfolding heading
heading-length kept all h k =
    if-elim (λ (s : Text). length s ≤ 81) (all - kept == 0) _ _ (omega arith)
      (λ e. omega (
        arith,
        length-append (opens ++ digits kept ++ codes " of " ++ digits all) closes,
        length-append (opens ++ digits kept ++ codes " of ") (digits all),
        length-append (opens ++ digits kept) (codes " of "),
        length-append opens (digits kept),
        digits-length kept (omega arith),
        digits-length all k,
      ))

length-onto : (older kept : List Text) → length (onto older kept) ≡ length older + length kept
length-onto [] kept = omega arith
length-onto (l ∷ older) kept = omega (arith, length-onto older (l ∷ kept))

-- What the log takes with its heading, where the rest of the report takes `fixed`.
abbrev Within : ℕ → ℕ → List Text → List Text → Type 0
Within limit fixed lines kept =
    fixed + (length (heading (length kept) (length lines)) + 1 + cost kept) ≤ limit

Cut-Within :
    (limit fixed : ℕ) (lines kept : List Text)
    → fixed + 82 ≤ limit
    → length lines < 1_000
    → Cut (limit - fixed - 2) lines kept
    → Within limit fixed lines kept
Cut-Within limit fixed lines kept h n c =
    let shorter : length kept ≤ length lines =
      omega (arith, ap length c.whole, length-onto c.older kept) in
    let head = heading-length (length kept) (length lines) shorter n in go c.fits head
  where
    go :
        (kept ≡ []) ⊎ (80 + cost kept ≤ limit - fixed - 2)
        → length (heading (length kept) (length lines)) ≤ 81
        → Within limit fixed lines kept
    go (inl none_kept) head = omega (arith, ap cost none_kept)
    go (inr some_kept) head = omega arith

whole-Within :
    (limit fixed : ℕ) (l : Text) (ls : List Text)
    → fixed + 82 ≤ limit
    → length (join_lines (l ∷ ls)) + 10 ≤ limit - fixed - 2
    → Within limit fixed (l ∷ ls) (l ∷ ls)
unfolding heading
whole-Within limit fixed l ls h fits = ground (arith, cost-join_lines l ls)

log_part-cost :
    (limit : ℕ) (lines out : List Text) (tail : Text)
    → let fixed = length (join_lines (out ++ tail ∷ [])) in
      fixed + 82 ≤ limit
      → length lines < 1_000
      → fixed + cost (log_part (some limit) lines out tail) ≤ limit
unfolding log_part kept_lines
log_part-cost limit [] out tail h n = omega arith
log_part-cost limit (l ∷ ls) out tail h n =
    let fixed = length (join_lines (out ++ tail ∷ [])) in
    if-cases (Within limit fixed (l ∷ ls))
      (ltb (limit - fixed - 2) (length (join_lines (l ∷ ls)) + length (codes "Call log:") + 1)) _ _
      (λ e. Cut-Within limit fixed (l ∷ ls) _ h n (keep_end-Cut (limit - fixed - 2) (l ∷ ls)))
      (λ e. whole-Within limit fixed l ls h (ground (arith, e)))

-- A report is never longer than its limit, provided that what stands before and after the log leaves
-- room for the log's heading, 82 characters, and the log has less than a thousand entries.
pub format_report-length :
    (p : Parts) (lines : List Text) (limit : ℕ)
    → length (join_lines (opening p (some limit) ++ p.tail ∷ [])) + 82 ≤ limit
    → length lines < 1_000
    → length (format_report p lines (some limit)) ≤ limit
unfolding format_report opening
format_report-length p lines limit h n =
    let rest = goal p (some limit) ++ unless_empty p.full ++ p.session ∷ [] in
    let out = p.head ∷ p.tldr ∷ rest in
    let log = log_part (some limit) lines out p.tail in
    let last = unless_empty p.tail in
    omega (
      arith,
      log_part-cost limit lines out p.tail h n,
      cost-join_lines p.head (p.tldr ∷ (rest ++ log ++ last)),
      cost-join_lines p.head (p.tldr ∷ (rest ++ p.tail ∷ [])),
      cost-append (out ++ log) last,
      cost-append out log,
      cost-append out (p.tail ∷ []),
      cost-unless_empty p.tail,
    )
