-- ===== src/Voice/Report.antt =====
-- report.ts: `formatReport`, the cutting of a report to what fits. The texts that stand before and after
-- the log, and each entry of the log as a text, are given, and a text is the list of its UTF-16 units.
-- A limit of none is infinite; where the source's room is negative, here it is 0, and nothing fits.
pub mod Kept
pub mod Fits
mod Tests
use mathlib.Core.List.{reverse}
use otacon.Prelude.{
  ℕ, zero, suc, ◌+◌, ◌-◌, ◌*◌, ◌/◌, ◌%◌, max, Bool, true, false, Option, none, some, List, [], ◌∷◌,
  ◌++◌, length, take, leb, ltb, ◌==◌, if◌then◌else◌,
}
use otacon.Prelude.Scan.{codes, is_nil, trim_end}
use otacon.Voice.Recent.{join_lines}

abbrev pub Text : Type 0
Text = List ℕ

-- `full` and `tail` are empty in a saved report, and `brief` where the call has no goal.
pub record Parts : Type 0 where
  pub head : Text
  pub tldr : Text
  pub full : Text
  pub session : Text
  pub tail : Text
  pub brief : Text

-- REPORT_MAX_CHARS
abbrev pub report_max_chars : ℕ
report_max_chars = 3_000

unfoldable pub clip : Text → ℕ → Text
clip text limit =
    if leb (length text) limit then text else trim_end (take (limit - 1) text) ++ 0x2026 ∷ []

-- A number's decimal digits, of twenty at most.
unfoldable pub digits_of : ℕ → ℕ → Text
digits_of zero n = []
digits_of (suc fuel) n =
    let rest = digits_of fuel (n / 10) in
    if ltb n 10 then (48 + n) ∷ [] else rest ++ (48 + n % 10) ∷ []

unfoldable pub digits : ℕ → Text
digits n = digits_of 20 n

abbrev pub unless_empty : Text → List Text
unless_empty [] = []
unless_empty (c ∷ s) = (c ∷ s) ∷ []

-- The goal gives way first.
abbrev pub goal_limit : Parts → ℕ → ℕ
goal_limit p limit =
    max 200
      ((limit - (length (join_lines (p.head ∷ p.tldr ∷ p.full ∷ p.session ∷ p.tail ∷ [])) + 1)) / 3)

abbrev pub clipped : Parts → Option ℕ → Text
clipped p none = p.brief
clipped p (some limit) = clip p.brief (goal_limit p limit)

unfoldable pub goal : Parts → Option ℕ → List Text
goal p limit = if is_nil p.brief then [] else (codes "Goal: " ++ clipped p limit) ∷ []

-- What stands before the log.
unfoldable pub opening : Parts → Option ℕ → List Text
opening p limit = p.head ∷ p.tldr ∷ (goal p limit ++ unless_empty p.full ++ p.session ∷ [])

-- What the log may take, beside what stands before and after it.
abbrev pub room : ℕ → List Text → Text → ℕ
room limit out tail = limit - length (join_lines (out ++ tail ∷ [])) - 2

-- The loop from the end of the log, over the entries with the latest first.
unfoldable pub keep_loop : ℕ → ℕ → List Text → List Text → List Text
keep_loop space used [] kept = kept
keep_loop space used (l ∷ ls) kept =
    let rest = keep_loop space (used + (length l + 1)) ls (l ∷ kept) in
    if leb (used + length l + 1) space then rest else kept

unfoldable pub keep_end : ℕ → List Text → List Text
keep_end space lines = keep_loop space 80 (reverse lines) []

unfoldable pub kept_lines : Option ℕ → List Text → List Text → Text → List Text
kept_lines none lines out tail = lines
kept_lines (some limit) lines out tail =
    let space = room limit out tail in
    if ltb space (length (join_lines lines) + length (codes "Call log:") + 1)
    then keep_end space lines
    else lines

unfoldable pub heading : ℕ → ℕ → Text
heading kept all =
    if all - kept == 0
    then codes "Call log:"
    else codes "Call log (the last "
      ++ digits kept
      ++ codes " of "
      ++ digits all
      ++ codes " entries; the earlier ones are in otacon_call_log):"

unfoldable pub log_part : Option ℕ → List Text → List Text → Text → List Text
log_part limit [] out tail = []
log_part limit lines out tail =
    let kept = kept_lines limit lines out tail in heading (length kept) (length lines) ∷ kept

unfoldable pub format_report : Parts → List Text → Option ℕ → Text
format_report p lines limit =
    let out = opening p limit in
    join_lines (out ++ log_part limit lines out p.tail ++ unless_empty p.tail)
