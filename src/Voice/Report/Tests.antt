-- ===== src/Voice/Report/Tests.antt =====
-- A report whose log does not fit: of four entries it keeps the last two.
use otacon.Prelude.{◌≤◌, ◌<◌, ◌+◌, ◌≡◌, refl, some, List, [], ◌∷◌, ◌++◌, arith, length}
use otacon.Prelude.Scan.{codes}
use otacon.Voice.Recent.{join_lines}
use otacon.Voice.Report.{Text, Parts, goal, opening, keep_loop, keep_end, kept_lines, format_report}
use otacon.Voice.Report.Fits.{format_report-length}

abbrev parts : Parts
parts = record {
  head = codes "The call has ended.";
  tldr = codes "TL;DR: booked.";
  full = [];
  session = codes "Call session: s";
  tail = codes "Tell the user.";
  brief = [];
}

abbrev entries : List Text
entries =
    codes "[00:01] clinic: Good morning, how can I help?"
    ∷ codes "[00:05] assistant: I would like to book a table for two."
    ∷ codes "[00:09] clinic: Done."
    ∷ codes "[00:12] event"
    ∷ []

entries-kept :
    kept_lines (some 189) entries (opening parts (some 189)) parts.tail
    ≡ codes "[00:09] clinic: Done." ∷ codes "[00:12] event" ∷ []
unfolding kept_lines keep_end keep_loop opening goal
entries-kept = refl

opening-room : length (join_lines (opening parts (some 189) ++ parts.tail ∷ [])) + 82 ≤ 189
unfolding opening goal
opening-room = omega arith

entries-few : length entries < 1_000
entries-few = omega arith

format_report-length_example : length (format_report parts entries (some 189)) ≤ 189
format_report-length_example = format_report-length parts entries 189 opening-room entries-few
