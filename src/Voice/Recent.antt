-- ===== src/Voice/Recent.antt =====
-- recent.ts: how context is cut to what fits. A text is the list of its UTF-16 units.
pub mod Fits
mod Tests
use otacon.Prelude.{
  ℕ, ◌+◌, ◌-◌, Bool, true, false, ◌&&◌, ◌||◌, not, Option, none, some, List, [], ◌∷◌, ◌++◌, length,
  take, ◌==◌, leb, ltb, if◌then◌else◌,
}
use otacon.Prelude.Scan.{codes, same_text, is_nil, is_space, trim, trim_end}

abbrev pub max_context_chars : ℕ
max_context_chars = 3000

abbrev starts_with_space : List ℕ → Bool
starts_with_space [] = false
starts_with_space (c ∷ s) = is_space c

-- `text.replace(/\s+/g, " ")`: the last of a run of white space becomes the space.
abbrev pub collapse : List ℕ → List ℕ
collapse [] = []
collapse (c ∷ s) =
    let rest = collapse s in
    if is_space c then (if starts_with_space s then rest else 32 ∷ rest) else c ∷ rest

-- Without a first half of a surrogate pair at the end.
abbrev pub drop_half : List ℕ → List ℕ
drop_half [] = []
drop_half (c ∷ []) = if leb 0xd800 c && leb c 0xdbff then [] else c ∷ []
drop_half (c ∷ d ∷ s) = c ∷ drop_half (d ∷ s)

abbrev pub clip_flat : List ℕ → ℕ → List ℕ
clip_flat flat limit =
    if leb (length flat) limit
    then flat
    else trim_end (drop_half (take (limit - 1) flat)) ++ 0x2026 ∷ []

-- The limits in use are 200, 300 and 600.
unfoldable pub clip : List ℕ → ℕ → List ℕ
clip text limit = clip_flat (trim (collapse text)) limit

-- `lines.join("\n")`
abbrev pub join_lines : List (List ℕ) → List ℕ
join_lines [] = []
join_lines (l ∷ []) = l
join_lines (l ∷ m ∷ ls) = l ++ 10 ∷ join_lines (m ∷ ls)

-- The loop of `formatConsultContext`: the oldest messages go while the text is too long.
unfoldable pub shift_loop : List ℕ → List (List ℕ) → List (List ℕ)
shift_loop heading [] = []
shift_loop heading (l ∷ ls) =
    let rest = shift_loop heading ls in
    if ltb max_context_chars (length (heading ++ join_lines (l ∷ ls))) && not (is_nil ls)
    then rest
    else l ∷ ls

-- `heading` is the first line with its end, `chat` the lines of the messages, oldest first.
unfoldable pub consult_context : List ℕ → List (List ℕ) → Option (List ℕ)
unfolding shift_loop
consult_context heading [] = none
consult_context heading (l ∷ ls) =
    some (take max_context_chars (heading ++ join_lines (shift_loop heading (l ∷ ls))))
