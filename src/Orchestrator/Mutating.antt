-- ===== src/Orchestrator/Mutating.antt =====
-- sandbox/mutating.ts, with the `isMutating` flags of the commands in cli/src/commands/otacon: does
-- a command change the phone's state? A command is the list of its UTF-16 units. Verbs that only
-- `Object.prototype` names, such as `constructor`, are left out.
pub mod Matched
pub mod Verdict
mod Tests
use otacon.Prelude.{
  ℕ, Bool, true, false, ◌&&◌, ◌||◌, not, Option, none, some, List, [], ◌∷◌, ◌++◌, String, map, keep,
  find, ◌==◌, ltb, leb, if◌then◌else◌,
}
use otacon.Prelude.Scan.{codes, same_text, is_nil, any, after, take_while, drop_while, drop_end}
unfoldable pub use otacon.Prelude.Scan.{is_space}
pub use otacon.Prelude.Scan.{trim}

-- What the dot of a regular expression does not match.
unfoldable pub is_terminator : ℕ → Bool
is_terminator c = (c == 10) || (c == 13) || (c == 0x2028) || (c == 0x2029)

abbrev pub is_text : ℕ → Bool
is_text c = not (is_space c)

pub record Matrix : Type 0 where
  pub verb : String
  pub mutating : List String
  pub default_sub : String

abbrev matrix_of : String → List String → String → Matrix
matrix_of verb mutating default_sub = record {
  verb = verb;
  mutating = mutating;
  default_sub = default_sub;
}

abbrev pub subcommand_matrix : List Matrix
subcommand_matrix =
    matrix_of "apps" ("launch" ∷ "stop" ∷ "install" ∷ []) "list"
    ∷ matrix_of "call"
        ("dial" ∷ "answer" ∷ "reject" ∷ "hangup" ∷ "hold" ∷ "resume" ∷ "swap" ∷ "merge" ∷ "dtmf"
          ∷ [])
        "status"
    ∷ matrix_of "clipboard" ("set" ∷ []) "get"
    ∷ matrix_of "notifications" ("dismiss" ∷ "action" ∷ []) "list"
    ∷ matrix_of "record" ("start" ∷ "stop" ∷ []) "status"
    ∷ matrix_of "sms" ("send" ∷ []) "list"
    ∷ []

-- The verbs of the registry and their `isMutating` flags.
abbrev pub otacon_registry : List (String × Bool)
otacon_registry =
    ("tap", true)
    ∷ ("long-tap", true)
    ∷ ("swipe", true)
    ∷ ("key", true)
    ∷ ("type", true)
    ∷ ("set-text", true)
    ∷ ("scroll", true)
    ∷ ("screenshot", false)
    ∷ ("snapshot", false)
    ∷ ("info", false)
    ∷ ("apps", true)
    ∷ ("sms", true)
    ∷ ("call", true)
    ∷ ("clipboard", true)
    ∷ ("contacts", false)
    ∷ ("notifications", true)
    ∷ ("open", true)
    ∷ ("record", true)
    ∷ []

abbrev pub is_one_of : List ℕ → List String → Bool
is_one_of s [] = false
is_one_of s (x ∷ xs) = same_text (codes x) s || is_one_of s xs

abbrev pub matrix_for : List ℕ → List Matrix → Option Matrix
matrix_for verb = find (λ m. same_text (codes m.verb) verb)

-- The keys of the registry.
abbrev pub registered : List String
registered = map (λ e. e.0) otacon_registry

abbrev pub subcommand_verbs : List String
subcommand_verbs = map (λ m. m.verb) subcommand_matrix

abbrev pub always_mutating : List String
always_mutating =
    map (λ e. e.0) (keep (λ e. e.1 && not (is_one_of (codes e.0) subcommand_verbs)) otacon_registry)

-- `args[0] ?? matrix.defaultSub ?? ''`.
abbrev pub sub_of : List (List ℕ) → Matrix → List ℕ
sub_of [] m = codes m.default_sub
sub_of (arg ∷ args) m = arg

abbrev mutating_sub : List (List ℕ) → Option Matrix → Bool
mutating_sub args none = false
mutating_sub args (some m) = is_one_of (sub_of args m) m.mutating

unfoldable pub is_mutating_otacon : List ℕ → List (List ℕ) → Bool
is_mutating_otacon verb args =
    if not (is_one_of verb registered)
    then false
    else if is_one_of verb always_mutating
    then true
    else mutating_sub args (matrix_for verb subcommand_matrix)

-- The captures of `/^otacon\s+(\S+)(?:\s+(.*))?$/`, the second empty where it is absent. The
-- classes `\s` and `\S` exclude each other, so each run is as long as it can be.
abbrev pub match_rest : List ℕ → Option (List ℕ × List ℕ)
match_rest s =
    let verb_on = drop_while is_space s in
    let rest = drop_while is_space (drop_while is_text verb_on) in
    if is_nil (take_while is_space s)
      || is_nil (take_while is_text verb_on)
      || any is_terminator rest
    then none
    else some (take_while is_text verb_on, rest)

abbrev pub match_after : Option (List ℕ) → Option (List ℕ × List ℕ)
match_after none = none
match_after (some s) = match_rest s

unfoldable pub match_command : List ℕ → Option (List ℕ × List ℕ)
match_command s = match_after (after (codes "otacon") s)

-- `rest.split(/\s+/).filter(Boolean)`: the empty parts go, so it splits at every single space.
abbrev split_from : List ℕ → List ℕ → List (List ℕ)
split_from part [] = part ∷ []
split_from part (c ∷ s) =
    if is_space c then part ∷ split_from [] s else split_from (part ++ c ∷ []) s

abbrev pub words : List ℕ → List (List ℕ)
words s = keep (λ part. not (is_nil part)) (split_from [] s)

abbrev pub verdict : Option (List ℕ × List ℕ) → Bool
verdict none = false
verdict (some (verb, rest)) = is_mutating_otacon verb (words rest)

unfoldable pub is_mutating : List ℕ → Bool
is_mutating command = verdict (match_command (trim command))
