-- ===== src/Voice/Config/Parts.antt =====
-- config.ts: the parts of a configuration, each with the problems it may have.
use otacon.Prelude.{
  ℕ, String, Bool, true, false, ◌&&◌, ◌||◌, not, Option, none, some, List, [], ◌∷◌, ◌++◌, find,
  if◌then◌else◌,
}
use otacon.Prelude.Scan.{codes, same_text, trim}
use otacon.Voice.Config.{
  Text, Json, Fields, at_key, elements, obj, str, is_e164, is_given, starts_with,
}
use otacon.Voice.Config.Lines.{LineConfig, id_of, is_twilio, LineProblem, or_empty, unless}
use otacon.Voice.Config.Settings.{
  Contact, Listen, Problem, in_line, listen_to_not_e164, listen_needs_twilio,
  listen_line_not_twilio, allow_from_not_e164, contact_not_e164, session_key_not_agent,
  bad_thinking_level,
}

abbrev pub texts : List String → List Text
texts [] = []
texts (s ∷ ss) = codes s ∷ texts ss

abbrev pub thinking_levels : List Text
thinking_levels =
    texts
      ("off" ∷ "minimal" ∷ "low" ∷ "medium" ∷ "high" ∷ "xhigh" ∷ "adaptive" ∷ "max" ∷ "ultra" ∷ [])

abbrev pub delays : List Text
delays = texts ("minimal" ∷ "low" ∷ "medium" ∷ "high" ∷ "xhigh" ∷ [])

abbrev pub session_scopes : List Text
session_scopes = texts ("per-phone" ∷ "per-call" ∷ "main" ∷ [])

abbrev pub inbound_policies : List Text
inbound_policies = texts ("disabled" ∷ "allowlist" ∷ [])

abbrev pub tool_policies : List Text
tool_policies = texts ("safe-read-only" ∷ "owner" ∷ "none" ∷ [])

abbrev pub consult_policies : List Text
consult_policies = texts ("auto" ∷ "substantive" ∷ "always" ∷ [])

abbrev pub or_else {ℓ} : {A : Type ℓ} → Option A → A → A
or_else none a = a
or_else (some b) a = b

abbrev pub raw_elements : Option Json → List Json
raw_elements (some (Json.array items)) = elements items
raw_elements v = []

-- Those of the values that are texts.
abbrev pub only_texts : List Json → List Text
only_texts [] = []
only_texts (Json.text s ∷ vs) = s ∷ only_texts vs
only_texts (v ∷ vs) = only_texts vs

abbrev pub line_problems : List (ℕ × LineProblem) → List Problem
line_problems [] = []
line_problems (p ∷ ps) = in_line p ∷ line_problems ps

abbrev pub first_id : List LineConfig → Text
first_id [] = []
first_id (l ∷ ls) = id_of l

unfoldable pub default_line_of : Fields → List LineConfig → Text
default_line_of c lines = or_else (str (at_key (codes "defaultLine") c)) (first_id lines)

abbrev pub some_twilio : List LineConfig → Bool
some_twilio [] = false
some_twilio (l ∷ ls) = is_twilio l || some_twilio ls

-- `lines.find((l) => l.id === line)?.provider === "twilio"`
abbrev pub twilio_named : List LineConfig → Text → Bool
twilio_named lines id = elim (find (λ l. same_text (id_of l) id) lines) [
  | none ↦ false
  | some l ↦ is_twilio l
]

abbrev pub Listening : Type 0
Listening = Option Listen × List Problem

unfoldable pub listen_of : List LineConfig → Option Text → Option Text → Listening
listen_of lines to line =
    if not (is_e164 to)
    then (none, listen_to_not_e164 ∷ [])
    else if is_given line && not (twilio_named lines (or_empty line))
    then (none, listen_line_not_twilio (or_empty line) ∷ [])
    else if not (is_given line) && not (some_twilio lines)
    then (none, listen_needs_twilio ∷ [])
    else (some (record { to = or_empty to; line = line }), [])

unfoldable pub read_listen : Fields → List LineConfig → Listening
read_listen c lines = elim (at_key (codes "listen") c) [
  | none ↦ (none, [])
  | some v ↦
      listen_of lines (str (at_key (codes "to") (obj (some v))))
        (str (at_key (codes "line") (obj (some v))))
]

unfoldable pub allow_problems : List Text → List Problem
allow_problems [] = []
allow_problems (n ∷ ns) = unless (is_e164 (some n)) (allow_from_not_e164 n) ++ allow_problems ns

abbrev pub read_contact : Text → Fields → Option Text → Contact
read_contact id e number = record {
  id = id;
  name = or_else (str (at_key (codes "name") e)) id;
  number = or_empty number;
  description = str (at_key (codes "description") e);
}

unfoldable pub read_contacts : List (Text × Json) → List Contact × List Problem
read_contacts [] = ([], [])
read_contacts ((id, v) ∷ vs) =
    let e = obj (some v) in
    let number = str (at_key (codes "number") e) in
    let (cs, ps) = read_contacts vs in
    if is_e164 number then (read_contact id e number ∷ cs, ps) else (cs, contact_not_e164 id ∷ ps)

unfoldable pub session_key_problem : Option Text → List Problem
session_key_problem none = []
session_key_problem (some key) = unless (starts_with (codes "agent:") key) session_key_not_agent

-- A thinking level is one of the known texts, or is not given.
abbrev pub is_level : Json → Bool
is_level (Json.text s) = elim (find (same_text s) thinking_levels) [ none ↦ false | some t ↦ true ]
is_level v = false

unfoldable pub thinking_problem : Option Json → List Problem
thinking_problem none = []
thinking_problem (some v) = unless (is_level v) bad_thinking_level

abbrev pub level_of : Option Json → Option Text
level_of (some (Json.text s)) = some s
level_of v = none

abbrev pub greeting_of : Option Json → Text
greeting_of (some (Json.text s)) = trim s
greeting_of v = codes "Hello! How can I help you today?"

abbrev pub fast_mode_of : Option Json → Option Bool
fast_mode_of (some (Json.bool b)) = some b
fast_mode_of v = none
