-- ===== src/Voice/Config/Accepted.antt =====
-- config.ts: what holds of a configuration that `parseConfig` returns.
use otacon.Prelude.{
  ℕ, ◌≡◌, refl, subst, true, false, ◌&&◌, ◌||◌, not, Option, none, some, List, [], ◌∷◌, ◌++◌, arith,
  length, if-elim, if-cases, Option-elim, All,
}
use otacon.Prelude.Scan.{codes, is_nil}
use otacon.Voice.Config.{
  Text, Json, Fields, at_key, entries, obj, str, is_e164, is_e164_text, is_given, starts_with,
}
use otacon.Voice.Config.Lines.{LineConfig, LineProblem, has_id, read_lines, unless, or_empty}
use otacon.Voice.Config.Valid.{append_none, unless_none}
use otacon.Voice.Config.Reading.{read_lines-AreLines, e164_text}
use otacon.Voice.Config.Settings.{
  Contact, OtaconVoiceConfig, Problem, no_lines, no_default_line, allow_from_not_e164,
  session_key_not_agent,
}
use otacon.Voice.Config.Parts.{
  raw_elements, only_texts, line_problems, default_line_of, some_twilio, twilio_named, Listening,
  listen_of, read_listen, allow_problems, read_contacts, session_key_problem, thinking_problem,
}
use otacon.Voice.Config.Parse.{config_of, accepted, verdict, default_problem, parse_config}
use otacon.Voice.Config.Sound.{IsE164, IsListen, IsSessionKey, IsConfig}
use otacon.Voice.Config.Bounded.{config_of-IsBounded, config_of-IsListed}

listen_of-IsListen :
    (lines : List LineConfig) (to line : Option Text)
    → (listen_of lines to line).1 ≡ []
    → IsListen lines (listen_of lines to line).0
unfolding listen_of
listen_of-IsListen lines to line =
    if-elim Fine (not (is_e164 to)) _ _ (λ p. cc)
      (λ a.
        if-elim Fine (is_given line && not (twilio_named lines (or_empty line))) _ _ (λ p. cc)
          (λ b.
            if-elim Fine (not (is_given line) && not (some_twilio lines)) _ _ (λ p. cc)
              (λ c p. (e164_text to (ground (arith, a)), ground (arith, b, c)))))
  where
    Fine : Listening → Type 0
    Fine r = r.1 ≡ [] → IsListen lines r.0

allow_problems_none : (ns : List Text) → allow_problems ns ≡ [] → All IsE164 ns
unfolding allow_problems is_e164
allow_problems_none [] h = tt
allow_problems_none (n ∷ ns) h =
    let (a, b) =
      append_none (unless (is_e164_text n) (allow_from_not_e164 n)) (allow_problems ns) h in
    (unless_none (is_e164_text n) (allow_from_not_e164 n) a, allow_problems_none ns b)

agent_key_none : (o : Option Text) → session_key_problem o ≡ [] → IsSessionKey o
unfolding session_key_problem
agent_key_none none h = tt
agent_key_none (some key) h = unless_none (starts_with (codes "agent:") key) session_key_not_agent h

read_contacts-IsE164 :
    (vs : List (Text × Json)) → All (λ (p : Contact). IsE164 p.number) (read_contacts vs).0
unfolding read_contacts
read_contacts-IsE164 [] = tt
read_contacts-IsE164 ((id, v) ∷ vs) =
    let e = obj (some v) in
    let number = str (at_key (codes "number") e) in
    if-cases (λ (r : List Contact × List Problem). All (λ (p : Contact). IsE164 p.number) r.0)
      (is_e164 number) _ _ (λ good. (e164_text number good, read_contacts-IsE164 vs))
      (λ bad. read_contacts-IsE164 vs)

read_listen-IsListen :
    (c : Fields) (lines : List LineConfig)
    → (read_listen c lines).1 ≡ []
    → IsListen lines (read_listen c lines).0
unfolding read_listen
read_listen-IsListen c lines =
    Option-elim (λ (r : Listening). r.1 ≡ [] → IsListen lines r.0) (at_key (codes "listen") c) _ _
      (λ p. tt)
      (λ v.
        listen_of-IsListen lines (str (at_key (codes "to") (obj (some v))))
          (str (at_key (codes "line") (obj (some v)))))

default_none :
    (c : Fields) (lines : List LineConfig)
    → default_problem c lines ≡ []
    → is_nil lines ≡ false
    → has_id lines (default_line_of c lines) ≡ true
unfolding default_problem
default_none c lines h some_line =
    let id = default_line_of c lines in
    let e = unless_none (is_nil lines || has_id lines id) (no_default_line id) h in
    ground (arith, e, some_line)

verdict_accepted :
    (ps : List Problem) (c d : OtaconVoiceConfig) → verdict ps c ≡ accepted d → (ps ≡ []) × (c ≡ d)
unfolding verdict
verdict_accepted [] c d h = (refl, cc h)
verdict_accepted (p ∷ ps) c d h = cc h

line_problems_none : (ps : List (ℕ × LineProblem)) → line_problems ps ≡ [] → ps ≡ []
line_problems_none [] h = refl
line_problems_none (p ∷ ps) h = cc h

nil_of_length :
    {A : Type 0} (vs : List A) (ls : List LineConfig)
    → is_nil vs ≡ false
    → length ls ≡ length vs
    → is_nil ls ≡ false
nil_of_length [] ls h e = cc h
nil_of_length (v ∷ vs) [] h e = absurd (omega (arith, e))
nil_of_length (v ∷ vs) (l ∷ ls) h e = refl

-- A configuration that is returned can be used: its lines are complete, no two have an id, and the
-- default line is one of them; every number is E.164; a Twilio line dials the listening call; and
-- numbers and choices are within what is allowed.
pub parse_config-IsConfig :
    (raw : Option Json) (c : OtaconVoiceConfig) → parse_config raw ≡ accepted c → IsConfig c
unfolding parse_config config_of
parse_config-IsConfig raw config h =
    let c = obj raw in
    let vs = raw_elements (at_key (codes "lines") c) in
    let (lines, in_lines) = read_lines 0 [] vs in
    let listening = read_listen c lines in
    let ns = only_texts (raw_elements (at_key (codes "allowFrom") c)) in
    let es = entries (obj (at_key (codes "contacts") c)) in
    let key = str (at_key (codes "inboundSessionKey") c) in
    let level = at_key (codes "consultThinkingLevel") c in
    let p1 = unless (not (is_nil vs)) no_lines in
    let p2 = line_problems in_lines in
    let p3 = default_problem c lines in
    let p4 = listening.1 in
    let p5 = allow_problems ns in
    let p6 = (read_contacts es).1 in
    let p7 = session_key_problem key in
    let p8 = thinking_problem level in
    let found = config_of c lines listening ns (read_contacts es).0 in
    let (none_left, same) =
      verdict_accepted (p1 ++ p2 ++ p3 ++ p4 ++ p5 ++ p6 ++ p7 ++ p8) found config h in
    let (q7, e8) = append_none (p1 ++ p2 ++ p3 ++ p4 ++ p5 ++ p6 ++ p7) p8 none_left in
    let (q6, e7) = append_none (p1 ++ p2 ++ p3 ++ p4 ++ p5 ++ p6) p7 q7 in
    let (q5, e6) = append_none (p1 ++ p2 ++ p3 ++ p4 ++ p5) p6 q6 in
    let (q4, e5) = append_none (p1 ++ p2 ++ p3 ++ p4) p5 q5 in
    let (q3, e4) = append_none (p1 ++ p2 ++ p3) p4 q4 in
    let (q2, e3) = append_none (p1 ++ p2) p3 q3 in
    let (e1, e2) = append_none p1 p2 q2 in
    let (sound, count) = read_lines-AreLines 0 [] vs (tt, tt) (line_problems_none in_lines e2) in
    let given = unless_none (not (is_nil vs)) no_lines e1 in
    let some_line = nil_of_length vs lines (ground (arith, given)) (omega (arith, count)) in
    subst IsConfig same (record {
      lines = sound;
      default_line = default_none c lines e3 some_line;
      listen = read_listen-IsListen c lines e4;
      callers = allow_problems_none ns e5;
      contacts = read_contacts-IsE164 es;
      session_key = agent_key_none key e7;
      bounded = config_of-IsBounded c lines listening ns (read_contacts es).0;
      listed = config_of-IsListed c lines listening ns (read_contacts es).0 e8;
    })
