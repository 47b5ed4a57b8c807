-- ===== src/Voice/Config/Parse.antt =====
-- config.ts: `parseConfig`.
use otacon.Prelude.{◌||◌, not, Option, some, List, [], ◌∷◌, ◌++◌, keep, if◌then◌else◌}
use otacon.Prelude.Scan.{codes, same_text, is_nil, trim}
use otacon.Voice.Config.{
  Text, Json, Fields, at_key, entries, obj, str, num, units, round, one_of, is_true, is_false,
}
use otacon.Voice.Config.Lines.{LineConfig, has_id, read_lines, unless}
use otacon.Voice.Config.Settings.{
  AgentContextConfig, RealtimeConfig, MenuConfig, OtaconVoiceConfig, Contact, Problem, no_lines,
  no_default_line,
}
use otacon.Voice.Config.Parts.{
  delays, session_scopes, inbound_policies, tool_policies, consult_policies, or_else, raw_elements,
  only_texts, line_problems, default_line_of, Listening, read_listen, allow_problems, read_contacts,
  session_key_problem, thinking_problem, level_of, greeting_of, fast_mode_of,
}

abbrev context_files : List Text
context_files = codes "SOUL.md" ∷ codes "IDENTITY.md" ∷ codes "USER.md" ∷ []

abbrev files_of : Option Json → List Text
files_of (some (Json.array items)) =
    keep (λ f. not (is_nil (trim f))) (only_texts (raw_elements (some (Json.array items))))
files_of v = context_files

unfoldable pub agent_context_of : Fields → AgentContextConfig
agent_context_of c = record {
  enabled = is_true (at_key (codes "enabled") c);
  include_identity = not (is_false (at_key (codes "includeIdentity") c));
  include_workspace_files = not (is_false (at_key (codes "includeWorkspaceFiles") c));
  files = files_of (at_key (codes "files") c);
  max_chars = round (num (at_key (codes "maxChars") c) (units 6_000) (units 0) (units 50_000));
}

abbrev Provider : Type 0
Provider = List (Text × Json)

abbrev providers_of : List (Text × Json) → List (Text × Provider)
providers_of [] = []
providers_of ((k, v) ∷ vs) = (k, entries (obj (some v))) ∷ providers_of vs

abbrev default_model : Json
default_model = Json.text (codes "gpt-realtime-2.1")

-- `p.model ??= "gpt-realtime-2.1"`: a null is replaced too.
unfoldable pub with_model : Provider → Provider
with_model [] = (codes "model", default_model) ∷ []
with_model ((k, Json.null) ∷ p) =
    let rest = with_model p in
    if same_text k (codes "model") then (k, default_model) ∷ p else (k, Json.null) ∷ rest
with_model ((k, v) ∷ p) =
    let rest = with_model p in if same_text k (codes "model") then (k, v) ∷ p else (k, v) ∷ rest

-- `providers.openai ??= {}`, and its model.
unfoldable pub with_openai : List (Text × Provider) → List (Text × Provider)
with_openai [] = (codes "openai", with_model []) ∷ []
with_openai ((k, p) ∷ ps) =
    let rest = with_openai ps in
    if same_text k (codes "openai") then (k, with_model p) ∷ ps else (k, p) ∷ rest

unfoldable pub realtime_of : Fields → RealtimeConfig
realtime_of c =
    let recent = obj (at_key (codes "recentContext") c) in
    record {
      provider = str (at_key (codes "provider") c);
      providers = with_openai (providers_of (entries (obj (at_key (codes "providers") c))));
      instructions = str (at_key (codes "instructions") c);
      agent_context = agent_context_of (obj (at_key (codes "agentContext") c));
      recent_enabled = is_true (at_key (codes "enabled") recent);
      recent_max_messages =
          round (num (at_key (codes "maxMessages") recent) (units 8) (units 1) (units 30));
    }

unfoldable pub menu_of : Fields → MenuConfig
menu_of c =
    let transcription = obj (at_key (codes "transcription") c) in
    let decisions = obj (at_key (codes "decisions") c) in
    record {
      enabled = not (is_false (at_key (codes "enabled") c));
      transcription_model =
          or_else (str (at_key (codes "model") transcription)) (codes "gpt-live-transcribe");
      transcription_delay = one_of (at_key (codes "delay") transcription) delays (codes "medium");
      transcription_api_key = at_key (codes "apiKey") transcription;
      decisions_model =
          or_else (str (at_key (codes "model") decisions)) (codes "openai/gpt-6-luna-decisions");
      decisions_api_key = at_key (codes "apiKey") decisions;
      check_every = num (at_key (codes "checkEverySeconds") c) (units 3) (units 1) (units 30);
      threshold = num (at_key (codes "threshold") c) 600 500 1_000;
    }

-- What is returned where no problem was found.
unfoldable pub config_of :
    Fields → List LineConfig → Listening → List Text → List Contact → OtaconVoiceConfig
config_of c lines listening allow_from contacts = record {
  enabled = not (is_false (at_key (codes "enabled") c));
  lines = lines;
  default_line = default_line_of c lines;
  listen = listening.0;
  agent_id = str (at_key (codes "agentId") c);
  session_scope = one_of (at_key (codes "sessionScope") c) session_scopes (codes "per-phone");
  owner_name = or_else (str (at_key (codes "ownerName") c)) (codes "my principal");
  assistant_name = or_else (str (at_key (codes "assistantName") c)) (codes "an AI assistant");
  inbound_policy = one_of (at_key (codes "inboundPolicy") c) inbound_policies (codes "disabled");
  allow_from = allow_from;
  inbound_greeting = greeting_of (at_key (codes "inboundGreeting") c);
  inbound_session_key = str (at_key (codes "inboundSessionKey") c);
  tool_policy = one_of (at_key (codes "toolPolicy") c) tool_policies (codes "safe-read-only");
  consult_policy = one_of (at_key (codes "consultPolicy") c) consult_policies (codes "auto");
  response_model = str (at_key (codes "responseModel") c);
  consult_thinking_level = level_of (at_key (codes "consultThinkingLevel") c);
  consult_fast_mode = fast_mode_of (at_key (codes "consultFastMode") c);
  consult_recent_messages =
      round (num (at_key (codes "consultRecentMessages") c) (units 8) (units 0) (units 30));
  response_timeout =
      num (at_key (codes "responseTimeoutMs") c) (units 60_000) (units 5_000) (units 600_000);
  realtime = realtime_of (obj (at_key (codes "realtime") c));
  contacts = contacts;
  menu = menu_of (obj (at_key (codes "menu") c));
  hold_cap = num (at_key (codes "holdCapSeconds") c) (units 300) (units 10) (units 3_600);
  max_call = num (at_key (codes "maxCallSeconds") c) (units 1_800) (units 60) (units 14_400);
  ring_timeout = num (at_key (codes "ringTimeoutSeconds") c) (units 45) (units 10) (units 120);
}

pub data Parsed : Type 0 where
  accepted : OtaconVoiceConfig → Parsed
  refused : List Problem → Parsed

unfoldable pub verdict : List Problem → OtaconVoiceConfig → Parsed
verdict [] c = accepted c
verdict (p ∷ ps) c = refused (p ∷ ps)

unfoldable pub default_problem : Fields → List LineConfig → List Problem
default_problem c lines =
    let id = default_line_of c lines in
    unless (is_nil lines || has_id lines id) (no_default_line id)

unfoldable pub parse_config : Option Json → Parsed
parse_config raw =
    let c = obj raw in
    let raw_lines = raw_elements (at_key (codes "lines") c) in
    let (lines, in_lines) = read_lines 0 [] raw_lines in
    let listening = read_listen c lines in
    let allow_from = only_texts (raw_elements (at_key (codes "allowFrom") c)) in
    let (contacts, in_contacts) = read_contacts (entries (obj (at_key (codes "contacts") c))) in
    verdict
      (unless (not (is_nil raw_lines)) no_lines
        ++ line_problems in_lines
        ++ default_problem c lines
        ++ listening.1
        ++ allow_problems allow_from
        ++ in_contacts
        ++ session_key_problem (str (at_key (codes "inboundSessionKey") c))
        ++ thinking_problem (at_key (codes "consultThinkingLevel") c))
      (config_of c lines listening allow_from contacts)
