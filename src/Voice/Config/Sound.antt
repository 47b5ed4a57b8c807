-- ===== src/Voice/Config/Sound.antt =====
-- config.ts: what holds of a configuration that can be used.
use otacon.Prelude.{ℕ, ◌≤◌, ◌≡◌, true, Option, none, some, List, Among, if◌then◌else◌, All}
use otacon.Prelude.Scan.{codes}
use otacon.Voice.Config.{Text, text, units, is_e164_text, is_given, starts_with}
use otacon.Voice.Config.Lines.{LineConfig, has_id, or_empty}
use otacon.Voice.Config.Valid.{AreLines}
use otacon.Voice.Config.Settings.{Listen, OtaconVoiceConfig}
use otacon.Voice.Config.Parts.{
  delays, session_scopes, inbound_policies, tool_policies, consult_policies, some_twilio,
  twilio_named, is_level,
}

abbrev pub Between : ℕ → ℕ → ℕ → Type 0
Between lo hi n = (lo ≤ n) × (n ≤ hi)

abbrev pub IsE164 : Text → Type 0
IsE164 n = is_e164_text n ≡ true

-- The number is E.164, and a Twilio line dials it: the one that is named, if one is.
abbrev pub Dials : List LineConfig → Option Text → Type 0
Dials lines line =
    (if is_given line then twilio_named lines (or_empty line) else some_twilio lines) ≡ true

abbrev pub IsListen : List LineConfig → Option Listen → Type 0
IsListen lines none = Unit
IsListen lines (some l) = IsE164 l.to × Dials lines l.line

abbrev pub IsSessionKey : Option Text → Type 0
IsSessionKey none = Unit
IsSessionKey (some key) = starts_with (codes "agent:") key ≡ true

abbrev pub IsLevel : Option Text → Type 0
IsLevel none = Unit
IsLevel (some level) = is_level (text level) ≡ true

pub record IsBounded (c : OtaconVoiceConfig) : Type 0 where
  pub recent : c.consult_recent_messages ≤ 30
  pub response : Between (units 5_000) (units 600_000) c.response_timeout
  pub context : c.realtime.agent_context.max_chars ≤ 50_000
  pub messages : Between 1 30 c.realtime.recent_max_messages
  pub check_every : Between (units 1) (units 30) c.menu.check_every
  pub threshold : Between 500 1_000 c.menu.threshold
  pub hold_cap : Between (units 10) (units 3_600) c.hold_cap
  pub max_call : Between (units 60) (units 14_400) c.max_call
  pub ring_timeout : Between (units 10) (units 120) c.ring_timeout

pub record IsListed (c : OtaconVoiceConfig) : Type 0 where
  pub scope : Among c.session_scope session_scopes
  pub inbound : Among c.inbound_policy inbound_policies
  pub tools : Among c.tool_policy tool_policies
  pub consult : Among c.consult_policy consult_policies
  pub delay : Among c.menu.transcription_delay delays
  pub level : IsLevel c.consult_thinking_level

pub record IsConfig (c : OtaconVoiceConfig) : Type 0 where
  pub lines : AreLines c.lines
  pub default_line : has_id c.lines c.default_line ≡ true
  pub listen : IsListen c.lines c.listen
  pub callers : All IsE164 c.allow_from
  pub contacts : All (λ p. IsE164 p.number) c.contacts
  pub session_key : IsSessionKey c.inbound_session_key
  pub bounded : IsBounded c
  pub listed : IsListed c
