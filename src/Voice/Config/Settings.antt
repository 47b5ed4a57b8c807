-- ===== src/Voice/Config/Settings.antt =====
-- config.ts: the settings of a configuration, and what may be wrong with it.
use otacon.Prelude.{ℕ, Bool, Option, List}
use otacon.Voice.Config.{Text, Json}
use otacon.Voice.Config.Lines.{LineConfig, LineProblem}

pub record Contact : Type 0 where
  pub id : Text
  pub name : Text
  pub number : Text
  pub description : Option Text

-- The only number a call may be played to, and the line that dials it.
pub record Listen : Type 0 where
  pub to : Text
  pub line : Option Text

pub record AgentContextConfig : Type 0 where
  pub enabled : Bool
  pub include_identity : Bool
  pub include_workspace_files : Bool
  pub files : List Text
  pub max_chars : ℕ

pub record RealtimeConfig : Type 0 where
  pub provider : Option Text
  pub providers : List (Text × List (Text × Json))
  pub instructions : Option Text
  pub agent_context : AgentContextConfig
  pub recent_enabled : Bool
  pub recent_max_messages : ℕ

pub record MenuConfig : Type 0 where
  pub enabled : Bool
  pub transcription_model : Text
  pub transcription_delay : Text
  pub transcription_api_key : Option Json
  pub decisions_model : Text
  pub decisions_api_key : Option Json
  pub check_every : ℕ
  pub threshold : ℕ

-- Whole numbers are as they are; seconds, milliseconds and the threshold are in thousandths.
pub record OtaconVoiceConfig : Type 0 where
  pub enabled : Bool
  pub lines : List LineConfig
  pub default_line : Text
  pub listen : Option Listen
  pub agent_id : Option Text
  pub session_scope : Text
  pub owner_name : Text
  pub assistant_name : Text
  pub inbound_policy : Text
  pub allow_from : List Text
  pub inbound_greeting : Text
  pub inbound_session_key : Option Text
  pub tool_policy : Text
  pub consult_policy : Text
  pub response_model : Option Text
  pub consult_thinking_level : Option Text
  pub consult_fast_mode : Option Bool
  pub consult_recent_messages : ℕ
  pub response_timeout : ℕ
  pub realtime : RealtimeConfig
  pub contacts : List Contact
  pub menu : MenuConfig
  pub hold_cap : ℕ
  pub max_call : ℕ
  pub ring_timeout : ℕ

pub data Problem : Type 0 where
  no_lines : Problem
  in_line : ℕ × LineProblem → Problem
  no_default_line : Text → Problem
  listen_to_not_e164 listen_needs_twilio : Problem
  listen_line_not_twilio : Text → Problem
  allow_from_not_e164 contact_not_e164 : Text → Problem
  session_key_not_agent bad_thinking_level : Problem
