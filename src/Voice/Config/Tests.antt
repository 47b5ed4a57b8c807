-- ===== src/Voice/Config/Tests.antt =====
-- A configuration with two lines, one of them a Twilio line that may be listened in on, and one whose
-- lines share an id.
use otacon.Prelude.{◌≡◌, refl, some, String, List, [], ◌∷◌, length}
use otacon.Prelude.Int.{pos}
use otacon.Prelude.Scan.{codes}
use otacon.Prelude.Scan.{is_space}
use otacon.Voice.Config.{
  obj, str, num, one_of, is_e164_text, is_e164, is_id, without_slashes, Json, Fields, text, number,
  thousandths, array, object, no_items, item, no_fields, field,
}
use otacon.Voice.Config.Lines.{
  LineConfig, duplicate_id, id_problem, number_problem, read_otacon, read_twilio, read_provider,
  read_line, read_lines,
}
use otacon.Voice.Config.Settings.{OtaconVoiceConfig, in_line}
use otacon.Voice.Config.Sound.{IsConfig}
use otacon.Voice.Config.Parts.{
  default_line_of, listen_of, read_listen, allow_problems, read_contacts, session_key_problem,
  thinking_problem,
}
use otacon.Voice.Config.Parse.{
  accepted, refused, agent_context_of, with_model, with_openai, realtime_of, menu_of, config_of,
  verdict, default_problem, parse_config,
}
use otacon.Voice.Config.Accepted.{parse_config-IsConfig}

abbrev with_text : String → String → Fields → Fields
with_text k s fs = field (codes k) (text (codes s)) fs

abbrev phone_line : Json
phone_line = object (
    with_text "id" "pi" (
      with_text "provider" "otacon"
        (with_text "url" "http://pi:8080//" (with_text "phoneId" "phone-1" no_fields))))

abbrev cloud_line : Json
cloud_line = object (
    with_text "id" "cloud" (
      with_text "provider" "twilio" (
        with_text "accountSid" "account" (
          with_text "authToken" "t" (
            with_text "fromNumber" "+15551234567"
              (with_text "publicUrl" "https://pi/" no_fields))))))

abbrev raw : Json
raw = object (
    field (codes "lines") (array (item phone_line (item cloud_line no_items))) (
      field (codes "listen") (object (with_text "to" "+15557654321" no_fields)) (
        field (codes "allowFrom") (array (item (text (codes "+15557654321")) no_items))
          (field (codes "holdCapSeconds") (number (thousandths (pos 4_000))) no_fields))))

abbrev lines_read : List LineConfig
lines_read = (read_lines 0 [] (phone_line ∷ cloud_line ∷ [])).0

abbrev the_config : OtaconVoiceConfig
the_config =
    config_of (obj (some raw)) lines_read (read_listen (obj (some raw)) lines_read)
      (codes "+15557654321" ∷ []) []

the_config-accepted : parse_config (some raw) ≡ accepted the_config
unfolding obj str num one_of is_e164_text is_e164 is_id without_slashes id_problem number_problem
    read_otacon read_twilio read_provider read_line read_lines agent_context_of with_model
    with_openai realtime_of menu_of config_of verdict default_problem parse_config default_line_of
    listen_of read_listen allow_problems read_contacts session_key_problem thinking_problem is_space
the_config-accepted = refl

the_config-values :
    (length the_config.lines ≡ 2)
    × (the_config.default_line ≡ codes "pi")
    × (the_config.hold_cap ≡ 10_000)
unfolding obj str num one_of is_e164_text is_e164 is_id without_slashes id_problem number_problem
    read_otacon read_twilio read_provider read_line read_lines agent_context_of with_model
    with_openai realtime_of menu_of config_of verdict default_problem parse_config default_line_of
    listen_of read_listen allow_problems read_contacts session_key_problem thinking_problem is_space
the_config-values = (refl, refl, refl)

parse_config-IsConfig_example : IsConfig the_config
parse_config-IsConfig_example = parse_config-IsConfig (some raw) the_config the_config-accepted

abbrev doubled : Json
doubled =
    object (field (codes "lines") (array (item cloud_line (item cloud_line no_items))) no_fields)

doubled-refused : parse_config (some doubled) ≡ refused (in_line (1, duplicate_id) ∷ [])
unfolding obj str num one_of is_e164_text is_e164 is_id without_slashes id_problem number_problem
    read_otacon read_twilio read_provider read_line read_lines agent_context_of with_model
    with_openai realtime_of menu_of config_of verdict default_problem parse_config default_line_of
    listen_of read_listen allow_problems read_contacts session_key_problem thinking_problem is_space
doubled-refused = refl
