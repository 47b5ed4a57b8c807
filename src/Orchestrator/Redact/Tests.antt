-- ===== src/Orchestrator/Redact/Tests.antt =====
-- The walk at the description of a phone.
use otacon.Prelude.{◌≡◌, refl}
use otacon.Orchestrator.Redact.{
  number, text, array, object, no_items, item, Fields, no_fields, field, is_redacted, hidden,
  walk_redact,
}
use otacon.Orchestrator.Redact.Hidden.{IsHidden, walk_redact-IsHidden}

abbrev phone_fields : Fields
phone_fields = field "name" (text "kitchen") (
    field "imei" (number 35) (
      field "sims"
        (array
          (item (object (field "eid" (text "89") (field "slot" (number 1) no_fields))) no_items))
        no_fields))

abbrev shown_fields : Fields
shown_fields = field "name" (text "kitchen") (
    field "imei" hidden (
      field "sims"
        (array (item (object (field "eid" hidden (field "slot" (number 1) no_fields))) no_items))
        no_fields))

walked : walk_redact (object phone_fields) ≡ object shown_fields
unfolding walk_redact is_redacted
walked = refl

walk_redact-IsHidden_example : IsHidden (walk_redact (object phone_fields))
walk_redact-IsHidden_example = walk_redact-IsHidden (object phone_fields)
