-- ===== src/Orchestrator/Redact.antt =====
-- sandbox/redact.ts: the walk over a parsed JSON value that hides what identifies a phone. Numbers
-- are opaque; an object's fields stand in the order of `Object.entries`, and the key `__proto__`,
-- which an assignment does not store, is left out.
pub mod Hidden
mod Tests
use otacon.Prelude.{
  ℕ, String, Bool, true, false, ◌||◌, Option, none, some, List, [], ◌∷◌, str_eq, if◌then◌else◌,
}

mutual
  pub data Json : Type 0 where
    null : Json
    bool : Bool → Json
    number : ℕ → Json
    text : String → Json
    array : Items → Json
    object : Fields → Json

  pub data Items : Type 0 where
    no_items : Items
    item : Json → Items → Items

  pub data Fields : Type 0 where
    no_fields : Fields
    field : String → Json → Fields → Fields

abbrev pub redacted_fields : List String
redacted_fields =
    "adb_serial" ∷ "phone_bt_mac" ∷ "adapter_mac" ∷ "imei" ∷ "imei2" ∷ "eid" ∷ "vnc_port" ∷ []

abbrev includes : List String → String → Bool
includes [] k = false
includes (x ∷ xs) k = str_eq x k || includes xs k

unfoldable pub is_redacted : String → Bool
is_redacted k = includes redacted_fields k

abbrev pub hidden : Json
hidden = text "[redacted]"

unfoldable mutual
  pub walk_redact : Json → Json
  walk_redact (array items) = array (walk_items items)
  walk_redact (object fields) = object (walk_fields fields)
  walk_redact null = null
  walk_redact (bool b) = bool b
  walk_redact (number n) = number n
  walk_redact (text s) = text s

  pub walk_items : Items → Items
  walk_items no_items = no_items
  walk_items (item j items) = item (walk_redact j) (walk_items items)

  pub walk_fields : Fields → Fields
  walk_fields no_fields = no_fields
  walk_fields (field k j fields) =
      let rest = walk_fields fields in
      let value = walk_redact j in field k (if is_redacted k then hidden else value) rest
