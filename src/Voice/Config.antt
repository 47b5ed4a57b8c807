-- ===== src/Voice/Config.antt =====
-- config.ts: reading a configuration value. Texts are lists of characters, as in Scan. A number is
-- counted in thousandths, or is out of a double's range; what is finer is not told apart. A JSON text
-- has no key twice, and keys stand in the order of `Object.entries`.
pub mod Lines
pub mod Settings
pub mod Parts
pub mod Parse
pub mod Valid
pub mod Reading
pub mod Sound
pub mod Bounded
pub mod Accepted
mod Tests
use otacon.Prelude.{
  ℕ, suc, ◌+◌, ◌*◌, ◌/◌, ◌≤◌, ◌≡◌, min, max, Bool, true, false, ◌&&◌, ◌||◌, not, Option, none, some,
  List, [], ◌∷◌, ◌++◌, leb, find, length, ◌==◌, if◌then◌else◌,
}
use otacon.Prelude.Int.{ℤ, pos, negsuc}
use otacon.Prelude.Scan.{codes, same_text, is_nil, after, trim, drop_end}

abbrev pub Text : Type 0
Text = List ℕ

pub data Number : Type 0 where
  thousandths : ℤ → Number
  infinite : Number

mutual
  pub data Json : Type 0 where
    null : Json
    bool : Bool → Json
    number : Number → Json
    text : Text → Json
    array : Items → Json
    object : Fields → Json

  pub data Items : Type 0 where
    no_items : Items
    item : Json → Items → Items

  pub data Fields : Type 0 where
    no_fields : Fields
    field : Text → Json → Fields → Fields

-- `v.key`, where none is `undefined`.
abbrev pub at_key : Text → Fields → Option Json
at_key k no_fields = none
at_key k (field j v fs) = if same_text j k then some v else at_key k fs

abbrev pub elements : Items → List Json
elements no_items = []
elements (item j js) = j ∷ elements js

abbrev pub entries : Fields → List (Text × Json)
entries no_fields = []
entries (field k v fs) = (k, v) ∷ entries fs

unfoldable pub obj : Option Json → Fields
obj (some (object fs)) = fs
obj v = no_fields

-- A text that is empty is none.
abbrev pub non_empty : Text → Option Text
non_empty [] = none
non_empty (c ∷ s) = some (c ∷ s)

unfoldable pub str : Option Json → Option Text
str (some (text s)) = non_empty (trim s)
str v = none

-- The milliunits of a whole number.
abbrev pub units : ℕ → ℕ
units n = n * 1_000

-- `Math.min(max, Math.max(min, v))`, where `min` is not negative.
abbrev pub clamp : ℕ → ℕ → ℤ → ℕ
clamp lo hi (pos n) = min hi (max lo n)
clamp lo hi (negsuc n) = min hi lo

unfoldable pub num : Option Json → ℕ → ℕ → ℕ → ℕ
num (some (number (thousandths n))) def lo hi = clamp lo hi n
num v def lo hi = def

-- `Math.round` of a number that is not negative, as a whole number.
abbrev pub round : ℕ → ℕ
round n = (n + 500) / 1_000

unfoldable pub one_of : Option Json → List Text → Text → Text
one_of (some (text s)) allowed def = elim (find (same_text s) allowed) [ none ↦ def | some a ↦ a ]
one_of v allowed def = def

abbrev pub is_digit : ℕ → Bool
is_digit c = leb 48 c && leb c 57

abbrev pub all_chars : (ℕ → Bool) → Text → Bool
all_chars p [] = true
all_chars p (c ∷ s) = p c && all_chars p s

-- `/^\+[1-9]\d{6,14}$/`
unfoldable pub is_e164_text : Text → Bool
is_e164_text (plus ∷ c ∷ s) =
    (plus == 43)
    && (leb 49 c && leb c 57)
    && all_chars is_digit s
    && (leb 6 (length s) && leb (length s) 14)
is_e164_text _ = false

unfoldable pub is_e164 : Option Text → Bool
is_e164 none = false
is_e164 (some s) = is_e164_text s

abbrev pub is_letter_or_digit : ℕ → Bool
is_letter_or_digit c = is_digit c || (leb 65 c && leb c 90) || (leb 97 c && leb c 122)

abbrev pub is_id_char : ℕ → Bool
is_id_char c = is_letter_or_digit c || (c == 95) || (c == 45)

-- `/^[a-z0-9][a-z0-9_-]*$/i`
unfoldable pub is_id : Text → Bool
is_id [] = false
is_id (c ∷ s) = is_letter_or_digit c && all_chars is_id_char s

-- `.replace(/\/+$/, "")`
unfoldable pub without_slashes : Option Text → Option Text
without_slashes none = none
without_slashes (some s) = some (drop_end (λ c. c == 47) s)

-- Whether a text that is there is not empty: what JavaScript takes for true.
abbrev pub is_given : Option Text → Bool
is_given none = false
is_given (some s) = not (is_nil s)

abbrev pub starts_with : Text → Text → Bool
starts_with prefix s = elim (after prefix s) [ none ↦ false | some rest ↦ true ]

-- `v === text`
abbrev pub is_text : Text → Option Json → Bool
is_text t (some (text s)) = same_text t s
is_text t v = false

abbrev pub is_true : Option Json → Bool
is_true (some (bool true)) = true
is_true v = false

abbrev pub is_false : Option Json → Bool
is_false (some (bool false)) = true
is_false v = false

-- What JavaScript takes for true, of a value in a JSON text.
abbrev pub is_truthy : Option Json → Bool
is_truthy none = false
is_truthy (some null) = false
is_truthy (some (bool b)) = b
is_truthy (some (number infinite)) = true
is_truthy (some (number (thousandths (pos n)))) = not (n == 0)
is_truthy (some (number (thousandths (negsuc n)))) = true
is_truthy (some (text s)) = not (is_nil s)
is_truthy (some (array items)) = true
is_truthy (some (object _)) = true
