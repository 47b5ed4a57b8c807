-- ===== src/Orchestrator/Redact/Hidden.antt =====
-- What a redacted JSON value shows.
use mathlib.Core.Option
use otacon.Prelude.{
  String, ◌≡◌, refl, ap, subst, ◌↔◌, eq_iff, ◌⊎◌, inl, inr, false, Option, none, some, arith,
  str_eq, if◌then◌else◌, Bool-cases,
}
use otacon.Orchestrator.Redact.{
  Json, null, bool, number, text, array, object, Items, no_items, item, Fields, no_fields, field,
  is_redacted, hidden, walk_redact, walk_items, walk_fields,
}

abbrev mutual
  -- At any depth, a field with a redacted name holds the mark and nothing else.
  pub IsHidden : Json → Type 0
  IsHidden (array items) = ItemsHidden items
  IsHidden (object fields) = FieldsHidden fields
  IsHidden _ = Unit

  pub ItemsHidden : Items → Type 0
  ItemsHidden no_items = Unit
  ItemsHidden (item j items) = IsHidden j × ItemsHidden items

  pub FieldsHidden : Fields → Type 0
  FieldsHidden no_fields = Unit
  FieldsHidden (field k j fields) =
      ((is_redacted k ≡ false) ⊎ (j ≡ hidden)) × IsHidden j × FieldsHidden fields

-- The value of the first field with the name.
abbrev pub value_of : String → Fields → Option Json
value_of k no_fields = none
value_of k (field l j fields) = if str_eq l k then some j else value_of k fields

mutual
  unfolding walk_redact walk_items walk_fields

  hides : (j : Json) → IsHidden (walk_redact j)
  hides null = tt
  hides (bool b) = tt
  hides (number n) = tt
  hides (text s) = tt
  hides (array items) = hides_items items
  hides (object fields) = hides_fields fields

  hides_items : (items : Items) → ItemsHidden (walk_items items)
  hides_items no_items = tt
  hides_items (item j items) = (hides j, hides_items items)

  hides_fields : (fields : Fields) → FieldsHidden (walk_fields fields)
  hides_fields no_fields = tt
  hides_fields (field k j fields) = elim (Bool-cases (is_redacted k)) [
    | inl e ↦ rw e (inr refl, tt, hides_fields fields)
    | inr e ↦ rw e (inl refl, hides j, hides_fields fields)
  ]

mutual
  unfolding walk_redact walk_items walk_fields

  keeps : (j : Json) → IsHidden j → walk_redact j ≡ j
  keeps null h = refl
  keeps (bool b) h = refl
  keeps (number n) h = refl
  keeps (text s) h = refl
  keeps (array items) h = ap array (keeps_items items h)
  keeps (object fields) h = ap object (keeps_fields fields h)

  keeps_items : (items : Items) → ItemsHidden items → walk_items items ≡ items
  keeps_items no_items h = refl
  keeps_items (item j items) h = cc (keeps j h.0, keeps_items items h.1)

  keeps_fields : (fields : Fields) → FieldsHidden fields → walk_fields fields ≡ fields
  keeps_fields no_fields h = refl
  keeps_fields (field k j fields) (inl e, h, r) = rw (e, keeps j h, keeps_fields fields r) refl
  keeps_fields (field k j fields) (inr e, h, r) = elim (Bool-cases (is_redacted k)) [
    | inl hit ↦ rw (hit, keeps_fields fields r, e) refl
    | inr miss ↦ rw (miss, keeps j h, keeps_fields fields r) refl
  ]

-- However deep it stands, a field with a redacted name holds the mark in what the walk returns.
pub walk_redact-IsHidden : (j : Json) → IsHidden (walk_redact j)
walk_redact-IsHidden = hides

-- The values that the walk leaves as they are are those in which all fields with redacted names
-- hold the mark.
pub walk_redact-fixed : (j : Json) → (walk_redact j ≡ j) ↔ IsHidden j
walk_redact-fixed j = (λ e. subst IsHidden e (hides j), keeps j)

-- What a field of an object becomes: the mark if its name is redacted, and otherwise its value
-- walked; a name that stands for no field stands for none afterwards.
pub value_of-walk_fields :
    (k : String) (fields : Fields)
    → value_of k (walk_fields fields)
      ≡ Option.map (λ j. if is_redacted k then hidden else walk_redact j) (value_of k fields)
unfolding walk_fields
value_of-walk_fields k no_fields = refl
value_of-walk_fields k (field l j fields) = elim (Bool-cases (str_eq l k)) [
  | inl same ↦ let e : l ≡ k = ground (arith, eq_iff l k, same) in rw (same, e) refl
  | inr other ↦ rw other (value_of-walk_fields k fields)
]
