-- ===== src/Voice/Config/Valid.antt =====
-- config.ts: what holds of the lines of a configuration, and what no problem tells.
use otacon.Prelude.{
  ◌≡◌, refl, Bool, true, false, ◌||◌, Option, none, some, List, [], ◌∷◌, ◌++◌, arith, All,
  All-append,
}
use otacon.Prelude.Scan.{codes, same_text, is_nil}
use otacon.Voice.Config.{Text, is_e164_text, is_id, starts_with, is_truthy}
use otacon.Voice.Config.Lines.{LineConfig, otacon_line, twilio_line, id_of, unless, has_id}

-- What holds of a line's settings.
abbrev pub IsNumber : Option Text → Type 0
IsNumber none = Unit
IsNumber (some n) = is_e164_text n ≡ true

abbrev pub IsLine : LineConfig → Type 0
IsLine (otacon_line l) =
    (is_id l.id ≡ true) × (is_nil l.url ≡ false) × (is_nil l.phone_id ≡ false) × IsNumber l.number
IsLine (twilio_line l) =
    (is_id l.id ≡ true)
    × (is_nil l.account_sid ≡ false)
    × (is_truthy (some l.auth_token) ≡ true)
    × (is_e164_text l.from_number ≡ true)
    × (starts_with (codes "https://") l.public_url ≡ true)
    × (l.number ≡ l.from_number)

abbrev pub DistinctIds : List LineConfig → Type 0
DistinctIds [] = Unit
DistinctIds (l ∷ ls) = (has_id ls (id_of l) ≡ false) × DistinctIds ls

abbrev pub AreLines : List LineConfig → Type 0
AreLines ls = All IsLine ls × DistinctIds ls

same_text_comm : (a b : Text) → same_text a b ≡ same_text b a
same_text_comm [] [] = refl
same_text_comm [] (y ∷ ys) = refl
same_text_comm (x ∷ xs) [] = refl
same_text_comm (x ∷ xs) (y ∷ ys) = ground (arith, same_text_comm xs ys)

has_id-append :
    (ls : List LineConfig) (l : LineConfig) (id : Text)
    → has_id (ls ++ l ∷ []) id ≡ (has_id ls id || same_text (id_of l) id)
has_id-append [] l id = ground arith
has_id-append (k ∷ ls) l id = ground (arith, has_id-append ls l id)

add-DistinctIds :
    (ls : List LineConfig) (l : LineConfig)
    → DistinctIds ls
    → has_id ls (id_of l) ≡ false
    → DistinctIds (ls ++ l ∷ [])
add-DistinctIds [] l d h = (refl, tt)
add-DistinctIds (k ∷ ls) l d h = ground (
  arith,
  has_id-append ls l (id_of k),
  same_text_comm (id_of l) (id_of k),
  add-DistinctIds ls l d.1,
)

pub add-AreLines :
    (ls : List LineConfig) (l : LineConfig)
    → AreLines ls
    → IsLine l
    → has_id ls (id_of l) ≡ false
    → AreLines (ls ++ l ∷ [])
add-AreLines ls l s h f = (All-append IsLine ls (l ∷ []) s.0 (h, tt), add-DistinctIds ls l s.1 f)

-- No problem in a list of them.
pub append_none {ℓ} : {A : Type ℓ} (xs ys : List A) → xs ++ ys ≡ [] → (xs ≡ []) × (ys ≡ [])
append_none [] ys h = (refl, h)
append_none (x ∷ xs) ys h = absurd (no h)
  where
    no : ¬ (x ∷ (xs ++ ys) ≡ [])
    no e = cc e

pub unless_none {ℓ} : {A : Type ℓ} (b : Bool) (e : A) → unless b e ≡ [] → b ≡ true
unless_none true e h = refl
unless_none false e h = absurd (no h)
  where
    no : ¬ (e ∷ [] ≡ [])
    no p = cc p
