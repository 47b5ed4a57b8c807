-- ===== src/Voice/Config/Lines.antt =====
-- config.ts: the phone lines of a configuration.
use otacon.Prelude.{
  ℕ, suc, Bool, true, false, ◌&&◌, ◌||◌, not, Option, none, some, List, [], ◌∷◌, ◌++◌,
  if◌then◌else◌,
}
use otacon.Prelude.Scan.{codes, same_text}
use otacon.Voice.Config.{
  Text, Json, Fields, at_key, obj, str, is_e164, is_id, without_slashes, is_given, starts_with,
  is_text, is_true, is_truthy,
}

pub record OtaconLineConfig : Type 0 where
  pub id : Text
  pub url : Text
  pub phone_id : Text
  pub takeover : Bool
  pub number : Option Text

pub record TwilioLineConfig : Type 0 where
  pub id : Text
  pub account_sid : Text
  pub auth_token : Json
  pub from_number : Text
  pub public_url : Text
  pub number : Text

pub data LineConfig : Type 0 where
  otacon_line : OtaconLineConfig → LineConfig
  twilio_line : TwilioLineConfig → LineConfig

abbrev pub id_of : LineConfig → Text
id_of (otacon_line l) = l.id
id_of (twilio_line l) = l.id

abbrev pub is_twilio : LineConfig → Bool
is_twilio (otacon_line l) = false
is_twilio (twilio_line l) = true

-- What is wrong with a line.
pub data LineProblem : Type 0 where
  id_required duplicate_id number_not_e164 url_required phone_id_required : LineProblem
  account_sid_required auth_token_required from_number_not_e164 public_url_not_https : LineProblem
  unknown_provider : LineProblem

abbrev pub unless {ℓ} : {A : Type ℓ} → Bool → A → List A
unless true e = []
unless false e = e ∷ []

abbrev pub has_id : List LineConfig → Text → Bool
has_id [] id = false
has_id (l ∷ ls) id = same_text (id_of l) id || has_id ls id

unfoldable pub id_problem : List LineConfig → Option Text → List LineProblem
id_problem lines none = id_required ∷ []
id_problem lines (some id) =
    if is_id id then unless (not (has_id lines id)) duplicate_id else id_required ∷ []

unfoldable pub number_problem : Option Text → List LineProblem
number_problem none = []
number_problem (some n) = unless (is_e164 (some n)) number_not_e164

abbrev pub Read : Type 0
Read = Option LineConfig × List LineProblem

-- A text that the code uses where the test before it has passed.
abbrev pub or_empty : Option Text → Text
or_empty none = []
or_empty (some s) = s

abbrev pub when {ℓ} : {A : Type ℓ} → Bool → A → Option A
when true a = some a
when false a = none

unfoldable pub read_otacon : Option Text → Option Text → Fields → Read
read_otacon id number l =
    let url = without_slashes (str (at_key (codes "url") l)) in
    let phone_id = str (at_key (codes "phoneId") l) in
    (
      when (is_given id && is_given url && is_given phone_id) (
          otacon_line (record {
            id = or_empty id;
            url = or_empty url;
            phone_id = or_empty phone_id;
            takeover = is_true (at_key (codes "takeover") l);
            number = number;
          })),
      unless (is_given url) url_required ++ unless (is_given phone_id) phone_id_required,
    )

abbrev pub is_https : Option Text → Bool
is_https none = false
is_https (some url) = starts_with (codes "https://") url

abbrev pub or_null : Option Json → Json
or_null none = Json.null
or_null (some v) = v

unfoldable pub read_twilio : Option Text → Fields → Read
read_twilio id l =
    let account_sid = str (at_key (codes "accountSid") l) in
    let from_number = str (at_key (codes "fromNumber") l) in
    let public_url = without_slashes (str (at_key (codes "publicUrl") l)) in
    let auth_token = at_key (codes "authToken") l in
    (
      when
          (is_given id
            && is_given account_sid
            && is_truthy auth_token
            && is_e164 from_number
            && is_https public_url)
          (twilio_line (record {
            id = or_empty id;
            account_sid = or_empty account_sid;
            auth_token = or_null auth_token;
            from_number = or_empty from_number;
            public_url = or_empty public_url;
            number = or_empty from_number;
          })),
      unless (is_given account_sid) account_sid_required
          ++ unless (is_truthy auth_token) auth_token_required
          ++ unless (is_e164 from_number) from_number_not_e164
          ++ unless (is_https public_url) public_url_not_https,
    )

unfoldable pub read_provider : Option Text → Option Text → Fields → Read
read_provider id number l =
    if is_text (codes "otacon") (at_key (codes "provider") l)
    then read_otacon id number l
    else if is_text (codes "twilio") (at_key (codes "provider") l)
    then read_twilio id l
    else (none, unknown_provider ∷ [])

-- One line, after the lines that were read before it.
unfoldable pub read_line : List LineConfig → Json → Read
read_line lines v =
    let l = obj (some v) in
    let id = str (at_key (codes "id") l) in
    let number = str (at_key (codes "number") l) in
    let (line, problems) = read_provider id number l in
    (line, id_problem lines id ++ number_problem number ++ problems)

abbrev pub to_list : Option LineConfig → List LineConfig
to_list none = []
to_list (some l) = l ∷ []

-- The problems stand with the index of their line.
abbrev pub at_index : ℕ → List LineProblem → List (ℕ × LineProblem)
at_index i [] = []
at_index i (p ∷ ps) = (i, p) ∷ at_index i ps

unfoldable pub read_lines :
    ℕ → List LineConfig → List Json → List LineConfig × List (ℕ × LineProblem)
read_lines i lines [] = (lines, [])
read_lines i lines (v ∷ vs) =
    let (line, problems) = read_line lines v in
    let (all, more) = read_lines (suc i) (lines ++ to_list line) vs in
    (all, at_index i problems ++ more)
