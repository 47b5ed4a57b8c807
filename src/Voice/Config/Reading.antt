-- ===== src/Voice/Config/Reading.antt =====
-- config.ts: lines that are read without a problem are sound, and no two have an id.
use otacon.Prelude.{
  ℕ, suc, ◌≡◌, inl, inr, refl, sym, subst, ap, ◌+◌, length, length-append, Bool, true, false, ◌&&◌,
  not, Option, none, some, List, [], ◌∷◌, ◌++◌, arith, if-elim, Bool-cases,
}
use otacon.Prelude.Scan.{codes, is_nil}
use otacon.Voice.Config.{
  Text, Json, Fields, at_key, obj, str, is_e164, is_e164_text, is_id, is_given, starts_with,
  is_text, is_truthy, without_slashes,
}
use otacon.Voice.Config.Lines.{
  LineConfig, id_of, LineProblem, duplicate_id, number_not_e164, url_required, phone_id_required,
  account_sid_required, auth_token_required, from_number_not_e164, public_url_not_https, unless,
  has_id, id_problem, number_problem, Read, or_empty, when, read_otacon, is_https, or_null,
  read_twilio, read_provider, read_line, to_list, at_index, read_lines,
}
use otacon.Voice.Config.Valid.{IsNumber, IsLine, AreLines, add-AreLines, append_none, unless_none}

-- What was read is a line that can be added.
abbrev pub Added : List LineConfig → Option LineConfig → Type 0
Added ls o = (l : LineConfig) × (o ≡ some l) × AreLines (ls ++ l ∷ [])

when-Added :
    (ls : List LineConfig) (b : Bool) (l : LineConfig)
    → b ≡ true
    → AreLines ls
    → IsLine l
    → has_id ls (id_of l) ≡ false
    → Added ls (when b l)
when-Added ls b l e s h f = (l, rw e refl, add-AreLines ls l s h f)

id_problem_none :
    (ls : List LineConfig) (id : Option Text)
    → id_problem ls id ≡ []
    → (is_id (or_empty id) ≡ true) × (has_id ls (or_empty id) ≡ false)
unfolding id_problem
id_problem_none ls none h = cc h
id_problem_none ls (some id) h = elim (Bool-cases (is_id id)) [
  | inl good ↦
      let e = unless_none (not (has_id ls id)) duplicate_id (rw good at h) in
      (good, ground (arith, e))
  | inr bad ↦ absurd (ground (arith, h, bad))
]

number_problem_none : (n : Option Text) → number_problem n ≡ [] → IsNumber n
unfolding number_problem is_e164
number_problem_none none h = tt
number_problem_none (some n) h = unless_none (is_e164_text n) number_not_e164 h

given_id : (o : Option Text) → is_id (or_empty o) ≡ true → is_given o ≡ true
unfolding is_id
given_id none h = cc h
given_id (some []) h = cc h
given_id (some (c ∷ s)) h = refl

given : (o : Option Text) → is_given o ≡ true → is_nil (or_empty o) ≡ false
given none h = cc h
given (some s) h = ground (arith, h)

pub e164_text : (o : Option Text) → is_e164 o ≡ true → is_e164_text (or_empty o) ≡ true
unfolding is_e164
e164_text none h = cc h
e164_text (some s) h = h

https_text :
    (o : Option Text) → is_https o ≡ true → starts_with (codes "https://") (or_empty o) ≡ true
https_text none h = cc h
https_text (some s) h = h

truthy : (v : Option Json) → is_truthy v ≡ true → is_truthy (some (or_null v)) ≡ true
truthy none h = cc h
truthy (some v) h = h

module _ (ls : List LineConfig) (s : AreLines ls) where
  abbrev Adds : Read → Type 0
  Adds r = r.1 ≡ [] → Added ls r.0

  read_otacon-Adds :
      (id number : Option Text) (l : Fields)
      → is_id (or_empty id) ≡ true
      → has_id ls (or_empty id) ≡ false
      → IsNumber number
      → Adds (read_otacon id number l)
  unfolding read_otacon
  read_otacon-Adds id number l good fresh num h =
      let url = without_slashes (str (at_key (codes "url") l)) in
      let phone_id = str (at_key (codes "phoneId") l) in
      let (a, b) =
        append_none (unless (is_given url) url_required)
          (unless (is_given phone_id) phone_id_required) h in
      let u = unless_none (is_given url) url_required a in
      let p = unless_none (is_given phone_id) phone_id_required b in
      when-Added ls (is_given id && is_given url && is_given phone_id) _
        (ground (arith, u, p, given_id id good)) s (good, given url u, given phone_id p, num) fresh

  read_twilio-Adds :
      (id : Option Text) (l : Fields)
      → is_id (or_empty id) ≡ true
      → has_id ls (or_empty id) ≡ false
      → Adds (read_twilio id l)
  unfolding read_twilio
  read_twilio-Adds id l good fresh h =
      let sid = str (at_key (codes "accountSid") l) in
      let token = at_key (codes "authToken") l in
      let from = str (at_key (codes "fromNumber") l) in
      let url = without_slashes (str (at_key (codes "publicUrl") l)) in
      let (abc, d) =
        append_none
          (unless (is_given sid) account_sid_required
            ++ unless (is_truthy token) auth_token_required
            ++ unless (is_e164 from) from_number_not_e164)
          (unless (is_https url) public_url_not_https) h in
      let (ab, c) =
        append_none
          (unless (is_given sid) account_sid_required
            ++ unless (is_truthy token) auth_token_required)
          (unless (is_e164 from) from_number_not_e164) abc in
      let (a, b) =
        append_none (unless (is_given sid) account_sid_required)
          (unless (is_truthy token) auth_token_required) ab in
      let a1 = unless_none (is_given sid) account_sid_required a in
      let b1 = unless_none (is_truthy token) auth_token_required b in
      let c1 = unless_none (is_e164 from) from_number_not_e164 c in
      let d1 = unless_none (is_https url) public_url_not_https d in
      when-Added ls (is_given id && is_given sid && is_truthy token && is_e164 from && is_https url)
        _ (ground (arith, a1, b1, c1, d1, given_id id good)) s
        (good, given sid a1, truthy token b1, e164_text from c1, https_text url d1, refl) fresh

  read_line-Adds : (v : Json) → Adds (read_line ls v)
  unfolding read_line read_provider
  read_line-Adds v h =
      let l = obj (some v) in
      let id = str (at_key (codes "id") l) in
      let number = str (at_key (codes "number") l) in
      let (ab, c) =
        append_none (id_problem ls id ++ number_problem number) (read_provider id number l).1 h in
      let (a, b) = append_none (id_problem ls id) (number_problem number) ab in
      let (good, fresh) = id_problem_none ls id a in
      if-elim Adds (is_text (codes "otacon") (at_key (codes "provider") l)) _ _
        (read_otacon-Adds id number l good fresh (number_problem_none number b))
        (λ e.
          if-elim Adds (is_text (codes "twilio") (at_key (codes "provider") l)) _ _
            (read_twilio-Adds id l good fresh) (λ e p. cc p))
        c

at_index_none : (i : ℕ) (ps : List LineProblem) → at_index i ps ≡ [] → ps ≡ []
at_index_none i [] h = refl
at_index_none i (p ∷ ps) h = cc h

pub read_lines-AreLines :
    (i : ℕ) (ls : List LineConfig) (vs : List Json)
    → AreLines ls
    → (read_lines i ls vs).1 ≡ []
    → AreLines (read_lines i ls vs).0 × (length (read_lines i ls vs).0 ≡ length ls + length vs)
unfolding read_lines
read_lines-AreLines i ls [] s h = (s, omega arith)
read_lines-AreLines i ls (v ∷ vs) s h =
    let (line, problems) = read_line ls v in
    let (a, b) = append_none (at_index i problems) _ h in
    let (l, e, t) = read_line-Adds ls s v (at_index_none i problems a) in
    let more = ls ++ to_list line in
    let same : more ≡ ls ++ l ∷ [] = ap (λ o. ls ++ to_list o) e in
    let (u, n) = read_lines-AreLines (suc i) more vs (subst AreLines (sym same) t) b in
    (u, omega (arith, n, ap length same, length-append ls (l ∷ [])))
