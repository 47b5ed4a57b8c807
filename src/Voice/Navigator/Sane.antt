-- ===== src/Voice/Navigator/Sane.antt =====
-- The entries that a navigator keeps are numbered apart, also while a press is under way.
use otacon.Prelude.{
  ℕ, suc, ◌<◌, ◌≡◌, refl, sym, ap, ◌∙◌, ◌⊎◌, inl, inr, true, false, ◌||◌, Option, none, some, List,
  [], ◌∷◌, ◌++◌, arith, if◌then◌else◌, if-elim, Bool-cases, All, All-append, All-mono, keep, ◌==◌,
  last?-append,
}
use otacon.Prelude.Scan.{is_nil, trim}
use otacon.Voice.LineSound.{Loudness}
use otacon.Voice.Navigator.{
  Who, line, assistant, keypad, Entry, Side, tenths, navigator, the_assistant, Phase, idle,
  deciding, pressing, last_break, MenuNavigator, push_entry, keep_sentence, take_text, line_text,
  flush_partial, note_said, assistant_said, add_press, note_press, pressed, mark_press, press_text,
}
use otacon.Voice.Navigator.Check.{other_than, last_made}
use otacon.Voice.Navigator.Ink.{line_ink, counted}

abbrev pub Numbered : ℕ → List Entry → Type 0
Numbered next = All (λ e. e.made < next)

-- Either another entry, or one that the line did not say.
abbrev pub Silent : ℕ → Entry → Type 0
Silent made e = ((e.made == made) ≡ false) ⊎ (counted e.who e.text ≡ [])

abbrev pub Marked : Phase → ℕ → List Entry → Type 0
Marked (pressing at made) next entries = (made < next) × All (Silent made) entries
Marked _ next entries = Unit

-- The entries are numbered apart, and the one of a press that is under way is not the line's.
abbrev pub Sane : List Entry → ℕ → Phase → Type 0
Sane entries next phase = Numbered next entries × Marked phase next entries

Numbered-push :
    (entries : List Entry) (e : Entry) (next : ℕ)
    → e.made ≡ next
    → Numbered next entries
    → Numbered (suc next) (entries ++ e ∷ [])
Numbered-push entries e next m h =
    All-append (λ (x : Entry). x.made < suc next) entries (e ∷ [])
      (All-mono (λ (x : Entry). x.made < next) (λ x. x.made < suc next) entries (λ x p. omega arith)
        h)
      (omega arith, tt)

Sane-push :
    (entries : List Entry) (e : Entry) (next : ℕ) (phase : Phase)
    → e.made ≡ next
    → Sane entries next phase
    → Sane (entries ++ e ∷ []) (suc next) phase
Sane-push entries e next idle m h = (Numbered-push entries e next m h.0, tt)
Sane-push entries e next deciding m h = (Numbered-push entries e next m h.0, tt)
Sane-push entries e next (pressing at made) m (h, (lt, s)) = (
  Numbered-push entries e next m h,
  (omega arith, All-append (Silent made) entries (e ∷ []) s (inl (ground arith), tt)),
)

-- The entry of a press that begins.
Silent-push :
    (entries : List Entry) (e : Entry) (next : ℕ)
    → counted e.who e.text ≡ []
    → Numbered next entries
    → All (Silent next) (entries ++ e ∷ [])
Silent-push entries e next q h =
    All-append (Silent next) entries (e ∷ [])
      (All-mono (λ (x : Entry). x.made < next) (Silent next) entries (λ x p. inl (ground arith)) h)
      (inr q, tt)

pub line_ink-keep :
    (made : ℕ) (entries : List Entry)
    → All (Silent made) entries
    → line_ink (keep (other_than made) entries) ≡ line_ink entries
line_ink-keep made [] h = refl
line_ink-keep made (e ∷ es) (s, h) = elim (Bool-cases (e.made == made)) [
  | inr other ↦ rw other (ap (◌++◌ (counted e.who e.text)) (line_ink-keep made es h))
  | inl same ↦ elim s [
    | inl other ↦ absurd (no (sym same ∙ other))
    | inr q ↦ rw (same, q) (line_ink-keep made es h)
  ]
]
  where
    no : ¬ (true ≡ false)
    no e = cc e

pub last_made-append : (es : List Entry) (e : Entry) → last_made (es ++ e ∷ []) ≡ e.made
last_made-append es e = rw (last?-append es e, last_made) refl

module _ (loudness : Loudness) where
  abbrev Nav : Type 0
  Nav = MenuNavigator loudness

  abbrev pub SaneNav : Nav → Type 0
  SaneNav n = Sane n.entries n.next_entry n.phase

  SaneNav-push :
      (n : Nav) (t : ℕ) (who : Who) (text : List ℕ)
      → SaneNav n
      → SaneNav (push_entry loudness n t who text)
  SaneNav-push n t who text h =
      Sane-push n.entries (record { made = n.next_entry; t = t; who = who; text = text })
        n.next_entry n.phase refl h

  pub SaneNav-flush : (n : Nav) → SaneNav n → SaneNav (flush_partial loudness n)
  unfolding flush_partial
  SaneNav-flush n h =
      if-elim (λ (m : Nav). SaneNav (record m { partial = [] })) (is_nil (trim n.partial)) n
        (push_entry loudness n n.partial_at line (trim n.partial)) h
        (λ e. SaneNav-push n n.partial_at line (trim n.partial) h)

  SaneNav-keep_sentence :
      (n : Nav) (now : ℕ) (found : Option (List ℕ × List ℕ))
      → SaneNav n
      → SaneNav (keep_sentence loudness n now found)
  SaneNav-keep_sentence n now none h = h
  SaneNav-keep_sentence n now (some (a, b)) h =
      if-elim SaneNav (is_nil (trim a)) n _ h (λ e. SaneNav-push n n.partial_at line (trim a) h)

  pub SaneNav-line_text :
      (n : Nav) (delta : List ℕ) (now : ℕ) → SaneNav n → SaneNav (line_text loudness n delta now)
  unfolding line_text take_text
  SaneNav-line_text n delta now h =
      if-elim SaneNav (n.stopped || is_nil delta) n (take_text loudness n delta now) h
        (λ e. SaneNav-keep_sentence _ now (last_break (n.partial ++ delta)) h)

  pub SaneNav-assistant_said :
      (n : Nav) (text : List ℕ) (now : ℕ) → SaneNav n → SaneNav (assistant_said loudness n text now)
  unfolding assistant_said note_said
  SaneNav-assistant_said n text now h =
      if-elim SaneNav (n.stopped || is_nil (trim text)) n (note_said loudness n text now) h (λ e.
        SaneNav-push (flush_partial loudness n) (tenths now) assistant (trim text)
          (SaneNav-flush n h))

  SaneNav-mark : (n : Nav) (by : Side) → SaneNav n → SaneNav (mark_press loudness n by)
  SaneNav-mark n navigator h = h
  SaneNav-mark n the_assistant h = h

  pub SaneNav-pressed :
      (n : Nav) (by : Side) (keys : List ℕ) (now : ℕ)
      → SaneNav n
      → SaneNav (pressed loudness n by keys now)
  unfolding pressed note_press
  SaneNav-pressed n by keys now h =
      if-elim SaneNav n.stopped n (note_press loudness n by keys now) h (λ e.
        let m : Nav =
          flush_partial loudness
            (add_press loudness n (record { t = tenths now; by = by; keys = keys })) in
        SaneNav-mark (push_entry loudness m (tenths now) keypad (press_text by keys)) by (
          SaneNav-push m (tenths now) keypad (press_text by keys) (
            SaneNav-flush (add_press loudness n (record { t = tenths now; by = by; keys = keys }))
              h)))

  -- What a press that has just been noted leaves.
  note_press-Sane :
      (n : Nav) (keys : List ℕ) (now at : ℕ)
      → SaneNav n
      → let m : Nav = note_press loudness n navigator keys now in
        Sane m.entries m.next_entry (pressing at (last_made m.entries))
  unfolding note_press
  note_press-Sane n keys now at h =
      let m : Nav =
        flush_partial loudness
          (add_press loudness n (record { t = tenths now; by = navigator; keys = keys })) in
      let e : Entry = record {
        made = m.next_entry;
        t = tenths now;
        who = keypad;
        text = press_text navigator keys;
      } in
      let s =
        SaneNav-flush
          (add_press loudness n (record { t = tenths now; by = navigator; keys = keys })) h in
      (
        Numbered-push m.entries e m.next_entry refl s.0,
        rw (last_made-append m.entries e)
            (omega arith, Silent-push m.entries e m.next_entry refl s.0),
      )

  pub pressed-noted :
      (n : Nav) (by : Side) (keys : List ℕ) (now : ℕ)
      → n.stopped ≡ false
      → pressed loudness n by keys now ≡ note_press loudness n by keys now
  unfolding pressed
  pressed-noted n by keys now up = ap (λ b. if b then n else note_press loudness n by keys now) up

  pub pressed-Sane :
      (n : Nav) (keys : List ℕ) (now at : ℕ)
      → n.stopped ≡ false
      → SaneNav n
      → let m : Nav = pressed loudness n navigator keys now in
        Sane m.entries m.next_entry (pressing at (last_made m.entries))
  pressed-Sane n keys now at up h =
      rw (pressed-noted n navigator keys now up) (note_press-Sane n keys now at h)
