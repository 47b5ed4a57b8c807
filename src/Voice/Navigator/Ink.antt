-- ===== src/Voice/Navigator/Ink.antt =====
-- What the line says, less the white space, and where the navigator keeps it.
use mathlib.Core.List.{append-nil, append_assoc}
use otacon.Prelude.{
  ℕ, ◌≡◌, refl, sym, ap, ◌∙◌, inl, inr, Bool, true, false, ◌||◌, Option, none, some, List, [], ◌∷◌,
  ◌++◌, arith, if◌then◌else◌, Bool-cases, Option-cases,
}
use otacon.Prelude.Scan.{is_nil, is_space, drop_while, drop_end, trim}
use otacon.Voice.LineSound.{Loudness}
use otacon.Voice.Navigator.{
  Who, line, assistant, keypad, Entry, Side, press_text, tenths, navigator, the_assistant,
  last_break, MenuNavigator, push_entry, keep_sentence, take_text, line_text, note_said, add_press,
  note_press, flush_partial, assistant_said, pressed, mark_press,
}

abbrev pub ink : List ℕ → List ℕ
ink [] = []
ink (c ∷ s) = if is_space c then ink s else c ∷ ink s

-- Only what the line said counts.
abbrev pub counted : Who → List ℕ → List ℕ
counted line text = ink text
counted _ text = []

abbrev pub line_ink : List Entry → List ℕ
line_ink [] = []
line_ink (e ∷ es) = counted e.who e.text ++ line_ink es

pub ink-append : (a b : List ℕ) → ink (a ++ b) ≡ ink a ++ ink b
ink-append [] b = refl
ink-append (c ∷ a) b = ground (arith, ink-append a b)

ink-drop_while : (s : List ℕ) → ink (drop_while is_space s) ≡ ink s
ink-drop_while [] = refl
ink-drop_while (c ∷ s) = ground (arith, ink-drop_while s)

ink-drop_end : (s : List ℕ) → ink (drop_end is_space s) ≡ ink s
ink-drop_end [] = refl
ink-drop_end (c ∷ s) = elim (Bool-cases (is_nil (drop_end is_space s))) [
  | inl e ↦ ground (arith, ink-drop_end s, nil_of _ e, e)
  | inr e ↦ rw e (ground (arith, ink-drop_end s))
]
  where
    nil_of : (xs : List ℕ) → is_nil xs ≡ true → xs ≡ []
    nil_of [] h = refl
    nil_of (x ∷ xs) h = cc

pub ink-trim : (s : List ℕ) → ink (trim s) ≡ ink s
ink-trim s = ink-drop_end (drop_while is_space s) ∙ ink-drop_while s

ink-blank : (s : List ℕ) → is_nil (trim s) ≡ true → ink s ≡ []
ink-blank s h = sym (ink-trim s) ∙ go (trim s) h
  where
    go : (xs : List ℕ) → is_nil xs ≡ true → ink xs ≡ []
    go [] h = refl
    go (x ∷ xs) h = cc

ink-last_break : (s a b : List ℕ) → last_break s ≡ some (a, b) → ink s ≡ ink a ++ ink b
unfolding last_break
ink-last_break [] a b e = cc
ink-last_break (c ∷ s) a b e = elim (Option-cases (last_break s)) [
  | inr ((a', b'), e') ↦ ground (arith, e, e', ink-last_break s a' b' e')
  | inl e' ↦ ground (arith, e, e', ink-drop_while s)
]

line_ink-append : (xs ys : List Entry) → line_ink (xs ++ ys) ≡ line_ink xs ++ line_ink ys
line_ink-append [] ys = refl
line_ink-append (x ∷ xs) ys =
    ap (◌++◌ (counted x.who x.text)) (line_ink-append xs ys)
    ∙ sym (append_assoc (counted x.who x.text) (line_ink xs) (line_ink ys))

module _ (loudness : Loudness) where
  abbrev Nav : Type 0
  Nav = MenuNavigator loudness

  -- All that a navigator keeps of what the line said, in order.
  abbrev pub kept : Nav → List ℕ
  kept n = line_ink n.entries ++ ink n.partial

  kept-push_line :
      (n : Nav) (t : ℕ) (text : List ℕ)
      → line_ink (push_entry loudness n t line text).entries ≡ line_ink n.entries ++ ink text
  kept-push_line n t text =
      line_ink-append n.entries
        (record { made = n.next_entry; t = t; who = line; text = text } ∷ [])
      ∙ ap (◌++◌ (line_ink n.entries)) (append-nil (ink text))

  kept-push_other :
      (n : Nav) (t : ℕ) (who : Who) (text : List ℕ)
      → counted who text ≡ []
      → line_ink (push_entry loudness n t who text).entries ≡ line_ink n.entries
  kept-push_other n t who text h =
      line_ink-append n.entries (record { made = n.next_entry; t = t; who = who; text = text } ∷ [])
      ∙ rw h (append-nil (line_ink n.entries))

  kept-keep_sentence :
      (n : Nav) (now : ℕ) (found : Option (List ℕ × List ℕ))
      → last_break n.partial ≡ found
      → kept (keep_sentence loudness n now found) ≡ kept n
  kept-keep_sentence n now none e = refl
  kept-keep_sentence n now (some (a, b)) e = elim (Bool-cases (is_nil (trim a))) [
    | inl blank ↦ rw blank refl
    | inr full ↦ rw full (
        ap (λ x. x ++ ink b)
          (kept-push_line n n.partial_at (trim a) ∙ ap (◌++◌ (line_ink n.entries)) (ink-trim a))
        ∙ append_assoc (line_ink n.entries) (ink a) (ink b)
        ∙ ap (◌++◌ (line_ink n.entries)) (sym (ink-last_break n.partial a b e)))
  ]

  kept-take_text :
      (n : Nav) (delta : List ℕ) (now : ℕ)
      → kept (take_text loudness n delta now) ≡ kept n ++ ink delta
  unfolding take_text
  kept-take_text n delta now =
      kept-keep_sentence _ now (last_break (n.partial ++ delta)) refl
      ∙ ap (◌++◌ (line_ink n.entries)) (ink-append n.partial delta)
      ∙ sym (append_assoc (line_ink n.entries) (ink n.partial) (ink delta))

  -- A guard that returns early keeps what its other branch keeps.
  kept-guard : (b : Bool) (n m : Nav) → kept m ≡ kept n → kept (if b then n else m) ≡ kept n
  kept-guard true n m h = refl
  kept-guard false n m h = h

  pub kept-line_text :
      (n : Nav) (delta : List ℕ) (now : ℕ)
      → n.stopped ≡ false
      → kept (line_text loudness n delta now) ≡ kept n ++ ink delta
  unfolding line_text
  kept-line_text n [] now up = ap kept (go n.stopped) ∙ sym (append-nil (kept n))
    where
      go : (b : Bool) → (if b || true then n else take_text loudness n [] now) ≡ n
      go true = refl
      go false = refl
  kept-line_text n (c ∷ delta) now up =
      ap (λ b. kept (if b || false then n else take_text loudness n (c ∷ delta) now)) up
      ∙ kept-take_text n (c ∷ delta) now

  kept-flush_partial : (n : Nav) → line_ink (flush_partial loudness n).entries ≡ kept n
  unfolding flush_partial
  kept-flush_partial n = elim (Bool-cases (is_nil (trim n.partial))) [
    | inl blank ↦ rw (blank, ink-blank n.partial blank) (sym (append-nil (line_ink n.entries)))
    | inr full ↦ rw full (
        kept-push_line n n.partial_at (trim n.partial)
        ∙ ap (◌++◌ (line_ink n.entries)) (ink-trim n.partial))
  ]

  flush_partial-partial : (n : Nav) → (flush_partial loudness n).partial ≡ []
  unfolding flush_partial
  flush_partial-partial n = refl

  kept-flushed_push :
      (n : Nav) (t : ℕ) (who : Who) (text : List ℕ)
      → counted who text ≡ []
      → kept (push_entry loudness (flush_partial loudness n) t who text) ≡ kept n
  kept-flushed_push n t who text h = rw (flush_partial-partial n) (
      append-nil _ ∙ kept-push_other (flush_partial loudness n) t who text h ∙ kept-flush_partial n)

  pub kept-assistant_said :
      (n : Nav) (text : List ℕ) (now : ℕ) → kept (assistant_said loudness n text now) ≡ kept n
  unfolding assistant_said note_said
  kept-assistant_said n text now =
      kept-guard (n.stopped || is_nil (trim text)) n (note_said loudness n text now)
        (kept-flushed_push n (tenths now) assistant (trim text) refl)

  kept-mark_press : (n : Nav) (by : Side) → kept (mark_press loudness n by) ≡ kept n
  kept-mark_press n navigator = refl
  kept-mark_press n the_assistant = refl

  pub kept-pressed :
      (n : Nav) (by : Side) (keys : List ℕ) (now : ℕ)
      → kept (pressed loudness n by keys now) ≡ kept n
  unfolding pressed note_press
  kept-pressed n by keys now = kept-guard n.stopped n (note_press loudness n by keys now) (
      kept-mark_press _ by
      ∙ kept-flushed_push (add_press loudness n (record { t = tenths now; by = by; keys = keys }))
          (tenths now) keypad (press_text by keys) refl)
