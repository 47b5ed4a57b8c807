-- ===== src/Voice/Navigator/Recent.antt =====
-- navigator.ts, `state`: the entries that a check sends.
use otacon.Prelude.{
  ℕ, ◌+◌, ◌<◌, ◌≤◌, ◌≡◌, refl, sym, ap, ◌∙◌, ◌⊎◌, inl, inr, List, [], ◌∷◌, ◌++◌, arith, length, ltb,
  if◌then◌else◌, Bool-cases,
}
use otacon.Voice.Navigator.{Entry, recent_entries, max_transcript_chars}

abbrev pub entry_chars : List Entry → ℕ
entry_chars [] = 0
entry_chars (e ∷ es) = length e.text + entry_chars es

-- Whether all entries but the oldest fit.
abbrev pub Fits : List Entry → Type 0
Fits [] = Unit
Fits (e ∷ es) = entry_chars es < max_transcript_chars

-- What the loop has after some of the newest entries.
abbrev Taken : List Entry → List Entry × ℕ → Type 0
Taken es (kept, used) =
    (older : List Entry) × (es ≡ older ++ kept)
    × (used ≡ entry_chars kept)
    × ((older ≡ []) ⊎ (max_transcript_chars ≤ used))
    × Fits kept

Taken-step :
    (e : Entry) (es kept : List Entry) (used : ℕ)
    → Taken es (kept, used)
    → Taken
        (e ∷ es)
        (if ltb used max_transcript_chars then (e ∷ kept, used + length e.text) else (kept, used))
Taken-step e es kept used (older, split, sum, full, fits) =
    elim (Bool-cases (ltb used max_transcript_chars)) [
      | inl below ↦ elim full [
        | inl none_older ↦ rw below (
          [],
          ap (◌∷◌ e) (split ∙ ap (λ o. o ++ kept) none_older),
          omega arith,
          inl refl,
          ground (arith, below),
        )
        | inr enough ↦ absurd (ground (arith, below))
      ]
      | inr above ↦ rw above (e ∷ older, ap (◌∷◌ e) split, sum, inr (ground (arith, above)), fits)
    ]

recent_entries-Taken : (es : List Entry) → Taken es (recent_entries es)
unfolding recent_entries
recent_entries-Taken [] = ([], refl, refl, inl refl, tt)
recent_entries-Taken (e ∷ es) =
    Taken-step e es (recent_entries es).0 (recent_entries es).1 (recent_entries-Taken es)

-- A check sends the latest entries, as many as fit: they end the transcript; an earlier one is left
-- out only if they have the maximum of characters; and all of them but the oldest have fewer.
pub recent_entries-Fits :
    (es : List Entry)
    → (older : List Entry) × (es ≡ older ++ (recent_entries es).0)
      × ((older ≡ []) ⊎ (max_transcript_chars ≤ entry_chars (recent_entries es).0))
      × Fits (recent_entries es).0
recent_entries-Fits es =
    let (older, split, sum, full, fits) = recent_entries-Taken es in
    (older, split, rw (sym sum) full, fits)
