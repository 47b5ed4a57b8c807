-- ===== src/Voice/CallAudio/Trimmed.antt =====
-- What the loop of `keepPreroll` drops and keeps.
use mathlib.Core.List.{append-nil, append_assoc}
use otacon.Prelude.{
  ℕ, ◌+◌, ◌-◌, ◌<◌, ◌≤◌, ◌≡◌, refl, sym, ap, ◌∙◌, ◌⊎◌, inl, inr, List, [], ◌∷◌, ◌++◌, arith, length,
  ltb, Bool-cases, subst,
}
use otacon.Voice.CallAudio.{preroll_bytes_kept, trim_preroll}

abbrev pub total : List (List ℕ) → ℕ
total [] = 0
total (x ∷ chunks) = length x + total chunks

abbrev pub IsSingle : List (List ℕ) → Type 0
IsSingle (x ∷ []) = Unit
IsSingle _ = ⊥

abbrev pub Within : List (List ℕ) → Type 0
Within chunks = (total chunks ≤ preroll_bytes_kept) ⊎ IsSingle chunks

-- Nothing is dropped, or what is kept would be too long with the last that is.
abbrev pub Tight : List (List ℕ) → List (List ℕ) → Type 0
Tight dropped kept =
    (dropped ≡ [])
    ⊎ ((init : List (List ℕ)) × (x : List ℕ) × (dropped ≡ init ++ x ∷ [])
        × (preroll_bytes_kept < length x + total kept))

pub total-append : (xs ys : List (List ℕ)) → total (xs ++ ys) ≡ total xs + total ys
total-append [] ys = omega arith
total-append (x ∷ xs) ys = omega (arith, total-append xs ys)

abbrev pub Trimmed : List (List ℕ) → List (List ℕ) × ℕ → Type 0
Trimmed xs (kept, bytes) =
    (dropped : List (List ℕ)) × (xs ≡ dropped ++ kept)
    × (bytes ≡ total kept)
    × Within kept
    × Tight dropped kept

Tight-cons :
    (x : List ℕ) (chunks dropped kept : List (List ℕ))
    → chunks ≡ dropped ++ kept
    → preroll_bytes_kept < length x + total chunks
    → Tight dropped kept
    → Tight (x ∷ dropped) kept
Tight-cons x chunks dropped kept split long (inl nothing) = inr (
  [],
  x,
  ap (◌∷◌ x) nothing,
  subst (λ c. preroll_bytes_kept < length x + total c) (split ∙ ap (λ d. d ++ kept) nothing) long,
)
Tight-cons x chunks dropped kept split long (inr (init, y, last, over)) =
    inr (x ∷ init, y, ap (◌∷◌ x) last, over)

pub trim_preroll-Trimmed :
    (xs : List (List ℕ)) (bytes : ℕ) → bytes ≡ total xs → Trimmed xs (trim_preroll xs bytes)
unfolding trim_preroll
trim_preroll-Trimmed [] bytes e = ([], refl, e, inl (omega arith), inl refl)
trim_preroll-Trimmed (x ∷ []) bytes e = ([], refl, e, inr tt, inl refl)
trim_preroll-Trimmed (x ∷ y ∷ chunks) bytes e =
    let (dropped, split, sum, within, tight) =
      trim_preroll-Trimmed (y ∷ chunks) (bytes - length x) (omega (arith, e)) in
    elim (Bool-cases (ltb preroll_bytes_kept bytes)) [
      | inl long ↦ rw long (
        x ∷ dropped,
        ap (◌∷◌ x) split,
        sum,
        within,
        Tight-cons x (y ∷ chunks) dropped _ split (ground (arith, long, e)) tight,
      )
      | inr short ↦ rw short ([], refl, e, inl (ground (arith, short, e)), inl refl)
    ]

-- One more chunk, of which `d` is then dropped.
pub Tight-append :
    (dropped d preroll kept : List (List ℕ)) (pcm : List ℕ)
    → preroll ++ pcm ∷ [] ≡ d ++ kept
    → Tight dropped preroll
    → Tight d kept
    → Tight (dropped ++ d) kept
Tight-append dropped d preroll kept pcm split old (inr (init, x, last, over)) =
    inr
      (dropped ++ init, x, ap (◌++◌ dropped) last ∙ sym (append_assoc dropped init (x ∷ [])), over)
Tight-append dropped d preroll kept pcm split (inl nothing) (inl none_now) =
    inl (rw (nothing, none_now) refl)
Tight-append dropped d preroll kept pcm split (inr (init, x, last, over)) (inl none_now) = inr (
  init,
  x,
  ap (◌++◌ dropped) none_now ∙ append-nil dropped ∙ last,
  omega (
    arith,
    over,
    total-append preroll (pcm ∷ []),
    ap total (split ∙ ap (λ e. e ++ kept) none_now),
  ),
)
