-- ===== src/Voice/Recent/Fits.antt =====
-- Limits of the context's texts.
use otacon.Prelude.{
  ℕ, ◌-◌, ◌≤◌, ◌<◌, ◌≡◌, refl, ap, subst, ◌⊎◌, inl, inr, Bool, true, false, ◌&&◌, some, List, [],
  ◌∷◌, ◌++◌, arith, length, take, length-append, length-take, leb, ltb, Bool-cases,
}
use otacon.Prelude.Scan.{is_space, drop_end, trim, trim_end}
use otacon.Voice.Recent.{
  max_context_chars, collapse, drop_half, clip, join_lines, shift_loop, consult_context,
}

length-drop_end : (p : ℕ → Bool) (xs : List ℕ) → length (drop_end p xs) ≤ length xs
length-drop_end p [] = omega arith
length-drop_end p (x ∷ xs) = ground (arith, length-drop_end p xs)

length-drop_half : (xs : List ℕ) → length (drop_half xs) ≤ length xs
length-drop_half [] = omega arith
length-drop_half (x ∷ []) = ground arith
length-drop_half (x ∷ y ∷ xs) = omega (arith, length-drop_half (y ∷ xs))

-- A text clipped to a limit of one or more is no longer than the limit, its ellipsis counted.
pub length-clip : (text : List ℕ) (limit : ℕ) → 1 ≤ limit → length (clip text limit) ≤ limit
unfolding clip
length-clip text limit some_room =
    let flat = trim (collapse text) in
    let part = drop_half (take (limit - 1) flat) in
    elim (Bool-cases (leb (length flat) limit)) [
      | inl fits ↦ ground (arith, fits)
      | inr long ↦ rw long (
          omega (
            arith,
            length-append (trim_end part) (0x2026 ∷ []),
            length-drop_end is_space part,
            length-drop_half (take (limit - 1) flat),
            length-take (limit - 1) flat,
          ))
    ]

-- The messages `older` are each too long to go with what follows them.
abbrev pub TooLong : List ℕ → List (List ℕ) → List (List ℕ) → Type 0
TooLong heading [] kept = Unit
TooLong heading (l ∷ older) kept =
    (max_context_chars < length (heading ++ join_lines (l ∷ (older ++ kept))))
    × TooLong heading older kept

abbrev pub Cut : List ℕ → List (List ℕ) → List (List ℕ) → Type 0
Cut heading chat kept =
    (older : List (List ℕ)) × (chat ≡ older ++ kept)
    × TooLong heading older kept
    × ((length kept ≡ 1) ⊎ (length (heading ++ join_lines kept) ≤ max_context_chars))

and_false : (b : Bool) → (b && false) ≡ false
and_false true = refl
and_false false = refl

shift_loop-Cut :
    (heading l : List ℕ) (ls : List (List ℕ)) → Cut heading (l ∷ ls) (shift_loop heading (l ∷ ls))
unfolding shift_loop
shift_loop-Cut heading l [] = rw (and_false (ltb max_context_chars _)) ([], refl, tt, inl refl)
shift_loop-Cut heading l (m ∷ ls) =
    let (older, e, long, small) = shift_loop-Cut heading m ls in
    elim (Bool-cases (ltb max_context_chars (length (heading ++ join_lines (l ∷ m ∷ ls))))) [
      | inr fits ↦ rw fits ([], refl, tt, inr (ground (arith, fits)))
      | inl over ↦ rw over (
        l ∷ older,
        ap (◌∷◌ l) e,
        (
          subst (λ c. max_context_chars < length (heading ++ join_lines (l ∷ c))) e
              (ground (arith, over)),
          long,
        ),
        small,
      )
    ]

-- If there are messages, the context of a consult shows the newest of them: what was left out,
-- oldest first, was each time too long, what is shown fits in the limit or is one message cut off
-- at it, and the whole is never longer than the limit.
pub consult_context_lem :
    (heading l : List ℕ) (ls : List (List ℕ))
    → (kept : List (List ℕ)) × Cut heading (l ∷ ls) kept
      × (consult_context heading (l ∷ ls)
          ≡ some (take max_context_chars (heading ++ join_lines kept)))
      × (length (take max_context_chars (heading ++ join_lines kept)) ≤ max_context_chars)
unfolding consult_context
consult_context_lem heading l ls =
    let kept = shift_loop heading (l ∷ ls) in
    (
      kept,
      shift_loop-Cut heading l ls,
      refl,
      omega (arith, length-take max_context_chars (heading ++ join_lines kept)),
    )
