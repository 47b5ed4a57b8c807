-- ===== src/Prelude/Scan.antt =====
-- Scanning a text, a list of numbers, by a test on its characters.
use Prim.Native.Nat.{ℕ}
use Prim.Native.Char.{code}
use Prim.Native.String.{String}
use mathlib.Core.Path.{◌≡◌, refl, ap}
use mathlib.Core.Logic.{inl, inr}
use mathlib.Core.Bool.{Bool, true, false, ◌&&◌, ◌||◌}
use mathlib.Core.Option.{Option, none, some}
use mathlib.Core.List.{List, [], ◌∷◌, ◌++◌}
use native.Mathlib.Omega.{arith}
use otacon.Prelude.Tests.{leb, ◌==◌, if◌then◌else◌, Bool-cases}
use otacon.Prelude.Lists.{All}

-- The characters of a text: its UTF-16 units too, where it is ASCII.
abbrev pub codes : String → List ℕ
codes String.[] = []
codes (String.◌∷◌ c s) = code c ∷ codes s

abbrev pub same_text : List ℕ → List ℕ → Bool
same_text [] [] = true
same_text (x ∷ xs) (y ∷ ys) = (x == y) && same_text xs ys
same_text _ _ = false

abbrev pub is_nil {ℓ} : {A : Type ℓ} → List A → Bool
is_nil [] = true
is_nil (x ∷ xs) = false

abbrev pub any : (ℕ → Bool) → List ℕ → Bool
any p [] = false
any p (x ∷ xs) = p x || any p xs

-- What follows the prefix, if the text starts with it.
abbrev pub after : List ℕ → List ℕ → Option (List ℕ)
after [] s = some s
after (x ∷ xs) [] = none
after (x ∷ xs) (y ∷ ys) = if x == y then after xs ys else none

pub after-append : (xs ys : List ℕ) → after xs (xs ++ ys) ≡ some ys
after-append [] ys = refl
after-append (x ∷ xs) ys = ground (arith, after-append xs ys)

pub after_lem : (xs s r : List ℕ) → after xs s ≡ some r → s ≡ xs ++ r
after_lem [] s r e = ground (arith, e)
after_lem (x ∷ xs) [] r e = cc
after_lem (x ∷ xs) (y ∷ ys) r e = ground (arith, after_lem xs ys r)

module _ (p : ℕ → Bool) where
  abbrev pub take_while : List ℕ → List ℕ
  take_while [] = []
  take_while (x ∷ xs) = if p x then x ∷ take_while xs else []

  abbrev pub drop_while : List ℕ → List ℕ
  drop_while [] = []
  drop_while (x ∷ xs) = if p x then drop_while xs else x ∷ xs

  -- Without the characters at the end that pass the test.
  abbrev pub drop_end : List ℕ → List ℕ
  drop_end [] = []
  drop_end (x ∷ xs) = let rest = drop_end xs in if is_nil rest && p x then [] else x ∷ rest

  -- Every character passes the test, or none does, or the first does not.
  abbrev pub EachIs : List ℕ → Type 0
  EachIs = All (λ c. p c ≡ true)

  abbrev pub NoneIs : List ℕ → Type 0
  NoneIs = All (λ c. p c ≡ false)

  abbrev pub Stops : List ℕ → Type 0
  Stops [] = Unit
  Stops (x ∷ xs) = p x ≡ false

  pub take_drop_while : (xs : List ℕ) → take_while xs ++ drop_while xs ≡ xs
  take_drop_while [] = refl
  take_drop_while (x ∷ xs) = ground (arith, take_drop_while xs)

  pub take_while-Each : (xs : List ℕ) → EachIs (take_while xs)
  take_while-Each [] = tt
  take_while-Each (x ∷ xs) = elim (Bool-cases (p x)) [
    | inl e ↦ rw e (e, take_while-Each xs)
    | inr e ↦ rw e tt
  ]

  pub drop_while-Stops : (xs : List ℕ) → Stops (drop_while xs)
  drop_while-Stops [] = tt
  drop_while-Stops (x ∷ xs) = elim (Bool-cases (p x)) [
    | inl e ↦ rw e (drop_while-Stops xs)
    | inr e ↦ rw e e
  ]

  pub drop_while-append : (xs ys : List ℕ) → EachIs xs → drop_while (xs ++ ys) ≡ drop_while ys
  drop_while-append [] ys h = refl
  drop_while-append (x ∷ xs) ys h = rw h.0 (drop_while-append xs ys h.1)

  pub take_while-append : (xs ys : List ℕ) → EachIs xs → Stops ys → take_while (xs ++ ys) ≡ xs
  take_while-append [] [] h s = refl
  take_while-append [] (y ∷ ys) h s = rw s
  take_while-append (x ∷ xs) ys h s = rw h.0 (ap (◌∷◌ x) (take_while-append xs ys h.1 s))

  pub drop_while-stop : (xs : List ℕ) → Stops xs → drop_while xs ≡ xs
  drop_while-stop [] h = refl
  drop_while-stop (x ∷ xs) h = rw h

  pub drop_end-append : (xs ys : List ℕ) → EachIs ys → drop_end (xs ++ ys) ≡ drop_end xs
  drop_end-append [] ys h = go ys h
    where
      go : (zs : List ℕ) → EachIs zs → drop_end zs ≡ []
      go [] h = refl
      go (z ∷ zs) h = ground (arith, go zs h.1, h.0)
  drop_end-append (x ∷ xs) ys h = ground (arith, drop_end-append xs ys h)

-- JavaScript's white space: what `\s` matches and `trim` takes away.
unfoldable pub is_space : ℕ → Bool
is_space c =
    (leb 9 c && leb c 13)
    || (c == 32)
    || (c == 160)
    || (c == 0x1680)
    || (leb 0x2000 c && leb c 0x200a)
    || (c == 0x2028)
    || (c == 0x2029)
    || (c == 0x202f)
    || (c == 0x205f)
    || (c == 0x3000)
    || (c == 0xfeff)

-- JavaScript's `trim`.
abbrev pub trim : List ℕ → List ℕ
trim s = drop_end is_space (drop_while is_space s)

-- JavaScript's `trimEnd`.
abbrev pub trim_end : List ℕ → List ℕ
trim_end = drop_end is_space

pub drop_while-None :
    (p q : ℕ → Bool) (xs : List ℕ) → any q xs ≡ false → any q (drop_while p xs) ≡ false
drop_while-None p q [] h = refl
drop_while-None p q (x ∷ xs) h = elim (Bool-cases (p x)) [
  | inl e ↦ rw e (drop_while-None p q xs (ground (arith, h)))
  | inr e ↦ rw e h
]

pub any-append : (q : ℕ → Bool) (xs ys : List ℕ) → any q (xs ++ ys) ≡ (any q xs || any q ys)
any-append q [] ys = refl
any-append q (x ∷ xs) ys = ground (arith, any-append q xs ys)
