-- ===== src/Prelude/Held.antt =====
-- How often a key stands in a map of JsMap.
use Prim.Native.Nat.{ℕ, ◌+◌, ◌≤◌}
use mathlib.Core.Path.{◌≡◌, refl}
use mathlib.Core.Option.{none, some}
use mathlib.Core.Bool.{Bool}
use mathlib.Core.List.{List, [], ◌∷◌}
use native.Mathlib.Omega.{arith}
use otacon.Prelude.Tests.{◌==◌, if◌then◌else◌}
use otacon.Prelude.JsMap.{get, put, delete}

abbrev pub one_if : Bool → ℕ
one_if b = if b then 1 else 0

module _ {ℓ} {V : Type ℓ} where
  abbrev pub held : ℕ → List (ℕ × V) → ℕ
  held k [] = 0
  held k ((j, v) ∷ m) = one_if (j == k) + held k m

  pub held_none : (k : ℕ) (m : List (ℕ × V)) → get k m ≡ none → held k m ≡ 0
  unfolding get
  held_none k [] h = refl
  held_none k ((j, v) ∷ m) h = ground (arith, held_none k m)

  pub held_some : (k : ℕ) (m : List (ℕ × V)) (v : V) → get k m ≡ some v → 1 ≤ held k m
  unfolding get
  held_some k [] v h = cc
  held_some k ((j, w) ∷ m) v h = ground (arith, held_some k m v)

  -- A new key is added once.
  pub held-put :
      (k j : ℕ) (v : V) (m : List (ℕ × V))
      → held k m ≡ 0
      → held j (put k v m) ≡ held j m + one_if (k == j)
  unfolding put
  held-put k j v [] h = ground arith
  held-put k j v ((i, w) ∷ m) h = ground (arith, held-put k j v m)

  -- A key that is there is taken away once.
  pub held-delete :
      (k j : ℕ) (m : List (ℕ × V)) → 1 ≤ held k m → held j (delete k m) + one_if (k == j) ≡ held j m
  unfolding delete
  held-delete k j [] h = ground arith
  held-delete k j ((i, w) ∷ m) h = ground (arith, held-delete k j m)
