-- ===== src/Prelude/JsMap.antt =====
-- JavaScript's `Map` with number keys: insertion order, `set` on a present key writes in place.
use Prim.Native.Nat.{ℕ}
use mathlib.Core.Path.{◌≡◌, refl, subst, ap}
use mathlib.Core.Logic.{inl, inr, ◌≢◌}
use mathlib.Core.Option.{Option, none, some}
use mathlib.Core.Bool.{Bool, true, false}
use mathlib.Core.List.{List, [], ◌∷◌, ◌++◌}
use native.Mathlib.Omega.{arith}
use otacon.Prelude.Tests.{◌==◌, ==_self, if◌then◌else◌, Bool-cases, Option-cases}
use otacon.Prelude.Lists.{All, keep, last?, last?-cons}

module _ {ℓ} {V : Type ℓ} where
  unfoldable pub get : ℕ → List (ℕ × V) → Option V
  get k [] = none
  get k ((j, v) ∷ m) = if j == k then some v else get k m

  unfoldable pub put : ℕ → V → List (ℕ × V) → List (ℕ × V)
  put k v [] = (k, v) ∷ []
  put k v ((j, w) ∷ m) = if j == k then (j, v) ∷ m else (j, w) ∷ put k v m

  unfoldable pub delete : ℕ → List (ℕ × V) → List (ℕ × V)
  delete k [] = []
  delete k ((j, w) ∷ m) = if j == k then m else (j, w) ∷ delete k m

  abbrev pub values : List (ℕ × V) → List V
  values [] = []
  values ((k, v) ∷ m) = v ∷ values m

  -- No key stands twice.
  abbrev pub Distinct : List (ℕ × V) → Type ℓ
  Distinct [] = Unit
  Distinct ((k, v) ∷ m) = (get k m ≡ none) × Distinct m

  pub get-put :
      (k j : ℕ) (v : V) (m : List (ℕ × V))
      → get j (put k v m) ≡ (if k == j then some v else get j m)
  unfolding get put
  get-put k j v [] = refl
  get-put k j v ((i, w) ∷ m) = ground (arith, get-put k j v m)

  pub get-delete :
      (k j : ℕ) (m : List (ℕ × V))
      → Distinct m
      → get j (delete k m) ≡ (if k == j then none else get j m)
  unfolding get delete
  get-delete k j [] d = ground arith
  get-delete k j ((i, w) ∷ m) d = ground (arith, get-delete k j m d.1)

  pub put-Distinct : (k : ℕ) (v : V) (m : List (ℕ × V)) → Distinct m → Distinct (put k v m)
  unfolding get put
  put-Distinct k v [] d = (refl, tt)
  put-Distinct k v ((i, w) ∷ m) d = ground (arith, put-Distinct k v m d.1, get-put k i v m)

  pub delete-Distinct : (k : ℕ) (m : List (ℕ × V)) → Distinct m → Distinct (delete k m)
  unfolding get delete
  delete-Distinct k [] d = tt
  delete-Distinct k ((i, w) ∷ m) d = ground (arith, delete-Distinct k m d.1, get-delete k i m d.1)

  -- A new key goes to the end.
  pub put_new : (k : ℕ) (v : V) (m : List (ℕ × V)) → get k m ≡ none → put k v m ≡ m ++ (k, v) ∷ []
  unfolding get put
  put_new k v [] h = refl
  put_new k v ((i, w) ∷ m) h = ground (arith, put_new k v m)

  pub put-put : (k : ℕ) (v w : V) (m : List (ℕ × V)) → put k v (put k w m) ≡ put k v m
  unfolding put
  put-put k v w [] = ground arith
  put-put k v w ((i, u) ∷ m) = ground (arith, put-put k v w m)

  pub delete-put_ne :
      (k j : ℕ) (v : V) (m : List (ℕ × V))
      → (k == j) ≡ false
      → get j m ≢ none
      → delete k (put j v m) ≡ put j v (delete k m)
  unfolding get put delete
  delete-put_ne k j v [] n f = absurd (f refl)
  delete-put_ne k j v ((i, u) ∷ m) n f = ground (arith, delete-put_ne k j v m)

  pub put-append_left :
      (k : ℕ) (v : V) (m n : List (ℕ × V)) → get k m ≢ none → put k v (m ++ n) ≡ put k v m ++ n
  unfolding get put
  put-append_left k v [] n f = absurd (f refl)
  put-append_left k v ((i, u) ∷ m) n f = ground (arith, put-append_left k v m n)

  pub put-append_right :
      (k : ℕ) (v : V) (m n : List (ℕ × V)) → get k m ≡ none → put k v (m ++ n) ≡ m ++ put k v n
  unfolding get put
  put-append_right k v [] n f = refl
  put-append_right k v ((i, u) ∷ m) n f = ground (arith, put-append_right k v m n)

  pub values-append : (m n : List (ℕ × V)) → values (m ++ n) ≡ values m ++ values n
  values-append [] n = refl
  values-append ((k, v) ∷ m) n = ap (◌∷◌ v) (values-append m n)

  pub get-delete_self : (k : ℕ) (m : List (ℕ × V)) → Distinct m → get k (delete k m) ≡ none
  get-delete_self k m d = ground (arith, get-delete k k m d)

  -- Taking `k` out, and writing `j` and `k` again, leaves `k` at the end.
  pub move_to_end :
      (k j : ℕ) (t u w x : V) (m : List (ℕ × V))
      → Distinct m
      → (k == j) ≡ false
      → get j m ≢ none
      → put k x (put j w (put k u (delete k (put j t m)))) ≡ put j w (delete k m) ++ (k, x) ∷ []
  unfolding put
  move_to_end k j t u w x m d n f =
      rw
        (
          delete-put_ne k j t m n f,
          put_new k u (put j t (delete k m)) (k_absent t),
          put-append_left j w (put j t (delete k m)) ((k, u) ∷ []) j_present,
          put-put j w t (delete k m),
          put-append_right k x (put j w (delete k m)) ((k, u) ∷ []) (k_absent w),
        )
        (ground (arith, ==_self k))
    where
      k_absent : (v : V) → get k (put j v (delete k m)) ≡ none
      k_absent v = ground (arith, get-put j k v (delete k m), get-delete k k m d, n)

      j_present : get j (put j t (delete k m)) ≢ none
      j_present = ground (arith, get-put j j t (delete k m))

  -- Where no value passes the test, a value that does is the only one.
  pub keep-put_only :
      (p : V → Bool) (k : ℕ) (v : V) (m : List (ℕ × V))
      → keep p (values m) ≡ []
      → p v ≡ true
      → keep p (values (put k v m)) ≡ v ∷ []
  unfolding put
  keep-put_only p k v [] h q = ground (arith, q)
  keep-put_only p k v ((i, w) ∷ m) h q = elim (Bool-cases (p w)) [
    | inl hit ↦ ground (arith, h, hit)
    | inr miss ↦ ground (arith, h, miss, q, keep-put_only p k v m)
  ]

  -- What `[...m.values()].filter(p).at(-1)` finds stands in the map and passes the test.
  pub last?-keep-values :
      (p : V → Bool) (m : List (ℕ × V)) (a : V)
      → Distinct m
      → last? (keep p (values m)) ≡ some a
      → (k : ℕ) × (get k m ≡ some a) × (p a ≡ true)
  unfolding get
  last?-keep-values p [] a d h = cc
  last?-keep-values p ((i, w) ∷ m) a d h = elim (Bool-cases (p w)) [
    | inr skip ↦ later (last?-keep-values p m a d.1 (rw skip at h))
    | inl hit ↦ elim (Option-cases (last? (keep p (values m)))) [
      | inl e ↦
          let same : w ≡ a = ground (arith, last?-cons w (keep p (values m))) in
          (i, ground (arith, same), ground (arith, same, hit))
      | inr (b, e) ↦
          later (last?-keep-values p m a d.1 (ground (arith, e, last?-cons w (keep p (values m)))))
    ]
  ]
    where
      later :
          (k : ℕ) × (get k m ≡ some a) × (p a ≡ true)
          → (k : ℕ) × (get k ((i, w) ∷ m) ≡ some a) × (p a ≡ true)
      later (k, e, q) = (k, ground (arith, e, d.0), q)

module _ {ℓ κ} {V : Type ℓ} (P : ℕ → V → Type κ) where
  -- Every entry satisfies `P`.
  abbrev pub Each : List (ℕ × V) → Type κ
  Each = All (λ e. P e.0 e.1)

  pub Each-put : (k : ℕ) (v : V) (m : List (ℕ × V)) → Each m → P k v → Each (put k v m)
  unfolding put
  Each-put k v [] h p = (p, tt)
  Each-put k v ((i, w) ∷ m) h p = ground (arith, Each-put k v m h.1 p, h.0, p)

  pub Each-delete : (k : ℕ) (m : List (ℕ × V)) → Each m → Each (delete k m)
  unfolding delete
  Each-delete k [] h = tt
  Each-delete k ((i, w) ∷ m) h = ground (arith, Each-delete k m h.1, h.0)

  pub Each-get : (k : ℕ) (m : List (ℕ × V)) (v : V) → Each m → get k m ≡ some v → P k v
  unfolding get
  Each-get k [] v h e = cc
  Each-get k ((i, w) ∷ m) v h e = elim (Bool-cases (i == k)) [
    | inl hit ↦ go (ground arith) (ground (arith, e)) h.0
    | inr miss ↦ Each-get k m v h.1 (rw miss at e)
  ]
    where
      go : i ≡ k → w ≡ v → P i w → P k v
      go p q = subst (λ a. P i w → P a v) p (subst (λ b. P i w → P i b) q (λ x. x))
