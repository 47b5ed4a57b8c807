-- ===== src/Voice/Otacon/Sane.antt =====
-- otacon.ts: what waits for an answer, and how sends and answers are counted.
use otacon.Prelude.{
  ℕ, suc, ◌+◌, ◌≤◌, ◌<◌, ◌≡◌, refl, sym, subst, List, [], ◌∷◌, ◌++◌, arith, leb, ◌==◌,
}
use otacon.Prelude.JsMap.{put, delete, Each, Each-put, Each-delete}
use otacon.Prelude.Held.{one_if, held, held-put, held-delete}
use otacon.Voice.Otacon.{Effect, sends_command, sends_mark, settles, settles_mark, OtaconLink, Out}

abbrev pub count : (Effect → ℕ) → List Effect → ℕ
count f [] = 0
count f (e ∷ es) = f e + count f es

pub count-append :
    (f : Effect → ℕ) (es fs : List Effect) → count f (es ++ fs) ≡ count f es + count f fs
count-append f [] fs = omega arith
count-append f (e ∷ es) fs = omega (arith, count-append f es fs)

abbrev pub asks : ℕ → Effect → ℕ
asks k (sends_command ws id) = one_if (id == k)
asks k e = 0

abbrev pub answers : ℕ → Effect → ℕ
answers k (settles id r) = one_if (id == k)
answers k e = 0

abbrev pub marks_at : ℕ → Effect → ℕ
marks_at k (sends_mark ws name) = one_if (name == k)
marks_at k e = 0

abbrev pub reaches : ℕ → Effect → ℕ
reaches k (settles_mark name c) = one_if (name == k)
reaches k e = 0

-- How often the command `k` was sent and settled, and how often the mark `k` was.
abbrev pub asked : ℕ → List Effect → ℕ
asked k = count (asks k)

abbrev pub settled : ℕ → List Effect → ℕ
settled k = count (answers k)

abbrev pub marked : ℕ → List Effect → ℕ
marked k = count (marks_at k)

abbrev pub reached : ℕ → List Effect → ℕ
reached k = count (reaches k)

-- What waits has its own timer, waits once, and has an id that was given out.
pub record Sane (next : ℕ) (pending : List (ℕ × ℕ)) (timers : List (ℕ × (ℕ × ℕ)))
    (marks : List (ℕ × Unit {0})) : Type 0 where
  pub timed : (k : ℕ) → held k timers ≡ held k pending
  pub once : (k : ℕ) → held k pending ≤ 1
  pub below : (k : ℕ) → next < k → held k pending + held k marks ≡ 0
  pub keyed : Each (λ k t. t ≡ k) pending
  pub own : Each (λ k t. t.0 ≡ k) timers

abbrev pub IsSane : OtaconLink → Type 0
IsSane l = Sane l.next l.pending l.timers l.marks

-- A step neither loses nor adds what waits, and gives out each id once.
abbrev pub Kept : OtaconLink → Out → ℕ → Type 0
Kept l (m, es) k =
    (asked k es + held k l.pending ≡ settled k es + held k m.pending)
    × (marked k es + held k l.marks ≡ reached k es + held k m.marks)
    × (asked k es + marked k es + one_if (leb k l.next) ≡ one_if (leb k m.next))

abbrev pub Good : OtaconLink → Out → Type 0
Good l r = IsSane r.0 × ((k : ℕ) → Kept l r k)

module _ {n : ℕ} {ps : List (ℕ × ℕ)} {ts : List (ℕ × (ℕ × ℕ))} {ms : List (ℕ × Unit {0})}
    (s : Sane n ps ts ms) where
  pub free_id : held (suc n) ps + held (suc n) ms ≡ 0
  free_id = s.below (suc n) (omega arith)

  pub add-Sane :
      (type : ℕ) → Sane (suc n) (put (suc n) (suc n) ps) (put (suc n) (suc n, type) ts) ms
  add-Sane type = record {
    timed = λ k. omega (
      arith,
      s.timed k,
      s.timed (suc n),
      free_id,
      held-put (suc n) k (suc n) ps,
      held-put (suc n) k (suc n, type) ts,
    );
    once = λ k. ground (arith, s.once k, free_id, held-put (suc n) k (suc n) ps);
    below = λ k h. ground (arith, s.below k, free_id, held-put (suc n) k (suc n) ps);
    keyed = Each-put _ (suc n) (suc n) ps s.keyed refl;
    own = Each-put _ (suc n) (suc n, type) ts s.own refl;
  }

  pub add_mark-Sane : Sane (suc n) ps ts (put (suc n) tt ms)
  add_mark-Sane = record {
    timed = s.timed;
    once = s.once;
    below = λ k h. ground (arith, s.below k, free_id, held-put (suc n) k tt ms);
    keyed = s.keyed;
    own = s.own;
  }

  drop_same-Sane : (id : ℕ) → 1 ≤ held id ps → Sane n (delete id ps) (delete id ts) ms
  drop_same-Sane id h = record {
    timed = λ k. omega (arith, s.timed k, s.timed id, held-delete id k ps h, held-delete id k ts);
    once = λ k. omega (arith, s.once k, held-delete id k ps h);
    below = λ k lt. omega (arith, s.below k, held-delete id k ps h);
    keyed = Each-delete _ id ps s.keyed;
    own = Each-delete _ id ts s.own;
  }

  pub drop-Sane :
      (id timer : ℕ) → timer ≡ id → 1 ≤ held id ps → Sane n (delete id ps) (delete timer ts) ms
  drop-Sane id timer own h =
      subst (λ t. Sane n (delete id ps) (delete t ts) ms) (sym own) (drop_same-Sane id h)

  pub drop_mark-Sane : (name : ℕ) → 1 ≤ held name ms → Sane n ps ts (delete name ms)
  drop_mark-Sane name h = record {
    timed = s.timed;
    once = s.once;
    below = λ k lt. omega (arith, s.below k, held-delete name k ms h);
    keyed = s.keyed;
    own = s.own;
  }
