-- ===== src/Voice/Otacon/Closed.antt =====
-- otacon.ts: a socket that closes settles all that waits.
use otacon.Prelude.{
  ℕ, ◌+◌, ◌≤◌, ◌≡◌, refl, true, List, [], ◌∷◌, ◌++◌, arith, ◌==◌, ==_self, if◌then◌else◌, if-elim,
  sym, subst,
}
use otacon.Prelude.JsMap.{delete, Each, Each-delete}
use otacon.Prelude.Held.{one_if, held, held-delete}
use otacon.Voice.Otacon.{
  Effect, disconnected, settles, settles_mark, rejected, emits_close, reconnects_in, OtaconLink,
  reject_all, drop_marks, clear_timers, on_close, delay,
}
use otacon.Voice.Otacon.Sane.{
  count, count-append, asks, answers, marks_at, reaches, asked, settled, marked, reached, Sane,
  IsSane, Good,
}

settled-reject_all : (k : ℕ) (ps : List (ℕ × ℕ)) → settled k (reject_all ps) ≡ held k ps
settled-reject_all k [] = refl
settled-reject_all k (p ∷ ps) = omega (arith, settled-reject_all k ps)

reached-drop_marks : (k : ℕ) (ms : List (ℕ × Unit {0})) → reached k (drop_marks ms) ≡ held k ms
reached-drop_marks k [] = refl
reached-drop_marks k (m ∷ ms) = omega (arith, reached-drop_marks k ms)

-- What no entry of `reject_all` and `drop_marks` adds to.
reject_all_none :
    (f : Effect → ℕ) (ps : List (ℕ × ℕ))
    → ((id : ℕ) → f (settles id (rejected disconnected)) ≡ 0)
    → count f (reject_all ps) ≡ 0
reject_all_none f [] h = refl
reject_all_none f (p ∷ ps) h = omega (arith, h p.0, reject_all_none f ps h)

drop_marks_none :
    (f : Effect → ℕ) (ms : List (ℕ × Unit {0}))
    → ((name : ℕ) → f (settles_mark name true) ≡ 0)
    → count f (drop_marks ms) ≡ 0
drop_marks_none f [] h = refl
drop_marks_none f (m ∷ ms) h = omega (arith, h m.0, drop_marks_none f ms h)

-- No timer of a command that waited is left.
clear_timers_held :
    (ps : List (ℕ × ℕ)) (ts : List (ℕ × (ℕ × ℕ)))
    → Each (λ k t. t ≡ k) ps
    → ((k : ℕ) → held k ts ≡ held k ps)
    → (k : ℕ) → held k (clear_timers ps ts) ≡ 0
clear_timers_held [] ts keyed same k = same k
clear_timers_held (p ∷ ps) ts keyed same k = clear_timers_held ps (delete p.1 ts) keyed.1 rest k
  where
    there :
        (id timer : ℕ)
        → timer ≡ id
        → held id ts ≡ one_if (id == id) + held id ps
        → 1 ≤ held timer ts
    there id timer e h = subst (λ t. 1 ≤ held t ts) (sym e) (ground (arith, h, ==_self id))

    rest : (j : ℕ) → held j (delete p.1 ts) ≡ held j ps
    rest j =
        ground (arith, keyed.0, same j, held-delete p.1 j ts (there p.0 p.1 keyed.0 (same p.0)))

clear_timers-own :
    (ps : List (ℕ × ℕ)) (ts : List (ℕ × (ℕ × ℕ)))
    → Each (λ k t. t.0 ≡ k) ts
    → Each (λ k t. t.0 ≡ k) (clear_timers ps ts)
clear_timers-own [] ts h = h
clear_timers-own (p ∷ ps) ts h = clear_timers-own ps (delete p.1 ts) (Each-delete _ p.1 ts h)

module _ (l : OtaconLink) where
  abbrev tail : List Effect
  tail = if l.open_ then emits_close ∷ [] else []

  abbrev out : List Effect
  out = reject_all l.pending ++ drop_marks l.marks ++ tail

  count-tail : (f : Effect → ℕ) → f emits_close ≡ 0 → count f tail ≡ 0
  count-tail f h =
      if-elim (λ es. count f es ≡ 0) l.open_ (emits_close ∷ []) [] (omega (arith, h)) (λ e. refl)

  count-out :
      (f : Effect → ℕ)
      → f emits_close ≡ 0
      → count f out ≡ count f (reject_all l.pending) + count f (drop_marks l.marks)
  count-out f h = omega (
    arith,
    count-append f (reject_all l.pending ++ drop_marks l.marks) tail,
    count-append f (reject_all l.pending) (drop_marks l.marks),
    count-tail f h,
  )

  out-Kept :
      (k : ℕ)
      → (asked k out + held k l.pending ≡ settled k out + 0)
        × (marked k out + held k l.marks ≡ reached k out + 0)
        × (asked k out + marked k out ≡ 0)
  out-Kept k =
      let a = count-out (asks k) refl in
      let b = count-out (answers k) refl in
      let c = count-out (marks_at k) refl in
      let d = count-out (reaches k) refl in
      let a1 = reject_all_none (asks k) l.pending (λ i. refl) in
      let a2 = drop_marks_none (asks k) l.marks (λ i. refl) in
      let c1 = reject_all_none (marks_at k) l.pending (λ i. refl) in
      let c2 = drop_marks_none (marks_at k) l.marks (λ i. refl) in
      let b1 = settled-reject_all k l.pending in
      let b2 = drop_marks_none (answers k) l.marks (λ i. refl) in
      let d1 = reject_all_none (reaches k) l.pending (λ i. refl) in
      let d2 = reached-drop_marks k l.marks in
      (omega (arith, a, b), omega (arith, c, d), omega (arith, a, c))

module _ (l : OtaconLink) (s : IsSane l) where
  closed-Sane : Sane l.next [] (clear_timers l.pending l.timers) []
  closed-Sane = record {
    timed = clear_timers_held l.pending l.timers s.keyed s.timed;
    once = λ k. omega arith;
    below = λ k h. refl;
    keyed = tt;
    own = clear_timers-own l.pending l.timers s.own;
  }

count-last :
    (f : Effect → ℕ) (es : List Effect) (e : Effect) → f e ≡ 0 → count f (es ++ e ∷ []) ≡ count f es
count-last f es e h = omega (arith, count-append f es (e ∷ []), h)

pub on_close-Good : (l : OtaconLink) (code : ℕ) → IsSane l → Good l (on_close l code)
unfolding on_close
on_close-Good l code s =
    if-elim (Good l) l.stopped _ _ (closed-Sane l s, λ k. omega (arith, out-Kept l k))
      (λ e. (
        closed-Sane l s,
        λ k. omega (
          arith,
          out-Kept l k,
          count-last (asks k) (out l) last refl,
          count-last (answers k) (out l) last refl,
          count-last (marks_at k) (out l) last refl,
          count-last (reaches k) (out l) last refl,
        ),
      ))
  where
    last : Effect
    last = reconnects_in (delay code l.retry_ms)
