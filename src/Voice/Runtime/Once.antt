-- ===== src/Voice/Runtime/Once.antt =====
-- runtime.ts: each call is reported once to the session that asked for it.
use otacon.Prelude.{
  ℕ, ◌+◌, ◌≤◌, ◌≡◌, refl, ap, ◌∙◌, subst, Option, none, some, List, [], ◌∷◌, ◌++◌, arith, leb, ◌==◌,
  if◌then◌else◌, if-elim, Bool-cases, ==_iff, inl, inr,
}
use otacon.Prelude.JsMap.{get, put, get-put}
use otacon.Prelude.Held.{one_if}
use otacon.Voice.CallAudio.{Resampling}
use otacon.Voice.Mission.{Effect, report, CallMission}
use otacon.Voice.Mission.Once.{reports, budget, Spends}
use otacon.Voice.Runtime.{
  Event, reports_to, Order, Finished, Running, Runtime, Out, on_mission_end, absorb, goes_on,
  wakes_up, key_of,
}

abbrev pub tells : ℕ → Event → ℕ
tells id (reports_to key f) = one_if (f.mission_id == id)
tells id e = 0

-- How often the call was reported.
abbrev pub told_of : ℕ → List Event → ℕ
told_of id [] = 0
told_of id (e ∷ es) = tells id e + told_of id es

pub told_of-append :
    (id : ℕ) (es fs : List Event) → told_of id (es ++ fs) ≡ told_of id es + told_of id fs
told_of-append id [] fs = omega arith
told_of-append id (e ∷ es) fs = omega (arith, told_of-append id es fs)

module _ (resampling : Resampling) where
  abbrev State : Type 0
  State = Runtime resampling

  abbrev Table : Type 0
  Table = List (ℕ × Running resampling)

  -- The reports that a call may still give; one that is not yet made gives one.
  abbrev pub left_of : Option (Running resampling) → ℕ → ℕ → ℕ
  left_of none next id = one_if (leb next id)
  left_of (some m) next id = budget resampling m.state

  abbrev pub left : ℕ → Table → ℕ → ℕ
  left next ms id = left_of (get id ms) next id

  -- No id is in use that was not given out.
  abbrev pub Fresh : State → Type 0
  Fresh r = (id : ℕ) → r.next ≤ id → get id r.missions ≡ none

  abbrev pub Costs : State → Out resampling → Type 0
  Costs r (s, es) =
      Fresh s × ((id : ℕ) → told_of id es + left s.next s.missions id ≤ left r.next r.missions id)

  -- What `absorb` leaves alone, and how often it reports.
  abbrev Absorbs : State → ℕ → List Effect → Out resampling → Type 0
  Absorbs r id es (s, fs) =
      (s.missions ≡ r.missions)
      × (s.next ≡ r.next)
      × ((k : ℕ) → told_of k fs ≡ (if id == k then reports es else 0))

  end-told :
      (r : State) (f : Finished) (k : ℕ)
      → told_of k (on_mission_end resampling r f).1 ≡ one_if (f.mission_id == k)
  unfolding on_mission_end
  end-told r f k =
      if-elim (λ es. told_of k (reports_to (key_of f.order) f ∷ es) ≡ one_if (f.mission_id == k))
        (wakes_up r.config f.order) _ _ (omega arith) (λ e. omega arith)

  absorb-Absorbs :
      (r : State) (id : ℕ) (o : Order) (es : List Effect)
      → Absorbs r id es (absorb resampling r id o es)
  unfolding absorb on_mission_end
  absorb-Absorbs r id o [] = (refl, refl, λ k. ground arith)
  absorb-Absorbs r id o (report ending ∷ es) =
      let f : Finished = record { mission_id = id; order = o; ending = ending } in
      let (s, fs) = on_mission_end resampling r f in
      let (a, b, c) = absorb-Absorbs s id o es in
      (
        a,
        b,
        λ k.
            ground
              (arith, told_of-append k fs (absorb resampling s id o es).1, end-told r f k, c k),
      )
  absorb-Absorbs r id o (e ∷ es) =
      let (a, b, c) = absorb-Absorbs r id o es in (a, b, λ k. omega (arith, c k))

  -- Writing a mission that spends what it may.
  put-left :
      (r : State) (id : ℕ) (m n : Running resampling) (es : List Effect)
      → get id r.missions ≡ some m
      → Spends resampling m.state (n.state, es)
      → (k : ℕ)
      → (if id == k then reports es else 0) + left r.next (put id n r.missions) k
        ≤ left r.next r.missions k
  put-left r id m n es there h k = elim (Bool-cases (id == k)) [
    | inl hit ↦
        let same : id ≡ k = (==_iff id k).0 hit in
        let here : get k r.missions ≡ some m = subst (λ j. get j r.missions ≡ some m) same there in
        let found : get k (put id n r.missions) ≡ some n =
          ground (arith, get-put id k n r.missions, hit) in
        let now : left r.next (put id n r.missions) k ≡ budget resampling n.state =
          ap (λ o. left_of o r.next k) found in
        let was : left r.next r.missions k ≡ budget resampling m.state =
          ap (λ o. left_of o r.next k) here in
        rw hit (omega (arith, now, was, h))
    | inr miss ↦
        let found : get k (put id n r.missions) ≡ get k r.missions =
          ground (arith, get-put id k n r.missions, miss) in
        let now : left r.next (put id n r.missions) k ≡ left r.next r.missions k =
          ap (λ o. left_of o r.next k) found in
        rw miss (omega (arith, now))
  ]

  put-Fresh :
      (next id : ℕ) (m n : Running resampling) (ms : Table)
      → ((k : ℕ) → next ≤ k → get k ms ≡ none)
      → get id ms ≡ some m
      → (k : ℕ) → next ≤ k
      → get k (put id n ms) ≡ none
  put-Fresh next id m n ms fresh there k le = ground (arith, get-put id k n ms, fresh k le, there)

  pub goes_on-Costs :
      (r : State) (id : ℕ) (m : Running resampling) (next : CallMission resampling × List Effect)
      → Fresh r
      → get id r.missions ≡ some m
      → Spends resampling m.state next
      → Costs r (goes_on resampling r id m next)
  goes_on-Costs r id m (state, es) fresh there h =
      let n : Running resampling = record m { state = state } in
      let r1 : State = record r { missions = put id n r.missions } in
      let (a, b, c) = absorb-Absorbs r1 id m.order es in
      let (s, fs) = absorb resampling r1 id m.order es in
      (
        λ k le.
            ap (get k) a
            ∙ put-Fresh r.next id m n r.missions fresh there k (subst (λ j. j ≤ k) b le),
        λ k.
            let same : left s.next s.missions k ≡ left r.next (put id n r.missions) k =
              ap (λ t. left t s.missions k) b ∙ ap (λ t. left r.next t k) a in
            omega (arith, c k, same, put-left r id m n es there h k),
      )
