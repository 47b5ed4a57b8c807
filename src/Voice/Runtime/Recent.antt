-- ===== src/Voice/Runtime/Recent.antt =====
-- runtime.ts: `recent` holds the last reports, the newest first.
use otacon.Prelude.{
  ℕ, zero, suc, ◌≡◌, refl, sym, ap, ◌∙◌, Option, none, some, List, [], ◌∷◌, ◌++◌, String, take,
  if-elim,
}
use otacon.Prelude.JsMap.{get, put}
use otacon.Voice.CallAudio.{Resampling}
use otacon.Voice.Mission.{Effect, report, CallMission}
use otacon.Voice.Mission.Steps.{Input as MissionInput}
use otacon.Voice.Runtime.{
  Event, reports_to, does, wakes, stops_link, calls_listener, Finished, Order, Slot, Running,
  Runtime, Out, newest, on_mission_end, absorb, goes_on, wakes_up, key_of,
}
use otacon.Voice.Runtime.Calls.{new_call}
use otacon.Voice.Runtime.Law.{Law, IsPlain}
use otacon.Voice.Runtime.Traversed.{OkOf, OkIn, Oks, run-P}
use otacon.Voice.Runtime.Steps.{Input, mission_goes_on, handle, run}

-- The reports among the events put before the ones that were there, the newest first.
abbrev pub reported : List Event → List Finished → List Finished
reported [] fs = fs
reported (reports_to key f ∷ es) fs = reported es (f ∷ fs)
reported (e ∷ es) fs = reported es fs

reported-append :
    (es ds : List Event) (fs : List Finished)
    → reported (es ++ ds) fs ≡ reported ds (reported es fs)
reported-append [] ds fs = refl
reported-append (reports_to key f ∷ es) ds fs = reported-append es ds (f ∷ fs)
reported-append (e ∷ es) ds fs = reported-append es ds fs

take-take : {A : Type 0} (n : ℕ) (xs : List A) → take n (take n xs) ≡ take n xs
take-take zero xs = refl
take-take (suc n) [] = refl
take-take (suc n) (x ∷ xs) = ap (◌∷◌ x) (take-take n xs)

take-take-suc : {A : Type 0} (n : ℕ) (xs : List A) → take n (take (suc n) xs) ≡ take n xs
take-take-suc zero xs = refl
take-take-suc (suc n) [] = refl
take-take-suc (suc n) (x ∷ xs) = ap (◌∷◌ x) (take-take-suc n xs)

-- What is cut off stays cut off.
take-cons :
    {A : Type 0} (n : ℕ) (x : A) (xs ys : List A)
    → take n xs ≡ take n ys
    → take n (x ∷ xs) ≡ take n (x ∷ ys)
take-cons zero x xs ys e = refl
take-cons (suc n) x xs ys e =
    ap (◌∷◌ x) (sym (take-take-suc n xs) ∙ ap (take n) e ∙ take-take-suc n ys)

take-reported :
    (n : ℕ) (es : List Event) (xs ys : List Finished)
    → take n xs ≡ take n ys
    → take n (reported es xs) ≡ take n (reported es ys)
take-reported n [] xs ys e = e
take-reported n (reports_to key f ∷ es) xs ys e =
    take-reported n es (f ∷ xs) (f ∷ ys) (take-cons n f xs ys e)
take-reported n (d ∷ es) xs ys e = take-reported n es xs ys e

module _ (resampling : Resampling) where
  abbrev State : Type 0
  State = Runtime resampling

  abbrev Next : Type 0
  Next = Out resampling

  abbrev IsCut : State → Type 0
  IsCut r = take newest r.recent ≡ r.recent

  abbrev Keeps : State → Next → Type 0
  Keeps r (s, es) = IsCut s × (s.recent ≡ take newest (reported es r.recent))

  still : (r : State) → IsCut r → Keeps r (r, [])
  still r c = (c, sym c)

  and_then :
      (r s t : State) (es fs : List Event)
      → Keeps r (s, es)
      → Keeps s (t, fs)
      → Keeps r (t, es ++ fs)
  and_then r s t es fs a b = (
    b.0,
    b.1
        ∙ take-reported newest fs s.recent (reported es r.recent)
            (ap (take newest) a.1 ∙ take-take newest (reported es r.recent))
        ∙ ap (take newest) (sym (reported-append es fs r.recent)),
  )

  plain : (r : State) (e : Event) → IsPlain e → IsCut r → Keeps r (r, e ∷ [])
  plain r (stops_link line) h c = (c, sym c)
  plain r (calls_listener line) h c = (c, sym c)
  plain r (does id e) h c = absurd h
  plain r (reports_to key g) h c = absurd h
  plain r (wakes key agent) h c = absurd h

  end-Keeps : (r : State) (f : Finished) → Keeps r (on_mission_end resampling r f)
  unfolding on_mission_end
  end-Keeps r f = (
    take-take newest (f ∷ r.recent),
    ap (take newest) (
        if-elim (λ es. f ∷ r.recent ≡ reported (reports_to (key_of f.order) f ∷ es) r.recent)
          (wakes_up r.config f.order) _ _ refl (λ e. refl)),
  )

  absorb-Keeps :
      (r : State) (id : ℕ) (o : Order) (es : List Effect)
      → IsCut r
      → Keeps r (absorb resampling r id o es)
  unfolding absorb
  absorb-Keeps r id o [] c = still r c
  absorb-Keeps r id o (report ending ∷ es) c =
      let f : Finished = record { mission_id = id; order = o; ending = ending } in
      let (s, fs) = on_mission_end resampling r f in
      let (t, gs) = absorb resampling s id o es in
      let first = end-Keeps r f in and_then r s t fs gs first (absorb-Keeps s id o es first.0)
  absorb-Keeps r id o (e ∷ es) c = absorb-Keeps r id o es c

  goes_on-Keeps :
      (r : State) (id : ℕ) (m : Running resampling) (next : CallMission resampling × List Effect)
      → IsCut r
      → Keeps r (goes_on resampling r id m next)
  goes_on-Keeps r id m (state, es) c =
      absorb-Keeps (record r { missions = put id (record m { state = state }) r.missions }) id
        m.order es c

  makes :
      (r : State) (line : ℕ) (slot : Slot) (o : Order)
      → IsCut r
      → Keeps r (new_call resampling r line slot o, [])
  unfolding new_call
  makes r line slot o c = (c, sym c)

  abbrev AnyInput : CallMission resampling → MissionInput → Type 0
  AnyInput m i = Unit

  recent-Law : Law resampling IsCut Keeps AnyInput
  recent-Law = record {
    holds = λ r x k. k.0;
    still = still;
    plain = plain;
    and_then = and_then;
    slots = λ r ss c. (c, sym c);
    makes = makes;
    steps = λ r id now m i c e ok. goes_on-Keeps r id m _ c;
    ends = λ r id m why words c e. goes_on-Keeps r id m _ c;
    drops = λ r id m c e. goes_on-Keeps r id m _ c;
    agent = λ m tool. tt;
    outbound = λ m p. tt;
    inbound = λ m id p. tt;
  }

  any_input : (o : Option (Running resampling)) (i : MissionInput) → OkOf AnyInput o i
  any_input none i = tt
  any_input (some m) i = tt

  any_in : (r : State) (i : Input) → OkIn AnyInput r i
  any_in r (mission_goes_on id now i) = any_input (get id r.missions) i
  any_in r i = tt

module _ (resampling : Resampling) (shown : ℕ → String) where
  any_inputs : (r : Runtime resampling) (is : List Input) → Oks (AnyInput resampling) shown r is
  any_inputs r [] = tt
  any_inputs r (i ∷ is) = (any_in resampling r i, any_inputs (handle resampling shown r i).0 is)

  -- Whatever happens to a runtime that has no reports yet, `recent` holds the reports that went to
  -- sessions, the newest first and the last twenty of them.
  pub run-recent :
      (r : Runtime resampling) (is : List Input)
      → r.recent ≡ []
      → let (s, es) = run resampling shown r is in s.recent ≡ take newest (reported es [])
  run-recent r is e =
      let c : take newest r.recent ≡ r.recent = ap (take newest) e ∙ sym e in
      let h = run-P (recent-Law resampling) shown r is c (any_inputs r is) in
      let es = (run resampling shown r is).1 in h.1 ∙ ap (λ fs. take newest (reported es fs)) e
