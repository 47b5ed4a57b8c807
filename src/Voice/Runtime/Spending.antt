-- ===== src/Voice/Runtime/Spending.antt =====
-- runtime.ts: how often a step of the runtime reports a call.
use otacon.Prelude.{
  ℕ, suc, ◌≤◌, ◌≡◌, ap, false, Option, none, some, List, [], ◌∷◌, ◌++◌, arith, leb, ◌==◌,
  Bool-cases, inl, inr,
}
use otacon.Prelude.JsMap.{get, put, get-put}
use otacon.Prelude.Held.{one_if}
use otacon.Voice.CallAudio.{Resampling}
use otacon.Voice.Mission.{new_mission, stop_listeners, told, ended_by_agent}
use otacon.Voice.Mission.Once.{reports-hang_ups, finish-Spends}
use otacon.Voice.Mission.Handled.{Allowed, step-Spends}
use otacon.Voice.Mission.Steps.{step}
use otacon.Voice.Runtime.{
  Event, stops_link, calls_listener, does, reports_to, wakes, Order, Slot, Running, Runtime, Out,
  goes_on,
}
use otacon.Voice.Runtime.Calls.{new_call}
use otacon.Voice.Runtime.Law.{Law, IsPlain}
use otacon.Voice.Runtime.Once.{told_of-append, left, left_of, Fresh, Costs, goes_on-Costs}

module _ (resampling : Resampling) where
  abbrev State : Type 0
  State = Runtime resampling

  abbrev Next : Type 0
  Next = Out resampling

  abbrev IsFresh : State → Type 0
  IsFresh = Fresh resampling

  abbrev Cost : State → Next → Type 0
  Cost = Costs resampling

  -- A step that tells nothing and makes no mission.
  still : (r : State) → IsFresh r → Cost r (r, [])
  still r f = (f, λ k. omega arith)

  -- One step after another.
  and_then :
      (r s t : State) (es fs : List Event) → Cost r (s, es) → Cost s (t, fs) → Cost r (t, es ++ fs)
  and_then r s t es fs a b = (b.0, λ k. omega (arith, a.1 k, b.1 k, told_of-append k es fs))

  plain : (r : State) (e : Event) → IsPlain e → IsFresh r → Cost r (r, e ∷ [])
  plain r (stops_link line) h f = (f, λ k. omega arith)
  plain r (calls_listener line) h f = (f, λ k. omega arith)
  plain r (does id e) h f = absurd h
  plain r (reports_to key g) h f = absurd h
  plain r (wakes key agent) h f = absurd h

  drops :
      (r : State) (id : ℕ) (m : Running resampling)
      → IsFresh r
      → get id r.missions ≡ some m
      → Cost r (goes_on resampling r id m (stop_listeners resampling m.state))
  unfolding stop_listeners
  drops r id m f e =
      goes_on-Costs resampling r id m (stop_listeners resampling m.state) f e
        (omega (arith, reports-hang_ups m.state.audio.listeners))

  -- A mission that is made uses an id that was free.
  new_call-Costs :
      (r : State) (line : ℕ) (slot : Slot) (o : Order)
      → IsFresh r
      → Cost r (new_call resampling r line slot o, [])
  unfolding new_call
  new_call-Costs r line slot o f = (
    λ k le. ground (arith, get-put r.next k m r.missions, f k (omega arith)),
    λ k. elim (Bool-cases (r.next == k)) [
      | inl hit ↦
          let here : get k (put r.next m r.missions) ≡ some m =
            ground (arith, get-put r.next k m r.missions, hit) in
          let now : left resampling (suc r.next) (put r.next m r.missions) k ≡ 1 =
            ap (λ o. left_of resampling o (suc r.next) k) here in
          let was : left resampling r.next r.missions k ≡ one_if (leb r.next k) =
            ap (λ o. left_of resampling o r.next k) (f k (ground (arith, hit))) in
          ground (arith, now, was, hit)
      | inr miss ↦
          let here : get k (put r.next m r.missions) ≡ get k r.missions =
            ground (arith, get-put r.next k m r.missions, miss) in
          let now : left resampling (suc r.next) (put r.next m r.missions) k
              ≡ left_of resampling (get k r.missions) (suc r.next) k =
            ap (λ o. left_of resampling o (suc r.next) k) here in
          omega (arith, now, later (get k r.missions) k miss)
    ],
  )
    where
      m : Running resampling
      m = record { order = o; state = new_mission resampling }

      later :
          (w : Option (Running resampling)) (k : ℕ)
          → (r.next == k) ≡ false
          → left_of resampling w (suc r.next) k ≤ left_of resampling w r.next k
      later none k miss = ground arith
      later (some n) k miss = omega arith

  -- The reports of a call are counted by every part of a step.
  pub spending-Law : Law resampling IsFresh Cost (Allowed resampling)
  spending-Law = record {
    holds = λ r x c. c.0;
    still = still;
    plain = plain;
    and_then = and_then;
    slots = λ r ss f. (f, λ k. omega arith);
    makes = new_call-Costs;
    steps = λ r id now m i f e ok.
        goes_on-Costs resampling r id m (step resampling m.state (now, i)) f e
          (step-Spends resampling m.state (now, i) ok);
    ends = λ r id m why words f e.
        goes_on-Costs resampling r id m _ f e
          (finish-Spends resampling m.state ended_by_agent (some (told why)) words none);
    drops = drops;
    agent = λ m tool. tt;
    outbound = λ m p. tt;
    inbound = λ m id p. tt;
  }
