-- ===== src/Voice/Runtime/Screened.antt =====
-- runtime.ts: which incoming calls are answered.
use otacon.Prelude.{
  ℕ, ◌≡◌, refl, ap, ◌∙◌, Bool, true, false, not, ◌&&◌, Option, none, some, [], ◌∷◌, String, ==_self,
  if◌then◌else◌, if-elim, Option-some,
}
use otacon.Prelude.JsMap.{get, put, get-put}
use otacon.Voice.CallAudio.{Resampling}
use otacon.Voice.Mission.{command, answer, new_mission}
use otacon.Voice.Mission.Start.{start_inbound}
use otacon.Voice.Mission.Steps.{step, starts_inbound}
use otacon.Voice.Mission.Steps.{handle as mission_handle}
use otacon.Voice.Runtime.{
  does, Order, Slot, Running, Runtime, Out, absorb, goes_on, advance, busy, has_any, is_ended,
}
use otacon.Voice.Runtime.Calls.{has, new_call, allowed, takes, inbound_order, answer_call, on_call}

and_not : (a b c : Bool) → c ≡ true → (a && b && not c) ≡ false
and_not true true c e = rw e refl
and_not true false c e = refl
and_not false b c e = refl

takes_lem :
    (resampling : Resampling) (r : Runtime resampling) (line n : ℕ) (slot : Slot)
    → get line r.slots ≡ some slot
    → takes resampling r line (some n)
      ≡ (r.config.allowlist && has r.config.allow_from n && not (busy resampling r slot))
unfolding takes
takes_lem resampling r line n slot e =
    Option-some
      (λ b. b ≡ (r.config.allowlist && has r.config.allow_from n && not (busy resampling r slot)))
      (get line r.slots) _ _ slot e refl

module _ (resampling : Resampling) (shown : ℕ → String) where
  abbrev State : Type 0
  State = Runtime resampling

  abbrev Next : Type 0
  Next = Out resampling

  -- A line answers an incoming call exactly if it takes calls from its number: what a Twilio line is
  -- told when it asks is what an otacon line's event leads to. A call without a number is left.
  pub on_call-takes :
      (r : State) (line n id : ℕ) (slot : Slot)
      → get line r.slots ≡ some slot
      → (on_call resampling shown r line true none id ≡ (r, []))
        × (on_call resampling shown r line true (some n) id ≡ (
            if takes resampling r line (some n)
            then answer_call resampling shown r line slot n id
            else (r, [])))
  unfolding on_call
  on_call-takes r line n id slot e = (
    if-elim (λ (x : Next). x ≡ (r, [])) (not r.config.allowlist) (r, []) (r, []) refl (λ e. refl),
    rw (takes_lem resampling r line n slot e, e)
        (same r.config.allowlist (has r.config.allow_from n) (busy resampling r slot) (r, []) _),
  )
    where
      same :
          (a b c : Bool) (x y : Next)
          → (if not a then x else if not b then x else if c then x else y)
            ≡ (if a && b && not c then y else x)
      same true true true x y = refl
      same true true false x y = refl
      same true false c x y = refl
      same false b c x y = refl

  -- An answered call takes its line: the one thing it asks for is the answer, and until its mission
  -- goes on the line takes no other.
  pub answer_call-takes :
      (r : State) (line n id : ℕ) (slot : Slot) (other : Option ℕ)
      → (takes resampling (answer_call resampling shown r line slot n id).0 line other ≡ false)
        × ((answer_call resampling shown r line slot n id).1
            ≡ does r.next (command (answer id)) ∷ [])
  unfolding takes answer_call advance new_call step mission_handle start_inbound absorb
  answer_call-takes r line n id slot other =
      Option-some
        (λ (x : Next).
          (takes resampling x.0 line other ≡ false)
          × (x.1 ≡ does r.next (command (answer id)) ∷ []))
        (get r.next s.missions) _ _ m found (free, refl)
    where
      o : Order
      o = inbound_order resampling shown r n

      m : Running resampling
      m = record { order = o; state = new_mission resampling }

      s : State
      s = new_call resampling r line slot o

      found : get r.next s.missions ≡ some m
      found = get-put r.next r.next m r.missions ∙ rw (==_self r.next) refl

      after : Next
      after = goes_on resampling s r.next m (step resampling m.state (0, starts_inbound id o.party))

      taken : Slot
      taken = record slot { mission = some r.next }

      its : Running resampling
      its = record m { state = (step resampling m.state (0, starts_inbound id o.party)).0 }

      again : get r.next (put r.next its s.missions) ≡ some its
      again = get-put r.next r.next its s.missions ∙ rw (==_self r.next) refl

      is_busy : busy resampling after.0 taken ≡ true
      is_busy = ap (λ w. has_any (if is_ended resampling w then [] else r.next ∷ [])) again

      free : takes resampling after.0 line other ≡ false
      free =
          Option-some (λ b. b ≡ false) (get line s.slots) _ _ taken
            (get-put line line taken r.slots ∙ rw (==_self line) refl)
            (and_not r.config.allowlist (allowed resampling after.0 other)
              (busy resampling after.0 taken) is_busy)
