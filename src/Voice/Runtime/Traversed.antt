-- ===== src/Voice/Runtime/Traversed.antt =====
-- runtime.ts: a law of the runtime's parts holds of all that happens to it.
use otacon.Prelude.{
  ℕ, subst, Bool, not, ◌||◌, Option, none, some, List, [], ◌∷◌, String, if-elim, Option-elim,
}
use otacon.Prelude.JsMap.{get}
use otacon.Voice.CallAudio.{Resampling}
use otacon.Voice.Mission.{CallMission}
use otacon.Voice.Mission.Steps.{starts_outbound, starts_inbound}
use otacon.Voice.Mission.Steps.{Input as MissionInput}
use otacon.Voice.Runtime.{Event, Running, Runtime, Out, stop, busy}
use otacon.Voice.Runtime.Calls.{
  StartCall, Started, or_else, is_open, has, order_of, place, start_call, inbound_order,
  answer_call, on_call,
}
use otacon.Voice.Runtime.Steps.{
  Input, starts_call, calls_in, ends_call, listens, acts_on_line, link_is, mission_goes_on, stops,
  events_of, handle, run,
}
use otacon.Voice.Runtime.Law.{
  Law, advance-P, made-P, listen-P, line_action-P, end_call-P, stop_all-P, set_link-P,
}

-- What is asked of the inputs of missions, along a run.
module _ {resampling : Resampling} (Ok : CallMission resampling → MissionInput → Type 0) where
  abbrev pub OkOf : Option (Running resampling) → MissionInput → Type 0
  OkOf none i = Unit
  OkOf (some m) i = Ok m.state i

  abbrev pub OkIn : Runtime resampling → Input → Type 0
  OkIn r (mission_goes_on id now i) = OkOf (get id r.missions) i
  OkIn r i = Unit

module _ {resampling : Resampling} (Ok : CallMission resampling → MissionInput → Type 0)
    (shown : ℕ → String) where
  abbrev pub Oks : Runtime resampling → List Input → Type 0
  Oks r [] = Unit
  Oks r (i ∷ is) = OkIn Ok r i × Oks (handle resampling shown r i).0 is

module _ {resampling : Resampling} {Inv : Runtime resampling → Type 0}
    {P : Runtime resampling → Out resampling → Type 0}
    {Ok : CallMission resampling → MissionInput → Type 0} (law : Law resampling Inv P Ok)
    (shown : ℕ → String) where
  abbrev State : Type 0
  State = Runtime resampling

  abbrev Next : Type 0
  Next = Out resampling

  start_call-P :
      (r : State) (req : StartCall) → Inv r → P r (events_of (start_call resampling shown r req))
  unfolding start_call place
  start_call-P r req f =
      let line = or_else req.line r.config.default_line in
      let Q = λ (x : State × List Event × Started). P r (events_of x) in
      Option-elim Q (get line r.slots) _ _ (law.still r f) (λ slot.
        if-elim Q (not (is_open slot.link)) _ _ (law.still r f) (λ a.
          if-elim Q (busy resampling r slot) _ _ (law.still r f) (λ b.
            if-elim Q (not req.e164) _ _ (law.still r f) (λ c.
              made-P law r line slot (order_of resampling shown r req)
                (starts_outbound (order_of resampling shown r req).party) f
                (λ m. law.outbound m _)))))

  on_call-P :
      (r : State) (line : ℕ) (is_incoming : Bool) (number : Option ℕ) (id : ℕ)
      → Inv r
      → P r (on_call resampling shown r line is_incoming number id)
  unfolding on_call answer_call
  on_call-P r line is_incoming number id f =
      if-elim (P r) (not is_incoming || not r.config.allowlist) _ _ (law.still r f) (λ a.
        Option-elim (P r) number _ _ (law.still r f) (λ n.
          if-elim (P r) (not (has r.config.allow_from n)) _ _ (law.still r f) (λ b.
            Option-elim (P r) (get line r.slots) _ _ (law.still r f) (λ slot.
              if-elim (P r) (busy resampling r slot) _ _ (law.still r f) (λ c.
                made-P law r line slot (inbound_order resampling shown r n)
                  (starts_inbound id (inbound_order resampling shown r n).party) f
                  (λ m. law.inbound m id _))))))

  handle-P : (r : State) (i : Input) → Inv r → OkIn Ok r i → P r (handle resampling shown r i)
  unfolding handle stop
  handle-P r (starts_call req) f ok = start_call-P r req f
  handle-P r (calls_in line is_incoming number id) f ok = on_call-P r line is_incoming number id f
  handle-P r (ends_call id) f ok = end_call-P law r id f
  handle-P r (listens starts id) f ok = listen-P law r starts id f
  handle-P r (acts_on_line now id tool) f ok = line_action-P law r now id tool f
  handle-P r (link_is line link) f ok = set_link-P law r line link f
  handle-P r (mission_goes_on id now i) f ok =
      advance-P law r id now i f (λ m e. subst (λ o. OkOf Ok o i) e ok)
  handle-P r stops f ok = stop_all-P law r.slots r f

  pub run-P :
      (r : State) (is : List Input) → Inv r → Oks Ok shown r is → P r (run resampling shown r is)
  unfolding run
  run-P r [] f ok = law.still r f
  run-P r (i ∷ is) f ok =
      let (s, es) = handle resampling shown r i in
      let a = handle-P r i f ok.0 in
      let (t, fs) = run resampling shown s is in
      law.and_then r s t es fs a (run-P s is (law.holds r (s, es) a) ok.1)
