-- ===== src/Voice/Runtime/Law.antt =====
-- runtime.ts: what holds of every step of the runtime if it holds of the parts that steps are made of.
use otacon.Prelude.{
  ℕ, ◌≡◌, Bool, true, false, not, Option, none, some, List, [], ◌∷◌, ◌++◌, String, find, ◌==◌,
  if-elim, Option-elim, Option-each,
}
use otacon.Prelude.JsMap.{get}
use otacon.Voice.CallAudio.{Resampling}
use otacon.Voice.Mission.{Party, CallMission, stop_listeners, told, ended_by_agent}
use otacon.Voice.Mission.Ending.{finish}
use otacon.Voice.Mission.Tools.{Tool}
use otacon.Voice.Mission.Steps.{step, starts_outbound, starts_inbound, agent_action}
use otacon.Voice.Mission.Steps.{Input as MissionInput}
use otacon.Voice.Runtime.{
  Event, stops_link, calls_listener, Order, Slot, Link, Running, Runtime, Out, goes_on, advance,
  finish_mission, end_call, stop_all, stop_mission, stop_link, live, chosen, sole, first?,
}
use otacon.Voice.Runtime.Calls.{
  Listened, new_call, listening_line, drop_listeners, listen, line_action,
}
use otacon.Voice.Runtime.Steps.{events_of, set_link}

-- What the runtime adds to its missions' events.
abbrev pub IsPlain : Event → Type 0
IsPlain (stops_link line) = Unit
IsPlain (calls_listener line) = Unit
IsPlain e = ⊥

-- `P` holds of the parts: `Inv` is what it keeps of the runtime, and `Ok` is asked of what happens to
-- a mission.
pub record Law (resampling : Resampling) (Inv : Runtime resampling → Type 0)
    (P : Runtime resampling → Out resampling → Type 0)
    (Ok : CallMission resampling → MissionInput → Type 0) : Type 0 where
  pub holds : (r : Runtime resampling) (x : Out resampling) → P r x → Inv x.0
  pub still : (r : Runtime resampling) → Inv r → P r (r, [])
  pub plain : (r : Runtime resampling) (e : Event) → IsPlain e → Inv r → P r (r, e ∷ [])
  pub and_then :
      (r s t : Runtime resampling) (es fs : List Event)
      → P r (s, es)
      → P s (t, fs)
      → P r (t, es ++ fs)
  pub slots :
      (r : Runtime resampling) (ss : List (ℕ × Slot)) → Inv r → P r (record r { slots = ss }, [])
  pub makes :
      (r : Runtime resampling) (line : ℕ) (slot : Slot) (o : Order)
      → Inv r
      → P r (new_call resampling r line slot o, [])
  pub steps :
      (r : Runtime resampling) (id now : ℕ) (m : Running resampling) (i : MissionInput)
      → Inv r
      → get id r.missions ≡ some m
      → Ok m.state i
      → P r (goes_on resampling r id m (step resampling m.state (now, i)))
  pub ends :
      (r : Runtime resampling) (id : ℕ) (m : Running resampling) (why : String) (words : Bool)
      → Inv r
      → get id r.missions ≡ some m
      → P r (
          goes_on resampling r id m
            (finish resampling m.state ended_by_agent (some (told why)) words none))
  pub drops :
      (r : Runtime resampling) (id : ℕ) (m : Running resampling)
      → Inv r
      → get id r.missions ≡ some m
      → P r (goes_on resampling r id m (stop_listeners resampling m.state))
  pub agent : (m : CallMission resampling) (tool : Tool) → Ok m (agent_action tool)
  pub outbound : (m : CallMission resampling) (p : Party) → Ok m (starts_outbound p)
  pub inbound : (m : CallMission resampling) (id : ℕ) (p : Party) → Ok m (starts_inbound id p)

module _ {resampling : Resampling} {Inv : Runtime resampling → Type 0}
    {P : Runtime resampling → Out resampling → Type 0}
    {Ok : CallMission resampling → MissionInput → Type 0} (law : Law resampling Inv P Ok) where
  abbrev State : Type 0
  State = Runtime resampling

  abbrev Next : Type 0
  Next = Out resampling

  pub advance-P :
      (r : State) (id now : ℕ) (i : MissionInput)
      → Inv r
      → ((m : Running resampling) → get id r.missions ≡ some m → Ok m.state i)
      → P r (advance resampling r id now i)
  unfolding advance
  advance-P r id now i f ok =
      Option-each (P r) (get id r.missions) _ _ (law.still r f)
        (λ m e. law.steps r id now m i f e (ok m e))

  finish_mission-P :
      (r : State) (id : ℕ) (why : String) (words : Bool)
      → Inv r
      → P r (finish_mission resampling r id why words)
  unfolding finish_mission
  finish_mission-P r id why words f =
      Option-each (P r) (get id r.missions) _ _ (law.still r f)
        (λ m e. law.ends r id m why words f e)

  -- A mission that is made and starts.
  pub made-P :
      (r : State) (line : ℕ) (slot : Slot) (o : Order) (i : MissionInput)
      → Inv r
      → ((m : CallMission resampling) → Ok m i)
      → P r (advance resampling (new_call resampling r line slot o) r.next 0 i)
  made-P r line slot o i f ok =
      let s = new_call resampling r line slot o in
      let made = law.makes r line slot o f in
      let (t, es) = advance resampling s r.next 0 i in
      law.and_then r s t [] es made
        (advance-P s r.next 0 i (law.holds r (s, []) made) (λ m e. ok m.state))

  drop_listeners-P : (r : State) (id : ℕ) → Inv r → P r (drop_listeners resampling r id)
  drop_listeners-P r id f =
      Option-each (P r) (get id r.missions) _ _ (law.still r f) (λ m e. law.drops r id m f e)

  pub listen-P :
      (r : State) (starts : Bool) (id : Option ℕ)
      → Inv r
      → P r (events_of (listen resampling r starts id))
  unfolding listen
  listen-P r starts id f =
      let Q = λ (x : State × List Event × Listened). P r (events_of x) in
      Option-elim Q (chosen (live resampling r) id (first? (live resampling r))) _ _ (law.still r f)
        (λ m. if-elim Q (not starts) _ _ (drop_listeners-P r m f) (λ a.
          Option-elim Q r.config.listen _ _ (law.still r f) (λ l.
            Option-elim Q (listening_line l.1 r.slots) _ _ (law.still r f)
              (λ line. law.plain r (calls_listener line) tt f))))

  pub line_action-P :
      (r : State) (now id : ℕ) (tool : Tool) → Inv r → P r (line_action resampling r now id tool)
  unfolding line_action
  line_action-P r now id tool f =
      Option-elim (P r) (find (λ x. x == id) (live resampling r)) _ _ (law.still r f)
        (λ m. advance-P r m now (agent_action tool) f (λ n e. law.agent n.state tool))

  pub end_call-P : (r : State) (id : Option ℕ) → Inv r → P r (events_of (end_call resampling r id))
  unfolding end_call
  end_call-P r id f =
      Option-elim (λ (x : State × List Event × Bool). P r (events_of x))
        (chosen (live resampling r) id (sole (live resampling r))) _ _ (law.still r f)
        (λ m. finish_mission-P r m _ true f)

  stop_mission-P : (r : State) (o : Option ℕ) → Inv r → P r (stop_mission resampling r o)
  stop_mission-P r none f = law.still r f
  stop_mission-P r (some id) f = finish_mission-P r id _ false f

  stop_link-P : (r : State) (line : ℕ) (l : Option Link) → Inv r → P r (r, stop_link line l)
  stop_link-P r line none f = law.still r f
  stop_link-P r line (some l) f = law.plain r (stops_link line) tt f

  pub stop_all-P : (slots : List (ℕ × Slot)) (r : State) → Inv r → P r (stop_all resampling slots r)
  stop_all-P [] r f = law.still r f
  stop_all-P ((line, slot) ∷ slots) r f =
      let (s, es) = stop_mission resampling r slot.mission in
      let a = stop_mission-P r slot.mission f in
      let kept = law.holds r (s, es) a in
      let (t, fs) = stop_all resampling slots s in
      let link = stop_link line slot.link in
      law.and_then r s t (es ++ link) fs
        (law.and_then r s s es link a (stop_link-P s line slot.link kept)) (stop_all-P slots s kept)

  pub set_link-P :
      (r : State) (line : ℕ) (link : Option Link) → Inv r → P r (set_link r line link, [])
  unfolding set_link
  set_link-P r line link f =
      Option-elim (λ s. P r (s, [])) (get line r.slots) _ _ (law.still r f)
        (λ slot. law.slots r _ f)
