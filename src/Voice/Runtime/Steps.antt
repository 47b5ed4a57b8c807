-- ===== src/Voice/Runtime/Steps.antt =====
-- runtime.ts: what happens to the runtime, one step after another.
use otacon.Prelude.{ℕ, Bool, Option, none, some, List, [], ◌∷◌, ◌++◌, String}
use otacon.Prelude.JsMap.{get, put}
use otacon.Voice.CallAudio.{Resampling}
use otacon.Voice.Mission.Steps.{Input as MissionInput}
use otacon.Voice.Mission.Tools.{Tool}
use otacon.Voice.Runtime.{Link, Runtime, Out, advance, end_call, stop}
use otacon.Voice.Runtime.Calls.{StartCall, start_call, on_call, listen, line_action}

-- `mission_goes_on`: something happens to a mission, by its id and the time since it started.
pub data Input : Type 0 where
  starts_call : StartCall → Input
  calls_in : ℕ → Bool → Option ℕ → ℕ → Input
  ends_call : Option ℕ → Input
  listens : Bool → Option ℕ → Input
  acts_on_line : ℕ → ℕ → Tool → Input
  link_is : ℕ → Option Link → Input
  mission_goes_on : ℕ → ℕ → MissionInput → Input
  stops : Input

abbrev pub events_of : {A B C : Type 0} → A × B × C → A × B
events_of (r, es, x) = (r, es)

-- A line's link comes up, goes down or is replaced.
unfoldable pub set_link :
    {resampling : Resampling} → Runtime resampling → ℕ → Option Link → Runtime resampling
set_link r line link = elim (get line r.slots) [
  | none ↦ r
  | some slot ↦ record r { slots = put line (record slot { link = link }) r.slots }
]

module _ (resampling : Resampling) (shown : ℕ → String) where
  abbrev State : Type 0
  State = Runtime resampling

  abbrev Next : Type 0
  Next = Out resampling

  unfoldable pub handle : State → Input → Next
  handle r (starts_call req) = events_of (start_call resampling shown r req)
  handle r (calls_in line is_incoming number id) =
      on_call resampling shown r line is_incoming number id
  handle r (ends_call id) = events_of (end_call resampling r id)
  handle r (listens starts id) = events_of (listen resampling r starts id)
  handle r (acts_on_line now id tool) = line_action resampling r now id tool
  handle r (link_is line link) = (set_link r line link, [])
  handle r (mission_goes_on id now i) = advance resampling r id now i
  handle r stops = stop resampling r

  unfoldable pub run : State → List Input → Next
  run r [] = (r, [])
  run r (i ∷ is) = let (s, es) = handle r i in let (t, fs) = run s is in (t, es ++ fs)
