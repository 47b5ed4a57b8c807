-- ===== src/Voice/Runtime.antt =====
-- runtime.ts: the phone lines and their missions. Ids, telephone numbers and session keys are opaque
-- numbers, and missions are numbered in the order they are made.
pub mod Calls
pub mod Steps
pub mod Screened
pub mod Once
pub mod Law
pub mod Traversed
pub mod Spending
pub mod Reported
pub mod Recent
mod Tests
use mathlib.Core.List.{reverse}
use otacon.Prelude.{
  ℕ, suc, Bool, true, false, ◌&&◌, not, Option, none, some, List, [], ◌∷◌, ◌++◌, String, take, find,
  last?, ◌==◌, if◌then◌else◌,
}
use otacon.Prelude.JsMap.{get, put}
use otacon.Voice.CallAudio.{Resampling}
use otacon.Voice.Mission.{
  Party, MissionReport, told, ended_by_agent, Effect, report, CallMission, new_mission,
}
use otacon.Voice.Mission.Steps.{Input, step}
use otacon.Voice.Mission.Ending.{finish}

pub record Contact : Type 0 where
  pub name : String
  pub number : ℕ

-- `listen`: the number to call, and the line that dials it if one is named. `owns` is `isOwnerNumber`
-- on the host's configuration.
pub record RuntimeConfig : Type 0 where
  pub allowlist : Bool
  pub allow_from : List ℕ
  pub contacts : List Contact
  pub default_line : ℕ
  pub listen : Option (ℕ × Option ℕ)
  pub agent_id : ℕ
  pub inbound_session_key : Option ℕ
  pub max_call_seconds : ℕ
  pub owns : ℕ → Bool

pub record Link : Type 0 where
  pub open_ : Bool
  pub can_listen : Bool

pub record Slot : Type 0 where
  pub link : Option Link
  pub mission : Option ℕ

-- What a mission is made with.
pub record Order : Type 0 where
  pub outbound : Bool
  pub party : Party
  pub agent_id : ℕ
  pub requester : Option ℕ
  pub hold_limit : Option ℕ

-- A report, with what the mission was made with.
pub record Finished : Type 0 where
  pub mission_id : ℕ
  pub order : Order
  pub ending : MissionReport

pub data SessionKey : Type 0 where
  session main_of : ℕ → SessionKey

pub data Event : Type 0 where
  does : ℕ → Effect → Event
  reports_to : SessionKey → Finished → Event
  wakes : SessionKey → ℕ → Event
  stops_link calls_listener : ℕ → Event

abbrev pub newest : ℕ
newest = 20

abbrev pub key_of : Order → SessionKey
key_of o = elim o.requester [ none ↦ main_of o.agent_id | some key ↦ session key ]

-- The owner's own incoming call wakes nobody.
abbrev pub wakes_up : RuntimeConfig → Order → Bool
wakes_up config o = not (not o.outbound && config.owns o.party.number)

abbrev pub has_any : List ℕ → Bool
has_any [] = false
has_any (x ∷ xs) = true

abbrev pub first? : List ℕ → Option ℕ
first? [] = none
first? (x ∷ xs) = some x

-- The only one.
abbrev pub sole : List ℕ → Option ℕ
sole (x ∷ []) = some x
sole xs = none

-- `missionId ? live.find(...) : fallback`
abbrev pub chosen : List ℕ → Option ℕ → Option ℕ → Option ℕ
chosen ids none fallback = fallback
chosen ids (some id) fallback = find (λ x. x == id) ids

abbrev pub stop_link : ℕ → Option Link → List Event
stop_link line none = []
stop_link line (some link) = stops_link line ∷ []

-- What `status` tells of: a mission that a slot holds, or one that was reported.
pub data Status : Type 0 where
  of_mission : ℕ → Status
  of_report : Finished → Status
  unknown : Status

abbrev pub held_by : List (ℕ × Slot) → List ℕ
held_by [] = []
held_by ((line, slot) ∷ slots) =
    let rest = held_by slots in elim slot.mission [ none ↦ rest | some id ↦ id ∷ rest ]

abbrev pub or_last : Option ℕ → List ℕ → Option ℕ
or_last none ids = last? ids
or_last (some id) ids = some id

abbrev pub reported_as : Option ℕ → List Finished → Status
reported_as none fs = unknown
reported_as (some id) fs = elim (find (λ f. f.mission_id == id) fs) [
  | none ↦ unknown
  | some f ↦ of_report f
]

module _ (resampling : Resampling) where
  pub record Running : Type 0 where
    pub order : Order
    pub state : CallMission resampling

  -- `missions` holds every mission that was made: one that a slot no longer holds may still be ending.
  pub record Runtime : Type 0 where
    pub config : RuntimeConfig
    pub slots : List (ℕ × Slot)
    pub missions : List (ℕ × Running)
    pub next : ℕ
    pub recent : List Finished

  abbrev pub Out : Type 0
  Out = Runtime × List Event

  abbrev pub then_do : Out → (Runtime → Out) → Out
  then_do (r, es) f = let (s, fs) = f r in (s, es ++ fs)

  -- `onMissionEnd`
  unfoldable pub on_mission_end : Runtime → Finished → Out
  on_mission_end r f =
      let key = key_of f.order in
      (
        record r { recent = take newest (f ∷ r.recent) },
        reports_to key f
            ∷ (if wakes_up r.config f.order then wakes key f.order.agent_id ∷ [] else []),
      )

  -- What a mission asks for, in order; its report is for the runtime.
  unfoldable pub absorb : Runtime → ℕ → Order → List Effect → Out
  absorb r id o [] = (r, [])
  absorb r id o (report ending ∷ es) =
      let f : Finished = record { mission_id = id; order = o; ending = ending } in
      let (s, fs) = on_mission_end r f in let (t, gs) = absorb s id o es in (t, fs ++ gs)
  absorb r id o (e ∷ es) = let (s, fs) = absorb r id o es in (s, does id e ∷ fs)

  -- A mission goes on: its new state, and what it asks for.
  abbrev pub goes_on : Runtime → ℕ → Running → CallMission resampling × List Effect → Out
  goes_on r id m (state, es) =
      absorb (record r { missions = put id (record m { state = state }) r.missions }) id m.order es

  -- An input of a mission, by its id and the time since it started.
  unfoldable pub advance : Runtime → ℕ → ℕ → Input → Out
  advance r id now i = elim (get id r.missions) [
    | none ↦ (r, [])
    | some m ↦ goes_on r id m (step resampling m.state (now, i))
  ]

  -- `mission.finish("ended_by_agent", why, { lastWords })`
  unfoldable pub finish_mission : Runtime → ℕ → String → Bool → Out
  finish_mission r id why words = elim (get id r.missions) [
    | none ↦ (r, [])
    | some m ↦
        goes_on r id m (finish resampling m.state ended_by_agent (some (told why)) words none)
  ]

  abbrev pub is_ended : Option Running → Bool
  is_ended none = true
  is_ended (some m) = m.state.ended

  -- A mission that a slot holds and that has not ended.
  abbrev pub live_in : Runtime → Slot → List ℕ
  live_in r slot = elim slot.mission [
    | none ↦ []
    | some id ↦ if is_ended (get id r.missions) then [] else id ∷ []
  ]

  abbrev pub busy : Runtime → Slot → Bool
  busy r slot = has_any (live_in r slot)

  abbrev pub live_of : Runtime → List (ℕ × Slot) → List ℕ
  live_of r [] = []
  live_of r ((line, slot) ∷ slots) = live_in r slot ++ live_of r slots

  -- Missions under way, newest line first.
  unfoldable pub live : Runtime → List ℕ
  live r = reverse (live_of r r.slots)

  unfoldable pub end_call : Runtime → Option ℕ → Runtime × List Event × Bool
  end_call r id = elim (chosen (live r) id (sole (live r))) [
    | none ↦ (r, [], false)
    | some m ↦
        let (s, es) = finish_mission r m "Ended at the agent's request." true in (s, es, true)
  ]

  abbrev pub stop_mission : Runtime → Option ℕ → Out
  stop_mission r none = (r, [])
  stop_mission r (some id) = finish_mission r id "The gateway stopped." false

  abbrev pub stop_all : List (ℕ × Slot) → Runtime → Out
  stop_all [] r = (r, [])
  stop_all ((line, slot) ∷ slots) r =
      let (s, es) = stop_mission r slot.mission in
      let (t, fs) = stop_all slots s in (t, es ++ stop_link line slot.link ++ fs)

  unfoldable pub stop : Runtime → Out
  stop r = stop_all r.slots r

  unfoldable pub status : Runtime → Option ℕ → Status
  status r id =
      let all = held_by r.slots in
      elim (chosen all id (or_last (first? (live r)) all)) [
        | none ↦ reported_as id r.recent
        | some m ↦ of_mission m
      ]
