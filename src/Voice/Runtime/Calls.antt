-- ===== src/Voice/Runtime/Calls.antt =====
-- runtime.ts: calls that are placed, that come in, and that someone listens to. `shown` is how an opaque
-- telephone number reads.
use otacon.Prelude.{
  ℕ, suc, Bool, true, false, ◌&&◌, ◌||◌, not, Option, none, some, List, [], ◌∷◌, ◌++◌, String, min,
  max, find, ◌==◌, str_eq, if◌then◌else◌,
}
use otacon.Prelude.JsMap.{get, put}
use otacon.Voice.CallAudio.{Resampling}
use otacon.Voice.Mission.{new_mission, stop_listeners}
use otacon.Voice.Mission.Tools.{Tool}
use otacon.Voice.Mission.Steps.{starts_outbound, starts_inbound, agent_action}
use otacon.Voice.Runtime.{
  Contact, RuntimeConfig, Link, Slot, Order, Event, calls_listener, Runtime, Out, advance, goes_on,
  busy, live, chosen, first?,
}

-- `name` is trimmed and not empty, `e164` is what isE164 says of `to`, and `hold_limit` is rounded.
pub record StartCall : Type 0 where
  pub to : ℕ
  pub e164 : Bool
  pub name : Option String
  pub contacts : List Contact
  pub agent_id : ℕ
  pub requester : Option ℕ
  pub hold_limit : Option ℕ
  pub line : Option ℕ

pub data CallError : Type 0 where
  no_line not_connected already_in_progress : ℕ → CallError
  to_not_e164 : CallError

pub data Started : Type 0 where
  placed : ℕ → Started
  thrown : CallError → Started

pub data Listened : Type 0 where
  calling stopped_listening no_call not_configured no_free_line : Listened

abbrev pub or_else {ℓ} : {A : Type ℓ} → Option A → A → A
or_else none a = a
or_else (some b) a = b

abbrev pub has : List ℕ → ℕ → Bool
has [] n = false
has (x ∷ xs) n = (x == n) || has xs n

abbrev pub is_open : Option Link → Bool
is_open none = false
is_open (some link) = link.open_

-- A contact's name, where the number is one's.
abbrev pub known : List Contact → ℕ → Option String
known contacts n = elim (find (λ c. c.number == n) contacts) [ none ↦ none | some c ↦ some c.name ]

-- `name || other`: an empty text is none.
abbrev pub non_empty : Option String → Option String
non_empty none = none
non_empty (some s) = if str_eq s "" then none else some s

-- `Math.min(Math.max(10, limit), maxCallSeconds)`
abbrev pub held_for : RuntimeConfig → Option ℕ → Option ℕ
held_for config none = none
held_for config (some limit) = some (min (max 10 limit) config.max_call_seconds)

-- A line that can call the listener: the one that is named, if one is.
abbrev pub can_call : Option ℕ → ℕ → Option Link → Bool
can_call wanted line none = false
can_call none line (some link) = link.can_listen && link.open_
can_call (some w) line (some link) = (line == w) && (link.can_listen && link.open_)

abbrev pub listening_line : Option ℕ → List (ℕ × Slot) → Option ℕ
listening_line wanted [] = none
listening_line wanted ((line, slot) ∷ slots) =
    let rest = listening_line wanted slots in
    if can_call wanted line slot.link then some line else rest

module _ (resampling : Resampling) where
  abbrev pub State : Type 0
  State = Runtime resampling

  abbrev Next : Type 0
  Next = Out resampling

  -- `newMission`, which takes the line's slot.
  unfoldable pub new_call : State → ℕ → Slot → Order → State
  new_call r line slot o = record r {
    next = suc r.next;
    missions = put r.next (record { order = o; state = new_mission resampling }) r.missions;
    slots = put line (record slot { mission = some r.next }) r.slots;
  }

  abbrev pub allowed : State → Option ℕ → Bool
  allowed r none = false
  allowed r (some n) = has r.config.allow_from n

  -- Whether a line takes an incoming call now.
  unfoldable pub takes : State → ℕ → Option ℕ → Bool
  takes r line number = elim (get line r.slots) [
    | none ↦ false
    | some slot ↦ r.config.allowlist && allowed r number && not (busy resampling r slot)
  ]

  abbrev pub drop_listeners : State → ℕ → Next
  drop_listeners r id = elim (get id r.missions) [
    | none ↦ (r, [])
    | some m ↦ goes_on resampling r id m (stop_listeners resampling m.state)
  ]

  -- `listen`, up to the listener's call; once that is placed the mission has a listener.
  unfoldable pub listen : State → Bool → Option ℕ → State × List Event × Listened
  listen r starts id = elim (chosen (live resampling r) id (first? (live resampling r))) [
    | none ↦ (r, [], no_call)
    | some m ↦
        if not starts
        then (let (s, es) = drop_listeners r m in (s, es, stopped_listening))
        else elim r.config.listen [
          | none ↦ (r, [], not_configured)
          | some l ↦ elim (listening_line l.1 r.slots) [
            | none ↦ (r, [], no_free_line)
            | some line ↦ (r, calls_listener line ∷ [], calling)
          ]
        ]
  ]

  -- `lineAction`, on a call that is under way.
  unfoldable pub line_action : State → ℕ → ℕ → Tool → Next
  line_action r now id tool = elim (find (λ x. x == id) (live resampling r)) [
    | none ↦ (r, [])
    | some m ↦ advance resampling r m now (agent_action tool)
  ]

module _ (resampling : Resampling) (shown : ℕ → String) where
  abbrev pub order_of : Runtime resampling → StartCall → Order
  order_of r req = record {
    outbound = true;
    party = record {
      name =
          or_else req.name
            (or_else (non_empty (known (r.config.contacts ++ req.contacts) req.to)) (shown req.to));
      number = req.to;
      is_primary = true;
    };
    agent_id = req.agent_id;
    requester = req.requester;
    hold_limit = held_for r.config req.hold_limit;
  }

  -- The call is placed, on a line that can.
  unfoldable pub place :
      Runtime resampling → ℕ → Slot → StartCall → Runtime resampling × List Event × Started
  place r line slot req =
      let o = order_of r req in
      let (s, es) =
        advance resampling (new_call resampling r line slot o) r.next 0 (starts_outbound o.party) in
      (s, es, placed r.next)

  unfoldable pub start_call :
      Runtime resampling → StartCall → Runtime resampling × List Event × Started
  start_call r req =
      let line = or_else req.line r.config.default_line in
      elim (get line r.slots) [
        | none ↦ (r, [], thrown (no_line line))
        | some slot ↦
            if not (is_open slot.link)
            then (r, [], thrown (not_connected line))
            else if busy resampling r slot
            then (r, [], thrown (already_in_progress line))
            else if not req.e164
            then (r, [], thrown to_not_e164)
            else place r line slot req
      ]

  abbrev pub inbound_order : Runtime resampling → ℕ → Order
  inbound_order r n = record {
    outbound = false;
    party = record {
      name = or_else (known r.config.contacts n) (shown n);
      number = n;
      is_primary = true;
    };
    agent_id = r.config.agent_id;
    requester = r.config.inbound_session_key;
    hold_limit = none;
  }

  unfoldable pub answer_call : Runtime resampling → ℕ → Slot → ℕ → ℕ → Out resampling
  answer_call r line slot n call_id =
      let o = inbound_order r n in
      advance resampling (new_call resampling r line slot o) r.next 0
        (starts_inbound call_id o.party)

  -- `onCall`, of a line's event: whether it is `call.incoming`, from whom, and which call.
  unfoldable pub on_call : Runtime resampling → ℕ → Bool → Option ℕ → ℕ → Out resampling
  on_call r line is_incoming number call_id =
      if not is_incoming || not r.config.allowlist then (r, []) else elim number [
        | none ↦ (r, [])
        | some n ↦ if not (has r.config.allow_from n) then (r, []) else elim (get line r.slots) [
          | none ↦ (r, [])
          | some slot ↦
              if busy resampling r slot then (r, []) else answer_call r line slot n call_id
        ]
      ]
