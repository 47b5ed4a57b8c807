-- ===== src/Voice/Twilio/Commands.antt =====
-- twilio.ts, `cmd`: each command up to its first wait, and what runs when the wait is over.
use otacon.Prelude.{
  ℕ, ◌≡◌, arith, Bool, true, false, ◌&&◌, ◌||◌, none, some, List, [], ◌∷◌, ◌++◌, map, keep, length,
  leb, ◌==◌, if◌then◌else◌,
}
use otacon.Prelude.JsMap.{get, put, delete, values}
use otacon.Voice.Line.{dialing, active, held, LineCall, outgoing}
use otacon.Voice.Twilio.{
  Leg, Twiml, play_digits, conference_room, Effect, emit_state, post_twiml, post_completed,
  post_dial, TwilioLine, Out, ◌then_do◌, write_leg, new_leg, set_state, dropped, is_live,
  active_leg, last_held, has_stream,
}

pub data ErrorCode : Type 0 where
  disconnected no_call busy bad_digits bad_state : ErrorCode

-- What a command answers, or that it waits: for Twilio's reply, or for the call's audio stream.
pub data Reply : Type 0 where
  done : Reply
  fail : ErrorCode → Reply
  awaits_api : Reply
  awaits_stream : Reply
  call_ready : LineCall → Reply

abbrev pub Ran : Type 0
Ran = TwilioLine × List Effect × Reply

abbrev pub replying : Reply → Out → Ran
replying r (l, es) = (l, es, r)

-- Every command starts with `if (!this.open) throw`.
abbrev pub when_open : TwilioLine → Ran → Ran
when_open l r = if l.open_ then r else (l, [], fail disconnected)

pub when_open_up : (l : TwilioLine) (r : Ran) → l.open_ ≡ true → when_open l r ≡ r
when_open_up l r up = ground (arith, up)

-- `redirect` up to its request. A leg that is no longer in the map is an object nothing reads.
unfoldable pub redirect : TwilioLine → ℕ → Twiml → Out
redirect l id twiml = elim (get id l.legs) [
  | none ↦ (l, post_twiml id twiml ∷ [])
  | some leg ↦ (
    write_leg l (record leg { redirecting = true; marks = [] }),
    dropped leg ++ post_twiml id twiml ∷ [],
  )
]

-- Twilio refused the redirect.
unfoldable pub redirect_failed : TwilioLine → ℕ → TwilioLine
redirect_failed l id = elim (get id l.legs) [
  | none ↦ l
  | some leg ↦ write_leg l (record leg { redirecting = false })
]

unfoldable pub dial : TwilioLine → ℕ → Ran
dial l to = when_open l (l, post_dial to ∷ [], awaits_api)

abbrev pub dialed_call : ℕ → ℕ → ℕ → LineCall
dialed_call sid to now = record {
  id = sid;
  number = some to;
  direction = outgoing;
  state = dialing;
  conference = false;
  started_at = now;
  answered_at = none;
}

-- Twilio placed the call.
unfoldable pub dialed : TwilioLine → ℕ → ℕ → ℕ → Ran
dialed l sid to now = (
  new_leg l (dialed_call sid to now),
  emit_state (dialed_call sid to now) ∷ [],
  call_ready (dialed_call sid to now),
)

-- `waiter` names the promise that the leg's next stream resolves; its limit of 15 s is not modelled.
unfoldable pub answer : TwilioLine → ℕ → ℕ → Ran
answer l id waiter = when_open l (elim (get id l.legs) [
  | none ↦ (l, [], fail no_call)
  | some leg ↦ if has_stream leg then (l, [], call_ready leg.call) else (
    write_leg l (record leg { on_stream = leg.on_stream ++ waiter ∷ [] }),
    [],
    awaits_stream,
  )
])

unfoldable pub hangup : TwilioLine → ℕ → Ran
hangup l id = when_open l (elim (get id l.legs) [
  | none ↦ (l, [], fail no_call)
  | some leg ↦ (write_leg l (record leg { hung_up = true }), post_completed id ∷ [], awaits_api)
])

abbrev is_key : ℕ → Bool
is_key c = (leb b'0' c && leb c b'9') || (c == b'*' || (c == b'#' || (c == b'w' || c == b'W')))

abbrev all_keys : List ℕ → Bool
all_keys [] = true
all_keys (c ∷ cs) = is_key c && all_keys cs

-- `/^[0-9*#wW]+$/`
unfoldable pub valid_digits : List ℕ → Bool
valid_digits [] = false
valid_digits (c ∷ cs) = all_keys (c ∷ cs)

-- `toLowerCase` on what `valid_digits` accepts.
abbrev pub lower_w : ℕ → ℕ
lower_w c = if c == b'W' then b'w' else c

-- The wait for the new stream, which only delays the answer, is not modelled.
unfoldable pub dtmf : TwilioLine → List ℕ → Ran
dtmf l digits = when_open l (
    if valid_digits digits
    then elim (active_leg l.legs) [
      | none ↦ (l, [], fail no_call)
      | some leg ↦ replying awaits_api (redirect l leg.call.id (play_digits (map lower_w digits)))
    ]
    else (l, [], fail bad_digits))

unfoldable pub hold : TwilioLine → ℕ → Ran
hold l now = when_open l (elim (active_leg l.legs) [
  | none ↦ (l, [], fail no_call)
  | some leg ↦
      let leg' : Leg = record leg { held = true; marks = [] } in
      replying done ((write_leg l leg', dropped leg) then_do λ m. set_state m leg' held now)
])

unfoldable pub resume : TwilioLine → ℕ → Ran
resume l now = when_open l (elim (last_held l.legs) [
  | none ↦ (l, [], fail no_call)
  | some leg ↦ elim (active_leg l.legs) [
    | some _ ↦ (l, [], fail busy)
    | none ↦
        let leg' : Leg = record leg { held = false } in
        replying done ((write_leg l leg', []) then_do λ m. set_state m leg' active now)
  ]
])

-- The leg taken off hold goes to the end of the map.
abbrev pub move_last : TwilioLine → Leg → TwilioLine
move_last l leg = record l { legs = put leg.call.id leg (delete leg.call.id l.legs) }

unfoldable pub swap : TwilioLine → ℕ → Ran
swap l now = when_open l (elim (active_leg l.legs) [
  | none ↦ (l, [], fail no_call)
  | some a ↦ elim (last_held l.legs) [
    | none ↦ (l, [], fail no_call)
    | some h ↦
        let a' : Leg = record a { held = true; marks = [] } in
        let h' : Leg = record h { held = false } in
        replying done (
          (move_last (write_leg l a') h', dropped a)
          then_do (λ m. set_state m a' held now)
          then_do λ m. set_state m h' active now)
  ]
])

abbrev pub ids : List Leg → List ℕ
ids = map λ leg. leg.call.id

abbrev pub redirect_all_from : TwilioLine → List ℕ → Ran
redirect_all_from l [] = (l, [], done)
redirect_all_from l (id ∷ rest) = replying awaits_api (redirect l id conference_room)

unfoldable pub merge : TwilioLine → Ran
merge l = when_open l (
    if length (keep is_live (values l.legs)) == 2
    then redirect_all_from l (ids (keep is_live (values l.legs)))
    else (l, [], fail bad_state))

abbrev pub joined : LineCall → LineCall
joined c = record c { conference = true; state = active }

-- One round of merge's loop, after Twilio took the redirect: the reference it holds may be to a leg
-- that has ended meanwhile.
unfoldable pub join_leg : TwilioLine → ℕ → Out
join_leg l id = elim (get id l.legs) [
  | some leg ↦ (
    record l {
      legs = put id (record leg { held = false; call = joined leg.call }) l.legs;
      calls = put id (joined leg.call) l.calls;
    },
    emit_state (joined leg.call) ∷ [],
  )
  | none ↦ elim (get id l.gone) [
    | none ↦ (l, [])
    | some call ↦ (record l { calls = put id (joined call) l.calls }, emit_state (joined call) ∷ [])
  ]
]

unfoldable pub merge_joined : TwilioLine → ℕ → List ℕ → Ran
merge_joined l id rest =
    let (m, es) = join_leg l id in let (m', es', r) = redirect_all_from m rest in (m', es ++ es', r)
