-- ===== src/Voice/Twilio.antt =====
-- twilio.ts: the state of a Twilio line, its legs and their life cycle. A leg is found by its call
-- id; what a handler emits, sends or asks of Twilio's REST interface is a list of effects.
pub mod Commands
pub mod Webhooks
pub mod Listeners
pub mod Steps
pub mod Invariant
pub mod Preserved
pub mod Swap
pub mod Hooked
pub mod Reachable
pub mod Audio
pub mod Ends
mod Tests
use otacon.Prelude.{
  ℕ, suc, ◌+◌, Bool, true, false, ◌&&◌, ◌||◌, not, Option, none, some, List, [], ◌∷◌, ◌++◌, map,
  String, keep, last?, str_eq, if◌then◌else◌,
}
use otacon.Prelude.JsMap.{get, put, delete, values}
use otacon.Voice.Line.{
  CallState, dialing, alerting, active, held, ended, LineCall, same_state, is_ended,
}

pub data Reason : Type 0 where
  local_end remote busy no_answer failed canceled : Reason

-- `stream_sid` is "" where the source has undefined or "", which it only tests for truth. The
-- codecs `up` and `down` are left out: a handler takes the decoded audio, or the coding as a function.
pub record Leg : Type 0 where
  pub call : LineCall
  pub ws : Option ℕ
  pub stream_sid : String
  pub held : Bool
  pub hung_up : Bool
  pub redirecting : Bool
  pub marks : List ℕ
  pub on_stream : List ℕ

-- A listen-in call, outside the line's calls.
pub record ListenLeg : Type 0 where
  pub sid : ℕ
  pub ws : Option ℕ
  pub stream_sid : String
  pub on_end : List ℕ

pub data Twiml : Type 0 where
  play_digits : List ℕ → Twiml
  conference_room : Twiml
  stream_only : Twiml
  reject : Twiml

pub data Effect : Type 0 where
  emit_state : LineCall → Effect
  emit_ended : LineCall → Reason → Effect
  emit_incoming : LineCall → Effect
  emit_audio : ℕ → List ℕ → Effect
  mark_done : ℕ → Bool → Effect
  stream_ready : ℕ → Effect
  listener_end : ℕ → Reason → Effect
  close_socket : ℕ → Effect
  send_media : ℕ → String → List ℕ → Effect
  send_mark : ℕ → String → ℕ → Effect
  send_clear : ℕ → String → Effect
  post_twiml : ℕ → Twiml → Effect
  post_completed : ℕ → Effect
  post_dial : ℕ → Effect
  answer_http : Twiml → Effect

-- `gone` keeps the last call record of each leg that has ended: closures that wait may still hold
-- the object. `sockets` says which leg the closure of a stream socket holds.
pub record TwilioLine : Type 0 where
  pub open_ : Bool
  pub stream_token : ℕ
  pub legs : List (ℕ × Leg)
  pub calls : List (ℕ × LineCall)
  pub gone : List (ℕ × LineCall)
  pub listen_legs : List (ℕ × ListenLeg)
  pub sockets : List (ℕ × ℕ)
  pub next_mark : ℕ

-- A handler's new state and what it did, in order.
abbrev pub Out : Type 0
Out = TwilioLine × List Effect

infixl 5 ◌then_do◌
abbrev pub ◌then_do◌ : Out → (TwilioLine → Out) → Out
(l, es) then_do f = let r = f l in (r.0, es ++ r.1)

-- `Map.get` of the legs, and writing a leg's fields through its reference.
abbrev pub write_leg : TwilioLine → Leg → TwilioLine
write_leg l leg = record l { legs = put leg.call.id leg l.legs }

unfoldable pub new_leg : TwilioLine → LineCall → TwilioLine
new_leg l call = record l {
  legs =
      put call.id
        (record {
          call = call;
          ws = none;
          stream_sid = "";
          held = false;
          hung_up = false;
          redirecting = false;
          marks = [];
          on_stream = [];
        })
        l.legs;
  calls = put call.id call l.calls;
}

abbrev pub set_answered : CallState → ℕ → Option ℕ → Option ℕ
set_answered active now none = some now
set_answered _ _ old = old

abbrev pub with_state : LineCall → CallState → ℕ → LineCall
with_state c state now = record c {
  state = state;
  answered_at = set_answered state now c.answered_at;
}

unfoldable pub set_state : TwilioLine → Leg → CallState → ℕ → Out
set_state l leg state now =
    if same_state leg.call.state state || is_ended leg.call.state then (l, []) else (
      record l {
        legs = put leg.call.id (record leg { call = with_state leg.call state now }) l.legs;
        calls = put leg.call.id (with_state leg.call state now) l.calls;
      },
      emit_state (with_state leg.call state now) ∷ [],
    )

abbrev pub close_if : Option ℕ → List Effect
close_if none = []
close_if (some w) = close_socket w ∷ []

-- `dropMarks`: every waiter on a mark hears that it was cleared.
abbrev pub drop_marks : Leg → Leg
drop_marks leg = record leg { marks = [] }

abbrev pub dropped : Leg → List Effect
dropped leg = map (λ name. mark_done name true) leg.marks

abbrev pub as_ended : LineCall → LineCall
as_ended c = record c { state = ended }

unfoldable pub end_leg : TwilioLine → Leg → Reason → Out
end_leg l leg reason = if is_ended leg.call.state then (l, []) else (
  record l {
    calls = delete leg.call.id l.calls;
    legs = delete leg.call.id l.legs;
    gone = put leg.call.id (as_ended leg.call) l.gone;
  },
  dropped leg
      ++ (close_if leg.ws
          ++ emit_ended (as_ended leg.call) (if leg.hung_up then local_end else reason) ∷ []),
)

-- A leg that may have the audio.
abbrev pub audible : Leg → Bool
audible leg = not leg.held && not (is_ended leg.call.state)

abbrev pub on_hold : Leg → Bool
on_hold leg = leg.held

abbrev pub is_live : Leg → Bool
is_live leg = not (is_ended leg.call.state)

-- `active()`: the newest leg that is not held.
unfoldable pub active_leg : List (ℕ × Leg) → Option Leg
active_leg legs = last? (keep audible (values legs))

unfoldable pub last_held : List (ℕ × Leg) → Option Leg
last_held legs = last? (keep on_hold (values legs))

-- The stream of the leg is up: `leg.ws && leg.streamSid && !leg.redirecting`.
abbrev pub has_stream : Leg → Bool
has_stream leg = elim leg.ws [
  | none ↦ false
  | some _ ↦ not (str_eq leg.stream_sid "") && not leg.redirecting
]

-- `listenerEnded`: a listener in the map has not ended yet.
unfoldable pub listener_ended : TwilioLine → ListenLeg → Reason → Out
listener_ended l leg reason = (
  record l { listen_legs = delete leg.sid l.listen_legs },
  close_if leg.ws ++ map (λ f. listener_end f reason) leg.on_end,
)

-- The account answered `check`: the line is ready. A refusal leaves it as it is, to be retried.
unfoldable pub checked : TwilioLine → Bool → TwilioLine
checked l true = record l { open_ = true }
checked l false = l

abbrev close_all : List (Option ℕ) → List Effect
close_all [] = []
close_all (w ∷ ws) = close_if w ++ close_all ws

unfoldable pub stop : TwilioLine → Out
stop l = (
  record l { open_ = false },
  close_all (map (λ leg. leg.ws) (values l.legs))
      ++ close_all (map (λ leg. leg.ws) (values l.listen_legs)),
)
