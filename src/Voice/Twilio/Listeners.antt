-- ===== src/Voice/Twilio/Listeners.antt =====
-- twilio.ts, `listen`: one-way calls that play a call to someone.
use otacon.Prelude.{ℕ, none, some, [], ◌∷◌, ◌++◌}
use otacon.Prelude.JsMap.{get, put}
use otacon.Voice.Twilio.{
  local_end, remote, post_dial, post_completed, TwilioLine, Out, listener_ended,
}
use otacon.Voice.Twilio.Commands.{Ran, when_open, awaits_api}

unfoldable pub listen : TwilioLine → ℕ → Ran
listen l to = when_open l (l, post_dial to ∷ [], awaits_api)

-- Twilio placed the listener's call.
unfoldable pub listening : TwilioLine → ℕ → TwilioLine
listening l sid = record l {
  listen_legs =
      put sid (record { sid = sid; ws = none; stream_sid = ""; on_end = [] }) l.listen_legs;
}

-- `onEnd`: `f` names the callback.
unfoldable pub listener_on_end : TwilioLine → ℕ → ℕ → TwilioLine
listener_on_end l sid f = elim (get sid l.listen_legs) [
  | none ↦ l
  | some leg ↦ record l {
    listen_legs = put sid (record leg { on_end = leg.on_end ++ f ∷ [] }) l.listen_legs;
  }
]

-- `hangUp` up to its request, and once Twilio answered, whatever it said.
unfoldable pub listener_hang_up : TwilioLine → ℕ → Out
listener_hang_up l sid = elim (get sid l.listen_legs) [
  | none ↦ (l, [])
  | some _ ↦ (l, post_completed sid ∷ [])
]

unfoldable pub listener_hung_up : TwilioLine → ℕ → Out
listener_hung_up l sid = elim (get sid l.listen_legs) [
  | none ↦ (l, [])
  | some leg ↦ listener_ended l leg local_end
]

-- The listener's stream socket closed.
unfoldable pub listener_closed : TwilioLine → ℕ → Out
listener_closed l sid = elim (get sid l.listen_legs) [
  | none ↦ (l, [])
  | some leg ↦ listener_ended l leg remote
]
