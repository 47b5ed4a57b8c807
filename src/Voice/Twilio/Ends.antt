-- ===== src/Voice/Twilio/Ends.antt =====
-- How calls end: what a status says once, and what a key press does to the stream.
use otacon.Prelude.{
  ℕ, ◌≡◌, refl, true, false, none, some, List, [], ◌∷◌, ◌++◌, arith, ◌∙◌, String, map,
  if◌then◌else◌,
}
use otacon.Prelude.JsMap.{get, put, delete, get-put, put-put, get-delete_self}
use otacon.Voice.Line.{is_ended}
use otacon.Voice.Twilio.{
  Leg, TwilioLine, Effect, emit_ended, active_leg, end_leg, as_ended, local_end, remote, Reason,
  dropped, close_if, write_leg, play_digits, post_twiml,
}
use otacon.Voice.Twilio.Commands.{
  when_open_up, dtmf, redirect, valid_digits, awaits_api, redirect_failed, lower_w,
}
use otacon.Voice.Twilio.Webhooks.{on_status, on_stop, socket_leg, ends_with}
use otacon.Voice.Twilio.Invariant.{IsSound, leg_ok, active_leg_found}

-- The line without a leg that has ended.
abbrev without : TwilioLine → Leg → TwilioLine
without l leg = record l {
  calls = delete leg.call.id l.calls;
  legs = delete leg.call.id l.legs;
  gone = put leg.call.id (as_ended leg.call) l.gone;
}

abbrev farewell : Leg → Reason → List Effect
farewell leg r =
    dropped leg
    ++ (close_if leg.ws
        ++ emit_ended (as_ended leg.call) (if leg.hung_up then local_end else r) ∷ [])

end_leg_step :
    (l : TwilioLine) (leg : Leg) (r : Reason)
    → is_ended leg.call.state ≡ false
    → end_leg l leg r ≡ (without l leg, farewell leg r)
unfolding end_leg
end_leg_step l leg r up = rw (up, end_leg)

end_step :
    (l : TwilioLine) (sid : ℕ) (leg : Leg) (status : String) (r : Reason) (now : ℕ)
    → IsSound l
    → get sid l.listen_legs ≡ none
    → get sid l.legs ≡ some leg
    → ends_with status ≡ some r
    → on_status l sid status now ≡ (without l leg, farewell leg r)
unfolding on_status
end_step l sid leg status r now v quiet found ends =
    rw (quiet, found, ends, on_status) (end_leg_step l leg r (leg_ok v sid leg found).not_over)

unknown_step :
    (l : TwilioLine) (sid : ℕ) (status : String) (now : ℕ)
    → get sid l.listen_legs ≡ none
    → get sid l.legs ≡ none
    → on_status l sid status now ≡ (l, [])
unfolding on_status
unknown_step l sid status now quiet gone = rw (quiet, gone, on_status)

stop_step :
    (l : TwilioLine) (ws : ℕ) (leg : Leg)
    → socket_leg l ws ≡ some leg
    → leg.ws ≡ some ws
    → leg.redirecting ≡ false
    → leg.call.conference ≡ false
    → is_ended leg.call.state ≡ false
    → on_stop l ws ≡ (without l leg, farewell leg remote)
unfolding on_stop
stop_step l ws leg holds sock still alone up =
    ground (arith, holds, sock, still, alone, end_leg_step l leg remote up)

-- A status that ends a call ends it once: the marks of the leg are cleared, its socket is closed,
-- the end is reported as local if we hung up and with the status's reason otherwise, the call is
-- gone from `calls`, and whatever status comes for it later changes nothing and reports nothing.
pub on_status_ends_once :
    (l : TwilioLine) (sid : ℕ) (leg : Leg) (status later : String) (r : Reason) (now then_ : ℕ)
    → IsSound l
    → get sid l.listen_legs ≡ none
    → get sid l.legs ≡ some leg
    → ends_with status ≡ some r
    → let m = (on_status l sid status now).0 in
      ((on_status l sid status now).1
        ≡ dropped leg
          ++ (close_if leg.ws
              ++ emit_ended (as_ended leg.call) (if leg.hung_up then local_end else r) ∷ []))
      × (get sid m.calls ≡ none)
      × (on_status m sid later then_ ≡ (m, []))
on_status_ends_once l sid leg status later r now then_ v quiet found ends =
    rw (end_step l sid leg status r now v quiet found ends) (
      refl,
      rw keyed (get-delete_self sid l.calls v.distinct_calls),
      unknown_step (without l leg) sid later then_ quiet
          (rw keyed (get-delete_self sid l.legs v.distinct_legs)),
    )
  where
    keyed : leg.call.id ≡ sid
    keyed = (leg_ok v sid leg found).keyed

abbrev away : Leg → Leg
away a = record a { redirecting = true; marks = [] }

abbrev back : Leg → Leg
back a = record a { redirecting = false; marks = [] }

module _ (l : TwilioLine) (a : Leg) (ws : ℕ) (found : get a.call.id l.legs ≡ some a) where
  dtmf_step :
      (digits : List ℕ)
      → l.open_ ≡ true
      → valid_digits digits ≡ true
      → active_leg l.legs ≡ some a
      → dtmf l digits ≡ (
        write_leg l (away a),
        dropped a ++ post_twiml a.call.id (play_digits (map lower_w digits)) ∷ [],
        awaits_api,
      )
  unfolding dtmf redirect
  dtmf_step digits up valid speaks = when_open_up l _ up ∙ rw (valid, speaks, dtmf, found, redirect)

  socket_leg-write :
      (leg : Leg)
      → leg.call.id ≡ a.call.id
      → get ws l.sockets ≡ some a.call.id
      → socket_leg (write_leg l leg) ws ≡ some leg
  unfolding socket_leg
  socket_leg-write leg same bound =
      rw (bound, socket_leg) (ground (arith, same, get-put leg.call.id a.call.id leg l.legs))

  refused_step : redirect_failed (write_leg l (away a)) a.call.id ≡ write_leg l (back a)
  unfolding redirect_failed
  refused_step =
      let stands : get a.call.id (put a.call.id (away a) l.legs) ≡ some (away a) =
        ground (arith, get-put a.call.id a.call.id (away a) l.legs) in
      rw (stands, redirect_failed, put-put)

-- A key press replaces the leg's stream. While the redirect is under way, the end of the old
-- stream is not taken for the end of the call, and once Twilio has refused the redirect it is.
pub dtmf-on_stop :
    (l : TwilioLine) (digits : List ℕ) (a : Leg) (ws : ℕ)
    → IsSound l
    → l.open_ ≡ true
    → valid_digits digits ≡ true
    → active_leg l.legs ≡ some a
    → a.ws ≡ some ws
    → a.call.conference ≡ false
    → get ws l.sockets ≡ some a.call.id
    → let m = (dtmf l digits).0 in
      ((dtmf l digits).1
        ≡ dropped a ++ post_twiml a.call.id (play_digits (map lower_w digits)) ∷ [])
      × (on_stop m ws ≡ (m, []))
      × (get a.call.id (on_stop (redirect_failed m a.call.id) ws).0.calls ≡ none)
unfolding on_stop
dtmf-on_stop l digits a ws v up valid speaks sock alone bound =
    let found = (active_leg_found v a speaks).0 in
    let going = socket_leg-write l a ws found (away a) refl bound in
    let kept = socket_leg-write l a ws found (back a) refl bound in
    let live = (leg_ok v a.call.id a found).not_over in
    rw (dtmf_step l a ws found digits up valid speaks) (
      refl,
      rw (going, on_stop) (ground (arith, sock)),
      rw
          (
            refused_step l a ws found,
            stop_step (write_leg l (back a)) ws (back a) kept sock refl alone live,
          )
          (get-delete_self a.call.id l.calls v.distinct_calls),
    )
