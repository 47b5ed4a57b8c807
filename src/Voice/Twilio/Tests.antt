-- ===== src/Voice/Twilio/Tests.antt =====
-- A Twilio line in use, and the theorems about it at that line.
use otacon.Prelude.{ℕ, ◌≡◌, refl, true, false, none, some, List, [], ◌∷◌, subst}
use otacon.Prelude.JsMap.{get, put, delete}
use otacon.Voice.Line.{Direction, held, active, LineCall}
use otacon.Voice.Twilio.{
  Leg, TwilioLine, active_leg, last_held, as_ended, emit_ended, checked, busy, close_socket,
  post_twiml, play_digits, with_state, emit_state, new_leg, set_state, end_leg,
}
use otacon.Voice.Twilio.Commands.{dialed, hold, swap, dtmf, valid_digits, join_leg, redirect_failed}
use otacon.Voice.Twilio.Webhooks.{
  on_media, on_stop, on_status, on_stream_start, attach, socket_leg, ends_with, end_reason,
}
use otacon.Voice.Twilio.Steps.{Input, handle, new_line, here, next, checks, places, holds, streams}
use otacon.Voice.Twilio.Invariant.{IsSound}
use otacon.Voice.Twilio.Reachable.{handle-IsSound, Reach-IsSound, join_leg_of_gone}
use otacon.Voice.Twilio.Swap.{parked, picked_up}
use otacon.Voice.Twilio.Hooked.{on_status-IsSound}
use otacon.Voice.Twilio.Audio.{heard_once, swap-active_leg}
use otacon.Voice.Twilio.Ends.{on_status_ends_once, dtmf-on_stop}

abbrev after : List Input → TwilioLine → TwilioLine
after [] l = l
after (i ∷ is) l = after is (handle l i).0

abbrev one_call : List Input
one_call = checks true ∷ places 1 5550100 10 ∷ streams 31 7 1 "MZ1" 12 ∷ []

abbrev two_calls : List Input
two_calls = holds 20 ∷ places 2 5550111 21 ∷ streams 32 7 2 "MZ2" 25 ∷ []

-- One call up; then it is on hold and a second one has the audio.
one_line : TwilioLine
one_line = after one_call (new_line 7)

two_lines : TwilioLine
two_lines = after two_calls one_line

one_line-IsSound : IsSound one_line
unfolding one_line
one_line-IsSound =
    Reach-IsSound 7 _ (
      next (streams 31 7 1 "MZ1" 12) (next (places 1 5550100 10) (next (checks true) here tt) tt)
        tt)

two_lines-IsSound : IsSound two_lines
unfolding two_lines
two_lines-IsSound =
    handle-IsSound _ (streams 32 7 2 "MZ2" 25) tt
      (handle-IsSound _ (places 2 5550111 21) tt (handle-IsSound _ (holds 20) tt one_line-IsSound))

abbrev first_call : LineCall
first_call = record {
  id = 1;
  number = some 5550100;
  direction = Direction.outgoing;
  state = held;
  conference = false;
  started_at = 10;
  answered_at = some 12;
}

abbrev second_call : LineCall
second_call = record {
  id = 2;
  number = some 5550111;
  direction = Direction.outgoing;
  state = active;
  conference = false;
  started_at = 21;
  answered_at = some 25;
}

abbrev first_leg : Leg
first_leg = record {
  call = first_call;
  ws = some 31;
  stream_sid = "MZ1";
  held = true;
  hung_up = false;
  redirecting = false;
  marks = [];
  on_stream = [];
}

abbrev second_leg : Leg
second_leg = record {
  call = second_call;
  ws = some 32;
  stream_sid = "MZ2";
  held = false;
  hung_up = false;
  redirecting = false;
  marks = [];
  on_stream = [];
}

abbrev in_use : TwilioLine
in_use = record {
  open_ = true;
  stream_token = 7;
  legs = (1, first_leg) ∷ (2, second_leg) ∷ [];
  calls = (1, first_call) ∷ (2, second_call) ∷ [];
  gone = [];
  listen_legs = [];
  sockets = (31, 1) ∷ (32, 2) ∷ [];
  next_mark = 0;
}

two_lines_lem : two_lines ≡ in_use
unfolding two_lines one_line handle new_line checked dialed new_leg on_stream_start attach set_state
    hold active_leg get put
two_lines_lem = refl

in_use-IsSound : IsSound in_use
in_use-IsSound = subst IsSound two_lines_lem two_lines-IsSound

-- The second call has ended, and the first is on hold.
abbrev waiting : TwilioLine
waiting = record in_use {
  legs = (1, first_leg) ∷ [];
  calls = (1, first_call) ∷ [];
  gone = (2, as_ended second_call) ∷ [];
}

ends_second : (on_status in_use 2 "completed" 40).0 ≡ waiting
unfolding on_status ends_with end_leg get put delete
ends_second = refl

waiting-IsSound : IsSound waiting
waiting-IsSound =
    subst IsSound ends_second (on_status-IsSound in_use in_use-IsSound 2 "completed" 40)

Reach-IsSound_example : IsSound one_line
unfolding one_line
Reach-IsSound_example =
    Reach-IsSound 7 _ (
      next (streams 31 7 1 "MZ1" 12) (next (places 1 5550100 10) (next (checks true) here tt) tt)
        tt)

join_leg_of_gone_example :
    let back : LineCall = record (as_ended second_call) { conference = true; state = active } in
    (get 2 (join_leg waiting 2).0.calls ≡ some back)
    × ((join_leg waiting 2).1 ≡ emit_state back ∷ [])
    × (get 2 (join_leg waiting 2).0.legs ≡ none)
    × ¬ IsSound (join_leg waiting 2).0
unfolding get
join_leg_of_gone_example =
    join_leg_of_gone waiting 2 (as_ended second_call) waiting-IsSound refl refl

swap-active_leg_example :
    (active_leg (swap in_use 50).0.legs ≡ some (picked_up first_leg 50))
    × (get 2 (swap in_use 50).0.legs ≡ some (parked second_leg 50))
    × ((swap in_use 50).1
        ≡ emit_state (with_state second_call held 50)
          ∷ emit_state (with_state first_call active 50)
          ∷ [])
unfolding active_leg last_held
swap-active_leg_example =
    swap-active_leg in_use second_leg first_leg 50 in_use-IsSound refl refl refl

heard_once_example :
    (a : Leg) × (active_leg in_use.legs ≡ some a)
    × (a.ws ≡ some 32)
    × (◌≡◌ {A = ℕ} 32 32)
    × (a.call.id ≡ 2)
    × (◌≡◌ {A = ℕ} 2 2)
    × (◌≡◌ {A = List ℕ} (1 ∷ []) (1 ∷ []))
    × (◌≡◌ {A = List ℕ} (5 ∷ []) (5 ∷ []))
    × (false ≡ false)
    × (false ≡ false)
unfolding on_media socket_leg active_leg get
heard_once_example =
    heard_once in_use 32 32 false false (1 ∷ []) (5 ∷ []) (1 ∷ []) (5 ∷ []) 2 2 in_use-IsSound refl
      refl

on_status_ends_once_example :
    ((on_status in_use 2 "busy" 40).1
      ≡ close_socket 32 ∷ emit_ended (as_ended second_call) busy ∷ [])
    × (get 2 (on_status in_use 2 "busy" 40).0.calls ≡ none)
    × (on_status (on_status in_use 2 "busy" 40).0 2 "in-progress" 41
        ≡ ((on_status in_use 2 "busy" 40).0, []))
unfolding ends_with end_reason get
on_status_ends_once_example =
    on_status_ends_once in_use 2 second_leg "busy" "in-progress" busy 40 41 in_use-IsSound refl refl
      refl

dtmf-on_stop_example :
    ((dtmf in_use (b'1' ∷ b'#' ∷ [])).1 ≡ post_twiml 2 (play_digits (b'1' ∷ b'#' ∷ [])) ∷ [])
    × (on_stop (dtmf in_use (b'1' ∷ b'#' ∷ [])).0 32 ≡ ((dtmf in_use (b'1' ∷ b'#' ∷ [])).0, []))
    × (get 2 (on_stop (redirect_failed (dtmf in_use (b'1' ∷ b'#' ∷ [])).0 2) 32).0.calls ≡ none)
unfolding valid_digits active_leg get
dtmf-on_stop_example =
    dtmf-on_stop in_use (b'1' ∷ b'#' ∷ []) second_leg 32 in_use-IsSound refl refl refl refl refl
      refl
