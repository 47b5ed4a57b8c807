-- ===== src/Voice/Twilio/Reachable.antt =====
-- The invariant of a Twilio line over every run, and the one step that breaks it.
use otacon.Prelude.{ℕ, ◌≡◌, [], ◌∷◌, refl, true, false, none, some, arith}
use otacon.Prelude.JsMap.{get, get-put}
use otacon.Voice.Line.{LineCall, active}
use otacon.Voice.Twilio.{TwilioLine, checked, stop, listener_ended, emit_state}
use otacon.Voice.Twilio.Commands.{dial, dialed, join_leg, joined, dialed_call}
use otacon.Voice.Twilio.Webhooks.{send_audio}
use otacon.Voice.Twilio.Listeners.{
  listen, listening, listener_on_end, listener_hang_up, listener_hung_up, listener_closed,
}
use otacon.Voice.Twilio.Steps.{
  Input, handle, Timely, new_line, Reach, here, next, checks, stops, dials, places, answers,
  hangs_up, refuses_redirect, presses, holds, resumes, swaps, merges, joins, reports, calls_in,
  streams, hears, reaches, stream_stops, socket_closes, speaks, marks, clears, listens, listens_at,
  watches_listener, drops_listener, dropped_listener, listener_closes,
}
use otacon.Voice.Twilio.Invariant.{IsSound}
use otacon.Voice.Twilio.Preserved.{
  new_leg-IsSound, answer-IsSound, hangup-IsSound, redirect_failed-IsSound, dtmf-IsSound,
  hold-IsSound, resume-IsSound,
}
use otacon.Voice.Twilio.Swap.{swap-IsSound}
use otacon.Voice.Twilio.Hooked.{
  merge-IsSound, merge_joined-IsSound, on_status-IsSound, on_incoming-IsSound,
  on_stream_start-IsSound, on_media-IsSound, on_mark-IsSound, on_stop-IsSound, on_close-IsSound,
  mark-IsSound, clear-IsSound,
}

-- Every handler keeps the line sound, but for a merge's loop that goes on with a leg that is gone.
pub handle-IsSound : (l : TwilioLine) (i : Input) → Timely l i → IsSound l → IsSound (handle l i).0
unfolding handle checked stop dial dialed send_audio listen listening listener_on_end
    listener_hang_up listener_hung_up listener_closed listener_ended
handle-IsSound l (checks true) t v = v
handle-IsSound l (checks false) t v = v
handle-IsSound l stops t v = v
handle-IsSound l (dials to) t v = ground (arith, v)
handle-IsSound l (places sid to now) t v = new_leg-IsSound l v (dialed_call sid to now) refl refl
handle-IsSound l (answers id waiter) t v = answer-IsSound l v id waiter
handle-IsSound l (hangs_up id) t v = hangup-IsSound l v id
handle-IsSound l (refuses_redirect id) t v = redirect_failed-IsSound l v id
handle-IsSound l (presses digits) t v = dtmf-IsSound l v digits
handle-IsSound l (holds now) t v = hold-IsSound l v now
handle-IsSound l (resumes now) t v = resume-IsSound l v now
handle-IsSound l (swaps now) t v = swap-IsSound l now v
handle-IsSound l merges t v = merge-IsSound l v
handle-IsSound l (joins id rest) t v = merge_joined-IsSound l v id rest t
handle-IsSound l (reports sid status now) t v = on_status-IsSound l v sid status now
handle-IsSound l (calls_in sid from screened now) t v =
    on_incoming-IsSound l v sid from screened now
handle-IsSound l (streams ws token sid stream_sid now) t v =
    on_stream_start-IsSound l v ws token sid stream_sid now
handle-IsSound l (hears ws outbound payload) t v = on_media-IsSound l v ws outbound payload
handle-IsSound l (reaches ws name) t v = on_mark-IsSound l v ws name
handle-IsSound l (stream_stops ws) t v = on_stop-IsSound l v ws
handle-IsSound l (socket_closes ws) t v = on_close-IsSound l v ws
handle-IsSound l (speaks encode pcm) t v = ground (arith, v)
handle-IsSound l marks t v = mark-IsSound l v
handle-IsSound l clears t v = clear-IsSound l v
handle-IsSound l (listens to) t v = ground (arith, v)
handle-IsSound l (listens_at sid) t v = v
handle-IsSound l (watches_listener sid f) t v = ground (arith, v)
handle-IsSound l (drops_listener sid) t v = ground (arith, v)
handle-IsSound l (dropped_listener sid) t v = ground (arith, v)
handle-IsSound l (listener_closes sid) t v = ground (arith, v)

-- Whatever commands, webhooks and stream messages a new Twilio line goes through, in whatever
-- order, each leg stands under its call's id and has not ended, a leg whose call is reported as
-- held is one that the line keeps on hold and no leg on hold is reported as active, and `calls`
-- holds exactly the calls of the legs; provided that a merge goes on only with legs still up.
pub Reach-IsSound : (token : ℕ) (l : TwilioLine) → Reach (new_line token) l → IsSound l
unfolding new_line get
Reach-IsSound token _ here = record {
  distinct_legs = tt;
  distinct_calls = tt;
  legs_ok = tt;
  mirrored = λ id. refl;
}
Reach-IsSound token _ (next {m} i r t) = handle-IsSound m i t (Reach-IsSound token m r)

-- If, on a sound line, a leg has ended while its redirect into the conference was under way, the merge
-- puts its call back into `calls`, as active and in the conference, and reports it so, though the line
-- still has no such leg: the line is then not sound.
pub join_leg_of_gone :
    (l : TwilioLine) (id : ℕ) (call : LineCall)
    → IsSound l
    → get id l.legs ≡ none
    → get id l.gone ≡ some call
    → let back : LineCall = record call { conference = true; state = active } in
      (get id (join_leg l id).0.calls ≡ some back)
      × ((join_leg l id).1 ≡ emit_state back ∷ [])
      × (get id (join_leg l id).0.legs ≡ none)
      × ¬ IsSound (join_leg l id).0
unfolding join_leg
join_leg_of_gone l id call v missing over =
    let shows = get-put id id (joined call) l.calls in
    rw (missing, over, join_leg)
      (ground (arith, shows), refl, missing, λ v'. ground (arith, v'.mirrored id, missing, shows))
