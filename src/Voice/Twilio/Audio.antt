-- ===== src/Voice/Twilio/Audio.antt =====
-- Which call is heard, and how commands move the audio.
use otacon.Prelude.{
  ℕ, ◌≡◌, ◌≢◌, refl, Bool, true, false, none, some, List, [], ◌∷◌, ◌++◌, arith, Option-cases, ◌∙◌,
  inl, inr, last?-eq-none,
}
use otacon.Prelude.JsMap.{get, put, put-put, keep-put_only}
use otacon.Voice.Line.{held, active}
use otacon.Voice.Twilio.{
  Leg, TwilioLine, emit_state, emit_audio, active_leg, last_held, audible, with_state, dropped,
}
use otacon.Voice.Twilio.Commands.{swap, done, when_open_up, resume}
use otacon.Voice.Twilio.Webhooks.{on_media, socket_leg}
use otacon.Voice.Twilio.Invariant.{IsSound, leg_ok, active_leg_found, last_held_found}
use otacon.Voice.Twilio.Swap.{parked, picked_up, set_state_step, swapped_audio, swap_lem}

-- Where media is heard, its leg is the active one, and the socket is the leg's own.
heard_from :
    (l : TwilioLine) (ws : ℕ) (outbound : Bool) (payload : List ℕ) (id : ℕ) (audio : List ℕ)
    → IsSound l
    → (on_media l ws outbound payload).1 ≡ emit_audio id audio ∷ []
    → (a : Leg) × (active_leg l.legs ≡ some a)
      × (a.call.id ≡ id)
      × (a.ws ≡ some ws)
      × (outbound ≡ false)
      × (audio ≡ payload)
unfolding on_media socket_leg
heard_from l ws outbound payload id audio v e = elim (Option-cases (get ws l.sockets)) [
  | inl f ↦ absurd (ground (arith, e, f))
  | inr (k, f) ↦ elim (Option-cases (get k l.legs)) [
    | inl g ↦ absurd (ground (arith, e, f, g))
    | inr (leg, g) ↦ elim (Option-cases (active_leg l.legs)) [
      | inl n ↦ absurd (ground (arith, e, f, g, n))
      | inr (a, n) ↦
          let keyed = (leg_ok v k leg g).keyed in
          let found = (active_leg_found v a n).0 in
          (
            a,
            n,
            ground (arith, e, f, g, n),
            ground (arith, e, f, g, n, keyed, found),
            ground (arith, e, f, g, n),
            ground (arith, e, f, g, n),
          )
    ]
  ]
]

-- Twilio's audio is passed on for one call at a time: of any two media messages on a sound line
-- that are both heard, both come from the active leg, on the one socket that this leg has, each is
-- passed on as it came, for the active leg's call, and neither is Twilio's copy of our own audio.
pub heard_once :
    (l : TwilioLine) (ws ws' : ℕ) (outbound outbound' : Bool)
    (payload payload' audio audio' : List ℕ) (id id' : ℕ)
    → IsSound l
    → (on_media l ws outbound payload).1 ≡ emit_audio id audio ∷ []
    → (on_media l ws' outbound' payload').1 ≡ emit_audio id' audio' ∷ []
    → (a : Leg) × (active_leg l.legs ≡ some a)
      × (a.ws ≡ some ws)
      × (ws' ≡ ws)
      × (a.call.id ≡ id)
      × (id' ≡ id)
      × (audio ≡ payload)
      × (audio' ≡ payload')
      × (outbound ≡ false)
      × (outbound' ≡ false)
heard_once l ws ws' outbound outbound' payload payload' audio audio' id id' v e e' =
    let (a, n, i, w, o, p) = heard_from l ws outbound payload id audio v e in
    let (a', n', i', w', o', p') = heard_from l ws' outbound' payload' id' audio' v e' in
    (a, n, w, ground (arith, n, n', w, w'), i, ground (arith, n, n', i, i'), p, p', o, o')

-- A leg on hold is not heard: no media message of any socket is passed on as its audio.
pub held_unheard :
    (l : TwilioLine) (leg : Leg) (ws : ℕ) (outbound : Bool) (payload audio : List ℕ)
    → IsSound l
    → get leg.call.id l.legs ≡ some leg
    → leg.held ≡ true
    → (on_media l ws outbound payload).1 ≢ emit_audio leg.call.id audio ∷ []
held_unheard l leg ws outbound payload audio v found waits e =
    let (a, n, i, _, _, _) = heard_from l ws outbound payload leg.call.id audio v e in
    let (stands, free) = active_leg_found v a n in ground (arith, stands, free, i, found, waits)

module _ (l : TwilioLine) (h : Leg) (now : ℕ) (v : IsSound l) (up : l.open_ ≡ true)
    (waits : last_held l.legs ≡ some h) where
  resume_step :
      active_leg l.legs ≡ none
      → resume l now ≡ (
        record l {
          legs = put h.call.id (picked_up h now) l.legs;
          calls = put h.call.id (with_state h.call active now) l.calls;
        },
        emit_state (with_state h.call active now) ∷ [],
        done,
      )
  unfolding resume
  resume_step n =
      let (found, on_hold) = last_held_found v h waits in
      let ok = leg_ok v h.call.id h found in
      when_open_up l _ up
      ∙ rw (
        waits,
        n,
        resume,
        set_state_step _ (record h { held = false }) active now (ok.not_active on_hold) ok.not_over,
        put-put,
      )

  resume_audio :
      active_leg l.legs ≡ none
      → active_leg (put h.call.id (picked_up h now) l.legs) ≡ some (picked_up h now)
  unfolding active_leg
  resume_audio n =
      rw (keep-put_only audible h.call.id (picked_up h now) l.legs (last?-eq-none _ n) refl)

-- With no call active, `resume` gives the audio to the newest leg on hold: it is reported active,
-- it is the one leg that is heard from now on, and no other leg changes.
pub resume-active_leg :
    (l : TwilioLine) (h : Leg) (now : ℕ)
    → IsSound l
    → l.open_ ≡ true
    → last_held l.legs ≡ some h
    → active_leg l.legs ≡ none
    → (active_leg (resume l now).0.legs ≡ some (picked_up h now))
      × ((resume l now).0.legs ≡ put h.call.id (picked_up h now) l.legs)
      × ((resume l now).1 ≡ emit_state (with_state h.call active now) ∷ [])
resume-active_leg l h now v up waits n =
    rw (resume_step l h now v up waits n) (resume_audio l h now v up waits n, refl, refl)

-- `swap` gives the audio to the newest leg on hold and puts the active one on hold, with its queued
-- marks cleared: both are reported, in that order, and a second lookup of the active leg finds the
-- one that was on hold.
pub swap-active_leg :
    (l : TwilioLine) (a h : Leg) (now : ℕ)
    → IsSound l
    → l.open_ ≡ true
    → active_leg l.legs ≡ some a
    → last_held l.legs ≡ some h
    → (active_leg (swap l now).0.legs ≡ some (picked_up h now))
      × (get a.call.id (swap l now).0.legs ≡ some (parked a now))
      × ((swap l now).1
          ≡ dropped a
            ++ (emit_state (with_state a.call held now)
                ∷ emit_state (with_state h.call active now)
                ∷ []))
swap-active_leg l a h now v up speaks waits =
    let (newest, parks, _) = swapped_audio l v a h now speaks waits in
    rw (swap_lem l v a h now speaks waits up) (newest, parks, refl)
