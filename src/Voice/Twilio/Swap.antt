-- ===== src/Voice/Twilio/Swap.antt =====
-- Swapping the active and a held call.
use mathlib.Core.List.{append_assoc}
use otacon.Prelude.{
  ℕ, ◌≡◌, refl, true, false, none, some, List, [], ◌∷◌, ◌++◌, arith, Bool-cases, Option-cases, sym,
  ◌∙◌, inl, inr, ◌==◌, keep, subst, if◌then◌else◌, last?-append, keep-append,
}
use otacon.Prelude.JsMap.{
  get, put, delete, move_to_end, put_new, get-put, get-delete, Distinct, Each, values,
  values-append, put-Distinct,
}
use otacon.Voice.Line.{CallState, held, active, same_state, is_ended}
use otacon.Voice.Twilio.{
  Leg, TwilioLine, emit_state, active_leg, last_held, audible, set_state, with_state, dropped,
}
use otacon.Voice.Twilio.Commands.{when_open_up, swap, done}
use otacon.Voice.Twilio.Invariant.{
  LegOk, Inv, IsSound, leg_ok, put_both, delete_both, active_leg_found, last_held_found,
}

abbrev pub parked : Leg → ℕ → Leg
parked a now = record a { held = true; marks = []; call = with_state a.call held now }

abbrev pub picked_up : Leg → ℕ → Leg
picked_up h now = record h { held = false; call = with_state h.call active now }

-- `set_state` where it changes the state.
pub set_state_step :
    (l : TwilioLine) (leg : Leg) (state : CallState) (now : ℕ)
    → same_state leg.call.state state ≡ false
    → is_ended leg.call.state ≡ false
    → set_state l leg state now ≡ (
      record l {
        legs = put leg.call.id (record leg { call = with_state leg.call state now }) l.legs;
        calls = put leg.call.id (with_state leg.call state now) l.calls;
      },
      emit_state (with_state leg.call state now) ∷ [],
    )
unfolding set_state
set_state_step l leg state now e f = rw (e, f, set_state)

module _ (l : TwilioLine) (v : IsSound l) (a h : Leg) (now : ℕ)
    (speaks : active_leg l.legs ≡ some a) (waits : last_held l.legs ≡ some h) where
  a_found : get a.call.id l.legs ≡ some a
  a_found = (active_leg_found v a speaks).0

  h_found : get h.call.id l.legs ≡ some h
  h_found = (last_held_found v h waits).0

  a_open : a.held ≡ false
  a_open = let p = (active_leg_found v a speaks).1 in ground (arith, p)

  h_held : h.held ≡ true
  h_held = (last_held_found v h waits).1

  apart : (h.call.id == a.call.id) ≡ false
  apart = ground (arith, a_found, h_found, a_open, h_held)

  abbrev pub others : List (ℕ × Leg)
  others = put a.call.id (parked a now) (delete h.call.id l.legs)

  -- The line afterwards: the leg taken off hold is the newest.
  abbrev pub swapped : TwilioLine
  swapped = record l {
    legs = others ++ (h.call.id, picked_up h now) ∷ [];
    calls =
        put h.call.id (with_state h.call active now)
          (put a.call.id (with_state a.call held now) l.calls);
  }

  a_ok : LegOk a.call.id a
  a_ok = leg_ok v a.call.id a a_found

  h_ok : LegOk h.call.id h
  h_ok = leg_ok v h.call.id h h_found

  -- What `swap` does: the two legs change places, and the rest stays.
  pub swap_lem :
      l.open_ ≡ true
      → swap l now ≡ (
        swapped,
        dropped a
            ++ (emit_state (with_state a.call held now)
                ∷ emit_state (with_state h.call active now)
                ∷ []),
        done,
      )
  unfolding swap
  swap_lem up =
      when_open_up l _ up
      ∙ rw (
        speaks,
        waits,
        swap,
        set_state_step _ (record a { held = true; marks = [] }) held now a_not_held a_ok.not_over,
        set_state_step _ (record h { held = false }) active now (h_ok.not_active h_held)
            h_ok.not_over,
        move_to_end h.call.id a.call.id (record a { held = true; marks = [] })
            (record h { held = false }) (parked a now) (picked_up h now) l.legs v.distinct_legs
            apart (ground (arith, a_found)),
        append_assoc,
      )
    where
      a_not_held : same_state a.call.state held ≡ false
      a_not_held = elim (Bool-cases (same_state a.call.state held)) [
        | inl e ↦ ground (arith, a_ok.held_flag e, a_open)
        | inr e ↦ e
      ]

  get-h-others : get h.call.id others ≡ none
  get-h-others = ground (
    arith,
    get-put a.call.id h.call.id (parked a now) (delete h.call.id l.legs),
    get-delete h.call.id h.call.id l.legs v.distinct_legs,
    apart,
  )

  as_put : others ++ (h.call.id, picked_up h now) ∷ [] ≡ put h.call.id (picked_up h now) others
  as_put = sym (put_new h.call.id (picked_up h now) others get-h-others)

  get-swapped :
      (id : ℕ)
      → get id swapped.legs ≡ (
          if h.call.id == id
          then some (picked_up h now)
          else if a.call.id == id
          then some (parked a now)
          else get id l.legs)
  get-swapped id = rw as_put (
      ground (
        arith,
        get-put h.call.id id (picked_up h now) others,
        get-put a.call.id id (parked a now) (delete h.call.id l.legs),
        get-delete h.call.id id l.legs v.distinct_legs,
      ))

  -- After the swap the leg that was on hold has the audio, and the one that had it is on hold.
  pub swapped_audio :
      (active_leg swapped.legs ≡ some (picked_up h now))
      × (get a.call.id swapped.legs ≡ some (parked a now))
      × (get h.call.id swapped.legs ≡ some (picked_up h now))
  unfolding active_leg
  swapped_audio =
      (newest, ground (arith, get-swapped a.call.id, apart), ground (arith, get-swapped h.call.id))
    where
      newest : active_leg swapped.legs ≡ some (picked_up h now)
      newest =
          rw
            (
              values-append others ((h.call.id, picked_up h now) ∷ []),
              keep-append audible (values others) (picked_up h now ∷ []),
            )
            (last?-append (keep audible (values others)) (picked_up h now))

  pub swapped-IsSound : IsSound swapped
  swapped-IsSound = record {
    distinct_legs = subst Distinct (sym as_put) kept.distinct_legs;
    distinct_calls =
        put-Distinct h.call.id _ (put a.call.id _ l.calls)
          (put-Distinct a.call.id _ l.calls v.distinct_calls);
    legs_ok = subst (Each LegOk) (sym as_put) kept.legs_ok;
    mirrored = λ id. ground (
      arith,
      get-swapped id,
      get-put h.call.id id (with_state h.call active now)
          (put a.call.id (with_state a.call held now) l.calls),
      get-put a.call.id id (with_state a.call held now) l.calls,
      v.mirrored id,
    );
  }
    where
      kept : Inv (put h.call.id (picked_up h now) others) (
          put h.call.id
            (with_state h.call active now)
            (put a.call.id (with_state a.call held now) (delete h.call.id l.calls)))
      kept =
          put_both
            (put_both (delete_both v h.call.id) a.call.id (parked a now) (record {
              keyed = refl;
              not_over = refl;
              held_flag = λ _. refl;
              not_active = λ _. refl;
            }))
            h.call.id (picked_up h now)
            (record { keyed = refl; not_over = refl; held_flag = λ p. cc; not_active = λ p. cc })

pub swap-IsSound : (l : TwilioLine) (now : ℕ) → IsSound l → IsSound (swap l now).0
unfolding swap
swap-IsSound l now v = elim (Option-cases (active_leg l.legs)) [
  | inl e ↦ ground (arith, v, e)
  | inr (a, e) ↦ elim (Option-cases (last_held l.legs)) [
    | inl f ↦ ground (arith, v, e, f)
    | inr (h, f) ↦ elim (Bool-cases l.open_) [
      | inr shut ↦ ground (arith, v, shut)
      | inl up ↦
          subst (λ r. IsSound r.0) (sym (swap_lem l v a h now e f up))
            (swapped-IsSound l v a h now e f)
    ]
  ]
]
