-- ===== src/Voice/Twilio/Preserved.antt =====
-- The soundness of a Twilio line, handler by handler.
use otacon.Prelude.{
  ℕ, ◌≡◌, refl, true, false, some, List, [], ◌∷◌, ◌++◌, arith, Bool-cases, Option-cases, sym, ◌∙◌,
  inl, inr,
}
use otacon.Prelude.JsMap.{get, put-put}
use otacon.Voice.Line.{CallState, held, active, LineCall, same_state, is_ended, same_state-eq}
use otacon.Voice.Twilio.{
  Leg, TwilioLine, Reason, active_leg, last_held, set_state, end_leg, write_leg, new_leg, Twiml,
  with_state,
}
use otacon.Voice.Twilio.Commands.{answer, hangup, redirect, redirect_failed, dtmf, hold, resume}
use otacon.Voice.Twilio.Invariant.{
  LegOk, IsSound, put_both, put_leg, delete_both, leg_ok, leg_shown, active_leg_found,
  last_held_found,
}

module _ (l : TwilioLine) (v : IsSound l) where
  pub new_leg-IsSound :
      (c : LineCall)
      → is_ended c.state ≡ false
      → same_state c.state held ≡ false
      → IsSound (new_leg l c)
  unfolding new_leg
  new_leg-IsSound c e h =
      put_both v c.id _
        (record { keyed = refl; not_over = e; held_flag = λ p. cc; not_active = λ p. cc })

  pub set_state-IsSound :
      (leg : Leg) (state : CallState) (now : ℕ)
      → is_ended state ≡ false
      → (same_state state held ≡ true → leg.held ≡ true)
      → (leg.held ≡ true → same_state state active ≡ false)
      → IsSound (set_state l leg state now).0
  unfolding set_state
  set_state-IsSound leg state now e h n = elim (Bool-cases (same_state leg.call.state state)) [
    | inl same ↦ rw (same, set_state) v
    | inr other ↦ elim (Bool-cases (is_ended leg.call.state)) [
      | inl over ↦ rw (other, over, set_state) v
      | inr up ↦
          rw (other, up, set_state)
            (put_both v leg.call.id _
              (record { keyed = refl; not_over = e; held_flag = h; not_active = n }))
    ]
  ]

  pub end_leg-IsSound : (leg : Leg) (r : Reason) → IsSound (end_leg l leg r).0
  unfolding end_leg
  end_leg-IsSound leg r = elim (Bool-cases (is_ended leg.call.state)) [
    | inl over ↦ rw (over, end_leg) v
    | inr up ↦ rw (up, end_leg) (delete_both v leg.call.id)
  ]

  -- A leg of the map written back with its call as it was.
  pub write-IsSound :
      (id : ℕ) (leg leg' : Leg)
      → get id l.legs ≡ some leg
      → leg'.call ≡ leg.call
      → leg'.held ≡ leg.held
      → IsSound (write_leg l leg')
  write-IsSound id leg leg' e c h =
      let ok = leg_ok v id leg e in
      put_leg v leg'.call.id leg'
        (record {
          keyed = refl;
          not_over = ground (arith, ok.not_over, c);
          held_flag = λ p. h ∙ ok.held_flag (ground (arith, c));
          not_active = λ p. ground (arith, c, ok.not_active (sym h ∙ p));
        })
        (ground (arith, c, ok.keyed, leg_shown v id leg e))

  pub redirect-IsSound : (id : ℕ) (t : Twiml) → IsSound (redirect l id t).0
  unfolding redirect
  redirect-IsSound id t = elim (Option-cases (get id l.legs)) [
    | inl e ↦ rw (e, redirect) v
    | inr (leg, e) ↦ rw (e, redirect) (write-IsSound id leg _ e refl refl)
  ]

  pub redirect_failed-IsSound : (id : ℕ) → IsSound (redirect_failed l id)
  unfolding redirect_failed
  redirect_failed-IsSound id = elim (Option-cases (get id l.legs)) [
    | inl e ↦ rw (e, redirect_failed) v
    | inr (leg, e) ↦ rw (e, redirect_failed) (write-IsSound id leg _ e refl refl)
  ]

  pub answer-IsSound : (id waiter : ℕ) → IsSound (answer l id waiter).0
  unfolding answer
  answer-IsSound id waiter = elim (Option-cases (get id l.legs)) [
    | inl e ↦ ground (arith, v, e)
    | inr (leg, e) ↦ ground (
      arith,
      v,
      e,
      write-IsSound id leg (record leg { on_stream = leg.on_stream ++ waiter ∷ [] }) e refl refl,
    )
  ]

  pub hangup-IsSound : (id : ℕ) → IsSound (hangup l id).0
  unfolding hangup
  hangup-IsSound id = elim (Option-cases (get id l.legs)) [
    | inl e ↦ ground (arith, v, e)
    | inr (leg, e) ↦
        ground (arith, v, e, write-IsSound id leg (record leg { hung_up = true }) e refl refl)
  ]

  pub dtmf-IsSound : (digits : List ℕ) → IsSound (dtmf l digits).0
  unfolding dtmf redirect
  dtmf-IsSound digits = elim (Option-cases (active_leg l.legs)) [
    | inl e ↦ ground (arith, v, e)
    | inr (leg, e) ↦
        let found = (active_leg_found v leg e).0 in
        ground (
          arith,
          v,
          e,
          found,
          write-IsSound leg.call.id leg (record leg { redirecting = true; marks = [] }) found refl
              refl,
        )
  ]

  -- A leg of the map with a new hold, and then the state that fits it.
  pub restate-IsSound :
      (leg leg' : Leg) (state : CallState) (now : ℕ)
      → get leg.call.id l.legs ≡ some leg
      → leg'.call ≡ leg.call
      → is_ended state ≡ false
      → (same_state state held ≡ true → leg'.held ≡ true)
      → (leg'.held ≡ true → same_state state active ≡ false)
      → IsSound (set_state (write_leg l leg') leg' state now).0
  unfolding set_state
  restate-IsSound leg leg' state now found c e h n =
      elim (Bool-cases (same_state leg'.call.state state)) [
        | inl same ↦
            let eq = same_state-eq leg'.call.state state same in
            rw (same, set_state)
              (put_leg v leg'.call.id leg'
                (record {
                  keyed = refl;
                  not_over = ground (arith, c, ok.not_over);
                  held_flag = λ p. h (ground (arith, eq, p));
                  not_active = λ p. ground (arith, eq, n p);
                })
                shown)
        | inr other ↦
            rw (other, not_over, set_state, put-put)
              (put_both v leg'.call.id (record leg' { call = with_state leg'.call state now })
                (record { keyed = refl; not_over = e; held_flag = h; not_active = n }))
      ]
    where
      ok : LegOk leg.call.id leg
      ok = leg_ok v leg.call.id leg found

      not_over : is_ended leg'.call.state ≡ false
      not_over = ground (arith, c, ok.not_over)

      shown : get leg'.call.id l.calls ≡ some leg'.call
      shown = ground (arith, c, leg_shown v leg.call.id leg found)

  pub hold-IsSound : (now : ℕ) → IsSound (hold l now).0
  unfolding hold
  hold-IsSound now = elim (Option-cases (active_leg l.legs)) [
    | inl e ↦ ground (arith, v, e)
    | inr (leg, e) ↦
        let leg' : Leg = record leg { held = true; marks = [] } in
        ground (
          arith,
          v,
          e,
          restate-IsSound leg leg' held now (active_leg_found v leg e).0 refl refl (λ _. refl)
              (λ _. refl),
        )
  ]

  pub resume-IsSound : (now : ℕ) → IsSound (resume l now).0
  unfolding resume
  resume-IsSound now = elim (Option-cases (last_held l.legs)) [
    | inl e ↦ ground (arith, v, e)
    | inr (leg, e) ↦
        let leg' : Leg = record leg { held = false } in
        ground (
          arith,
          v,
          e,
          restate-IsSound leg leg' active now (last_held_found v leg e).0 refl refl (λ p. cc)
              (λ p. cc),
        )
  ]
