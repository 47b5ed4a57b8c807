-- ===== src/Voice/Twilio/Hooked.antt =====
-- The soundness of a Twilio line over webhooks, stream messages and the rest of a merge.
use otacon.Prelude.{
  ℕ, ◌≡◌, ◌≢◌, refl, Bool, false, Option, none, some, List, [], ◌∷◌, ◌++◌, arith, Bool-cases,
  Option-cases, inl, inr, keep, String, not, ◌&&◌, ◌⊎◌, ◌+◌,
}
use otacon.Prelude.JsMap.{get, put, values}
use otacon.Voice.Line.{CallState, held, active, same_state, is_ended}
use otacon.Voice.Twilio.{
  Leg, TwilioLine, conference_room, remote, active_leg, listener_ended, is_live,
}
use otacon.Voice.Twilio.Commands.{merge, merge_joined, join_leg, redirect_all_from, ids}
use otacon.Voice.Twilio.Webhooks.{
  on_status, on_incoming, on_stream_start, on_media, on_mark, on_stop, on_close, mark, clear,
  attach, status_state, report_state, ends_with, socket_leg, remove_mark, is_active, incoming_call,
}
use otacon.Voice.Twilio.Invariant.{IsSound, put_both, leg_ok, active_leg_found}
use otacon.Voice.Twilio.Preserved.{
  new_leg-IsSound, set_state-IsSound, end_leg-IsSound, write-IsSound, redirect-IsSound,
  restate-IsSound,
}

redirect_all_from-IsSound :
    (l : TwilioLine) → IsSound l → (ids : List ℕ) → IsSound (redirect_all_from l ids).0
redirect_all_from-IsSound l v [] = v
redirect_all_from-IsSound l v (id ∷ rest) = redirect-IsSound l v id conference_room

status_state_kind :
    (status : String) (state : CallState)
    → status_state status ≡ some state
    → (is_ended state ≡ false) × (same_state state held ≡ false)
unfolding status_state
status_state_kind status state e = ground arith

module _ (l : TwilioLine) (v : IsSound l) where
  pub merge-IsSound : IsSound (merge l).0
  unfolding merge
  merge-IsSound =
      ground (arith, v, redirect_all_from-IsSound l v (ids (keep is_live (values l.legs))))

  pub join_leg-IsSound : (id : ℕ) → get id l.legs ≢ none → IsSound (join_leg l id).0
  unfolding join_leg
  join_leg-IsSound id up = elim (Option-cases (get id l.legs)) [
    | inl e ↦ absurd (up e)
    | inr (leg, e) ↦
        rw (e, join_leg)
          (put_both v id _ (record {
            keyed = (leg_ok v id leg e).keyed;
            not_over = refl;
            held_flag = λ p. cc;
            not_active = λ p. cc;
          }))
  ]

  pub merge_joined-IsSound :
      (id : ℕ) (rest : List ℕ) → get id l.legs ≢ none → IsSound (merge_joined l id rest).0
  unfolding merge_joined
  merge_joined-IsSound id rest up =
      redirect_all_from-IsSound (join_leg l id).0 (join_leg-IsSound id up) rest

  report_state-IsSound :
      (leg : Leg) (status : String) (now : ℕ)
      → IsSound (report_state l leg (status_state status) now).0
  unfolding report_state
  report_state-IsSound leg status now = elim (Option-cases (status_state status)) [
    | inl e ↦ rw (e, report_state) v
    | inr (state, e) ↦ elim (Bool-cases (same_state state active && leg.held)) [
      | inl waits ↦ rw (e, report_state, waits) v
      | inr free ↦
          let kind = status_state_kind status state e in
          rw (e, report_state, free)
            (set_state-IsSound l v leg state now kind.0 (λ p. cc (kind.1))
              (λ p. ground (arith, free, p)))
    ]
  ]

  pub on_status-IsSound :
      (sid : ℕ) (status : String) (now : ℕ) → IsSound (on_status l sid status now).0
  unfolding on_status listener_ended
  on_status-IsSound sid status now = elim (Option-cases (get sid l.legs)) [
    | inl e ↦ ground (arith, v, e)
    | inr (leg, e) ↦ elim (Option-cases (ends_with status)) [
      | inl f ↦ ground (arith, v, e, f, report_state-IsSound leg status now)
      | inr (r, f) ↦ ground (arith, v, e, f, end_leg-IsSound l v leg r)
    ]
  ]

  pub on_incoming-IsSound :
      (sid from : Option ℕ) (screened : Bool) (now : ℕ)
      → IsSound (on_incoming l sid from screened now).0
  unfolding on_incoming
  on_incoming-IsSound none from screened now = v
  on_incoming-IsSound (some sid) from screened now =
      ground (arith, v, new_leg-IsSound l v (incoming_call sid from now) refl refl)

  attach-IsSound :
      (sid : ℕ) (leg : Leg) (ws : ℕ) (stream_sid : String) (now : ℕ)
      → get sid l.legs ≡ some leg
      → IsSound (attach l leg ws stream_sid now).0
  unfolding attach
  attach-IsSound sid leg ws stream_sid now e =
      elim (Bool-cases (not leg.held && not (is_active leg.call.state))) [
        | inl up ↦
            rw (up, attach)
              (restate-IsSound m v leg leg' active now found refl refl (λ p. cc)
                (λ p. ground (arith, up, p)))
        | inr no_change ↦ rw (no_change, attach) (write-IsSound m v sid leg leg' e refl refl)
      ]
    where
      m : TwilioLine
      m = record l { sockets = put ws leg.call.id l.sockets }

      leg' : Leg
      leg' = record leg {
        ws = some ws;
        stream_sid = stream_sid;
        redirecting = false;
        on_stream = [];
      }

      found : get leg.call.id l.legs ≡ some leg
      found = ground (arith, e, (leg_ok v sid leg e).keyed)

  pub on_stream_start-IsSound :
      (ws token sid : ℕ) (stream_sid : String) (now : ℕ)
      → IsSound (on_stream_start l ws token sid stream_sid now).0
  unfolding on_stream_start
  on_stream_start-IsSound ws token sid stream_sid now = elim (Option-cases (get sid l.legs)) [
    | inl e ↦ ground (arith, v, e)
    | inr (leg, e) ↦ ground (arith, v, e, attach-IsSound sid leg ws stream_sid now e)
  ]

  on_leg :
      (ws : ℕ)
      → (socket_leg l ws ≡ none)
        ⊎ ((leg : Leg) × (id : ℕ) × (socket_leg l ws ≡ some leg) × (get id l.legs ≡ some leg))
  unfolding socket_leg
  on_leg ws = elim (Option-cases (get ws l.sockets)) [
    | inl e ↦ inl (ground (arith, e))
    | inr (id, e) ↦ elim (Option-cases (get id l.legs)) [
      | inl f ↦ inl (ground (arith, e, f))
      | inr (leg, f) ↦ inr (leg, id, ground (arith, e, f), f)
    ]
  ]

  pub on_media-IsSound :
      (ws : ℕ) (outbound : Bool) (payload : List ℕ) → IsSound (on_media l ws outbound payload).0
  unfolding on_media
  on_media-IsSound ws outbound payload = ground (arith, v)

  pub on_mark-IsSound : (ws name : ℕ) → IsSound (on_mark l ws name).0
  unfolding on_mark
  on_mark-IsSound ws name = elim (on_leg ws) [
    | inl e ↦ ground (arith, v, e)
    | inr (leg, id, e, f) ↦ ground (
      arith,
      v,
      e,
      write-IsSound l v id leg (record leg { marks = remove_mark name leg.marks }) f refl refl,
    )
  ]

  pub on_stop-IsSound : (ws : ℕ) → IsSound (on_stop l ws).0
  unfolding on_stop
  on_stop-IsSound ws = elim (on_leg ws) [
    | inl e ↦ ground (arith, v, e)
    | inr (leg, id, e, f) ↦ ground (arith, v, e, end_leg-IsSound l v leg remote)
  ]

  pub on_close-IsSound : (ws : ℕ) → IsSound (on_close l ws).0
  unfolding on_close
  on_close-IsSound ws = elim (on_leg ws) [
    | inl e ↦ ground (arith, v, e)
    | inr (leg, id, e, f) ↦ ground (
      arith,
      v,
      e,
      write-IsSound l v id leg (record leg { ws = none; stream_sid = "" }) f refl refl,
    )
  ]

  pub mark-IsSound : IsSound (mark l).0
  unfolding mark
  mark-IsSound = elim (Option-cases (active_leg l.legs)) [
    | inl e ↦ ground (arith, v, e)
    | inr (leg, e) ↦ ground (
      arith,
      v,
      e,
      write-IsSound l v leg.call.id leg (record leg { marks = leg.marks ++ (l.next_mark + 1) ∷ [] })
          (active_leg_found v leg e).0 refl refl,
    )
  ]

  pub clear-IsSound : IsSound (clear l).0
  unfolding clear
  clear-IsSound = elim (Option-cases (active_leg l.legs)) [
    | inl e ↦ ground (arith, v, e)
    | inr (leg, e) ↦ ground (
      arith,
      v,
      e,
      write-IsSound l v leg.call.id leg (record leg { marks = [] }) (active_leg_found v leg e).0
          refl refl,
    )
  ]
