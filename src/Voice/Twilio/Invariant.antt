-- ===== src/Voice/Twilio/Invariant.antt =====
-- What holds of a Twilio line between two handlers.
use mathlib.Core.Option
use otacon.Prelude.{ℕ, ◌≡◌, true, false, some, List, arith}
use otacon.Prelude.JsMap.{
  get, put, delete, Distinct, Each, get-put, get-delete, put-Distinct, delete-Distinct, Each-put,
  Each-delete, Each-get, last?-keep-values,
}
use otacon.Voice.Line.{active, held, LineCall, same_state, is_ended}
use otacon.Voice.Twilio.{Leg, TwilioLine, active_leg, last_held, audible, on_hold}

pub record LegOk (id : ℕ) (leg : Leg) : Type 0 where
  pub keyed : leg.call.id ≡ id
  pub not_over : is_ended leg.call.state ≡ false
  pub held_flag : same_state leg.call.state held ≡ true → leg.held ≡ true
  pub not_active : leg.held ≡ true → same_state leg.call.state active ≡ false

-- The legs are live and stand under their call's id, and `calls` shows exactly their calls.
pub record Inv (legs : List (ℕ × Leg)) (calls : List (ℕ × LineCall)) : Type 0 where
  pub distinct_legs : Distinct legs
  pub distinct_calls : Distinct calls
  pub legs_ok : Each LegOk legs
  pub mirrored : (id : ℕ) → get id calls ≡ Option.map (λ leg. leg.call) (get id legs)

abbrev pub IsSound : TwilioLine → Type 0
IsSound l = Inv l.legs l.calls

module _ {legs : List (ℕ × Leg)} {calls : List (ℕ × LineCall)} (v : Inv legs calls) where
  -- A leg under its id, its call shown with it.
  pub put_both : (id : ℕ) (leg : Leg) → LegOk id leg → Inv (put id leg legs) (put id leg.call calls)
  put_both id leg k = record {
    distinct_legs = put-Distinct id leg legs v.distinct_legs;
    distinct_calls = put-Distinct id leg.call calls v.distinct_calls;
    legs_ok = Each-put LegOk id leg legs v.legs_ok k;
    mirrored =
        λ j. ground (arith, get-put id j leg legs, get-put id j leg.call calls, v.mirrored j);
  }

  -- A leg whose call stays as it is.
  pub put_leg :
      (id : ℕ) (leg : Leg)
      → LegOk id leg
      → get id calls ≡ some leg.call
      → Inv (put id leg legs) calls
  put_leg id leg k shown = record {
    distinct_legs = put-Distinct id leg legs v.distinct_legs;
    distinct_calls = v.distinct_calls;
    legs_ok = Each-put LegOk id leg legs v.legs_ok k;
    mirrored = λ j. ground (arith, get-put id j leg legs, v.mirrored j, shown);
  }

  pub delete_both : (id : ℕ) → Inv (delete id legs) (delete id calls)
  delete_both id = record {
    distinct_legs = delete-Distinct id legs v.distinct_legs;
    distinct_calls = delete-Distinct id calls v.distinct_calls;
    legs_ok = Each-delete LegOk id legs v.legs_ok;
    mirrored = λ j. ground (
      arith,
      get-delete id j legs v.distinct_legs,
      get-delete id j calls v.distinct_calls,
      v.mirrored j,
    );
  }

  pub leg_ok : (id : ℕ) (leg : Leg) → get id legs ≡ some leg → LegOk id leg
  leg_ok id leg e = Each-get LegOk id legs leg v.legs_ok e

  pub leg_shown : (id : ℕ) (leg : Leg) → get id legs ≡ some leg → get id calls ≡ some leg.call
  leg_shown id leg e = ground (arith, e, v.mirrored id)

  pub active_leg_found :
      (leg : Leg)
      → active_leg legs ≡ some leg
      → (get leg.call.id legs ≡ some leg) × (audible leg ≡ true)
  unfolding active_leg
  active_leg_found leg e =
      let (k, found, p) = last?-keep-values audible legs leg v.distinct_legs e in
      (ground (arith, found, (leg_ok k leg found).keyed), p)

  pub last_held_found :
      (leg : Leg)
      → last_held legs ≡ some leg
      → (get leg.call.id legs ≡ some leg) × (leg.held ≡ true)
  unfolding last_held
  last_held_found leg e =
      let (k, found, p) = last?-keep-values on_hold legs leg v.distinct_legs e in
      (ground (arith, found, (leg_ok k leg found).keyed), p)
