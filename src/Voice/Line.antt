-- ===== src/Voice/Line.antt =====
-- line.ts: a call as every phone line reports it. Ids, numbers and times are opaque numbers.
use otacon.Prelude.{ℕ, Bool, true, false, Option, ◌≡◌, arith}

pub data CallState : Type 0 where
  dialing alerting incoming active held ended : CallState

pub data Direction : Type 0 where
  outgoing incoming : Direction

pub record LineCall : Type 0 where
  pub id : ℕ
  pub number : Option ℕ
  pub direction : Direction
  pub state : CallState
  pub conference : Bool
  pub started_at : ℕ
  pub answered_at : Option ℕ

-- `a === b` on states.
abbrev pub same_state : CallState → CallState → Bool
same_state dialing dialing = true
same_state alerting alerting = true
same_state CallState.incoming CallState.incoming = true
same_state active active = true
same_state held held = true
same_state ended ended = true
same_state _ _ = false

abbrev pub is_ended : CallState → Bool
is_ended ended = true
is_ended _ = false

pub same_state-eq : (a b : CallState) → same_state a b ≡ true → a ≡ b
same_state-eq a b h = ground arith
