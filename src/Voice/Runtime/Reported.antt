-- ===== src/Voice/Runtime/Reported.antt =====
-- runtime.ts: whatever happens to the runtime, a call is reported once.
use otacon.Prelude.{ℕ, ◌≤◌, ◌≡◌, ap, List, [], String, arith, leb}
use otacon.Prelude.JsMap.{get}
use otacon.Prelude.Held.{one_if}
use otacon.Voice.CallAudio.{Resampling}
use otacon.Voice.Mission.Handled.{Allowed}
use otacon.Voice.Runtime.{Runtime}
use otacon.Voice.Runtime.Steps.{Input, run}
use otacon.Voice.Runtime.Once.{told_of, left, left_of}
use otacon.Voice.Runtime.Traversed.{Oks, run-P}
use otacon.Voice.Runtime.Spending.{spending-Law}

module _ (resampling : Resampling) (shown : ℕ → String) where
  -- The line merges the calls of a mission only while that has neither ended nor left.
  abbrev pub Merges : Runtime resampling → List Input → Type 0
  Merges = Oks (Allowed resampling) shown

  -- Whatever happens to a runtime that has made no mission, in whatever order, each call is reported
  -- to a session at most once; provided that a line merges the calls of a mission only while that has
  -- neither ended nor left.
  pub run-told_of :
      (r : Runtime resampling) (is : List Input) (id : ℕ)
      → r.missions ≡ []
      → Merges r is
      → told_of id (run resampling shown r is).1 ≤ 1
  unfolding get
  run-told_of r is id e ok =
      let h = run-P (spending-Law resampling) shown r is (λ k le. ap (get k) e) ok in
      let before : left resampling r.next r.missions id ≡ one_if (leb r.next id) =
        ap (λ ms. left_of resampling (get id ms) r.next id) e in
      ground (arith, h.1 id, before)
