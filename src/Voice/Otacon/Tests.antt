-- ===== src/Voice/Otacon/Tests.antt =====
-- Links at concrete inputs: a call that comes in, commands that are answered, that time out, and that
-- a closing socket rejects.
use otacon.Prelude.{ℕ, ◌≡◌, ◌≤◌, ◌+◌, refl, true, false, some, none, List, [], ◌∷◌, ◌++◌}
use otacon.Prelude.JsMap.{get, put, delete}
use otacon.Prelude.Held.{held}
use otacon.Voice.Line.{CallState, LineCall, incoming}
use otacon.Voice.Otacon.{
  Answer, ack, hello, call_changed, mark_reached, new_link, Effect, Reply, start, connect, on_open,
  on_text, settle, on_mark, cmd, mark, timed_out, on_close, settles, resolved, rejected, no_reply,
  disconnected,
}
use otacon.Voice.Otacon.Sane.{asked, settled, marked, reached}
use otacon.Voice.Otacon.Settled.{run-settled}
use otacon.Voice.Otacon.Mirror.{told_all, run-told}
use otacon.Voice.Otacon.Retry.{waits, losses, schedule, losses-waits}
use otacon.Voice.Otacon.Steps.{
  Input, starts, opens, marks, closes, timer_fires, runs, text, handle, run,
}

abbrev ringing : LineCall
ringing = record {
  id = 70;
  number = some 5550100;
  direction = incoming;
  state = CallState.incoming;
  conference = false;
  started_at = 0;
  answered_at = none;
}

abbrev done : Answer
done = record { call_id = some 70; dropped_ms = none }

abbrev a_call : List Input
a_call =
    starts
    ∷ opens
    ∷ text (hello (some 8_000) true [])
    ∷ text (call_changed ringing)
    ∷ runs 1
    ∷ marks
    ∷ runs 2
    ∷ text (ack (some 1) done)
    ∷ text (ack (some 1) done)
    ∷ text (mark_reached 2 false)
    ∷ timer_fires 1
    ∷ timer_fires 3
    ∷ runs 4
    ∷ []

abbrev answers : List Effect → List (ℕ × Reply)
answers [] = []
answers (settles id r ∷ es) = (id, r) ∷ answers es
answers (e ∷ es) = answers es

a_call-settles :
    answers (run new_link (a_call ++ closes 1000 ∷ [])).1
    ≡ (1, resolved done) ∷ (3, rejected (no_reply 2)) ∷ (4, rejected disconnected) ∷ []
unfolding run handle start connect on_open on_text settle on_mark cmd mark timed_out on_close
    new_link get put delete
a_call-settles = refl

run-settled_example :
    let (l, es) = run new_link a_call in
    (asked 4 es ≡ settled 4 es + held 4 l.pending)
    × (marked 4 es ≡ reached 4 es + held 4 l.marks)
    × (asked 4 es + marked 4 es ≤ 1)
run-settled_example = run-settled a_call 4

run-told_example : (λ k. get k (run new_link a_call).0.calls) ≡ told_all (λ k. none) a_call
run-told_example = run-told a_call

-- A second, two, a minute, eight, and from there on fifteen.
losses-waits_example :
    waits (run new_link (opens ∷ losses (1006 ∷ 1006 ∷ 4001 ∷ 1006 ∷ 1006 ∷ 1006 ∷ []))).1
    ≡ schedule 0 (1006 ∷ 1006 ∷ 4001 ∷ 1006 ∷ 1006 ∷ 1006 ∷ [])
unfolding new_link
losses-waits_example = losses-waits new_link (1006 ∷ 1006 ∷ 4001 ∷ 1006 ∷ 1006 ∷ 1006 ∷ []) refl
