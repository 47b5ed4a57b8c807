-- ===== src/Orchestrator/Gate/Heard.antt =====
-- How a waiting gate hears an answer or an abort.
use otacon.Prelude.{
  ℕ, String, ◌≡◌, refl, ap, ◌∙◌, true, false, Option, none, some, List, [], ◌∷◌, ◌++◌, get_elem?,
  str_eq, All,
}
use otacon.Orchestrator.Mutating.{is_mutating}
use otacon.Orchestrator.Transcript.{
  requested, resolves, Decision, reject, CardStatus, pending, resolved,
}
use otacon.Orchestrator.Gate.{
  ServerApprovalGateOpts, ToolCall, block, approval_aborted, waiting, aborted, answered, Desk, Turn,
  arrives, writes, tick, abort, on_arrival, on_write, on_abort, step, run, opened, settle, verdict,
  command_of, gate,
}

run-append : (s : Desk) (xs ys : List Turn) → run s (xs ++ ys) ≡ run (run s xs) ys
unfolding run
run-append s [] ys = refl
run-append s (x ∷ xs) ys = run-append (step s x) xs ys

-- A turn at which the poll's timer fires.
abbrev pub IsTick : Turn → Type 0
IsTick (tick r) = Unit
IsTick _ = ⊥

idle : (ts : List Turn) → All IsTick ts → run (opened false) ts ≡ opened false
unfolding run step
idle [] h = refl
idle (tick true ∷ ts) h = idle ts h.1
idle (tick false ∷ ts) h = idle ts h.1
idle (arrives d m ∷ ts) h = absurd h.0
idle (writes i ∷ ts) h = absurd h.0
idle (abort ∷ ts) h = absurd h.0

step-answered :
    (s : Desk) (t : Turn) (d : Decision) (m : Option String)
    → s.poll ≡ answered d m
    → (step s t).poll ≡ answered d m
unfolding step
step-answered s (arrives e n) d m h = go s.file
  where
    go : (f : CardStatus) → (on_arrival s f e n).poll ≡ answered d m
    go pending = h
    go (resolved _ _) = h
step-answered s (writes i) d m h = go (get_elem? s.in_flight i)
  where
    go : (a : Option (Decision × Option String)) → (on_write s i a).poll ≡ answered d m
    go none = h
    go (some _) = h
step-answered s (tick r) d m h = rw h refl
step-answered s abort d m h = rw h refl

step-aborted : (s : Desk) (t : Turn) → s.poll ≡ aborted → (step s t).poll ≡ aborted
unfolding step
step-aborted s (arrives e n) h = go s.file
  where
    go : (f : CardStatus) → (on_arrival s f e n).poll ≡ aborted
    go pending = h
    go (resolved _ _) = h
step-aborted s (writes i) h = go (get_elem? s.in_flight i)
  where
    go : (a : Option (Decision × Option String)) → (on_write s i a).poll ≡ aborted
    go none = h
    go (some _) = h
step-aborted s (tick r) h = rw h refl
step-aborted s abort h = rw h refl

run-answered :
    (s : Desk) (ts : List Turn) (d : Decision) (m : Option String)
    → s.poll ≡ answered d m
    → (run s ts).poll ≡ answered d m
unfolding run
run-answered s [] d m h = h
run-answered s (t ∷ ts) d m h = run-answered (step s t) ts d m (step-answered s t d m h)

run-aborted : (s : Desk) (ts : List Turn) → s.poll ≡ aborted → (run s ts).poll ≡ aborted
unfolding run
run-aborted s [] h = h
run-aborted s (t ∷ ts) h = run-aborted (step s t) ts (step-aborted s t h)

-- A turn that neither writes nor aborts.
abbrev pub IsEarly : Turn → Type 0
IsEarly (tick r) = Unit
IsEarly (arrives d m) = Unit
IsEarly _ = ⊥

-- A turn that neither writes nor aborts nor reads the file: a read that fails, or another request.
abbrev pub IsUnread : Turn → Type 0
IsUnread (tick true) = ⊥
IsUnread (tick false) = Unit
IsUnread (arrives d m) = Unit
IsUnread _ = ⊥

-- The request is on its way, with those that came after it; and it has written the file.
abbrev asked : Decision → Option String → List (Decision × Option String) → Desk
asked d m ps = record { file = pending; in_flight = (d, m) ∷ ps; poll = waiting }

abbrev written : Decision → Option String → List (Decision × Option String) → Desk
written d m ps = record { file = resolved d m; in_flight = ps; poll = waiting }

until_read :
    (ps : List (Decision × Option String)) (unread later : List Turn) (d : Decision)
    (m : Option String)
    → All IsUnread unread
    → (run (written d m ps) (unread ++ (tick true ∷ later))).poll ≡ answered d m
unfolding run step
until_read ps [] later d m h =
    run-answered (record { file = resolved d m; in_flight = ps; poll = answered d m }) later d m
      refl
until_read ps (tick false ∷ ts) later d m h = until_read ps ts later d m h.1
until_read ps (arrives e n ∷ ts) later d m h = until_read ps ts later d m h.1
until_read ps (tick true ∷ ts) later d m h = absurd h.0
until_read ps (writes i ∷ ts) later d m h = absurd h.0
until_read ps (abort ∷ ts) later d m h = absurd h.0

until_written :
    (ps : List (Decision × Option String)) (waits rest : List Turn) (d : Decision)
    (m : Option String)
    → All IsEarly waits
    → (qs : List (Decision × Option String)) × (run (asked d m ps) (waits ++ (writes 0 ∷ rest))
        ≡ run (written d m qs) rest)
unfolding run step
until_written ps [] rest d m h = (ps, refl)
until_written ps (tick true ∷ ts) rest d m h = until_written ps ts rest d m h.1
until_written ps (tick false ∷ ts) rest d m h = until_written ps ts rest d m h.1
until_written ps (arrives e n ∷ ts) rest d m h = until_written (ps ++ (e, n) ∷ []) ts rest d m h.1
until_written ps (writes i ∷ ts) rest d m h = absurd h.0
until_written ps (abort ∷ ts) rest d m h = absurd h.0

answer_heard :
    (quiet waits unread later : List Turn) (d : Decision) (m : Option String)
    → All IsTick quiet
    → All IsEarly waits
    → All IsUnread unread
    → (run
        (opened false)
        (quiet ++ (arrives d m ∷ (waits ++ (writes 0 ∷ (unread ++ (tick true ∷ later))))))).poll
      ≡ answered d m
unfolding run step
answer_heard quiet waits unread later d m q w u =
    let end_ = unread ++ (tick true ∷ later) in
    let rest = waits ++ (writes 0 ∷ end_) in
    let (qs, wrote) = until_written [] waits end_ d m w in
    ap (λ s. s.poll)
      (run-append (opened false) quiet (arrives d m ∷ rest)
        ∙ ap (λ s. run s (arrives d m ∷ rest)) (idle quiet q)
        ∙ wrote)
    ∙ until_read qs unread later d m u

abort_heard :
    (turns later : List Turn)
    → (run (opened false) turns).poll ≡ waiting
    → (run (opened false) (turns ++ abort ∷ later)).poll ≡ aborted
unfolding run step
abort_heard turns later w =
    ap (λ s. s.poll) (run-append (opened false) turns (abort ∷ later))
    ∙ run-aborted _ later (ap on_abort w)

-- Where a mutating bash command comes in and neither flag is on, the first resolve request is the
-- answer if it is the first to write the file, and if the file is then read once before another
-- write, with no abort before that: the gate returns its decision and emits the request and the
-- resolution. Other requests and reads before the write, failed reads and other requests after it,
-- and whatever comes once the file is read, an abort included, change neither.
pub gate_hears :
    (opts : ServerApprovalGateOpts) (c : ToolCall) (quiet waits unread later : List Turn)
    (d : Decision) (m : Option String) (asked_at now : ℕ)
    → str_eq c.name "bash" ≡ true
    → is_mutating (command_of c.command) ≡ true
    → opts.auto_approve ≡ false
    → opts.auto_reject ≡ false
    → All IsTick quiet
    → All IsEarly waits
    → All IsUnread unread
    → gate opts c false
        (quiet ++ (arrives d m ∷ (waits ++ (writes 0 ∷ (unread ++ (tick true ∷ later))))))
        asked_at
        now
      ≡ record {
        events = requested c.token c.payload asked_at ∷ resolves c.token d m now ∷ [];
        result = some (verdict d m);
      }
unfolding gate
gate_hears opts c quiet waits unread later d m t u bash mutates manual free q w r =
    rw (bash, mutates, manual, free)
      (ap (settle c t u) (answer_heard quiet waits unread later d m q w r))

-- While neither flag is on, an abort before any answer is read blocks a mutating bash command,
-- whatever was posted, and the resolution that is emitted rejects it.
pub gate_aborts :
    (opts : ServerApprovalGateOpts) (c : ToolCall) (turns later : List Turn) (asked_at now : ℕ)
    → str_eq c.name "bash" ≡ true
    → is_mutating (command_of c.command) ≡ true
    → opts.auto_approve ≡ false
    → opts.auto_reject ≡ false
    → (run (opened false) turns).poll ≡ waiting
    → gate opts c false (turns ++ abort ∷ later) asked_at now ≡ record {
      events =
          requested c.token c.payload asked_at ∷ resolves c.token reject (some "aborted") now ∷ [];
      result = some (block approval_aborted);
    }
unfolding gate
gate_aborts opts c turns later t u bash mutates manual free w =
    rw (bash, mutates, manual, free) (ap (settle c t u) (abort_heard turns later w))
