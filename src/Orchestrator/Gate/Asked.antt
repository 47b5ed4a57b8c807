-- ===== src/Orchestrator/Gate/Asked.antt =====
-- Who may let a mutating command pass.
use otacon.Prelude.{
  ℕ, zero, suc, String, ◌≡◌, refl, ap, sym, ◌∙◌, ◌⊎◌, inl, inr, subst, Bool, true, false, Option,
  none, some, List, [], ◌∷◌, ◌++◌, arith, get_elem?, erase_idx, str_eq, All, Bool-cases,
}
use otacon.Orchestrator.Mutating.{is_mutating}
use otacon.Orchestrator.Transcript.{Decision, approve, reject, CardStatus, pending, resolved}
use otacon.Orchestrator.Gate.{
  ServerApprovalGateOpts, ToolCall, pass, block, Poll, waiting, aborted, answered, Desk, Turn,
  arrives, writes, tick, abort, on_arrival, on_write, on_tick, on_abort, step, run, opened, settle,
  command_of, gate, at_once, auto_reject_mode,
}

-- A resolve request with this decision and message is among the turns.
abbrev pub Posted : Decision → Option String → List Turn → Type 0
Posted d m [] = ⊥
Posted d m (t ∷ ts) = (t ≡ arrives d m) ⊎ Posted d m ts

module _ (P : Decision → Option String → Type 0) where
  abbrev Answer : Decision × Option String → Type 0
  Answer a = P a.0 a.1

  abbrev Status : CardStatus → Type 0
  Status pending = Unit
  Status (resolved d m) = P d m

  abbrev PollIs : Poll → Type 0
  PollIs (answered d m) = P d m
  PollIs _ = Unit

  abbrev Brings : Turn → Type 0
  Brings (arrives d m) = P d m
  Brings _ = Unit

  -- All that the desk knows has come from a request.
  abbrev Sourced : Desk → Type 0
  Sourced s = Status s.file × All Answer s.in_flight × PollIs s.poll

  All-end :
      (xs : List (Decision × Option String)) (a : Decision × Option String)
      → All Answer xs
      → Answer a
      → All Answer (xs ++ a ∷ [])
  All-end [] a h p = (p, tt)
  All-end (x ∷ xs) a h p = (h.0, All-end xs a h.1 p)

  All-erase_idx :
      (xs : List (Decision × Option String)) (i : ℕ) → All Answer xs → All Answer (erase_idx xs i)
  All-erase_idx [] i h = tt
  All-erase_idx (x ∷ xs) zero h = h.1
  All-erase_idx (x ∷ xs) (suc i) h = (h.0, All-erase_idx xs i h.1)

  All-get :
      (xs : List (Decision × Option String)) (i : ℕ) (a : Decision × Option String)
      → All Answer xs
      → get_elem? xs i ≡ some a
      → Answer a
  All-get [] i a h e = cc
  All-get (x ∷ xs) zero a h e = subst Answer (ground (arith, e)) h.0
  All-get (x ∷ xs) (suc i) a h e = All-get xs i a h.1 e

  arrival-Sourced :
      (s : Desk) (file : CardStatus) (d : Decision) (m : Option String)
      → P d m
      → Sourced s
      → Sourced (on_arrival s file d m)
  arrival-Sourced s pending d m p (f, q, w) = (f, All-end s.in_flight (d, m) q p, w)
  arrival-Sourced s (resolved _ _) d m p h = h

  write-Sourced :
      (s : Desk) (i : ℕ) (a : Option (Decision × Option String))
      → get_elem? s.in_flight i ≡ a
      → Sourced s
      → Sourced (on_write s i a)
  write-Sourced s i none e h = h
  write-Sourced s i (some (d, m)) e (f, q, w) =
      (All-get s.in_flight i (d, m) q e, All-erase_idx s.in_flight i q, w)

  tick-PollIs :
      (w : Poll) (file : CardStatus) (readable : Bool)
      → Status file
      → PollIs w
      → PollIs (on_tick w file readable)
  tick-PollIs waiting pending readable f h = tt
  tick-PollIs waiting (resolved d m) true f h = f
  tick-PollIs waiting (resolved d m) false f h = tt
  tick-PollIs aborted file readable f h = tt
  tick-PollIs (answered d m) file readable f h = h

  abort-PollIs : (w : Poll) → PollIs w → PollIs (on_abort w)
  abort-PollIs waiting h = tt
  abort-PollIs aborted h = tt
  abort-PollIs (answered d m) h = h

  step-Sourced : (s : Desk) (t : Turn) → Brings t → Sourced s → Sourced (step s t)
  unfolding step
  step-Sourced s (arrives d m) p h = arrival-Sourced s s.file d m p h
  step-Sourced s (writes i) p h = write-Sourced s i (get_elem? s.in_flight i) refl h
  step-Sourced s (tick readable) p (f, q, w) = (f, q, tick-PollIs s.poll s.file readable f w)
  step-Sourced s abort p (f, q, w) = (f, q, abort-PollIs s.poll w)

  run-Sourced : (s : Desk) (ts : List Turn) → All Brings ts → Sourced s → Sourced (run s ts)
  unfolding run
  run-Sourced s [] p h = h
  run-Sourced s (t ∷ ts) p h = run-Sourced (step s t) ts p.1 (step-Sourced s t p.0 h)

turns_bring : (ts : List Turn) → All (Brings (λ d m. Posted d m ts)) ts
turns_bring ts = go ts (λ d m h. h)
  where
    go :
        (us : List Turn)
        → ((d : Decision) (m : Option String) → Posted d m us → Posted d m ts)
        → All (Brings (λ d m. Posted d m ts)) us
    go [] f = tt
    go (arrives d m ∷ us) f = (f d m (inl refl), go us (λ d m h. f d m (inr h)))
    go (writes i ∷ us) f = (tt, go us (λ d m h. f d m (inr h)))
    go (tick r ∷ us) f = (tt, go us (λ d m h. f d m (inr h)))
    go (abort ∷ us) f = (tt, go us (λ d m h. f d m (inr h)))

opened-Sourced : (P : Decision → Option String → Type 0) (a : Bool) → Sourced P (opened a)
opened-Sourced P true = (tt, tt, tt)
opened-Sourced P false = (tt, tt, tt)

passed_poll :
    (c : ToolCall) (asked_at now : ℕ) (w : Poll)
    → (settle c asked_at now w).result ≡ some pass
    → (m : Option String) × (w ≡ answered approve m)
passed_poll c t u waiting e = cc
passed_poll c t u aborted e = cc
passed_poll c t u (answered approve m) e = (m, refl)
passed_poll c t u (answered reject m) e = cc

-- While neither flag is on, whatever order requests, writes, reads and an abort come in, a
-- mutating bash command passes only if a request to approve it is among them.
pub gate_passes :
    (opts : ServerApprovalGateOpts) (c : ToolCall) (signal_aborted : Bool) (turns : List Turn)
    (asked_at now : ℕ)
    → str_eq c.name "bash" ≡ true
    → is_mutating (command_of c.command) ≡ true
    → opts.auto_approve ≡ false
    → (gate opts c signal_aborted turns asked_at now).result ≡ some pass
    → (m : Option String) × Posted approve m turns
unfolding gate
gate_passes opts c a turns t u bash mutates manual e = elim (Bool-cases opts.auto_reject) [
  | inl on ↦ absurd (blocked (sym (ap (λ g. g.result) (rejects on)) ∙ e))
  | inr off ↦
      let (m, w) =
        passed_poll c t u (run (opened a) turns).poll (sym (ap (λ g. g.result) (asked off)) ∙ e) in
      (m, subst (PollIs (λ d m. Posted d m turns)) w sourced.2)
]
  where
    sourced : Sourced (λ d m. Posted d m turns) (run (opened a) turns)
    sourced = run-Sourced _ (opened a) turns (turns_bring turns) (opened-Sourced _ a)

    blocked : ¬ (some (block auto_reject_mode) ≡ some pass)
    blocked e = cc e

    rejects : opts.auto_reject ≡ true → gate opts c a turns t u ≡ at_once (block auto_reject_mode)
    rejects on = rw (bash, mutates, manual, on) refl

    asked :
        opts.auto_reject ≡ false
        → gate opts c a turns t u ≡ settle c t u (run (opened a) turns).poll
    asked off = rw (bash, mutates, manual, off) refl
