-- ===== src/Orchestrator/Gate.antt =====
-- agents/approval-gate-server.ts and the resolve route of server/routes/escalations.ts: the gate
-- before a tool call, the file of an escalation, and the requests that resolve it.
pub mod Asked
pub mod Heard
pub mod Shown
mod Tests
use otacon.Prelude.{
  ℕ, zero, suc, String, Bool, true, false, Option, none, some, List, [], ◌∷◌, ◌++◌, get_elem?,
  erase_idx, str_eq, not, if◌then◌else◌,
}
use otacon.Orchestrator.Mutating.{is_mutating}
use otacon.Orchestrator.Transcript.{
  Event, requested, resolves, Decision, approve, reject, CardStatus, pending, resolved,
}

pub record ServerApprovalGateOpts : Type 0 where
  pub auto_approve : Bool
  pub auto_reject : Bool

-- The tool call, its command if it has one, the token, and the prompt with its details.
pub record ToolCall : Type 0 where
  pub name : String
  pub command : Option (List ℕ)
  pub token : ℕ
  pub payload : ℕ

pub data Reason : Type 0 where
  auto_reject_mode approval_aborted user_rejected : Reason
  user_rejected_saying : String → Reason

pub data BeforeToolCallResult : Type 0 where
  pass : BeforeToolCallResult
  block : Reason → BeforeToolCallResult

-- What the promise of `pollForResolution` has come to.
pub data Poll : Type 0 where
  waiting aborted : Poll
  answered : Decision → Option String → Poll

-- The file, the requests that found it pending and have not written it yet, and the poll.
pub record Desk : Type 0 where
  pub file : CardStatus
  pub in_flight : List (Decision × Option String)
  pub poll : Poll

-- A resolve request reads the file; one that goes on writes it; the poll's timer fires, and its
-- read succeeds or not; the signal aborts.
pub data Turn : Type 0 where
  arrives : Decision → Option String → Turn
  writes : ℕ → Turn
  tick : Bool → Turn
  abort : Turn

pub data Response : Type 0 where
  ok already_resolved : Response

-- The checks of the route on the file it has read, and what it answers in the end.
abbrev pub on_arrival : Desk → CardStatus → Decision → Option String → Desk
on_arrival s pending d m = record s { in_flight = s.in_flight ++ (d, m) ∷ [] }
on_arrival s (resolved _ _) d m = s

abbrev pub response : CardStatus → Response
response pending = ok
response (resolved d m) = already_resolved

abbrev pub on_write : Desk → ℕ → Option (Decision × Option String) → Desk
on_write s i none = s
on_write s i (some (d, m)) = record s { file = resolved d m; in_flight = erase_idx s.in_flight i }

-- A read that fails or meets a file half written changes nothing.
abbrev pub on_tick : Poll → CardStatus → Bool → Poll
on_tick waiting (resolved d m) true = answered d m
on_tick waiting _ _ = waiting
on_tick aborted _ _ = aborted
on_tick (answered d m) _ _ = answered d m

abbrev pub on_abort : Poll → Poll
on_abort waiting = aborted
on_abort aborted = aborted
on_abort (answered d m) = answered d m

unfoldable pub step : Desk → Turn → Desk
step s (arrives d m) = on_arrival s s.file d m
step s (writes i) = on_write s i (get_elem? s.in_flight i)
step s (tick readable) = record s { poll = on_tick s.poll s.file readable }
step s abort = record s { poll = on_abort s.poll }

unfoldable pub run : Desk → List Turn → Desk
run s [] = s
run s (t ∷ ts) = run (step s t) ts

-- The gate has written the pending file; an aborted signal rejects at once.
abbrev pub opened : Bool → Desk
opened signal_aborted = record {
  file = pending;
  in_flight = [];
  poll = if signal_aborted then aborted else waiting;
}

-- What the gate has emitted, and what it has returned, if it has.
pub record Gated : Type 0 where
  pub events : List Event
  pub result : Option BeforeToolCallResult

abbrev pub at_once : BeforeToolCallResult → Gated
at_once r = record { events = []; result = some r }

-- An empty message is none.
abbrev pub rejection : Option String → Reason
rejection none = user_rejected
rejection (some m) = if str_eq m "" then user_rejected else user_rejected_saying m

abbrev pub verdict : Decision → Option String → BeforeToolCallResult
verdict approve m = pass
verdict reject m = block (rejection m)

-- After the request: the events and the result, at the times of the two.
abbrev pub settle : ToolCall → ℕ → ℕ → Poll → Gated
settle c asked_at now waiting = record {
  events = requested c.token c.payload asked_at ∷ [];
  result = none;
}
settle c asked_at now aborted = record {
  events = requested c.token c.payload asked_at ∷ resolves c.token reject (some "aborted") now ∷ [];
  result = some (block approval_aborted);
}
settle c asked_at now (answered d m) = record {
  events = requested c.token c.payload asked_at ∷ resolves c.token d m now ∷ [];
  result = some (verdict d m);
}

abbrev pub command_of : Option (List ℕ) → List ℕ
command_of none = []
command_of (some s) = s

-- The gate, with what happens at the file while it waits.
unfoldable pub gate : ServerApprovalGateOpts → ToolCall → Bool → List Turn → ℕ → ℕ → Gated
gate opts c signal_aborted turns asked_at now =
    if not (str_eq c.name "bash")
    then at_once pass
    else if not (is_mutating (command_of c.command))
    then at_once pass
    else if opts.auto_approve
    then at_once pass
    else if opts.auto_reject
    then at_once (block auto_reject_mode)
    else settle c asked_at now (run (opened signal_aborted) turns).poll
