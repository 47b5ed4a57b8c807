-- ===== src/Orchestrator/Gate/Shown.antt =====
-- What the transcript of a client shows of the gate's events.
use otacon.Prelude.{ℕ, String, ◌≡◌, ◌⊎◌, Option, none, some, [], length, get_elem?, ◌↔◌}
use otacon.Orchestrator.Transcript.{
  Decision, approve, CardStatus, pending, resolved, Store, Item, escalation, ingest_all,
}
use otacon.Orchestrator.Transcript.Escalations.{request_card}
use otacon.Orchestrator.Gate.{ToolCall, pass, Gated}

-- The item that stands where the transcript `s` ended, once it has the gate's events.
abbrev pub card_after : Store → Gated → Option Item
card_after s g = get_elem? (ingest_all s g.events).state.items (length s.state.items)

abbrev pub card_of : ToolCall → ℕ → CardStatus → Item
card_of c asked_at status = escalation asked_at (request_card c.token c.payload asked_at status)

-- The gate has asked nobody; or it waits and the card is pending; or it has returned, the card is
-- resolved, and the call passes just where the card shows an approval.
abbrev pub Shows : Store → ToolCall → ℕ → Gated → Type 0
Shows s c asked_at g =
    (g.events ≡ [])
    ⊎ ((g.result ≡ none) × (card_after s g ≡ some (card_of c asked_at pending)))
    ⊎ ((d : Decision) × (m : Option String) × (card_after s g
          ≡ some (card_of c asked_at (resolved d m)))
        × ((g.result ≡ some pass) ↔ (d ≡ approve)))
