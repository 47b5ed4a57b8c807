-- ===== src/Orchestrator/Transcript.antt =====
-- event-handler.ts of the web client: the events of a session reduced to a transcript. Messages,
-- prompts and payloads are opaque numbers, tokens too.
pub mod Escalations
pub mod Growth
mod Tests
use otacon.Prelude.{
  ℕ, String, Bool, true, false, Option, none, some, List, [], ◌∷◌, ◌++◌, length, get_elem?, set,
}
use otacon.Prelude.JsMap.{get, put}

pub data Decision : Type 0 where
  approve reject : Decision

-- The status of a card: pending, or resolved with a decision and perhaps a message.
pub data CardStatus : Type 0 where
  pending : CardStatus
  resolved : Decision → Option String → CardStatus

-- A card for a resolution with no request has no payload of its own.
pub record Card : Type 0 where
  pub token : ℕ
  pub payload : Option ℕ
  pub status : CardStatus
  pub ts : ℕ

pub data Item : Type 0 where
  message phone_action system user_text : ℕ → ℕ → Item
  escalation : ℕ → Card → Item

pub data TerminalKind : Type 0 where
  agent_end agent_error : TerminalKind

pub record State : Type 0 where
  pub items : List Item
  pub streaming_message : Option ℕ
  pub is_streaming : Bool
  pub is_terminal : Bool
  pub terminal_kind : Option TerminalKind

-- The store: the state that listeners get, and where each token's card stands.
pub record Store : Type 0 where
  pub state : State
  pub escalation_index : List (ℕ × ℕ)

pub data PiEvent : Type 0 where
  agent_start : PiEvent
  message_start message_update message_end : Option ℕ → PiEvent
  agent_ends agent_fails : PiEvent
  other_event : PiEvent

pub data Event : Type 0 where
  system_set : ℕ → ℕ → Event
  user_message : ℕ → ℕ → Event
  phone_acts : ℕ → ℕ → Event
  requested : ℕ → ℕ → ℕ → Event
  resolves : ℕ → Decision → Option String → ℕ → Event
  pi : PiEvent → ℕ → Event

abbrev pub initial : State
initial = record {
  items = [];
  streaming_message = none;
  is_streaming = false;
  is_terminal = false;
  terminal_kind = none;
}

-- A new store, and what `reset` leaves.
abbrev pub empty_store : Store
empty_store = record { state = initial; escalation_index = [] }

abbrev pub with_items : Store → List Item → Store
with_items s items = record s { state = record (s.state) { items = items } }

abbrev pub append : Store → Item → Store
append s item = with_items s (s.state.items ++ item ∷ [])

abbrev pub stream : Store → Option ℕ → Store
stream s none = s
stream s (some m) = record s { state = record (s.state) { streaming_message = some m } }

abbrev pub finish : Store → TerminalKind → Store
finish s kind = record s {
  state = record (s.state) {
    is_streaming = false;
    is_terminal = true;
    terminal_kind = some kind;
    streaming_message = none;
  };
}

abbrev add_message : Store → Option ℕ → ℕ → Store
add_message s none ts = s
add_message s (some m) ts = append s (message ts m)

unfoldable pub handle_pi_event : Store → PiEvent → ℕ → Store
handle_pi_event s agent_start ts = record s { state = record (s.state) { is_streaming = true } }
handle_pi_event s (message_start m) ts = stream s m
handle_pi_event s (message_update m) ts = stream s m
handle_pi_event s (message_end m) ts =
    let t = add_message s m ts in record t { state = record (t.state) { streaming_message = none } }
handle_pi_event s agent_ends ts = finish s agent_end
handle_pi_event s agent_fails ts = finish s agent_error
handle_pi_event s other_event ts = s

abbrev pub resolve_card : Card → Decision → Option String → Card
resolve_card c d m = record c { status = resolved d m }

-- The card at the index, if an escalation stands there.
abbrev pub resolve_at : Store → ℕ → Option Item → Decision → Option String → Store
resolve_at s idx (some (escalation ts c)) d m =
    with_items s (set s.state.items idx (escalation ts (resolve_card c d m)))
resolve_at s idx _ d m = s

abbrev pub orphan : ℕ → Decision → Option String → ℕ → Item
orphan token d m ts =
    escalation ts (record { token = token; payload = none; status = resolved d m; ts = ts })

-- The branches on what `escalationIndex.get` finds.
abbrev pub resolve_found : Store → Option ℕ → ℕ → Decision → Option String → ℕ → Store
resolve_found s none token d m ts = append s (orphan token d m ts)
resolve_found s (some idx) token d m ts = resolve_at s idx (get_elem? s.state.items idx) d m

unfoldable pub ingest : Store → Event → Store
unfolding handle_pi_event
ingest s (system_set prompt ts) = append s (system ts prompt)
ingest s (user_message text ts) = s
ingest s (phone_acts payload ts) = append s (phone_action ts payload)
ingest s (requested token payload ts) =
    append (record s { escalation_index = put token (length s.state.items) s.escalation_index })
      (escalation ts (record { token = token; payload = some payload; status = pending; ts = ts }))
ingest s (resolves token d m ts) = resolve_found s (get token s.escalation_index) token d m ts
ingest s (pi event ts) = handle_pi_event s event ts

-- A whole stream of events.
unfoldable pub ingest_all : Store → List Event → Store
unfolding ingest
ingest_all s [] = s
ingest_all s (e ∷ es) = ingest_all (ingest s e) es
