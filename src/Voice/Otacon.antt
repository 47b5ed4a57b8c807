-- ===== src/Voice/Otacon.antt =====
-- otacon.ts: the client of an otacon phone's voice socket. Ids of commands and marks are the numbers
-- that the client counts, calls and commands' names are opaque numbers, and of an answer the model has
-- what the plugin reads. Sockets are numbered in the order they are opened.
pub mod Steps
pub mod Sane
pub mod Closed
pub mod Settled
pub mod Mirror
pub mod Retry
mod Tests
use otacon.Prelude.{
  ℕ, suc, ◌*◌, min, Bool, true, false, ◌&&◌, not, Option, none, some, List, [], ◌∷◌, ◌++◌, leb,
  String, ◌==◌, if◌then◌else◌,
}
use otacon.Prelude.JsMap.{get, put, delete}
use otacon.Voice.Line.{LineCall}

-- An ack's result: the fields that callers read.
pub record Answer : Type 0 where
  pub call_id : Option ℕ
  pub dropped_ms : Option ℕ

pub data LineError : Type 0 where
  disconnected not_connected : LineError
  no_reply : ℕ → LineError
  refused : String → String → LineError

pub data Reply : Type 0 where
  resolved : Answer → Reply
  rejected : LineError → Reply

-- `call.incoming` and `call.state` are one message: they do the same to the line.
pub data Message : Type 0 where
  hello : Option ℕ → Bool → List LineCall → Message
  ack : Option ℕ → Answer → Message
  error : Option ℕ → String → String → Message
  mark_reached : ℕ → Bool → Message
  call_changed call_ended : LineCall → Message
  hfp audio_link : Bool → Message
  unknown : Message

pub data Effect : Type 0 where
  opens_socket closes_socket : ℕ → Effect
  sends_command sends_audio : ℕ → ℕ → Effect
  sends_mark : ℕ → ℕ → Effect
  settles : ℕ → Reply → Effect
  refuses : Reply → Effect
  settles_mark : ℕ → Bool → Effect
  cleared_at_once : Effect
  emits_open emits_close emits_hello : Effect
  emits_audio : ℕ → Effect
  emits_call : Message → Effect
  emits_link : Bool → Effect
  reconnects_in : ℕ → Effect

-- `timers` holds the running timers of the commands, each with its command's id and name.
pub record OtaconLink : Type 0 where
  pub ws : Option ℕ
  pub sockets : ℕ
  pub stopped : Bool
  pub next : ℕ
  pub pending : List (ℕ × ℕ)
  pub timers : List (ℕ × (ℕ × ℕ))
  pub marks : List (ℕ × Unit {0})
  pub retry_ms : ℕ
  pub sample_rate : ℕ
  pub hfp_connected : Bool
  pub open_ : Bool
  pub calls : List (ℕ × LineCall)

abbrev pub Out : Type 0
Out = OtaconLink × List Effect

unfoldable pub new_link : OtaconLink
new_link = record {
  ws = none;
  sockets = 0;
  stopped = false;
  next = 0;
  pending = [];
  timers = [];
  marks = [];
  retry_ms = 1_000;
  sample_rate = 16_000;
  hfp_connected = false;
  open_ = false;
  calls = [];
}

unfoldable pub connect : OtaconLink → Out
connect l = if l.stopped then (l, []) else (
  record l { ws = some (suc l.sockets); sockets = suc l.sockets },
  opens_socket (suc l.sockets) ∷ [],
)

unfoldable pub start : OtaconLink → Out
start l = connect (record l { stopped = false })

abbrev pub close_socket : Option ℕ → List Effect
close_socket none = []
close_socket (some ws) = closes_socket ws ∷ []

unfoldable pub stop : OtaconLink → Out
stop l = (record l { stopped = true }, close_socket l.ws)

-- `onopen`
unfoldable pub on_open : OtaconLink → Out
on_open l = (record l { open_ = true; retry_ms = 1_000 }, emits_open ∷ [])

-- The loops of `onclose` over what waits.
abbrev pub reject_all : List (ℕ × ℕ) → List Effect
reject_all [] = []
reject_all ((id, timer) ∷ ps) = settles id (rejected disconnected) ∷ reject_all ps

abbrev pub clear_timers : List (ℕ × ℕ) → List (ℕ × (ℕ × ℕ)) → List (ℕ × (ℕ × ℕ))
clear_timers [] timers = timers
clear_timers ((id, timer) ∷ ps) timers = clear_timers ps (delete timer timers)

abbrev pub drop_marks : List (ℕ × Unit {0}) → List Effect
drop_marks [] = []
drop_marks ((name, _) ∷ ms) = settles_mark name true ∷ drop_marks ms

abbrev pub taken_over : ℕ
taken_over = 4001

-- The wait before the next connection.
abbrev pub delay : ℕ → ℕ → ℕ
delay code retry_ms = if code == taken_over then 60_000 else retry_ms

unfoldable pub on_close : OtaconLink → ℕ → Out
on_close l code =
    let shut = record l {
      open_ = false;
      pending = [];
      timers = clear_timers l.pending l.timers;
      marks = [];
    } in
    let out =
      reject_all l.pending ++ drop_marks l.marks ++ (if l.open_ then emits_close ∷ [] else []) in
    if l.stopped then (shut, out) else (
      record shut { retry_ms = min (l.retry_ms * 2) 15_000 },
      out ++ reconnects_in (delay code l.retry_ms) ∷ [],
    )

abbrev pub put_all : List LineCall → List (ℕ × LineCall) → List (ℕ × LineCall)
put_all [] calls = calls
put_all (c ∷ cs) calls = put_all cs (put c.id c calls)

-- `msg.audio?.sampleRate ?? 16000`
abbrev pub or_default : Option ℕ → ℕ
or_default none = 16_000
or_default (some rate) = rate

-- `msg.id != null ? this.pending.get(msg.id) : undefined`
abbrev pub waiting_for : OtaconLink → Option ℕ → Option (ℕ × ℕ)
waiting_for l none = none
waiting_for l (some id) = elim (get id l.pending) [ none ↦ none | some timer ↦ some (id, timer) ]

-- An ack or an error: it settles the command it names, if that one waits.
unfoldable pub settle : OtaconLink → Option ℕ → Reply → Out
settle l id reply = elim (waiting_for l id) [
  | none ↦ (l, [])
  | some p ↦ (
    record l { pending = delete p.0 l.pending; timers = delete p.1 l.timers },
    settles p.0 reply ∷ [],
  )
]

unfoldable pub on_mark : OtaconLink → ℕ → Bool → Out
on_mark l name was_cleared = elim (get name l.marks) [
  | none ↦ (l, [])
  | some _ ↦ (record l { marks = delete name l.marks }, settles_mark name was_cleared ∷ [])
]

unfoldable pub on_text : OtaconLink → Message → Out
unfolding settle on_mark
on_text l (hello rate connected cs) = (
  record l { sample_rate = or_default rate; hfp_connected = connected; calls = put_all cs [] },
  emits_hello ∷ [],
)
on_text l (ack id answer) = settle l id (resolved answer)
on_text l (error id code message) = settle l id (rejected (refused code message))
on_text l (mark_reached name was_cleared) = on_mark l name was_cleared
on_text l (call_changed c) =
    (record l { calls = put c.id c l.calls }, emits_call (call_changed c) ∷ [])
on_text l (call_ended c) =
    (record l { calls = delete c.id l.calls }, emits_call (call_ended c) ∷ [])
on_text l (hfp connected) = (record l { hfp_connected = connected }, [])
on_text l (audio_link up) = (l, emits_link up ∷ [])
on_text l unknown = (l, [])

-- The socket, if it is open.
abbrev pub open_socket : OtaconLink → Option ℕ
open_socket l = if l.open_ then l.ws else none

unfoldable pub cmd : OtaconLink → ℕ → Out
cmd l type = elim (open_socket l) [
  | none ↦ (l, refuses (rejected not_connected) ∷ [])
  | some ws ↦ (
    record l {
      next = suc l.next;
      pending = put (suc l.next) (suc l.next) l.pending;
      timers = put (suc l.next) (suc l.next, type) l.timers;
    },
    sends_command ws (suc l.next) ∷ [],
  )
]

-- A command's timer fires; one that was cleared does not.
unfoldable pub timed_out : OtaconLink → ℕ → Out
timed_out l timer = elim (get timer l.timers) [
  | none ↦ (l, [])
  | some t ↦ (
    record l { pending = delete t.0 l.pending; timers = delete timer l.timers },
    settles t.0 (rejected (no_reply t.1)) ∷ [],
  )
]

-- A chunk of audio, named by a number, with its length in bytes.
unfoldable pub send_audio : OtaconLink → ℕ → ℕ → Out
send_audio l pcm bytes = elim (open_socket l) [
  | none ↦ (l, [])
  | some ws ↦ (l, if not (bytes == 0) then sends_audio ws pcm ∷ [] else [])
]

unfoldable pub mark : OtaconLink → Out
mark l = elim (open_socket l) [
  | none ↦ (l, cleared_at_once ∷ [])
  | some ws ↦ (
    record l { next = suc l.next; marks = put (suc l.next) tt l.marks },
    sends_mark ws (suc l.next) ∷ [],
  )
]

-- What `clear` makes of its command's reply.
unfoldable pub cleared_ms : Reply → ℕ
cleared_ms (resolved answer) = elim answer.dropped_ms [ none ↦ 0 | some ms ↦ ms ]
cleared_ms (rejected e) = 0
