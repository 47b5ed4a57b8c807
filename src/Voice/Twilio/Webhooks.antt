-- ===== src/Voice/Twilio/Webhooks.antt =====
-- twilio.ts: the call webhooks, the messages of a media stream, and audio towards the call.
use otacon.Prelude.{
  ℕ, ◌+◌, Bool, true, false, ◌&&◌, ◌||◌, not, Option, none, some, List, [], ◌∷◌, ◌++◌, map, String,
  ◌==◌, str_eq, if◌then◌else◌,
}
use otacon.Prelude.JsMap.{get, put, delete}
use otacon.Voice.Line.{CallState, Direction, dialing, alerting, active, LineCall, same_state}
use otacon.Voice.Twilio.{
  Reason, remote, busy, no_answer, failed, canceled, Leg, stream_only, reject, Effect,
  emit_incoming, emit_audio, mark_done, stream_ready, close_socket, send_media, send_mark,
  send_clear, answer_http, TwilioLine, Out, ◌then_do◌, write_leg, new_leg, set_state, end_leg,
  dropped, active_leg, listener_ended,
}

-- The tables STATUS and END_REASON.
unfoldable pub status_state : String → Option CallState
status_state s =
    if str_eq s "queued" || str_eq s "initiated"
    then some dialing
    else if str_eq s "ringing"
    then some alerting
    else if str_eq s "in-progress"
    then some active
    else none

unfoldable pub end_reason : String → Option Reason
end_reason s =
    if str_eq s "busy"
    then some busy
    else if str_eq s "no-answer"
    then some no_answer
    else if str_eq s "failed"
    then some failed
    else if str_eq s "canceled"
    then some canceled
    else none

-- The reason a status ends a call with, if it does.
unfoldable pub ends_with : String → Option Reason
ends_with status = if str_eq status "completed" then some remote else end_reason status

abbrev pub is_active : CallState → Bool
is_active state = same_state state active

-- A held call stays held; Twilio reports it in progress.
unfoldable pub report_state : TwilioLine → Leg → Option CallState → ℕ → Out
report_state l leg none now = (l, [])
report_state l leg (some state) now =
    if is_active state && leg.held then (l, []) else set_state l leg state now

unfoldable pub on_status : TwilioLine → ℕ → String → ℕ → Out
on_status l sid status now = elim (get sid l.listen_legs) [
  | some listener ↦ elim (ends_with status) [
    | none ↦ (l, [])
    | some reason ↦ listener_ended l listener reason
  ]
  | none ↦ elim (get sid l.legs) [
    | none ↦ (l, [])
    | some leg ↦ elim (ends_with status) [
      | some reason ↦ end_leg l leg reason
      | none ↦ report_state l leg (status_state status) now
    ]
  ]
]

abbrev pub incoming_call : ℕ → Option ℕ → ℕ → LineCall
incoming_call sid from now = record {
  id = sid;
  number = from;
  direction = Direction.incoming;
  state = CallState.incoming;
  conference = false;
  started_at = now;
  answered_at = none;
}

-- `sid` is none for a webhook without CallSid; `screened` is what `this.screen?.(from)` says.
unfoldable pub on_incoming : TwilioLine → Option ℕ → Option ℕ → Bool → ℕ → Out
on_incoming l none from screened now = (l, answer_http reject ∷ [])
on_incoming l (some sid) from screened now =
    if l.open_ && screened
    then (
      new_leg l (incoming_call sid from now),
      answer_http stream_only ∷ emit_incoming (incoming_call sid from now) ∷ [],
    )
    else (l, answer_http reject ∷ [])

abbrev close_old : Option ℕ → ℕ → List Effect
close_old none ws = []
close_old (some old) ws = if old == ws then [] else close_socket old ∷ []

-- A new stream takes over the leg: waiters of the old one are resolved at the end.
unfoldable pub attach : TwilioLine → Leg → ℕ → String → ℕ → Out
attach l leg ws stream_sid now =
    let leg' : Leg = record leg {
      ws = some ws;
      stream_sid = stream_sid;
      redirecting = false;
      on_stream = [];
    } in
    let m = record (write_leg l leg') { sockets = put ws leg.call.id l.sockets } in
    ((m, close_old leg.ws ws)
      then_do (λ k.
          if not leg.held && not (is_active leg.call.state)
          then set_state k leg' active now
          else (k, []))
      then_do λ k. (k, map stream_ready leg.on_stream))

unfoldable pub on_stream_start : TwilioLine → ℕ → ℕ → ℕ → String → ℕ → Out
on_stream_start l ws token sid stream_sid now = elim (token == l.stream_token) [
  | false ↦ (record l { sockets = delete ws l.sockets }, close_socket ws ∷ [])
  | true ↦ elim (get sid l.listen_legs) [
    | some listener ↦ (
      record l {
        listen_legs =
            put sid (record listener { ws = some ws; stream_sid = stream_sid }) l.listen_legs;
      },
      [],
    )
    | none ↦ elim (get sid l.legs) [
      | none ↦ (record l { sockets = delete ws l.sockets }, close_socket ws ∷ [])
      | some leg ↦ attach l leg ws stream_sid now
    ]
  ]
]

-- The leg that the socket's closure holds, while it is in the map.
unfoldable pub socket_leg : TwilioLine → ℕ → Option Leg
socket_leg l ws = elim (get ws l.sockets) [ none ↦ none | some id ↦ get id l.legs ]

abbrev pub holds_socket : Option ℕ → ℕ → Bool
holds_socket none ws = false
holds_socket (some w) ws = w == ws

abbrev pub is_leg : Option Leg → ℕ → Bool
is_leg none id = false
is_leg (some a) id = a.call.id == id

-- `outbound` is whether the message's track is Twilio's copy of our own audio.
unfoldable pub on_media : TwilioLine → ℕ → Bool → List ℕ → Out
on_media l ws outbound payload = elim (socket_leg l ws) [
  | none ↦ (l, [])
  | some leg ↦
      if holds_socket leg.ws ws
        && (not leg.held && (is_leg (active_leg l.legs) leg.call.id && not outbound))
      then (l, emit_audio leg.call.id payload ∷ [])
      else (l, [])
]

abbrev pub has_mark : ℕ → List ℕ → Bool
has_mark name [] = false
has_mark name (m ∷ ms) = m == name || has_mark name ms

abbrev pub remove_mark : ℕ → List ℕ → List ℕ
remove_mark name [] = []
remove_mark name (m ∷ ms) = if m == name then ms else m ∷ remove_mark name ms

unfoldable pub on_mark : TwilioLine → ℕ → ℕ → Out
on_mark l ws name = elim (socket_leg l ws) [
  | none ↦ (l, [])
  | some leg ↦
      if has_mark name leg.marks
      then (
        write_leg l (record leg { marks = remove_mark name leg.marks }),
        mark_done name false ∷ [],
      )
      else (l, [])
]

-- A redirect (key press, merge) replaces the stream; otherwise the call is over.
unfoldable pub on_stop : TwilioLine → ℕ → Out
on_stop l ws = elim (socket_leg l ws) [
  | none ↦ (l, [])
  | some leg ↦
      if holds_socket leg.ws ws && (not leg.redirecting && not leg.call.conference)
      then end_leg l leg remote
      else (l, [])
]

unfoldable pub on_close : TwilioLine → ℕ → Out
on_close l ws = elim (socket_leg l ws) [
  | none ↦ (l, [])
  | some leg ↦
      if holds_socket leg.ws ws
      then (write_leg l (record leg { ws = none; stream_sid = "" }), [])
      else (l, [])
]

-- The socket and stream that audio for the other party goes to. `encode` is the leg's codec.
abbrev pub stream_of : Leg → Option (ℕ × String)
stream_of leg = elim leg.ws [
  | none ↦ none
  | some ws ↦ if str_eq leg.stream_sid "" then none else some (ws, leg.stream_sid)
]

abbrev pub speaking_stream : Option Leg → Option (ℕ × String)
speaking_stream none = none
speaking_stream (some leg) = if leg.redirecting then none else stream_of leg

abbrev is_empty : List ℕ → Bool
is_empty [] = true
is_empty (_ ∷ _) = false

unfoldable pub send_audio : TwilioLine → (List ℕ → List ℕ) → List ℕ → Out
send_audio l encode pcm = elim (speaking_stream (active_leg l.legs)) [
  | none ↦ (l, [])
  | some (ws, sid) ↦
      if is_empty pcm || is_empty (encode pcm)
      then (l, [])
      else (l, send_media ws sid (encode pcm) ∷ [])
]

-- With no stream the promise resolves at once, as cleared; its name is 0.
unfoldable pub mark : TwilioLine → Out
mark l = elim (active_leg l.legs) [
  | none ↦ (l, mark_done 0 true ∷ [])
  | some leg ↦ elim (speaking_stream (some leg)) [
    | none ↦ (l, mark_done 0 true ∷ [])
    | some (ws, sid) ↦ (
      write_leg (record l { next_mark = l.next_mark + 1 })
          (record leg { marks = leg.marks ++ (l.next_mark + 1) ∷ [] }),
      send_mark ws sid (l.next_mark + 1) ∷ [],
    )
  ]
]

abbrev cleared_on : Option (ℕ × String) → List Effect
cleared_on none = []
cleared_on (some (ws, sid)) = send_clear ws sid ∷ []

unfoldable pub clear : TwilioLine → Out
clear l = elim (active_leg l.legs) [
  | none ↦ (l, [])
  | some leg ↦ (write_leg l (record leg { marks = [] }), cleared_on (stream_of leg) ++ dropped leg)
]
