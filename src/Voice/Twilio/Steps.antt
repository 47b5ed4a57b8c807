-- ===== src/Voice/Twilio/Steps.antt =====
-- Every handler of a Twilio line as one step, and the runs that they make.
use otacon.Prelude.{ℕ, ◌≢◌, Bool, false, Option, none, List, [], String}
use otacon.Prelude.JsMap.{get}
use otacon.Voice.Twilio.{TwilioLine, Out, checked, stop}
use otacon.Voice.Twilio.Commands.{
  Ran, dial, dialed, answer, hangup, redirect_failed, dtmf, hold, resume, swap, merge, merge_joined,
}
use otacon.Voice.Twilio.Webhooks.{
  on_status, on_incoming, on_stream_start, on_media, on_mark, on_stop, on_close, send_audio, mark,
  clear,
}
use otacon.Voice.Twilio.Listeners.{
  listen, listening, listener_on_end, listener_hang_up, listener_hung_up, listener_closed,
}

pub data Input : Type 0 where
  checks : Bool → Input
  stops : Input
  dials : ℕ → Input
  places : ℕ → ℕ → ℕ → Input
  answers : ℕ → ℕ → Input
  hangs_up : ℕ → Input
  refuses_redirect : ℕ → Input
  presses : List ℕ → Input
  holds : ℕ → Input
  resumes : ℕ → Input
  swaps : ℕ → Input
  merges : Input
  joins : ℕ → List ℕ → Input
  reports : ℕ → String → ℕ → Input
  calls_in : Option ℕ → Option ℕ → Bool → ℕ → Input
  streams : ℕ → ℕ → ℕ → String → ℕ → Input
  hears : ℕ → Bool → List ℕ → Input
  reaches : ℕ → ℕ → Input
  stream_stops : ℕ → Input
  socket_closes : ℕ → Input
  speaks : (List ℕ → List ℕ) → List ℕ → Input
  marks : Input
  clears : Input
  listens : ℕ → Input
  listens_at : ℕ → Input
  watches_listener : ℕ → ℕ → Input
  drops_listener : ℕ → Input
  dropped_listener : ℕ → Input
  listener_closes : ℕ → Input

abbrev out_of : Ran → Out
out_of (l, es, r) = (l, es)

unfoldable pub handle : TwilioLine → Input → Out
handle l (checks answered) = (checked l answered, [])
handle l stops = stop l
handle l (dials to) = out_of (dial l to)
handle l (places sid to now) = out_of (dialed l sid to now)
handle l (answers id waiter) = out_of (answer l id waiter)
handle l (hangs_up id) = out_of (hangup l id)
handle l (refuses_redirect id) = (redirect_failed l id, [])
handle l (presses digits) = out_of (dtmf l digits)
handle l (holds now) = out_of (hold l now)
handle l (resumes now) = out_of (resume l now)
handle l (swaps now) = out_of (swap l now)
handle l merges = out_of (merge l)
handle l (joins id rest) = out_of (merge_joined l id rest)
handle l (reports sid status now) = on_status l sid status now
handle l (calls_in sid from screened now) = on_incoming l sid from screened now
handle l (streams ws token sid stream_sid now) = on_stream_start l ws token sid stream_sid now
handle l (hears ws outbound payload) = on_media l ws outbound payload
handle l (reaches ws name) = on_mark l ws name
handle l (stream_stops ws) = on_stop l ws
handle l (socket_closes ws) = on_close l ws
handle l (speaks encode pcm) = send_audio l encode pcm
handle l marks = mark l
handle l clears = clear l
handle l (listens to) = out_of (listen l to)
handle l (listens_at sid) = (listening l sid, [])
handle l (watches_listener sid f) = (listener_on_end l sid f, [])
handle l (drops_listener sid) = listener_hang_up l sid
handle l (dropped_listener sid) = listener_hung_up l sid
handle l (listener_closes sid) = listener_closed l sid

-- A merge's loop goes on with a leg that is still up.
abbrev pub Timely : TwilioLine → Input → Type 0
Timely l (joins id rest) = get id l.legs ≢ none
Timely l _ = Unit

-- A new line: nothing is up, and Twilio has not answered yet.
unfoldable pub new_line : ℕ → TwilioLine
new_line token = record {
  open_ = false;
  stream_token = token;
  legs = [];
  calls = [];
  gone = [];
  listen_legs = [];
  sockets = [];
  next_mark = 0;
}

pub data Reach (l : TwilioLine) : TwilioLine → Type 0 where
  here : Reach l l
  next : {m : TwilioLine} (i : Input) → Reach l m → Timely m i → Reach l (handle m i).0
