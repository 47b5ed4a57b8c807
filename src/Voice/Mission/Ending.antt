-- ===== src/Voice/Mission/Ending.antt =====
-- call.ts, the end of a mission: lines that end, `finish` with its awaits, the last words, and a merged
-- call that goes on alone.
use mathlib.Core.List.{reverse}
use otacon.Prelude.{
  ℕ, zero, suc, Bool, true, false, ◌&&◌, ◌||◌, not, Option, none, some, List, [], ◌∷◌, ◌++◌, length,
  leb, find, ◌==◌, if◌then◌else◌,
}
use otacon.Voice.Line.{CallState, ended}
use otacon.Voice.CallAudio.{Resampling, model_hears}
use otacon.Voice.Mission.{
  Outcome, completed, handed_off, ended_by_agent, error, Line, EndReason, local, Note, hung_up_line,
  hung_up_party, EndNote, hangup, back_with, call_over, Effect, command, note_to, resume_then_tell,
  sound, close_session, report, Finishing, not_finishing, hanging_up, last_words, closing,
  live_lines, is_call, set_state, call_ids, hangup_all, CallMission, and_then, note, stop_listeners,
  stop_navigator, report_of, Summary, closed_unexpectedly, event, LogEntry,
}

-- A second of silence, 16 kHz.
abbrev pub silence_bytes : ℕ
silence_bytes = 32_000

abbrev pub zeros : ℕ → List ℕ
zeros zero = []
zeros (suc n) = 0 ∷ zeros n

abbrev pub is_nil : List Line → Bool
is_nil [] = true
is_nil (l ∷ ls) = false

-- `outcome !== "handed_off"`
abbrev pub leaves_lines : Outcome → Bool
leaves_lines handed_off = true
leaves_lines o = false

abbrev pub or_before : Option Summary → Option Summary → Option Summary
or_before none old = old
or_before (some s) old = some s

abbrev pub to_list : Option EndNote → List EndNote
to_list none = []
to_list (some e) = e ∷ []

-- The log with the notes that were held back.
abbrev pub log_notes : ℕ → List LogEntry → List EndNote → List LogEntry
log_notes now log [] = log
log_notes now log (e ∷ es) =
    log_notes now (log ++ record { t = now; line = some e.line; said = event e.text } ∷ []) es

abbrev pub held_back : Option (List EndNote) → List EndNote
held_back none = []
held_back (some es) = es

module _ (resampling : Resampling) where
  abbrev Mission : Type 0
  Mission = CallMission resampling

  abbrev Next : Type 0
  Next = Mission × List Effect

  -- `finish` up to the end of the session: what waits for the last words goes in the log.
  abbrev pub words_over : Mission → Next
  words_over m = (
    record m {
      flushing = false;
      log = log_notes m.now m.log (held_back m.end_notes);
      end_notes = none;
      finishing = closing;
    },
    if m.audio.has_session then close_session ∷ [] else [],
  )

  -- `lastWords`: the model is told, and hears a second of silence.
  unfoldable pub wait_last_words : Mission → Next
  wait_last_words m =
      let (out, r) = resampling.process m.audio.to_model (zeros silence_bytes) in
      if m.audio.has_session
      then (
        record m {
          flushing = true;
          finishing = last_words;
          audio = record m.audio { to_model = r };
        },
        note_to call_over ∷ sound (model_hears out) ∷ [],
      )
      else words_over m

  -- The loop of hang-ups, each awaited.
  abbrev pub hang_up_next : Mission → List ℕ → Bool → Next
  hang_up_next m (id ∷ ids) wait =
      (record m { finishing = hanging_up ids wait }, command (hangup id) ∷ [])
  hang_up_next m [] true = wait_last_words m
  hang_up_next m [] false = words_over m

  abbrev pub hold_back : Mission → EndNote → Option (List EndNote) → Mission
  hold_back m e none = note resampling m e.text (some e.line)
  hold_back m e (some es) = record m { end_notes = some (es ++ e ∷ []) }

  -- A mission that is over, or goes on without us, only notes how a line ended.
  abbrev pub late_note : Mission → Option EndNote → Mission
  late_note m none = m
  late_note m (some e) = hold_back m e m.end_notes

  -- `finish` past its guard, up to its first await.
  unfoldable pub begin_finish : Mission → Outcome → Option Summary → Bool → Option EndNote → Next
  begin_finish m outcome summary wait end_note =
      and_then resampling
        (and_then resampling
          (stop_navigator resampling (record m {
            ended = true;
            outcome = outcome;
            finish_outcome = outcome;
            summary = or_before summary m.summary;
          }))
          (stop_listeners resampling))
        (λ b.
          hang_up_next (record b { end_notes = some (to_list end_note) })
            (if leaves_lines outcome then [] else reverse (call_ids (live_lines b.lines))) wait)

  unfoldable pub finish : Mission → Outcome → Option Summary → Bool → Option EndNote → Next
  finish m outcome summary wait end_note =
      if m.ended || m.detached
      then (late_note m end_note, [])
      else begin_finish m outcome summary wait end_note

  -- The line has answered a hang-up of `finish`, well or badly.
  abbrev pub hung_up : Finishing → Mission → Next
  hung_up (hanging_up ids wait) m = hang_up_next m ids wait
  hung_up _ m = (m, [])

  -- The last words have been heard, or have not come in time.
  abbrev pub heard_last : Finishing → Mission → Next
  heard_last last_words m = words_over m
  heard_last _ m = (m, [])

  -- The session has closed: the end of `finish`.
  abbrev pub session_closed : Finishing → Mission → Next
  session_closed closing m =
      let b : Mission = record m {
        finishing = not_finishing;
        attached = m.attached && leaves_lines m.finish_outcome;
      } in
      (b, report (report_of resampling b) ∷ [])
  session_closed _ m = (m, [])

  -- `checkMergedCall`, with the number of the line's calls that are in the conference.
  unfoldable pub check_merged : Mission → ℕ → Next
  check_merged m conference =
      let left = live_lines m.lines in
      if (leb (length left) 1 || leb conference 1) && not m.ended
      then (record m { ended = true; attached = false }, hangup_all (call_ids left))
      else (m, [])

  -- The party we were talking to left: back to whoever is on hold.
  abbrev pub back_to : Mission → Line → EndReason → List Line → Next
  back_to m l reason [] = (m, [])
  back_to m l reason (other ∷ ls) = (
    record m { active = some other.n },
    resume_then_tell (back_with l.party.name l.n reason other.party.name other.n) ∷ [],
  )

  abbrev pub by_agent : Outcome → Outcome
  by_agent ended_by_agent = ended_by_agent
  by_agent o = completed

  unfoldable pub on_line_ended : Mission → Line → EndReason → Note → ℕ → Next
  on_line_ended m l reason text conference =
      let left = live_lines m.lines in
      let b = note resampling m text (some l.n) in
      elim m.active [
        | none ↦ (b, [])
        | some a ↦
            if not m.detached && is_nil left
            then finish m (by_agent m.outcome) none true (some (record { text = text; line = l.n }))
            else if m.detached
            then check_merged b conference
            else if l.n == a
            then back_to b l reason left
            else (b, [])
      ]

  abbrev pub end_text : Line → EndReason → Note
  end_text l local = hung_up_line l.n
  end_text l reason = hung_up_party l.party.name reason

  -- A "call" event: `none` stands for an end, with its reason.
  abbrev pub call_changed : Mission → Option Line → Option CallState → EndReason → ℕ → Next
  call_changed m none state reason conference = (m, [])
  call_changed m (some l) none reason conference =
      on_line_ended (record m { lines = set_state m.lines l.n ended }) l reason (end_text l reason)
        conference
  call_changed m (some l) (some s) reason conference =
      let b : Mission = record m { lines = set_state m.lines l.n s } in
      if m.detached then check_merged b conference else (b, [])

  unfoldable pub on_call_event : Mission → ℕ → Option CallState → EndReason → ℕ → Next
  on_call_event m id state reason conference =
      if m.attached
      then call_changed m (find (is_call id) m.lines) state reason conference
      else (m, [])

  -- The model's session has closed by itself.
  unfoldable pub on_session_close : Mission → Next
  on_session_close m =
      if m.ended || m.detached
      then (m, [])
      else finish m error (some closed_unexpectedly) false none
