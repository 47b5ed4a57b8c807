-- ===== src/Voice/Mission/Tools.antt =====
-- call.ts: the tools of the voice model, the line actions of the agent, and what waits until the model
-- has spoken the agent's answer.
use otacon.Prelude.{
  ℕ, zero, suc, ◌+◌, ◌-◌, Bool, true, false, ◌&&◌, ◌||◌, Option, none, some, List, [], ◌∷◌, String,
  ltb, str_eq, if◌then◌else◌,
}
use otacon.Voice.CallAudio.{Resampling}
use otacon.Voice.Mission.{
  Outcome, completed, failed, pressed_keys, assistant_ended, dtmf, Effect, command,
  navigator_sees_press, mark_then_merge, told, CallMission, note,
}
use otacon.Voice.Mission.Ending.{finish}
use otacon.Voice.Mission.Parties.{
  Reply, waiting, ending, the_call_has_ended, call_party, switch_line, drop_line, connect_lines,
}

-- The tools that act on the call.
pub data Tool : Type 0 where
  send_dtmf : String → Tool
  end_call : String → String → Tool
  to_party : Bool → Tool
  to_line drop : ℕ → Tool
  connect : Tool

-- What runs once the model has spoken.
pub data Action : Type 0 where
  goodbye : Action
  merge_lines : ℕ → ℕ → Action

-- What a poll sees: the time, when the model last spoke, and whether the call is over.
pub record Seen : Type 0 where
  pub now : ℕ
  pub speech_at : ℕ
  pub over : Bool

pub data Polled : Type 0 where
  gives_up runs polls_again : Polled

abbrev pub outcome_of : String → Outcome
outcome_of o = if str_eq o "done" || str_eq o "voicemail" then completed else failed

-- `poll`, once.
unfoldable pub poll : ℕ → Seen → Polled
poll since s =
    if s.over
    then gives_up
    else if (ltb since s.speech_at && ltb 1200 (s.now - s.speech_at)) || ltb (since + 15_000) s.now
    then runs
    else polls_again

abbrev pub poll_next : Polled → Option (ℕ × Polled) → ℕ → Option (ℕ × Polled)
poll_next polls_again later k = later
poll_next p later k = some (k, p)

-- The polls from the `k`th, by what each sees: the one that is the last, and what comes of it.
unfoldable pub poll_from : ℕ → ℕ → (ℕ → Seen) → ℕ → Option (ℕ × Polled)
poll_from zero since seen k = none
poll_from (suc fuel) since seen k =
    poll_next (poll since (seen k)) (poll_from fuel since seen (suc k)) k

module _ (resampling : Resampling) where
  abbrev Mission : Type 0
  Mission = CallMission resampling

  abbrev Next : Type 0
  Next = Mission × List Effect

  -- The line has sent the keys.
  unfoldable pub keys_pressed : Mission → String → Next
  keys_pressed m keys = (
    note resampling m (pressed_keys keys) m.active,
    if m.audio.navigating then navigator_sees_press keys ∷ [] else [],
  )

  unfoldable pub set_ending : Mission → String → String → Mission
  set_ending m outcome summary = record (note resampling m (assistant_ended outcome) m.active) {
    summary = some (told summary);
    outcome = outcome_of outcome;
  }

  -- The goodbye has been played, or has taken too long.
  unfoldable pub end_call_now : Mission → Next
  end_call_now m = finish resampling m m.outcome m.summary true none

  -- A tool up to its first await. `by_agent`: it is the agent's line action, whose end waits.
  abbrev pub use_tool : Mission → Bool → Tool → Mission × List Effect × Reply
  use_tool m by_agent (send_dtmf keys) = (m, command (dtmf keys) ∷ [], waiting)
  use_tool m true (end_call outcome summary) =
      (record (set_ending m outcome summary) { after_answer = true }, [], ending)
  use_tool m false (end_call outcome summary) = (set_ending m outcome summary, [], ending)
  use_tool m by_agent (to_party allowed) = call_party resampling m allowed
  use_tool m by_agent (to_line n) = switch_line resampling m n
  use_tool m by_agent (drop n) = drop_line resampling m n
  use_tool m by_agent connect = connect_lines resampling m

  unfoldable pub on_tool_call : Mission → Tool → Mission × List Effect × Reply
  on_tool_call m tool = use_tool m false tool

  unfoldable pub line_action : Mission → Tool → Mission × List Effect × Reply
  line_action m tool =
      if m.ended || m.detached then (m, [], the_call_has_ended) else use_tool m true tool

  -- `afterSpokenAnswer`: what its polls will run.
  abbrev pub waiting_action : Bool → Option (ℕ × ℕ) → Option Action
  waiting_action true merging = some goodbye
  waiting_action false none = none
  waiting_action false (some (other, current)) = some (merge_lines other current)

  unfoldable pub after_spoken_answer : Mission → Mission × Option Action
  after_spoken_answer m = (
    record m { after_answer = false; pending_merge = none },
    waiting_action m.after_answer m.pending_merge,
  )

  -- A goodbye runs once it has been played, or has taken too long.
  unfoldable pub run_action : Mission → Action → Next
  run_action m goodbye = if m.ended then (m, []) else end_call_now m
  run_action m (merge_lines other current) = (m, mark_then_merge other current ∷ [])
