-- ===== src/Voice/Mission.antt =====
-- call.ts: a call mission, its state and what its handlers share. Its audio is in Voice/CallAudio.
-- Texts that the code puts together are constructors, names and answers of others are strings, and
-- ids, telephone numbers and times are opaque numbers.
pub mod Ending
pub mod Start
pub mod Parties
pub mod Tools
pub mod Steps
pub mod Once
pub mod Spending
pub mod Handled
pub mod Reported
pub mod Finished
pub mod Back
pub mod Poll
mod Tests
use otacon.Prelude.{
  ℕ, suc, ◌+◌, ◌-◌, Bool, true, false, ◌&&◌, ◌||◌, not, Option, none, some, List, [], ◌∷◌, ◌++◌,
  String, length, keep, find, ◌==◌, if◌then◌else◌,
}
use otacon.Voice.Line.{CallState, ended, active, held, dialing, alerting, is_ended}
use otacon.Voice.Navigator.Check.{HangUpReason}
use otacon.Voice.CallAudio.{Resampling, CallAudio, AudioEffect, new_audio, unmute}

pub data Outcome : Type 0 where
  completed no_answer failed hold_cap max_duration handed_off ended_by_agent error : Outcome

pub record Party : Type 0 where
  pub name : String
  pub number : ℕ
  pub is_primary : Bool

pub record Line : Type 0 where
  pub n : ℕ
  pub call_id : ℕ
  pub party : Party
  pub state : CallState

pub data EndReason : Type 0 where
  local remote other_reason : EndReason

-- What the log says happened.
pub data Note : Type 0 where
  dialing_number answering_number : ℕ → Note
  ended_unanswered no_answer_in_time answered : Note
  hung_up_line : ℕ → Note
  hung_up_party : String → EndReason → Note
  started_listening stopped_listening : ℕ → Note
  pressed_keys navigator_pressed : String → Note
  navigator_listens navigator_handed_off : Note
  navigator_hung_up : HangUpReason → Note
  assistant_ended : String → Note
  calling_party : String → String → ℕ → Note
  party_answered switched_to hung_up_on : String → Note
  party_silent joined : String → String → Note

pub data Said : Type 0 where
  say hear : String → Said
  event : Note → Said

pub record LogEntry : Type 0 where
  pub t : ℕ
  pub line : Option ℕ
  pub said : Said

pub data Summary : Type 0 where
  told could_not_place : String → Summary
  menu_hung_up : HangUpReason → Summary
  connected_parties : String → String → Summary
  closed_unexpectedly : Summary

pub record MissionReport : Type 0 where
  pub outcome : Outcome
  pub summary : Option Summary
  pub log : List LogEntry

pub record EndNote : Type 0 where
  pub text : Note
  pub line : ℕ

-- The line's commands.
pub data Command : Type 0 where
  dial answer hangup : ℕ → Command
  dtmf : String → Command
  hold resume swap merge : Command

-- What the model is told, to answer (`say`) or only to know (`silentNote`).
pub data Message : Type 0 where
  back_with : String → ℕ → EndReason → String → ℕ → Message
  could_not_join : ℕ → Message
  greet call_over navigator_did navigator_done : Message

pub data Effect : Type 0 where
  command : Command → Effect
  tell note_to : Message → Effect
  resume_then_tell : Message → Effect
  sound : AudioEffect → Effect
  listener_hangs_up : ℕ → Effect
  navigator_stops : Effect
  navigator_hears navigator_sees_press : String → Effect
  mark_then_merge : ℕ → ℕ → Effect
  close_session : Effect
  report : MissionReport → Effect

-- Where the asynchronous `finish` waits: for the line's answer to a hang-up, with the calls that are
-- left and whether it then waits for the last words; for these; or for the session to close.
pub data Finishing : Type 0 where
  not_finishing : Finishing
  hanging_up : List ℕ → Bool → Finishing
  last_words closing : Finishing

abbrev pub is_live : Line → Bool
is_live l = not (is_ended l.state)

abbrev pub live_lines : List Line → List Line
live_lines lines = keep is_live lines

abbrev pub is_call : ℕ → Line → Bool
is_call id l = l.call_id == id

abbrev pub is_number : ℕ → Line → Bool
is_number n l = l.n == n

abbrev pub is_active : Option ℕ → ℕ → Bool
is_active none n = false
is_active (some a) n = a == n

-- `line.state = state`, for the line of a number.
unfoldable pub set_state : List Line → ℕ → CallState → List Line
set_state [] n s = []
set_state (l ∷ ls) n s = if l.n == n then record l { state = s } ∷ ls else l ∷ set_state ls n s

abbrev pub call_ids : List Line → List ℕ
call_ids [] = []
call_ids (l ∷ ls) = l.call_id ∷ call_ids ls

abbrev pub sounds : List AudioEffect → List Effect
sounds [] = []
sounds (e ∷ es) = sound e ∷ sounds es

abbrev pub hang_ups : List ℕ → List Effect
hang_ups [] = []
hang_ups (id ∷ ids) = listener_hangs_up id ∷ hang_ups ids

-- The hang-ups of a list of calls.
abbrev pub hangup_all : List ℕ → List Effect
hangup_all [] = []
hangup_all (id ∷ ids) = command (hangup id) ∷ hangup_all ids

module _ (resampling : Resampling) where
  -- `now` is the time since the mission started, which every input sets. `attached`: the handlers of
  -- the line's events are not yet detached. A merge waits with the two lines' numbers, and
  -- `leaving` is set while a merged mission waits for its session to close, and `finish_outcome` is
  -- the argument of the `finish` that is under way.
  pub record CallMission : Type 0 where
    pub now : ℕ
    pub lines : List Line
    pub active : Option ℕ
    pub ended : Bool
    pub outcome : Outcome
    pub summary : Option Summary
    pub log : List LogEntry
    pub attached : Bool
    pub detached : Bool
    pub flushing : Bool
    pub end_notes : Option (List EndNote)
    pub pending_merge : Option (ℕ × ℕ)
    pub after_answer : Bool
    pub leaving : Bool
    pub live : Bool
    pub finishing : Finishing
    pub finish_outcome : Outcome
    pub audio : CallAudio resampling

  abbrev pub new_mission : CallMission
  new_mission = record {
    now = 0;
    lines = [];
    active = none;
    ended = false;
    outcome = completed;
    summary = none;
    log = [];
    attached = true;
    detached = false;
    flushing = false;
    end_notes = none;
    pending_merge = none;
    after_answer = false;
    leaving = false;
    live = false;
    finishing = not_finishing;
    finish_outcome = completed;
    audio = new_audio resampling;
  }

  abbrev pub Next : Type 0
  Next = CallMission × List Effect

  abbrev pub log_entry : CallMission → Option ℕ → Said → CallMission
  log_entry m line said = record m {
    log = m.log ++ record { t = m.now; line = line; said = said } ∷ [];
  }

  abbrev pub note : CallMission → Note → Option ℕ → CallMission
  note m text line = log_entry m line (event text)

  abbrev pub and_then : Next → (CallMission → Next) → Next
  and_then (m, es) f = let (m', fs) = f m in (m', es ++ fs)

  unfoldable pub add_line : CallMission → ℕ → CallState → Party → CallMission
  add_line m id state party = record m {
    lines =
        m.lines
        ++ record { n = suc (length m.lines); call_id = id; party = party; state = state } ∷ [];
  }

  unfoldable pub stop_listeners : CallMission → Next
  stop_listeners m = (m, hang_ups m.audio.listeners)

  unfoldable pub stop_navigator : CallMission → Next
  stop_navigator m =
      let (a, es) = unmute resampling m.audio m.detached in
      (
        record m { audio = record a { navigating = false } },
        sounds es ++ (if m.audio.navigating then navigator_stops ∷ [] else []),
      )

  abbrev pub report_of : CallMission → MissionReport
  report_of m = record { outcome = m.outcome; summary = m.summary; log = m.log }
