-- ===== src/Voice/Mission/Start.antt =====
-- call.ts: how a mission starts, cut at its awaits, and what it makes of transcripts, the navigator's
-- actions, listeners and the line's and the model's audio.
use otacon.Prelude.{
  ℕ, Bool, true, false, ◌&&◌, ◌||◌, not, Option, none, some, List, [], ◌∷◌, String, find, ◌==◌,
  if◌then◌else◌, keep,
}
use otacon.Voice.Line.{CallState, active, ended}
use otacon.Voice.LineSound.{Sound}
use otacon.Voice.Navigator.Check.{HangUpReason, goal_done, no_way, hold_limit}
use otacon.Voice.CallAudio.{
  Resampling, CallAudio, AudioEffect, on_downlink, on_line_sound, on_model_audio, on_clear_audio,
  add_listener,
}
use otacon.Voice.Mission.{
  Outcome, completed, no_answer, failed, hold_cap, Party, Line, dialing_number, answering_number,
  ended_unanswered, no_answer_in_time, answered, started_listening, stopped_listening,
  navigator_pressed, navigator_listens, navigator_handed_off, navigator_hung_up, dial, answer,
  hangup, greet, navigator_did, navigator_done, Effect, command, tell, note_to, listener_hangs_up,
  navigator_hears, could_not_place, menu_hung_up, say, hear, CallMission, and_then, note, log_entry,
  add_line, stop_navigator, is_number, sounds,
}
use otacon.Voice.Mission.Ending.{finish, heard_last}

abbrev pub set_first : List Line → CallState → List Line
set_first [] s = []
set_first (l ∷ ls) s = record l { state = s } ∷ ls

abbrev pub active_line : Option ℕ → List Line → Option Line
active_line none lines = none
active_line (some a) lines = find (is_number a) lines

abbrev pub line_number : Option Line → Option ℕ
line_number none = none
line_number (some l) = some l.n

abbrev pub outcome_of : HangUpReason → Outcome
outcome_of goal_done = completed
outcome_of hold_limit = hold_cap
outcome_of no_way = failed

abbrev pub other_id : ℕ → ℕ → Bool
other_id id other = not (other == id)

abbrev pub has_id : ℕ → List ℕ → Bool
has_id id [] = false
has_id id (x ∷ xs) = (x == id) || has_id id xs

module _ (resampling : Resampling) where
  abbrev Mission : Type 0
  Mission = CallMission resampling

  abbrev Next : Type 0
  Next = Mission × List Effect

  -- `start`, for a call we place.
  unfoldable pub start_outbound : Mission → Party → Next
  start_outbound m party =
      (note resampling m (dialing_number party.number) (some 1), command (dial party.number) ∷ [])

  unfoldable pub start_inbound : Mission → ℕ → Party → Next
  start_inbound m id party =
      (note resampling m (answering_number party.number) (some 1), command (answer id) ∷ [])

  -- The call is answered: the model may start.
  abbrev pub go_active : Mission → Mission
  go_active m = record m { active = some 1; lines = set_first m.lines active }

  -- What the wait for an answer gives: the call's state, or nothing in time.
  unfoldable pub waited : Mission → ℕ → Option CallState → Next
  waited m id (some active) = (go_active (note resampling m answered (some 1)), [])
  waited m id (some ended) =
      finish resampling (note resampling m ended_unanswered (some 1)) no_answer none false none
  waited m id none =
      finish resampling (note resampling m no_answer_in_time (some 1)) no_answer none false none
  waited m id (some s) = (note resampling m no_answer_in_time (some 1), command (hangup id) ∷ [])

  -- That hang-up has been answered, well or badly.
  unfoldable pub not_answered : Mission → Next
  not_answered m = finish resampling m no_answer none false none

  unfoldable pub answered_in : Mission → ℕ → CallState → Party → Mission
  answered_in m id state party = go_active (add_line resampling m id state party)

  unfoldable pub start_failed : Mission → String → Next
  start_failed m why =
      finish resampling (record m { summary = some (could_not_place why) }) failed none false none

  -- `startModel`: the session is there, and then it is connected. `menu`: the mission has a navigator's
  -- parts and placed the call; `greeting`: it took the call and is to greet.
  unfoldable pub session_made : Mission → Bool → Mission
  session_made m live = record m { audio = record m.audio { has_session = true }; live = live }

  unfoldable pub session_connected : Mission → Bool → Bool → Next
  session_connected m menu greeting =
      let b : Mission = record m { audio = record m.audio { navigating = true } } in
      (
        if menu then note resampling b navigator_listens m.active else m,
        if greeting then tell greet ∷ [] else [],
      )

  -- A transcript, of the assistant or of the other side: `text` is trimmed, and `blank` if nothing is left.
  -- Who spoke follows from the line.
  abbrev pub log_said : Mission → Bool → String → Mission
  log_said m true text =
      log_entry resampling m (line_number (active_line m.active m.lines)) (say text)
  log_said m false text =
      log_entry resampling m (line_number (active_line m.active m.lines)) (hear text)

  unfoldable pub on_transcript : Mission → Bool → Bool → Bool → String → Next
  on_transcript m by_assistant final blank text =
      let b = log_said m by_assistant text in
      if not final || blank || (by_assistant && m.flushing)
      then (m, [])
      else if by_assistant
      then (b, if m.audio.navigating then navigator_hears text ∷ [] else [])
      else heard_last resampling m.finishing b

  -- The navigator's press has been sent; a failed one leaves no trace.
  unfoldable pub navigator_press_sent : Mission → Bool → String → Next
  navigator_press_sent m ok keys =
      if ok
      then (note resampling m (navigator_pressed keys) m.active, note_to navigator_did ∷ [])
      else (m, [])

  unfoldable pub navigator_hangs_up : Mission → HangUpReason → Next
  navigator_hangs_up m reason =
      finish resampling (note resampling m (navigator_hung_up reason) m.active) (outcome_of reason)
        (some (menu_hung_up reason)) true none

  unfoldable pub navigator_hands_off : Mission → Next
  navigator_hands_off m =
      and_then resampling (stop_navigator resampling m)
        (λ b. (note resampling b navigator_handed_off b.active, note_to navigator_done ∷ []))

  -- Someone listens in, by the id of their call.
  unfoldable pub add_listener_to : Mission → ℕ → Next
  add_listener_to m id = if m.ended || m.detached then (m, listener_hangs_up id ∷ []) else (
    note resampling (record m { audio = add_listener resampling m.audio id }) (started_listening id)
        m.active,
    [],
  )

  unfoldable pub listener_left : Mission → ℕ → Mission
  listener_left m id =
      let b : Mission = record m {
        audio = record m.audio { listeners = keep (other_id id) m.audio.listeners };
      } in
      if not (has_id id m.audio.listeners)
      then m
      else if m.ended
      then b
      else note resampling b (stopped_listening id) m.active

  -- What the audio of a mission does, with the mission's flags.
  abbrev pub with_audio : Mission → CallAudio resampling × List AudioEffect → Next
  with_audio m (a, es) = (record m { audio = a }, sounds es)

  abbrev pub is_up : Mission → Bool
  is_up m = not (m.ended || m.detached)

  abbrev pub is_some : Option ℕ → Bool
  is_some none = false
  is_some (some a) = true

  unfoldable pub downlink : Mission → List ℕ → Next
  downlink m pcm = with_audio m (on_downlink resampling m.audio (is_up m && is_some m.active) pcm)

  unfoldable pub line_sound : Mission → Option Sound → Next
  line_sound m heard = with_audio m (on_line_sound resampling m.audio heard m.detached)

  unfoldable pub model_audio : Mission → ℕ → List ℕ → Next
  model_audio m id audio =
      with_audio m (on_model_audio resampling m.audio (is_up m) m.live id m.now audio)

  unfoldable pub clear_audio : Mission → Next
  clear_audio m = with_audio m (on_clear_audio resampling m.audio)
