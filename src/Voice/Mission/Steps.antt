-- ===== src/Voice/Mission/Steps.antt =====
-- Everything that can happen to a mission, as one step: events, timers, and the answers to what its
-- handlers await. The continuation of an await comes with whatever it was given.
use otacon.Prelude.{ℕ, Bool, true, Option, none, List, [], ◌∷◌, ◌++◌, String}
use otacon.Voice.Line.{CallState}
use otacon.Voice.LineSound.{Sound}
use otacon.Voice.Navigator.Check.{HangUpReason}
use otacon.Voice.CallAudio.{Resampling}
use otacon.Voice.Mission.{Party, Line, EndReason, Effect, max_duration, CallMission, add_line}
use otacon.Voice.Mission.Ending.{
  finish, hung_up, heard_last, session_closed, on_call_event, on_session_close,
}
use otacon.Voice.Mission.Start.{
  start_outbound, start_inbound, waited, not_answered, answered_in, start_failed, session_made,
  session_connected, on_transcript, navigator_press_sent, navigator_hangs_up, navigator_hands_off,
  add_listener_to, listener_left, downlink, line_sound, model_audio, clear_audio,
}
use otacon.Voice.Mission.Parties.{
  party_dialed, party_waited, party_gone, line_switched, line_dropped, back_on, to_announce,
  on_response_done, merged, left_merged, merge_failed, Reply,
}
use otacon.Voice.Mission.Tools.{
  Tool, Action, keys_pressed, end_call_now, on_tool_call, line_action, after_spoken_answer,
  run_action,
}

pub data Input : Type 0 where
  starts_outbound : Party → Input
  starts_inbound : ℕ → Party → Input
  line_dialed : ℕ → CallState → Party → Input
  wait_over : ℕ → Option CallState → Input
  unanswered_hung_up : Input
  line_answered : ℕ → CallState → Party → Input
  start_fails : String → Input
  makes_session : Bool → Input
  session_connects : Bool → Bool → Input
  max_time : Input
  call_event : ℕ → Option CallState → EndReason → ℕ → Input
  session_closes : Input
  hang_up_answered last_words_over finish_session_closed : Input
  transcript : Bool → Bool → Bool → String → Input
  navigator_presses : Bool → String → Input
  navigator_ends : HangUpReason → Input
  navigator_hands : Input
  listener_comes listener_goes : ℕ → Input
  line_audio : List ℕ → Input
  line_second : Option Sound → Input
  model_chunk : ℕ → List ℕ → Input
  model_interrupted : Input
  tool_call agent_action : Tool → Input
  keys_sent : String → Input
  goodbye_played answer_sent response_done : Input
  acts : Action → Input
  party_rings : Line → Party → ℕ → CallState → String → Input
  party_wait_over : Line → Party → ℕ → ℕ → Option CallState → Input
  party_hung_up : Line → Party → ℕ → Input
  switch_done drop_done : ℕ → String → Input
  drop_resumed : ℕ → Input
  swap_done : ℕ → ℕ → Input
  merge_done : Line → Line → Input
  merge_session_closed : Input
  merge_fails : ℕ → Input

module _ (resampling : Resampling) where
  abbrev Mission : Type 0
  Mission = CallMission resampling

  abbrev Next : Type 0
  Next = Mission × List Effect

  abbrev quiet : Mission → Next
  quiet m = (m, [])

  abbrev pub drop_reply : Mission × List Effect × Reply → Next
  drop_reply (m, es, r) = (m, es)

  unfoldable pub handle : Mission → Input → Next
  handle m (starts_outbound party) = start_outbound resampling m party
  handle m (starts_inbound id party) = start_inbound resampling m id party
  handle m (line_dialed id state party) = quiet (add_line resampling m id state party)
  handle m (wait_over id state) = waited resampling m id state
  handle m unanswered_hung_up = not_answered resampling m
  handle m (line_answered id state party) = quiet (answered_in resampling m id state party)
  handle m (start_fails why) = start_failed resampling m why
  handle m (makes_session live) = quiet (session_made resampling m live)
  handle m (session_connects menu greeting) = session_connected resampling m menu greeting
  handle m max_time = finish resampling m max_duration none true none
  handle m (call_event id state reason conference) =
      on_call_event resampling m id state reason conference
  handle m session_closes = on_session_close resampling m
  handle m hang_up_answered = hung_up resampling m.finishing m
  handle m last_words_over = heard_last resampling m.finishing m
  handle m finish_session_closed = session_closed resampling m.finishing m
  handle m (transcript by_assistant final blank text) =
      on_transcript resampling m by_assistant final blank text
  handle m (navigator_presses ok keys) = navigator_press_sent resampling m ok keys
  handle m (navigator_ends reason) = navigator_hangs_up resampling m reason
  handle m navigator_hands = navigator_hands_off resampling m
  handle m (listener_comes id) = add_listener_to resampling m id
  handle m (listener_goes id) = quiet (listener_left resampling m id)
  handle m (line_audio pcm) = downlink resampling m pcm
  handle m (line_second heard) = line_sound resampling m heard
  handle m (model_chunk id audio) = model_audio resampling m id audio
  handle m model_interrupted = clear_audio resampling m
  handle m (tool_call tool) = drop_reply (on_tool_call resampling m tool)
  handle m (agent_action tool) = drop_reply (line_action resampling m tool)
  handle m (keys_sent keys) = keys_pressed resampling m keys
  handle m goodbye_played = end_call_now resampling m
  handle m answer_sent = quiet (after_spoken_answer resampling m).0
  handle m response_done = on_response_done resampling m
  handle m (acts action) = run_action resampling m action
  handle m (party_rings first contact id state reason) =
      quiet (party_dialed resampling m first contact id state reason)
  handle m (party_wait_over first contact n id state) =
      drop_reply (party_waited resampling m first contact n id state)
  handle m (party_hung_up first contact n) = drop_reply (party_gone resampling m first contact n)
  handle m (switch_done n name) = drop_reply (line_switched resampling m n name)
  handle m (drop_done n name) = drop_reply (line_dropped resampling m n name)
  handle m (drop_resumed other) = drop_reply (back_on resampling m other)
  handle m (swap_done other current) = drop_reply (to_announce resampling m other current)
  handle m (merge_done other current) = merged resampling m other current
  handle m merge_session_closed = left_merged resampling m.leaving m
  handle m (merge_fails other) = merge_failed resampling m other

  unfoldable pub step : Mission → ℕ × Input → Next
  step m (now, i) = handle (record m { now = now }) i

  unfoldable pub run : Mission → List (ℕ × Input) → Next
  run m [] = (m, [])
  run m (i ∷ is) = let (next, es) = step m i in let (last, fs) = run next is in (last, es ++ fs)
