-- ===== src/Voice/Mission/Handled.antt =====
-- No handler gives more reports than its mission may still give.
use otacon.Prelude.{ℕ, ◌≡◌, refl, true, false, ◌&&◌, ◌||◌, List, arith, if-elim}
use otacon.Voice.CallAudio.{Resampling, on_downlink, on_line_sound, on_model_audio, on_clear_audio}
use otacon.Voice.Mission.{Effect, navigator_sees_press, CallMission, add_line}
use otacon.Voice.Mission.Once.{
  Spends, finish-Spends, hung_up-Spends, heard_last-Spends, session_closed-Spends,
  on_call_event-Spends, on_session_close-Spends,
}
use otacon.Voice.Mission.Start.{
  start_outbound, start_inbound, not_answered, start_failed, navigator_press_sent,
  navigator_hangs_up, add_listener_to, listener_left, downlink, line_sound, model_audio,
  clear_audio, answered_in, session_made, is_up, is_some,
}
use otacon.Voice.Mission.Parties.{
  party_dialed, party_gone, line_switched, back_on, to_announce, merge_failed,
}
use otacon.Voice.Mission.Tools.{
  keys_pressed, end_call_now, on_tool_call, line_action, after_spoken_answer,
}
use otacon.Voice.Mission.Steps.{
  Input, starts_outbound, starts_inbound, line_dialed, wait_over, unanswered_hung_up, line_answered,
  start_fails, makes_session, session_connects, max_time, call_event, session_closes,
  hang_up_answered, last_words_over, finish_session_closed, transcript, navigator_presses,
  navigator_ends, navigator_hands, listener_comes, listener_goes, line_audio, line_second,
  model_chunk, model_interrupted, tool_call, agent_action, keys_sent, goodbye_played, answer_sent,
  response_done, acts, party_rings, party_wait_over, party_hung_up, switch_done, drop_done,
  drop_resumed, swap_done, merge_done, merge_session_closed, merge_fails, handle, step,
}
use otacon.Voice.Mission.Spending.{
  waited-Spends, on_transcript-Spends, with_audio-Spends, quiet_if, use_tool-Spends,
  line_dropped-Spends, party_waited-Spends, merged-Spends, hands_off-Spends, left_merged-Spends,
  run_action-Spends, on_response_done-Spends, session_connected-Spends, listener_left-Spends,
  line_action-Spends,
}

module _ (resampling : Resampling) where
  abbrev Mission : Type 0
  Mission = CallMission resampling

  abbrev Next : Type 0
  Next = Mission × List Effect

  abbrev Spending : Mission → Next → Type 0
  Spending m r = Spends resampling m r

  -- The line has merged the calls only while the mission is neither over nor gone.
  abbrev pub Allowed : Mission → Input → Type 0
  Allowed m (merge_done other current) = (m.ended || m.detached) ≡ false
  Allowed m i = Unit

  -- A handler gives no more reports than its mission may still give.
  handle-Spends : (m : Mission) (i : Input) → Allowed m i → Spending m (handle resampling m i)
  unfolding handle start_outbound start_inbound not_answered answered_in start_failed session_made
      navigator_press_sent navigator_hangs_up add_listener_to listener_left downlink line_sound
      model_audio clear_audio on_tool_call line_action keys_pressed end_call_now after_spoken_answer
      party_dialed party_gone line_switched back_on to_announce merge_failed add_line
  handle-Spends m (starts_outbound party) ok = omega arith
  handle-Spends m (starts_inbound id party) ok = omega arith
  handle-Spends m (line_dialed id state party) ok = omega arith
  handle-Spends m (wait_over id state) ok = waited-Spends resampling m id state
  handle-Spends m unanswered_hung_up ok = finish-Spends resampling m _ _ _ _
  handle-Spends m (line_answered id state party) ok = omega arith
  handle-Spends m (start_fails why) ok = finish-Spends resampling _ _ _ _ _
  handle-Spends m (makes_session live) ok = omega arith
  handle-Spends m (session_connects menu greeting) ok =
      session_connected-Spends resampling m menu greeting
  handle-Spends m max_time ok = finish-Spends resampling m _ _ _ _
  handle-Spends m (call_event id state reason conference) ok =
      on_call_event-Spends resampling m id state reason conference
  handle-Spends m session_closes ok = on_session_close-Spends resampling m
  handle-Spends m hang_up_answered ok = hung_up-Spends resampling m.finishing m refl
  handle-Spends m last_words_over ok = heard_last-Spends resampling m.finishing m refl
  handle-Spends m finish_session_closed ok = session_closed-Spends resampling m.finishing m refl
  handle-Spends m (transcript by_assistant final blank text) ok =
      on_transcript-Spends resampling m by_assistant final blank text
  handle-Spends m (navigator_presses true keys) ok = omega arith
  handle-Spends m (navigator_presses false keys) ok = omega arith
  handle-Spends m (navigator_ends reason) ok = finish-Spends resampling _ _ _ _ _
  handle-Spends m navigator_hands ok = hands_off-Spends resampling m
  handle-Spends m (listener_comes id) ok =
      if-elim (Spending m) (m.ended || m.detached) _ _ (omega arith) (λ e. omega arith)
  handle-Spends m (listener_goes id) ok = listener_left-Spends resampling m id
  handle-Spends m (line_audio pcm) ok =
      with_audio-Spends resampling m
        (on_downlink resampling m.audio (is_up resampling m && is_some resampling m.active) pcm)
  handle-Spends m (line_second heard) ok =
      with_audio-Spends resampling m (on_line_sound resampling m.audio heard m.detached)
  handle-Spends m (model_chunk id audio) ok =
      with_audio-Spends resampling m
        (on_model_audio resampling m.audio (is_up resampling m) m.live id m.now audio)
  handle-Spends m model_interrupted ok =
      with_audio-Spends resampling m (on_clear_audio resampling m.audio)
  handle-Spends m (tool_call tool) ok = use_tool-Spends resampling m false tool
  handle-Spends m (agent_action tool) ok = line_action-Spends resampling m tool
  handle-Spends m (keys_sent keys) ok =
      omega (arith, quiet_if resampling m m.audio.navigating (navigator_sees_press keys) refl)
  handle-Spends m goodbye_played ok = finish-Spends resampling m _ _ _ _
  handle-Spends m answer_sent ok = omega arith
  handle-Spends m response_done ok = on_response_done-Spends resampling m
  handle-Spends m (acts action) ok = run_action-Spends resampling m action
  handle-Spends m (party_rings first contact id state reason) ok = omega arith
  handle-Spends m (party_wait_over first contact n id state) ok =
      party_waited-Spends resampling m first contact n id state
  handle-Spends m (party_hung_up first contact n) ok = omega arith
  handle-Spends m (switch_done n name) ok = omega arith
  handle-Spends m (drop_done n name) ok = line_dropped-Spends resampling m n name
  handle-Spends m (drop_resumed other) ok = omega arith
  handle-Spends m (swap_done other current) ok = omega arith
  handle-Spends m (merge_done other current) ok = merged-Spends resampling m other current ok
  handle-Spends m merge_session_closed ok = left_merged-Spends resampling m.leaving m refl
  handle-Spends m (merge_fails other) ok = omega arith

  Allowed-now :
      (m : Mission) (now : ℕ) (i : Input) → Allowed m i → Allowed (record m { now = now }) i
  Allowed-now m now (merge_done other current) ok = ok
  Allowed-now m now i ok = tt

  pub step-Spends : (m : Mission) (i : ℕ × Input) → Allowed m i.1 → Spending m (step resampling m i)
  unfolding step
  step-Spends m (now, i) ok = handle-Spends (record m { now = now }) i (Allowed-now m now i ok)
