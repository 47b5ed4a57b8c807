-- ===== src/Voice/Mission/Spending.antt =====
-- What the single handlers of a mission spend of the reports that it may still give.
use otacon.Prelude.{
  ℕ, ◌+◌, ◌≤◌, ◌≡◌, refl, ap, Bool, true, false, ◌&&◌, ◌||◌, not, Option, none, some, List, [], ◌∷◌,
  ◌++◌, String, arith, length, ltb, if◌then◌else◌, if-elim, Option-elim, find, ◌==◌,
}
use otacon.Voice.Line.{CallState, active, ended}
use otacon.Voice.CallAudio.{Resampling, CallAudio, AudioEffect}
use otacon.Voice.Mission.{
  Line, Party, Effect, close_session, navigator_done, note_to, CallMission, stop_navigator,
  stop_listeners, hang_ups, live_lines, is_live, is_active, note, set_state, hung_up_on, completed,
}
use otacon.Voice.Mission.Once.{
  reports, waits, one, up, reports-append, reports-sounds, reports-hang_ups, reports-stop_navigator,
  budget, Spends, up_of, finish-Spends, heard_last-Spends,
}
use otacon.Voice.Mission.Start.{
  waited, session_connected, on_transcript, navigator_hands_off, listener_left, has_id, with_audio,
  active_line,
}
use otacon.Voice.Mission.Parties.{
  Reply, call_party, party_waited, party_gone, switch_line, drop_line, line_dropped, connect_lines,
  on_response_done, merged, left_merged, is_live_number,
}
use otacon.Voice.Mission.Tools.{
  Tool, send_dtmf, end_call, to_party, to_line, drop, connect, Action, goodbye, merge_lines,
  set_ending, end_call_now, use_tool, line_action, run_action,
}

module _ (resampling : Resampling) where
  abbrev Mission : Type 0
  Mission = CallMission resampling

  abbrev Next : Type 0
  Next = Mission × List Effect

  abbrev Spending : Mission → Next → Type 0
  Spending m r = Spends resampling m r

  pub waited-Spends :
      (m : Mission) (id : ℕ) (s : Option CallState) → Spending m (waited resampling m id s)
  unfolding waited
  waited-Spends m id (some active) = omega arith
  waited-Spends m id (some ended) = finish-Spends resampling _ _ _ _ _
  waited-Spends m id none = finish-Spends resampling _ _ _ _ _
  waited-Spends m id (some s) = omega arith

  pub on_transcript-Spends :
      (m : Mission) (by_assistant final blank : Bool) (text : String)
      → Spending m (on_transcript resampling m by_assistant final blank text)
  unfolding on_transcript
  on_transcript-Spends m true final blank text =
      if-elim (Spending m) (not final || blank || (true && m.flushing)) _ _ (omega arith) (λ e.
        if-elim (λ es. reports es + budget resampling m ≤ budget resampling m) m.audio.navigating _
          _ (omega arith) (λ e'. omega arith))
  on_transcript-Spends m false final blank text =
      if-elim (Spending m) (not final || blank || (false && m.flushing)) _ _ (omega arith)
        (λ e. heard_last-Spends resampling m.finishing _ refl)

  pub with_audio-Spends :
      (m : Mission) (r : CallAudio resampling × List AudioEffect)
      → Spending m (with_audio resampling m r)
  with_audio-Spends m (a, es) = omega (arith, reports-sounds es)

  pub quiet_if :
      (m : Mission) (b : Bool) (e : Effect)
      → reports (e ∷ []) ≡ 0
      → reports (if b then e ∷ [] else []) ≡ 0
  quiet_if m true e h = h
  quiet_if m false e h = refl

  abbrev Answered : Type 0
  Answered = Mission × List Effect × Reply

  -- A tool up to its first await spends nothing.
  abbrev Replies : Mission → Answered → Type 0
  Replies m (b, es, r) = Spending m (b, es)

  pub use_tool-Spends :
      (m : Mission) (by_agent : Bool) (tool : Tool)
      → Replies m (use_tool resampling m by_agent tool)
  unfolding call_party switch_line drop_line connect_lines set_ending
  use_tool-Spends m by_agent (send_dtmf keys) = omega arith
  use_tool-Spends m true (end_call outcome summary) = omega arith
  use_tool-Spends m false (end_call outcome summary) = omega arith
  use_tool-Spends m by_agent (to_party false) = omega arith
  use_tool-Spends m by_agent (to_party true) =
      Option-elim (Replies m) (active_line m.active m.lines) _ _ (omega arith) (λ first.
        if-elim (Replies m) (ltb 1 (length (live_lines m.lines))) _ _ (omega arith)
          (λ e. omega arith))
  use_tool-Spends m by_agent (to_line n) =
      Option-elim (Replies m) (find (is_live_number n) m.lines) _ _ (omega arith) (λ target.
        Option-elim (Replies m) m.active _ _ (omega arith)
          (λ a. if-elim (Replies m) (target.n == a) _ _ (omega arith) (λ e. omega arith)))
  use_tool-Spends m by_agent (drop n) =
      Option-elim (Replies m) (find (is_live_number n) m.lines) _ _ (omega arith)
        (λ target. omega arith)
  use_tool-Spends m by_agent connect =
      if-elim (Replies m) (length (live_lines m.lines) == 2) _ _ (omega arith) (λ e. omega arith)

  pub line_dropped-Spends :
      (m : Mission) (n : ℕ) (name : String) → Replies m (line_dropped resampling m n name)
  unfolding line_dropped
  line_dropped-Spends m n name =
      let b : Mission =
        note resampling (record m { lines = set_state m.lines n ended }) (hung_up_on name)
          (some n) in
      Option-elim (Replies m) (find is_live b.lines) _ _
        (finish-Spends resampling b completed none true none)
        (λ other. if-elim (Replies m) (is_active m.active n) _ _ (omega arith) (λ e. omega arith))

  pub party_waited-Spends :
      (m : Mission) (first : Line) (contact : Party) (n id : ℕ) (s : Option CallState)
      → Replies m (party_waited resampling m first contact n id s)
  unfolding party_waited party_gone
  party_waited-Spends m first contact n id (some active) = omega arith
  party_waited-Spends m first contact n id (some ended) = omega arith
  party_waited-Spends m first contact n id none = omega arith
  party_waited-Spends m first contact n id (some s) = omega arith

  up_gone : (a : Bool) → up a true ≡ 0
  up_gone true = refl
  up_gone false = refl

  pub merged-Spends :
      (m : Mission) (other current : Line)
      → (m.ended || m.detached) ≡ false
      → Spending m (merged resampling m other current)
  unfolding merged stop_listeners
  merged-Spends m other current free =
      let one_left = up_of resampling m.ended m.detached free in
      let quiet = reports-hang_ups m.audio.listeners in
      if-elim
        (λ es.
          reports (hang_ups m.audio.listeners ++ es) + (waits m.finishing + 1 + up m.ended true)
          ≤ budget resampling m)
        m.audio.has_session _ _
        (omega (
          arith,
          reports-append (hang_ups m.audio.listeners) (close_session ∷ []),
          quiet,
          one_left,
          up_gone m.ended,
        ))
        (λ e.
          omega (
            arith,
            reports-append (hang_ups m.audio.listeners) [],
            quiet,
            one_left,
            up_gone m.ended,
          ))

  pub hands_off-Spends : (m : Mission) → Spending m (navigator_hands_off resampling m)
  unfolding navigator_hands_off stop_navigator
  hands_off-Spends m = omega (
    arith,
    reports-append (stop_navigator resampling m).1 (note_to navigator_done ∷ []),
    reports-stop_navigator resampling m,
  )

  pub left_merged-Spends :
      (leaving : Bool) (m : Mission)
      → m.leaving ≡ leaving
      → Spending m (left_merged resampling leaving m)
  left_merged-Spends false m e = omega arith
  left_merged-Spends true m e = let h : one m.leaving ≡ 1 = ap one e in omega arith

  pub run_action-Spends :
      (m : Mission) (action : Action) → Spending m (run_action resampling m action)
  unfolding run_action end_call_now
  run_action-Spends m goodbye =
      if-elim (Spending m) m.ended _ _ (omega arith)
        (λ e. finish-Spends resampling m m.outcome m.summary true none)
  run_action-Spends m (merge_lines other current) = omega arith

  pub on_response_done-Spends : (m : Mission) → Spending m (on_response_done resampling m)
  unfolding on_response_done
  on_response_done-Spends m =
      Option-elim (Spending m) m.pending_merge _ _ (omega arith) (λ pair. omega arith)

  pub session_connected-Spends :
      (m : Mission) (menu greeting : Bool)
      → Spending m (session_connected resampling m menu greeting)
  unfolding session_connected
  session_connected-Spends m true true = omega arith
  session_connected-Spends m true false = omega arith
  session_connected-Spends m false true = omega arith
  session_connected-Spends m false false = omega arith

  pub listener_left-Spends : (m : Mission) (id : ℕ) → Spending m (listener_left resampling m id, [])
  unfolding listener_left
  listener_left-Spends m id =
      if-elim (λ (b : Mission). Spending m (b, [])) (not (has_id id m.audio.listeners)) _ _
        (omega arith)
        (λ e.
          if-elim (λ (b : Mission). Spending m (b, [])) m.ended _ _ (omega arith)
            (λ e'. omega arith))

  pub line_action-Spends : (m : Mission) (tool : Tool) → Replies m (line_action resampling m tool)
  unfolding line_action
  line_action-Spends m tool =
      if-elim (Replies m) (m.ended || m.detached) _ _ (omega arith)
        (λ e. use_tool-Spends m true tool)
