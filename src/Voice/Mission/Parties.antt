-- ===== src/Voice/Mission/Parties.antt =====
-- call.ts: the lines of a mission, cut at the awaits: bringing a party in, switching, dropping and joining.
use otacon.Prelude.{
  ℕ, suc, Bool, true, false, ◌&&◌, ◌||◌, not, Option, none, some, List, [], ◌∷◌, ◌++◌, String,
  length, ltb, find, ◌==◌, if◌then◌else◌,
}
use otacon.Voice.Line.{CallState, active, ended, same_state}
use otacon.Voice.CallAudio.{Resampling}
use otacon.Voice.Mission.{
  completed, handed_off, Party, Line, calling_party, party_answered, party_silent, switched_to,
  hung_up_on, joined, hangup, hold, resume, swap, could_not_join, Effect, command, tell,
  mark_then_merge, close_session, report, Summary, connected_parties, is_live, live_lines,
  is_active, set_state, CallMission, note, add_line, stop_listeners, report_of,
}
use otacon.Voice.Mission.Ending.{finish}
use otacon.Voice.Mission.Start.{active_line}

-- What a tool gives the model, or `waiting` where it awaits the line. `ending` is that of end_call.
pub data Reply : Type 0 where
  waiting ending : Reply
  not_allowed already_on_two_lines no_such_line needs_two_lines the_call_has_ended : Reply
  connected no_answer_from : ℕ → Reply
  switched already_active : ℕ → Reply
  dropped : Option ℕ → Reply
  announce : ℕ → Reply

abbrev pub is_live_number : ℕ → Line → Bool
is_live_number n l = (l.n == n) && is_live l

-- Two lines to join: the one that is not active, and the active one.
abbrev pub is_other : Option ℕ → Line → Bool
is_other a l = not (is_active a l.n)

abbrev pub some_active : List Line → Bool
some_active [] = false
some_active (l ∷ ls) = same_state l.state active || some_active ls

abbrev pub or_else : Option Summary → Summary → Option Summary
or_else none s = some s
or_else (some t) s = some t

module _ (resampling : Resampling) where
  abbrev Mission : Type 0
  Mission = CallMission resampling

  abbrev Next : Type 0
  Next = Mission × List Effect

  abbrev pub Answered : Type 0
  Answered = Mission × List Effect × Reply

  abbrev pub replying : Next → Reply → Answered
  replying (m, es) r = (m, es, r)

  -- `callParty`, of an allowed contact or of someone else: the first party is put on hold.
  unfoldable pub call_party : Mission → Bool → Answered
  call_party m false = (m, [], not_allowed)
  call_party m true = elim (active_line m.active m.lines) [
    | none ↦ (m, [], already_on_two_lines)
    | some first ↦
        if ltb 1 (length (live_lines m.lines))
        then (m, [], already_on_two_lines)
        else (m, command hold ∷ [], waiting)
  ]

  -- The contact has been dialed, as the call `id`.
  unfoldable pub party_dialed : Mission → Line → Party → ℕ → CallState → String → Mission
  party_dialed m first contact id state reason =
      let n = suc (length m.lines) in
      note resampling (record (add_line resampling m id state contact) { active = some n })
        (calling_party first.party.name contact.name n) (some n)

  -- No answer: back to the first party.
  unfoldable pub party_gone : Mission → Line → Party → ℕ → Answered
  party_gone m first contact n = (
    note resampling (record m { lines = set_state m.lines n ended; active = some first.n })
        (party_silent contact.name first.party.name) (some first.n),
    command resume ∷ [],
    no_answer_from first.n,
  )

  -- The wait for an answer is over: with the call's state, or with none in time.
  unfoldable pub party_waited : Mission → Line → Party → ℕ → ℕ → Option CallState → Answered
  party_waited m first contact n id (some active) =
      (note resampling m (party_answered contact.name) (some n), [], connected n)
  party_waited m first contact n id none = party_gone m first contact n
  party_waited m first contact n id (some ended) = party_gone m first contact n
  party_waited m first contact n id (some s) = (m, command (hangup id) ∷ [], waiting)

  unfoldable pub switch_line : Mission → ℕ → Answered
  switch_line m n = elim (find (is_live_number n) m.lines) [
    | none ↦ (m, [], no_such_line)
    | some target ↦ elim m.active [
      | none ↦ (m, command (if some_active m.lines then swap else resume) ∷ [], waiting)
      | some a ↦
          if target.n == a
          then (m, [], already_active n)
          else (m, command (if some_active m.lines then swap else resume) ∷ [], waiting)
    ]
  ]

  -- The line has switched.
  unfoldable pub line_switched : Mission → ℕ → String → Answered
  line_switched m n name =
      (note resampling (record m { active = some n }) (switched_to name) (some n), [], switched n)

  unfoldable pub drop_line : Mission → ℕ → Answered
  drop_line m n = elim (find (is_live_number n) m.lines) [
    | none ↦ (m, [], no_such_line)
    | some target ↦ (m, command (hangup target.call_id) ∷ [], waiting)
  ]

  -- The line has hung up on it.
  unfoldable pub line_dropped : Mission → ℕ → String → Answered
  line_dropped m n name =
      let b =
        note resampling (record m { lines = set_state m.lines n ended }) (hung_up_on name)
          (some n) in
      elim (find is_live b.lines) [
        | none ↦ replying (finish resampling b completed none true none) (dropped none)
        | some other ↦
            if is_active m.active n
            then (b, command resume ∷ [], waiting)
            else (b, [], dropped (some other.n))
      ]

  -- The other line has been resumed, well or badly.
  unfoldable pub back_on : Mission → ℕ → Answered
  back_on m other = (record m { active = some other }, [], dropped (some other))

  unfoldable pub connect_lines : Mission → Answered
  connect_lines m =
      if length (live_lines m.lines) == 2
      then (m, command swap ∷ [], waiting)
      else (m, [], needs_two_lines)

  -- The line that the model is switched to.
  abbrev pub other_line : Mission → Option Line
  other_line m = find (is_other m.active) (live_lines m.lines)

  -- The lines are swapped: the model announces who joins, and the merge waits for that.
  unfoldable pub to_announce : Mission → ℕ → ℕ → Answered
  to_announce m other current =
      (record m { active = some other; pending_merge = some (other, current) }, [], announce other)

  unfoldable pub on_response_done : Mission → Next
  on_response_done m = elim m.pending_merge [
    | none ↦ (m, [])
    | some (other, current) ↦
        (record m { pending_merge = none }, mark_then_merge other current ∷ [])
  ]

  -- The line has merged its calls: the mission leaves.
  unfoldable pub merged : Mission → Line → Line → Next
  merged m other current =
      let b = note resampling m (joined other.party.name current.party.name) m.active in
      let (c, es) = stop_listeners resampling (record b { detached = true }) in
      (
        record c {
          summary = or_else c.summary (connected_parties other.party.name current.party.name);
          leaving = true;
        },
        es ++ (if m.audio.has_session then close_session ∷ [] else []),
      )

  -- Then the session has closed.
  abbrev pub left_merged : Bool → Mission → Next
  left_merged false m = (m, [])
  left_merged true m = (
    record m { outcome = handed_off; leaving = false },
    report (record (report_of resampling m) { outcome = handed_off }) ∷ [],
  )

  unfoldable pub merge_failed : Mission → ℕ → Next
  merge_failed m other = (m, tell (could_not_join other) ∷ [])
