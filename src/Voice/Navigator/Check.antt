-- ===== src/Voice/Navigator/Check.antt =====
-- navigator.ts, `check`: up to its request, after the answer, and after a press. Then all inputs as
-- one step.
use mathlib.Core.Option
use otacon.Prelude.{
  ℕ, ◌-◌, Bool, true, false, ◌&&◌, ◌||◌, not, Option, none, some, List, [], ◌∷◌, ◌++◌, String,
  length, last?, keep, erase_idx, str_eq, ltb, leb, ◌==◌, if◌then◌else◌,
}
use otacon.Prelude.Scan.{codes, is_nil, trim}
use otacon.Voice.LineSound.{Loudness, Summary, quiet_since, summary}
use otacon.Voice.Navigator.{
  Entry, line, navigator, the_assistant, Phase, idle, deciding, pressing, MenuNavigator,
  quiet_check_ms, tenths, recent_entries, stop, pressed, line_text, assistant_said, line_sound,
  sound_runs,
}

-- The state that a check sends, less the goal and the limit of a hold, which never change.
pub record Snapshot : Type 0 where
  pub seconds_into_call : ℕ
  pub transcript : List Entry
  pub line_audio : Option Summary

-- The answers: each question's choice, if there is one, and the probabilities, 0 where missing.
pub record Answers : Type 0 where
  pub action : Option String
  pub key : Option String
  pub p : String → String → ℕ

pub data HangUpReason : Type 0 where
  goal_done no_way hold_limit : HangUpReason

pub data Effect : Type 0 where
  decide : Snapshot → Effect
  hand_off : Effect
  hang_up : HangUpReason → Effect
  press : String → Effect

abbrev pub keys : List String
keys = "0" ∷ "1" ∷ "2" ∷ "3" ∷ "4" ∷ "5" ∷ "6" ∷ "7" ∷ "8" ∷ "9" ∷ "*" ∷ "#" ∷ []

abbrev pub is_key : List String → String → Bool
is_key [] k = false
is_key (x ∷ xs) k = str_eq x k || is_key xs k

abbrev pub chose : Option String → String → Bool
chose none c = false
chose (some a) c = str_eq a c

abbrev pub differs : Option ℕ → ℕ → Bool
differs none n = true
differs (some m) n = not (m == n)

abbrev pub reason_name : HangUpReason → String
reason_name goal_done = "goal_done"
reason_name no_way = "no_way"
reason_name hold_limit = "hold_limit"

-- `reasons.reduce(...)`: the first of the likeliest.
abbrev pub likelier : Answers → HangUpReason → HangUpReason → HangUpReason
likelier a r s =
    if ltb (a.p "hang_up_reason" (reason_name r)) (a.p "hang_up_reason" (reason_name s))
    then s
    else r

abbrev pub reason_of : Answers → HangUpReason
reason_of a = likelier a (likelier a goal_done no_way) hold_limit

-- The key to press, if the answers are sure enough of one.
abbrev pub key_of : Answers → ℕ → Option String → Option String
key_of a threshold none = none
key_of a threshold (some k) =
    if chose a.action "press"
      && leb threshold (a.p "action" "press")
      && is_key keys k
      && leb threshold (a.p "key" k)
    then some k
    else none

-- The number of `entries.at(-1)`.
abbrev pub last_made : List Entry → ℕ
last_made entries = elim (last? entries) [ none ↦ 0 | some e ↦ e.made ]

abbrev pub other_than : ℕ → Entry → Bool
other_than made e = not (e.made == made)

module _ (loudness : Loudness) where
  abbrev Nav : Type 0
  Nav = MenuNavigator loudness

  -- `state()`.
  unfoldable pub state : Nav → ℕ → Snapshot
  state n now =
      let all =
        (n.entries
          ++ (if is_nil (trim n.partial)
              then []
              else record {
                made = n.next_entry;
                t = n.partial_at;
                who = line;
                text = trim n.partial;
              }
                ∷ [])) in
      record {
        seconds_into_call = tenths now;
        transcript = (recent_entries all).0;
        line_audio = summary (sound_runs loudness n) (Option.map (λ q. q.t) (last? n.presses));
      }

  abbrev pub is_holding : Nav → ℕ → Option ℕ → Bool
  is_holding n now none = false
  is_holding n now (some quiet) =
      differs n.checked_quiet_since quiet || leb quiet_check_ms (now - n.last_check_at)

  abbrev pub is_idle : Phase → Bool
  is_idle idle = true
  is_idle _ = false

  unfoldable pub check : Nav → ℕ → Nav × List Effect
  check n now =
      let said = differs n.seen_chars n.total_chars && differs n.pressed_at_chars n.total_chars in
      let quiet = quiet_since (sound_runs loudness n) in
      if n.stopped || not (is_idle n.phase)
      then (n, [])
      else if not said && not (is_holding n now quiet)
      then (n, [])
      else (
        record n {
          seen_chars = some n.total_chars;
          checked_quiet_since = quiet;
          last_check_at = now;
          phase = deciding;
        },
        decide (state n now) ∷ [],
      )

  abbrev pub at_rest : Nav → Nav
  at_rest n = record n { phase = idle }

  -- A key the answers chose is noted before it is sent.
  abbrev pub press_key : Nav → ℕ → Option String → Nav × List Effect
  press_key n now none = (at_rest n, [])
  press_key n now (some k) =
      let m = pressed loudness n navigator (codes k) now in
      (record m { phase = pressing (length n.presses) (last_made m.entries) }, press k ∷ [])

  -- The rest of a check, once the answers are there.
  unfoldable pub decided : Nav → Answers → ℕ → ℕ → Nav × List Effect
  decided n a threshold now =
      if n.stopped
      then (at_rest n, [])
      else if chose a.action "hand_off" && leb threshold (a.p "action" "hand_off")
      then (at_rest (stop loudness n), hand_off ∷ [])
      else if chose a.action "hang_up" && leb threshold (a.p "action" "hang_up")
      then (at_rest (stop loudness n), hang_up (reason_of a) ∷ [])
      else press_key n now (key_of a threshold a.key)

  -- The request failed: the next check looks again.
  abbrev pub failed : Nav → Nav
  failed n = record n { seen_chars = none; checked_quiet_since = none; phase = idle }

  -- The press has been sent, or has failed: the promise of a press answers either, and never rejects.
  abbrev pub press_sent : Nav → Bool → ℕ → ℕ → Nav
  press_sent n true at made = at_rest n
  press_sent n false at made = record n {
    presses = erase_idx n.presses at;
    entries = keep (other_than made) n.entries;
    pressed_at_chars = none;
    seen_chars = none;
    phase = idle;
  }

  -- What happens to a navigator, with the time where it matters.
  pub data Input : Type 0 where
    hears : List ℕ → ℕ → Input
    says : List ℕ → ℕ → Input
    assistant_presses : List ℕ → ℕ → Input
    sounds : Bool → loudness.Rms → ℕ → Input
    checks : ℕ → Input
    answers : Answers → ℕ → Input
    request_fails : Input
    press_ends : Bool → Input
    stops : Input

  -- An answer comes only to a request, and the end of a press only to a press.
  abbrev pub resume : Phase → Nav → ℕ → Input → Nav × List Effect
  resume deciding n threshold (answers a now) = decided n a threshold now
  resume deciding n threshold request_fails = (failed n, [])
  resume (pressing at made) n threshold (press_ends ok) = (press_sent n ok at made, [])
  resume _ n threshold i = (n, [])

  unfoldable pub step : ℕ → Nav → Input → Nav × List Effect
  step threshold n (hears delta now) = (line_text loudness n delta now, [])
  step threshold n (says text now) = (assistant_said loudness n text now, [])
  step threshold n (assistant_presses ks now) = (pressed loudness n the_assistant ks now, [])
  step threshold n (sounds speaks rms second) = ((line_sound loudness n speaks rms second).0, [])
  step threshold n (checks now) = check n now
  step threshold n stops = (stop loudness n, [])
  step threshold n (answers a now) = resume n.phase n threshold (answers a now)
  step threshold n request_fails = resume n.phase n threshold request_fails
  step threshold n (press_ends ok) = resume n.phase n threshold (press_ends ok)

  unfoldable pub run : ℕ → Nav → List Input → Nav × List Effect
  run threshold n [] = (n, [])
  run threshold n (i ∷ is) =
      let (m, es) = step threshold n i in
      let (last, more) = run threshold m is in (last, es ++ more)
