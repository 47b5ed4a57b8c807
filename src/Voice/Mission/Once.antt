-- ===== src/Voice/Mission/Once.antt =====
-- A mission is reported once.
use mathlib.Core.List.{reverse}
use otacon.Prelude.{
  ℕ, suc, ◌+◌, ◌≤◌, ◌≡◌, refl, ap, ◌∙◌, Bool, true, false, ◌&&◌, ◌||◌, not, Option, none, some,
  List, [], ◌∷◌, ◌++◌, arith, length, leb, if◌then◌else◌, if-elim, Option-elim, find, ◌==◌,
}
use otacon.Voice.Line.{CallState, ended}
use otacon.Voice.CallAudio.{Resampling, AudioEffect, unmute}
use otacon.Voice.Mission.{
  Outcome, Line, EndReason, Note, EndNote, Effect, report, Finishing, not_finishing, hanging_up,
  last_words, closing, sounds, hang_ups, hangup_all, is_call, set_state, note, error,
  closed_unexpectedly, call_ids, live_lines, CallMission, stop_listeners, stop_navigator, Summary,
}
use otacon.Voice.Mission.Ending.{
  words_over, wait_last_words, hang_up_next, late_note, begin_finish, finish, hung_up, heard_last,
  session_closed, check_merged, back_to, on_line_ended, call_changed, is_nil, by_agent, end_text,
  or_before, leaves_lines, to_list, hold_back, on_call_event, on_session_close,
}

abbrev pub reports : List Effect → ℕ
reports [] = 0
reports (report r ∷ es) = suc (reports es)
reports (e ∷ es) = reports es

abbrev pub waits : Finishing → ℕ
waits not_finishing = 0
waits _ = 1

abbrev pub one : Bool → ℕ
one true = 1
one false = 0

abbrev pub up : Bool → Bool → ℕ
up true detached = 0
up false true = 0
up false false = 1

pub reports-append : (es fs : List Effect) → reports (es ++ fs) ≡ reports es + reports fs
reports-append [] fs = omega arith
reports-append (report r ∷ es) fs = omega (arith, reports-append es fs)
reports-append (e ∷ es) fs = reports-append es fs

pub reports-sounds : (es : List AudioEffect) → reports (sounds es) ≡ 0
reports-sounds [] = refl
reports-sounds (e ∷ es) = reports-sounds es

pub reports-hang_ups : (ids : List ℕ) → reports (hang_ups ids) ≡ 0
reports-hang_ups [] = refl
reports-hang_ups (id ∷ ids) = reports-hang_ups ids

reports-hangup_all : (ids : List ℕ) → reports (hangup_all ids) ≡ 0
reports-hangup_all [] = refl
reports-hangup_all (id ∷ ids) = reports-hangup_all ids

module _ (resampling : Resampling) where
  abbrev Mission : Type 0
  Mission = CallMission resampling

  abbrev Next : Type 0
  Next = Mission × List Effect

  -- The reports that a mission may still give.
  abbrev pub budget : Mission → ℕ
  budget m = waits m.finishing + one m.leaving + up m.ended m.detached

  abbrev pub Spends : Mission → Next → Type 0
  Spends m r = reports r.1 + budget r.0 ≤ budget m

  -- After a step of `finish` before its last.
  abbrev Waits : Mission → Next → Type 0
  Waits m r = (reports r.1 ≡ 0) × (budget r.0 ≡ 1 + one m.leaving + up m.ended m.detached)

  words_over-Waits : (m : Mission) → Waits m (words_over resampling m)
  words_over-Waits m =
      (if-elim (λ es. reports es ≡ 0) m.audio.has_session _ _ refl (λ e. refl), refl)

  hang_up_next-Waits :
      (m : Mission) (ids : List ℕ) (wait : Bool) → Waits m (hang_up_next resampling m ids wait)
  unfolding wait_last_words
  hang_up_next-Waits m (id ∷ ids) wait = (refl, refl)
  hang_up_next-Waits m [] true =
      if-elim (Waits m) m.audio.has_session _ _ (refl, refl) (λ e. words_over-Waits m)
  hang_up_next-Waits m [] false = words_over-Waits m

  pub reports-stop_navigator : (m : Mission) → reports (stop_navigator resampling m).1 ≡ 0
  unfolding stop_navigator
  reports-stop_navigator m =
      let es = (unmute resampling m.audio m.detached).1 in
      if-elim (λ fs. reports (sounds es ++ fs) ≡ 0) m.audio.navigating _ _
        (reports-append (sounds es) _ ∙ omega (arith, reports-sounds es))
        (λ e. reports-append (sounds es) [] ∙ omega (arith, reports-sounds es))

  begin_finish-Spends :
      (m : Mission) (outcome : Outcome) (summary : Option Summary) (wait : Bool)
      (end_note : Option EndNote)
      → up m.ended m.detached ≡ 1
      → Spends m (begin_finish resampling m outcome summary wait end_note)
  unfolding begin_finish stop_listeners stop_navigator
  begin_finish-Spends m outcome summary wait end_note free =
      let over : Mission = record m {
        ended = true;
        outcome = outcome;
        finish_outcome = outcome;
        summary = or_before summary m.summary;
      } in
      let (b, es) = stop_navigator resampling over in
      let ids = if leaves_lines outcome then [] else reverse (call_ids (live_lines b.lines)) in
      let next =
        hang_up_next resampling (record b { end_notes = some (to_list end_note) }) ids wait in
      let w = hang_up_next-Waits (record b { end_notes = some (to_list end_note) }) ids wait in
      omega (
        arith,
        reports-append (es ++ hang_ups b.audio.listeners) next.1,
        reports-append es (hang_ups b.audio.listeners),
        reports-stop_navigator over,
        reports-hang_ups b.audio.listeners,
        w,
        free,
      )

  hold_back-budget :
      (m : Mission) (e : EndNote) (held : Option (List EndNote))
      → budget (hold_back resampling m e held) ≡ budget m
  hold_back-budget m e none = refl
  hold_back-budget m e (some es) = refl

  late_note-budget :
      (m : Mission) (e : Option EndNote) → budget (late_note resampling m e) ≡ budget m
  late_note-budget m none = refl
  late_note-budget m (some e) = hold_back-budget m e m.end_notes

  pub up_of : (a b : Bool) → (a || b) ≡ false → up a b ≡ 1
  up_of true b e = ground (arith, e)
  up_of false true e = ground (arith, e)
  up_of false false e = refl

  pub finish-Spends :
      (m : Mission) (outcome : Outcome) (summary : Option Summary) (wait : Bool)
      (end_note : Option EndNote)
      → Spends m (finish resampling m outcome summary wait end_note)
  unfolding finish
  finish-Spends m outcome summary wait end_note =
      if-elim (Spends m) (m.ended || m.detached) _ _ (omega (arith, late_note-budget m end_note))
        (λ e. begin_finish-Spends m outcome summary wait end_note (up_of m.ended m.detached e))

  pub hung_up-Spends :
      (f : Finishing) (m : Mission) → m.finishing ≡ f → Spends m (hung_up resampling f m)
  hung_up-Spends (hanging_up ids wait) m e =
      let w = hang_up_next-Waits m ids wait in
      let h : waits m.finishing ≡ 1 = ap waits e in omega arith
  hung_up-Spends f m e = omega arith

  pub heard_last-Spends :
      (f : Finishing) (m : Mission) → m.finishing ≡ f → Spends m (heard_last resampling f m)
  heard_last-Spends last_words m e =
      let w = words_over-Waits m in let h : waits m.finishing ≡ 1 = ap waits e in omega arith
  heard_last-Spends f m e = omega arith

  pub session_closed-Spends :
      (f : Finishing) (m : Mission) → m.finishing ≡ f → Spends m (session_closed resampling f m)
  session_closed-Spends closing m e = let h : waits m.finishing ≡ 1 = ap waits e in omega arith
  session_closed-Spends f m e = omega arith

  check_merged-Spends :
      (m : Mission) (conference : ℕ) → Spends m (check_merged resampling m conference)
  unfolding check_merged
  check_merged-Spends m conference =
      let left = live_lines m.lines in
      let quiet = reports-hangup_all (call_ids left) in
      if-elim (Spends m) ((leb (length left) 1 || leb conference 1) && not m.ended) _ _
        (omega (arith, quiet)) (λ e. omega arith)

  back_to-Spends :
      (m : Mission) (l : Line) (reason : EndReason) (ls : List Line)
      → Spends m (back_to resampling m l reason ls)
  back_to-Spends m l reason [] = omega arith
  back_to-Spends m l reason (other ∷ ls) = omega arith

  ended_at-Spends :
      (m : Mission) (l : Line) (reason : EndReason) (text : Note) (conference : ℕ)
      → Spends m (on_line_ended resampling m l reason text conference)
  unfolding on_line_ended
  ended_at-Spends m l reason text conference =
      let left = live_lines m.lines in
      let b : Mission = note resampling m text (some l.n) in
      Option-elim (Spends m) m.active _ _ (omega arith) (λ a.
        if-elim (Spends m) (not m.detached && is_nil left) _ _
          (finish-Spends m (by_agent resampling m.outcome) none true
            (some (record { text = text; line = l.n })))
          (λ e. if-elim (Spends m) m.detached _ _ (check_merged-Spends b conference) (λ e'.
            if-elim (Spends m) (l.n == a) _ _ (back_to-Spends b l reason left)
              (λ e''. omega arith))))

  call_changed-Spends :
      (m : Mission) (l : Option Line) (state : Option CallState) (reason : EndReason)
      (conference : ℕ)
      → Spends m (call_changed resampling m l state reason conference)
  call_changed-Spends m none state reason conference = omega arith
  call_changed-Spends m (some l) none reason conference =
      ended_at-Spends (record m { lines = set_state m.lines l.n ended }) l reason
        (end_text resampling l reason) conference
  call_changed-Spends m (some l) (some s) reason conference =
      if-elim (Spends m) m.detached _ _
        (check_merged-Spends (record m { lines = set_state m.lines l.n s }) conference)
        (λ e. omega arith)

  pub on_call_event-Spends :
      (m : Mission) (id : ℕ) (state : Option CallState) (reason : EndReason) (conference : ℕ)
      → Spends m (on_call_event resampling m id state reason conference)
  unfolding on_call_event
  on_call_event-Spends m id state reason conference =
      if-elim (Spends m) m.attached _ _
        (call_changed-Spends m (find (is_call id) m.lines) state reason conference)
        (λ e. omega arith)

  pub on_session_close-Spends : (m : Mission) → Spends m (on_session_close resampling m)
  unfolding on_session_close
  on_session_close-Spends m =
      if-elim (Spends m) (m.ended || m.detached) _ _ (omega arith)
        (λ e. finish-Spends m error (some closed_unexpectedly) false none)
