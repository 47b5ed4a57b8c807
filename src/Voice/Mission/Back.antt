-- ===== src/Voice/Mission/Back.antt =====
-- What happens when the line that a mission is on ends.
use otacon.Prelude.{
  ℕ, ◌≡◌, refl, sym, ap, ◌∙◌, ◌⊎◌, inl, inr, Bool, true, false, ◌&&◌, ◌||◌, not, Option, some, none,
  List, [], ◌∷◌, arith, if◌then◌else◌, if-elim, if-true, if-false, find, ◌==◌, ==_self, subst,
  Option-some, Bool-cases,
}
use otacon.Voice.Line.{ended}
use otacon.Voice.CallAudio.{Resampling}
use otacon.Voice.Mission.{
  Outcome, Line, EndReason, Note, EndNote, Effect, resume_then_tell, back_with, Summary,
  CallMission, is_live, live_lines, is_call, set_state, stop_navigator, stop_listeners, call_ids,
  note,
}
use otacon.Voice.Mission.Ending.{
  wait_last_words, hang_up_next, hold_back, late_note, begin_finish, finish, on_line_ended,
  on_call_event, call_changed, end_text, by_agent, is_nil, back_to, to_list, leaves_lines,
  or_before,
}
use mathlib.Core.List.{reverse}

is_live-live_lines :
    (ls : List Line) (other : Line) (rest : List Line)
    → live_lines ls ≡ other ∷ rest
    → is_live other ≡ true
is_live-live_lines [] other rest e = absurd (cc e)
is_live-live_lines (l ∷ ls) other rest e = elim (Bool-cases (is_live l)) [
  | inl up ↦ ap is_live (sym (head-eq (kept up ∙ e))) ∙ up
  | inr down ↦ is_live-live_lines ls other rest (skipped down ∙ e)
]
  where
    kept : is_live l ≡ true → l ∷ live_lines ls ≡ live_lines (l ∷ ls)
    kept up = rw up refl

    skipped : is_live l ≡ false → live_lines ls ≡ live_lines (l ∷ ls)
    skipped down = rw down refl

    head-eq : {x y : Line} {xs ys : List Line} → x ∷ xs ≡ y ∷ ys → x ≡ y
    head-eq h = cc h

module _ (resampling : Resampling) where
  abbrev Mission : Type 0
  Mission = CallMission resampling

  abbrev Next : Type 0
  Next = Mission × List Effect

  abbrev IsOver : Next → Type 0
  IsOver r = r.0.ended ≡ true

  hang_up_next-IsOver :
      (m : Mission) (ids : List ℕ) (wait : Bool)
      → m.ended ≡ true
      → IsOver (hang_up_next resampling m ids wait)
  unfolding wait_last_words
  hang_up_next-IsOver m (id ∷ ids) wait e = e
  hang_up_next-IsOver m [] true e = if-elim IsOver m.audio.has_session _ _ e (λ h. e)
  hang_up_next-IsOver m [] false e = e

  hold_back-ended :
      (m : Mission) (e : EndNote) (held : Option (List EndNote))
      → (hold_back resampling m e held).ended ≡ m.ended
  hold_back-ended m e none = refl
  hold_back-ended m e (some es) = refl

  late_note-ended : (m : Mission) (e : Option EndNote) → (late_note resampling m e).ended ≡ m.ended
  late_note-ended m none = refl
  late_note-ended m (some e) = hold_back-ended m e m.end_notes

  begin_finish-IsOver :
      (m : Mission) (outcome : Outcome) (summary : Option Summary) (wait : Bool)
      (end_note : Option EndNote)
      → IsOver (begin_finish resampling m outcome summary wait end_note)
  unfolding begin_finish stop_listeners stop_navigator
  begin_finish-IsOver m outcome summary wait end_note =
      let over : Mission = record m {
        ended = true;
        outcome = outcome;
        finish_outcome = outcome;
        summary = or_before summary m.summary;
      } in
      let b : Mission = (stop_navigator resampling over).0 in
      hang_up_next-IsOver (record b { end_notes = some (to_list end_note) })
        (if leaves_lines outcome then [] else reverse (call_ids (live_lines b.lines))) wait refl

  finish-IsOver :
      (m : Mission) (outcome : Outcome) (summary : Option Summary) (wait : Bool)
      (end_note : Option EndNote)
      → m.detached ≡ false
      → IsOver (finish resampling m outcome summary wait end_note)
  unfolding finish
  finish-IsOver m outcome summary wait end_note here = elim (Bool-cases m.ended) [
    | inl over ↦
        if-true IsOver (m.ended || m.detached) _ _ (ground (arith, over))
          (late_note-ended m end_note ∙ over)
    | inr on ↦
        if-false IsOver (m.ended || m.detached) _ _ (ground (arith, on, here))
          (begin_finish-IsOver m outcome summary wait end_note)
  ]

  abbrev Back : Line → EndReason → List Line → Next → Type 0
  Back l reason up r =
      ((up ≡ []) × (r.0.ended ≡ true))
      ⊎ ((other : Line) × (rest : List Line) × (up ≡ other ∷ rest)
          × (is_live other ≡ true)
          × (r.0.active ≡ some other.n)
          × (r.1
              ≡ resume_then_tell (back_with l.party.name l.n reason other.party.name other.n) ∷ []))

  ended_line-Back :
      (m : Mission) (l : Line) (reason : EndReason) (text : Note) (conference : ℕ) (up : List Line)
      → m.active ≡ some l.n
      → m.detached ≡ false
      → live_lines m.lines ≡ up
      → Back l reason up (on_line_ended resampling m l reason text conference)
  unfolding on_line_ended
  ended_line-Back m l reason text conference [] on_it here e =
      Option-some (Back l reason []) m.active _ _ l.n on_it (
        if-true (Back l reason []) (not m.detached && is_nil (live_lines m.lines)) _ _
          (ground (arith, here, ap is_nil e))
          (inl (
            refl,
            finish-IsOver m (by_agent resampling m.outcome) none true
                (some (record { text = text; line = l.n })) here,
          )))
  ended_line-Back m l reason text conference (other ∷ rest) on_it here e =
      let b : Mission = note resampling m text (some l.n) in
      let P = Back l reason (other ∷ rest) in
      Option-some P m.active _ _ l.n on_it (
        if-false P (not m.detached && is_nil (live_lines m.lines)) _ _ (ground (arith, ap is_nil e))
          (if-false P m.detached _ _ here (
            if-true P (l.n == l.n) _ _ (==_self l.n) (
              subst (λ ls. P (back_to resampling b l reason ls)) (sym e)
                (inr (other, rest, refl, is_live-live_lines m.lines other rest e, refl, refl))))))

  -- When the line that a mission is on ends, the mission goes on with the first line that is still up,
  -- resumes it and tells the model whose line ended and whom it is with now; if no line is up, the
  -- mission is over.
  pub on_call_event-back :
      (m : Mission) (id : ℕ) (l : Line) (reason : EndReason) (conference : ℕ)
      → m.attached ≡ true
      → m.detached ≡ false
      → find (is_call id) m.lines ≡ some l
      → m.active ≡ some l.n
      → let r = on_call_event resampling m id none reason conference in
        let up = live_lines (set_state m.lines l.n ended) in
        ((up ≡ []) × (r.0.ended ≡ true))
        ⊎ ((other : Line) × (rest : List Line) × (up ≡ other ∷ rest)
            × (is_live other ≡ true)
            × (r.0.active ≡ some other.n)
            × (r.1
                ≡ resume_then_tell (back_with l.party.name l.n reason other.party.name other.n)
                  ∷ []))
  unfolding on_call_event
  on_call_event-back m id l reason conference attached here found on_it =
      if-true (Back l reason (live_lines (set_state m.lines l.n ended))) m.attached _ _ attached (
        subst
          (λ o.
            Back l reason (live_lines (set_state m.lines l.n ended))
              (call_changed resampling m o none reason conference))
          (sym found)
          (ended_line-Back (record m { lines = set_state m.lines l.n ended }) l reason
            (end_text resampling l reason) conference _ on_it here refl))
