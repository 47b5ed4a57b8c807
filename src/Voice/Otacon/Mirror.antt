-- ===== src/Voice/Otacon/Mirror.antt =====
-- otacon.ts: the calls that a link holds are those that the phone told it of, and how long it waits
-- before it connects again.
use mathlib.Core.Path.{fun_ext}
use otacon.Prelude.{
  ℕ, ◌≡◌, refl, sym, subst, false, ap, ◌∙◌, Bool, Option, none, some, List, [], ◌∷◌, ◌==◌,
  if◌then◌else◌, if-elim, Option-elim,
}
use otacon.Prelude.JsMap.{get, put, Distinct, get-put, get-delete, put-Distinct, delete-Distinct}
use otacon.Voice.Line.{LineCall}
use otacon.Voice.Otacon.{
  Message, Reply, resolved, rejected, refused, hello, ack, error, mark_reached, call_changed,
  call_ended, OtaconLink, Out, new_link, put_all, settle, on_mark, on_text, connect, start, stop,
  on_open, on_close, cmd, timed_out, send_audio, mark, waiting_for, open_socket,
}
use otacon.Voice.Otacon.Steps.{
  Input, starts, reconnects, marks, closes, timer_fires, runs, text, sends, handle, run,
}

-- What is known of each call, as a function from ids.
abbrev pub Known : Type 0
Known = ℕ → Option LineCall

abbrev pub update : Known → ℕ → Option LineCall → Known
update f id v k = if id == k then v else f k

-- The last entry of a list that has the id.
abbrev pub listed : List LineCall → Known → Known
listed [] f = f
listed (c ∷ cs) f = listed cs (update f c.id (some c))

-- What a message tells of the calls: a greeting lists all of them, and no other input matters.
abbrev pub told : Known → Input → Known
told f (text (hello rate connected cs)) = listed cs (λ k. none)
told f (text (call_changed c)) = update f c.id (some c)
told f (text (call_ended c)) = update f c.id none
told f i = f

abbrev pub told_all : Known → List Input → Known
told_all f [] = f
told_all f (i ∷ is) = told_all (told f i) is

abbrev known : OtaconLink → Known
known l k = get k l.calls

put_all-Distinct :
    (cs : List LineCall) (m : List (ℕ × LineCall)) → Distinct m → Distinct (put_all cs m)
put_all-Distinct [] m d = d
put_all-Distinct (c ∷ cs) m d = put_all-Distinct cs (put c.id c m) (put-Distinct c.id c m d)

put_all-listed :
    (cs : List LineCall) (m : List (ℕ × LineCall))
    → (λ k. get k (put_all cs m)) ≡ listed cs (λ k. get k m)
put_all-listed [] m = refl
put_all-listed (c ∷ cs) m =
    put_all-listed cs (put c.id c m) ∙ ap (listed cs) (fun_ext λ k. get-put c.id k c m)

-- A step that leaves the calls alone.
abbrev SameCalls : OtaconLink → Out → Type 0
SameCalls l r = r.0.calls ≡ l.calls

settle-calls : (l : OtaconLink) (id : Option ℕ) (r : Reply) → SameCalls l (settle l id r)
unfolding settle
settle-calls l id r = Option-elim (SameCalls l) (waiting_for l id) _ _ refl (λ p. refl)

on_mark-calls : (l : OtaconLink) (name : ℕ) (c : Bool) → SameCalls l (on_mark l name c)
unfolding on_mark
on_mark-calls l name c = Option-elim (SameCalls l) (get name l.marks) _ _ refl (λ p. refl)

connect-calls : (l : OtaconLink) → SameCalls l (connect l)
unfolding connect
connect-calls l = if-elim (SameCalls l) l.stopped _ _ refl (λ e. refl)

-- A step leaves the calls alone, or does to them what its message tells.
abbrev Mirrors : OtaconLink → Input → OtaconLink → Type 0
Mirrors l i m = Distinct m.calls × (known m ≡ told (known l) i)

keeps :
    (l : OtaconLink) (r : Out)
    → Distinct l.calls
    → SameCalls l r
    → Distinct r.0.calls × (known r.0 ≡ known l)
keeps l r d e = (subst Distinct (sym e) d, ap (λ cs k. get k cs) e)

on_text-Mirrors :
    (l : OtaconLink) (m : Message) → Distinct l.calls → Mirrors l (text m) (on_text l m).0
unfolding on_text get
on_text-Mirrors l (hello rate connected cs) d = (put_all-Distinct cs [] tt, put_all-listed cs [])
on_text-Mirrors l (call_changed c) d =
    (put-Distinct c.id c l.calls d, fun_ext λ k. get-put c.id k c l.calls)
on_text-Mirrors l (call_ended c) d =
    (delete-Distinct c.id l.calls d, fun_ext λ k. get-delete c.id k l.calls d)
on_text-Mirrors l (ack id a) d =
    keeps l (settle l id (resolved a)) d (settle-calls l id (resolved a))
on_text-Mirrors l (error id code m) d =
    let r = rejected (refused code m) in keeps l (settle l id r) d (settle-calls l id r)
on_text-Mirrors l (mark_reached name c) d = keeps l (on_mark l name c) d (on_mark-calls l name c)
on_text-Mirrors l m d = (d, refl)

handle-Mirrors : (l : OtaconLink) (i : Input) → Distinct l.calls → Mirrors l i (handle l i).0
unfolding handle start stop on_open cmd mark timed_out send_audio on_close
handle-Mirrors l starts d =
    let m = record l { stopped = false } in keeps l (connect m) d (connect-calls m)
handle-Mirrors l reconnects d = keeps l (connect l) d (connect-calls l)
handle-Mirrors l marks d =
    keeps l (mark l) d (Option-elim (SameCalls l) (open_socket l) _ _ refl (λ w. refl))
handle-Mirrors l (closes code) d =
    keeps l (on_close l code) d (if-elim (SameCalls l) l.stopped _ _ refl (λ e. refl))
handle-Mirrors l (timer_fires timer) d =
    keeps l (timed_out l timer) d
      (Option-elim (SameCalls l) (get timer l.timers) _ _ refl (λ w. refl))
handle-Mirrors l (runs type) d =
    keeps l (cmd l type) d (Option-elim (SameCalls l) (open_socket l) _ _ refl (λ w. refl))
handle-Mirrors l (text m) d = on_text-Mirrors l m d
handle-Mirrors l (sends pcm bytes) d =
    keeps l (send_audio l pcm bytes) d
      (Option-elim (SameCalls l) (open_socket l) _ _ refl (λ w. refl))
handle-Mirrors l i d = (d, refl)

run-known :
    (l : OtaconLink) (is : List Input)
    → Distinct l.calls
    → known (run l is).0 ≡ told_all (known l) is
unfolding run
run-known l [] d = refl
run-known l (i ∷ is) d =
    let (e, h) = handle-Mirrors l i d in run-known (handle l i).0 is e ∙ ap (λ f. told_all f is) h

-- However a link is used, the calls it holds are those that the messages it was sent tell of.
pub run-told : (is : List Input) → (λ k. get k (run new_link is).0.calls) ≡ told_all (λ k. none) is
unfolding new_link get
run-told is = run-known new_link is tt
