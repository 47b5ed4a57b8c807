-- ===== src/Voice/Otacon/Settled.antt =====
-- otacon.ts: the commands and marks that a link sends are settled once.
use otacon.Prelude.{
  ℕ, suc, ◌+◌, ◌≤◌, ◌≡◌, refl, Bool, false, Option, none, some, List, [], ◌∷◌, ◌++◌, arith, not,
  ◌==◌, if-elim, Option-elim, Option-each, Option-cases, sym, subst, ap, inl, inr,
}
use otacon.Prelude.JsMap.{get, Each-get}
use otacon.Prelude.Held.{held, held_some, held-put, held-delete}
use otacon.Voice.Otacon.{
  Effect, Reply, Message, ack, error, refused, mark_reached, resolved, rejected, OtaconLink, Out,
  new_link, close_socket, closes_socket, connect, start, stop, on_open, on_close, settle, on_mark,
  on_text, cmd, timed_out, send_audio, mark, open_socket, waiting_for,
}
use otacon.Voice.Otacon.Sane.{
  count, count-append, asks, answers, marks_at, reaches, asked, settled, marked, reached, IsSane,
  Good, free_id, add-Sane, add_mark-Sane, drop-Sane, drop_mark-Sane,
}
use otacon.Voice.Otacon.Closed.{on_close-Good}
use otacon.Voice.Otacon.Steps.{
  Input, starts, stops, opens, reconnects, marks, closes, timer_fires, runs, text, hears, sends,
  handle, run,
}

-- A step that sends and settles nothing.
quiet : (a b c : ℕ) → (0 + a ≡ 0 + a) × (0 + b ≡ 0 + b) × (0 + 0 + c ≡ c)
quiet a b c = (refl, refl, omega arith)

cmd-Good : (l : OtaconLink) (type : ℕ) → IsSane l → Good l (cmd l type)
unfolding cmd
cmd-Good l type s =
    Option-elim (Good l) (open_socket l) _ _ (s, λ k. quiet _ _ _)
      (λ ws. (
        add-Sane s type,
        λ k. (
          omega (arith, free_id s, held-put (suc l.next) k (suc l.next) l.pending),
          refl,
          ground arith,
        ),
      ))

mark-Good : (l : OtaconLink) → IsSane l → Good l (mark l)
unfolding mark
mark-Good l s =
    Option-elim (Good l) (open_socket l) _ _ (s, λ k. quiet _ _ _)
      (λ ws. (
        add_mark-Sane s,
        λ k. (refl, omega (arith, free_id s, held-put (suc l.next) k tt l.marks), ground arith),
      ))

waiting_for_lem :
    (l : OtaconLink) (id : Option ℕ) (p : ℕ × ℕ)
    → IsSane l
    → waiting_for l id ≡ some p
    → (p.1 ≡ p.0) × (1 ≤ held p.0 l.pending)
waiting_for_lem l none p s e = cc
waiting_for_lem l (some id) p s e = elim (Option-cases (get id l.pending)) [
  | inl n ↦ absurd (ground (arith, n))
  | inr (t, h) ↦
      let own : t ≡ id = Each-get _ id l.pending t s.keyed h in
      ground (arith, h, own, held_some id l.pending t h)
]

settle-Good : (l : OtaconLink) (id : Option ℕ) (r : Reply) → IsSane l → Good l (settle l id r)
unfolding settle
settle-Good l id r s =
    Option-each (Good l) (waiting_for l id) _ _ (s, λ k. quiet _ _ _)
      (λ p e.
        let (own, h) = waiting_for_lem l id p s e in
        (
          drop-Sane s p.0 p.1 own h,
          λ k. (omega (arith, held-delete p.0 k l.pending h), refl, omega arith),
        ))

on_mark-Good : (l : OtaconLink) (name : ℕ) (c : Bool) → IsSane l → Good l (on_mark l name c)
unfolding on_mark
on_mark-Good l name c s =
    Option-each (Good l) (get name l.marks) _ _ (s, λ k. quiet _ _ _)
      (λ t e.
        let h = held_some name l.marks t e in
        (
          drop_mark-Sane s name h,
          λ k. (refl, omega (arith, held-delete name k l.marks h), omega arith),
        ))

timed_out-Good : (l : OtaconLink) (timer : ℕ) → IsSane l → Good l (timed_out l timer)
unfolding timed_out
timed_out-Good l timer s =
    Option-each (Good l) (get timer l.timers) _ _ (s, λ k. quiet _ _ _)
      (λ t e.
        let own : t.0 ≡ timer = Each-get _ timer l.timers t s.own e in
        let h : 1 ≤ held t.0 l.pending =
          subst (λ k. 1 ≤ held k l.pending) (sym own)
            (omega (arith, s.timed timer, held_some timer l.timers t e)) in
        (
          drop-Sane s t.0 timer (sym own) h,
          λ k. (omega (arith, held-delete t.0 k l.pending h), refl, omega arith),
        ))

on_text-Good : (l : OtaconLink) (m : Message) → IsSane l → Good l (on_text l m)
unfolding on_text
on_text-Good l (ack id a) s = settle-Good l id (resolved a) s
on_text-Good l (error id code m) s = settle-Good l id (rejected (refused code m)) s
on_text-Good l (mark_reached name c) s = on_mark-Good l name c s
on_text-Good l m s = (s, λ k. quiet _ _ _)

send_audio-Good : (l : OtaconLink) (pcm bytes : ℕ) → IsSane l → Good l (send_audio l pcm bytes)
unfolding send_audio
send_audio-Good l pcm bytes s =
    Option-elim (Good l) (open_socket l) _ _ (s, λ k. quiet _ _ _)
      (λ ws.
        if-elim (λ es. Good l (l, es)) (not (bytes == 0)) _ _ (s, λ k. quiet _ _ _)
          (λ e. (s, λ k. quiet _ _ _)))

connect-Good : (l : OtaconLink) → IsSane l → Good l (connect l)
unfolding connect
connect-Good l s = if-elim (Good l) l.stopped _ _ (s, λ k. quiet _ _ _) (λ e. (s, λ k. quiet _ _ _))

close_socket_none :
    (f : Effect → ℕ) (o : Option ℕ)
    → ((ws : ℕ) → f (closes_socket ws) ≡ 0)
    → count f (close_socket o) ≡ 0
close_socket_none f none h = refl
close_socket_none f (some ws) h = omega (arith, h ws)

stop-Good : (l : OtaconLink) → IsSane l → Good l (stop l)
unfolding stop
stop-Good l s = (
  s,
  λ k. omega (
    arith,
    close_socket_none (asks k) l.ws (λ w. refl),
    close_socket_none (answers k) l.ws (λ w. refl),
    close_socket_none (marks_at k) l.ws (λ w. refl),
    close_socket_none (reaches k) l.ws (λ w. refl),
  ),
)

pub handle-Good : (l : OtaconLink) (i : Input) → IsSane l → Good l (handle l i)
unfolding handle start on_open
handle-Good l starts s = connect-Good (record l { stopped = false }) s
handle-Good l stops s = stop-Good l s
handle-Good l opens s = (s, λ k. quiet _ _ _)
handle-Good l reconnects s = connect-Good l s
handle-Good l marks s = mark-Good l s
handle-Good l (closes code) s = on_close-Good l code s
handle-Good l (timer_fires timer) s = timed_out-Good l timer s
handle-Good l (runs type) s = cmd-Good l type s
handle-Good l (text m) s = on_text-Good l m s
handle-Good l (hears pcm) s = (s, λ k. quiet _ _ _)
handle-Good l (sends pcm bytes) s = send_audio-Good l pcm bytes s

pub run-Good : (l : OtaconLink) (is : List Input) → IsSane l → Good l (run l is)
unfolding run
run-Good l [] s = (s, λ k. quiet _ _ _)
run-Good l (i ∷ is) s =
    let (m, es) = handle l i in
    let g = handle-Good l i s in
    let h = run-Good m is g.0 in
    let fs = (run m is).1 in
    (
      h.0,
      λ k. omega (
        arith,
        g.1 k,
        h.1 k,
        count-append (asks k) es fs,
        count-append (answers k) es fs,
        count-append (marks_at k) es fs,
        count-append (reaches k) es fs,
      ),
    )

new_link-Sane : IsSane new_link
unfolding new_link
new_link-Sane = record {
  timed = λ k. refl;
  once = λ k. omega arith;
  below = λ k h. refl;
  keyed = tt;
  own = tt;
}

-- However a link is used, a command that it sent is settled once or still waits, a mark too, and no
-- id is given out twice.
pub run-settled :
    (is : List Input) (k : ℕ)
    → let (l, es) = run new_link is in
      (asked k es ≡ settled k es + held k l.pending)
      × (marked k es ≡ reached k es + held k l.marks)
      × (asked k es + marked k es ≤ 1)
unfolding new_link
run-settled is k =
    let g = (run-Good new_link is new_link-Sane).1 k in
    (omega (arith, g), omega (arith, g), ground (arith, g))

abbrev Nothing : Out → Type 0
Nothing r = (r.0.pending ≡ []) × (r.0.marks ≡ [])

run_closed :
    (l : OtaconLink) (is : List Input) (code : ℕ) → Nothing (run l (is ++ closes code ∷ []))
unfolding run handle on_close
run_closed l [] code = if-elim Nothing l.stopped _ _ (refl, refl) (λ e. (refl, refl))
run_closed l (i ∷ is) code = run_closed (handle l i).0 is code

-- Once the socket closed, every command and every mark that was sent has been settled, each once.
pub run-settled_on_close :
    (is : List Input) (code k : ℕ)
    → let es = (run new_link (is ++ closes code ∷ [])).1 in
      (settled k es ≡ asked k es) × (reached k es ≡ marked k es)
run-settled_on_close is code k =
    let js = is ++ closes code ∷ [] in
    let (waits, ms) = run_closed new_link is code in
    let h = run-settled js k in
    (omega (arith, h, ap (held k) waits), omega (arith, h, ap (held k) ms))
