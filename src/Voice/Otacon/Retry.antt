-- ===== src/Voice/Otacon/Retry.antt =====
-- otacon.ts: how long a link that lost its socket waits before it connects again.
use native.Mathlib.Nat.{pow-suc}
use otacon.Prelude.{
  ℕ, suc, ◌*◌, ◌^◌, ◌≡◌, refl, false, min, ap, ◌∙◌, List, [], ◌∷◌, ◌++◌, true, arith, ◌==◌,
  if◌then◌else◌, if-elim, if-false,
}
use otacon.Voice.Otacon.{
  Effect, reconnects_in, emits_close, OtaconLink, Out, reject_all, drop_marks, delay, taken_over,
  connect, on_open, on_close,
}
use otacon.Voice.Otacon.Steps.{Input, opens, reconnects, closes, handle, run}

-- The waits that the effects ask for.
abbrev pub waits : List Effect → List ℕ
waits [] = []
waits (reconnects_in ms ∷ es) = ms ∷ waits es
waits (e ∷ es) = waits es

waits-append : (es fs : List Effect) → waits (es ++ fs) ≡ waits es ++ waits fs
waits-append [] fs = refl
waits-append (reconnects_in ms ∷ es) fs = ap (◌∷◌ ms) (waits-append es fs)
waits-append (e ∷ es) fs = waits-append es fs

-- Sockets that close one after another, by their codes, each followed by the next connection.
abbrev pub losses : List ℕ → List Input
losses [] = []
losses (code ∷ codes) = closes code ∷ reconnects ∷ losses codes

-- The wait after `i` losses: a second doubled each time, up to fifteen, or a minute.
abbrev pub schedule : ℕ → List ℕ → List ℕ
schedule i [] = []
schedule i (code ∷ codes) =
    (if code == taken_over then 60_000 else min (1_000 * 2 ^ i) 15_000) ∷ schedule (suc i) codes

waits-reject_all : (ps : List (ℕ × ℕ)) → waits (reject_all ps) ≡ []
waits-reject_all [] = refl
waits-reject_all (p ∷ ps) = waits-reject_all ps

waits-drop_marks : (ms : List (ℕ × Unit {0})) → waits (drop_marks ms) ≡ []
waits-drop_marks [] = refl
waits-drop_marks (m ∷ ms) = waits-drop_marks ms

doubled : (i : ℕ) → min (min (1_000 * 2 ^ i) 15_000 * 2) 15_000 ≡ min (1_000 * 2 ^ suc i) 15_000
doubled i = omega (arith, pow-suc 2 i)

waits-on_close :
    (l : OtaconLink) (code : ℕ)
    → l.stopped ≡ false
    → (waits (on_close l code).1 ≡ delay code l.retry_ms ∷ [])
      × ((on_close l code).0.retry_ms ≡ min (l.retry_ms * 2) 15_000)
      × ((on_close l code).0.stopped ≡ false)
unfolding on_close
waits-on_close l code up =
    if-false
      (λ (r : Out).
        (waits r.1 ≡ delay code l.retry_ms ∷ [])
        × (r.0.retry_ms ≡ min (l.retry_ms * 2) 15_000)
        × (r.0.stopped ≡ false))
      l.stopped _ _ up (gone, refl, up)
  where
    tail : List Effect
    tail = if l.open_ then emits_close ∷ [] else []

    waits-tail : waits tail ≡ []
    waits-tail = if-elim (λ es. waits es ≡ []) l.open_ (emits_close ∷ []) [] refl (λ e. refl)

    all : List Effect
    all = reject_all l.pending ++ drop_marks l.marks

    gone :
        waits (all ++ tail ++ reconnects_in (delay code l.retry_ms) ∷ [])
        ≡ delay code l.retry_ms ∷ []
    gone =
        rw
          (
            waits-append (all ++ tail) (reconnects_in (delay code l.retry_ms) ∷ []),
            waits-append all tail,
            waits-append (reject_all l.pending) (drop_marks l.marks),
            waits-reject_all l.pending,
            waits-drop_marks l.marks,
            waits-tail,
          )
          refl

waits-connect :
    (l : OtaconLink)
    → (waits (connect l).1 ≡ [])
      × ((connect l).0.retry_ms ≡ l.retry_ms)
      × ((connect l).0.stopped ≡ l.stopped)
unfolding connect
waits-connect l =
    if-elim
      (λ (r : Out). (waits r.1 ≡ []) × (r.0.retry_ms ≡ l.retry_ms) × (r.0.stopped ≡ l.stopped))
      l.stopped _ _ (refl, refl, refl) (λ e. (refl, refl, refl))

waits-losses :
    (l : OtaconLink) (i : ℕ) (codes : List ℕ)
    → l.stopped ≡ false
    → l.retry_ms ≡ min (1_000 * 2 ^ i) 15_000
    → waits (run l (losses codes)).1 ≡ schedule i codes
unfolding run handle
waits-losses l i [] up e = refl
waits-losses l i (code ∷ codes) up e =
    let (m, es) = on_close l code in
    let (n, fs) = connect m in
    let (w, r, s) = waits-on_close l code up in
    let (v, r', s') = waits-connect m in
    let rest =
      waits-losses n (suc i) codes (s' ∙ s) (r' ∙ r ∙ ap (λ t. min (t * 2) 15_000) e ∙ doubled i) in
    rw
      (
        waits-append es (fs ++ (run n (losses codes)).1),
        waits-append fs (run n (losses codes)).1,
        w,
        v,
        rest,
      )
      (ap (λ t. delay code t ∷ schedule (suc i) codes) e)

-- A link that is not stopped and opened, and whose sockets then close one after another with none
-- opening, waits a second after the first loss and twice as long after each one that follows, up to
-- fifteen seconds; after a loss to another client it waits a minute.
pub losses-waits :
    (l : OtaconLink) (codes : List ℕ)
    → l.stopped ≡ false
    → waits (run l (opens ∷ losses codes)).1 ≡ schedule 0 codes
unfolding run handle on_open
losses-waits l codes up = waits-losses (record l { open_ = true; retry_ms = 1_000 }) 0 codes up refl
