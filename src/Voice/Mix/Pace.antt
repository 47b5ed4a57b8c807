-- ===== src/Voice/Mix/Pace.antt =====
-- What a listener hears: the other party's samples with the model's added, in order, clipped.
use mathlib.Core.Path.{ap₂}
use native.Mathlib.Nat.{zero-add}
use otacon.Prelude.{
  ℕ, zero, suc, ◌+◌, ◌≡◌, refl, ap, sym, ◌∙◌, subst, List, [], ◌∷◌, ◌++◌, some, arith, length, take,
  drop, drop_all,
}
use otacon.Prelude.Int.{ℤ, pos, ◌+ℤ◌}
use otacon.Voice.Pcm.{samples, IsWhole, clamp16, read_sample, read-write_clamp, low_byte, high_byte}
use otacon.Voice.Mix.{CallMix, model, take_bytes, mix_loop, whole_bytes, line}
use otacon.Voice.Mix.Queue.{buffered, take_loop_lem}

-- Sample by sample, the model's audio running out into silence.
abbrev pub mixed : List ℤ → List ℤ → List ℤ
mixed [] ms = []
mixed (s ∷ ss) [] = clamp16 (s +ℤ pos 0) ∷ mixed ss []
mixed (s ∷ ss) (m ∷ ms) = clamp16 (s +ℤ m) ∷ mixed ss ms

-- The loop never reads past the end of whole samples, and writes the mixed ones.
mix_loop_lem :
    (pcm model : List ℕ)
    → IsWhole model
    → (out : List ℕ) × (mix_loop pcm model ≡ some out)
      × (samples out ≡ mixed (samples pcm) (samples model))
      × (length out ≡ whole_bytes pcm)
unfolding mix_loop
mix_loop_lem [] model w = ([], refl, refl, refl)
mix_loop_lem (lo ∷ []) model w = ([], refl, refl, refl)
mix_loop_lem (lo ∷ hi ∷ pcm) [] w =
    let (out, e, s, n) = mix_loop_lem pcm [] tt in
    let z = clamp16 (read_sample lo hi +ℤ pos 0) in
    (low_byte z ∷ high_byte z ∷ out, rw e, ap₂ ◌∷◌ (read-write_clamp _) s, omega (arith, n))
mix_loop_lem (lo ∷ hi ∷ pcm) (m ∷ []) w = elim w [ ]
mix_loop_lem (lo ∷ hi ∷ pcm) (mlo ∷ mhi ∷ model) w =
    let (out, e, s, n) = mix_loop_lem pcm model w in
    let z = clamp16 (read_sample lo hi +ℤ read_sample mlo mhi) in
    (low_byte z ∷ high_byte z ∷ out, rw e, ap₂ ◌∷◌ (read-write_clamp _) s, omega (arith, n))

-- No more of the model's audio is looked at than the other party's is long.
mixed-take :
    (pcm model : List ℕ)
    → mixed (samples pcm) (samples (take (whole_bytes pcm) model))
      ≡ mixed (samples pcm) (samples model)
mixed-take [] model = refl
mixed-take (lo ∷ []) model = refl
mixed-take (lo ∷ hi ∷ pcm) [] = refl
mixed-take (lo ∷ hi ∷ pcm) (m ∷ []) = refl
mixed-take (lo ∷ hi ∷ pcm) (mlo ∷ mhi ∷ model) =
    ap (◌∷◌ (clamp16 (read_sample lo hi +ℤ read_sample mlo mhi))) (mixed-take pcm model)

take-IsWhole : (pcm model : List ℕ) → IsWhole model → IsWhole (take (whole_bytes pcm) model)
take-IsWhole [] model w = tt
take-IsWhole (lo ∷ []) model w = tt
take-IsWhole (lo ∷ hi ∷ pcm) [] w = tt
take-IsWhole (lo ∷ hi ∷ pcm) (m ∷ []) w = elim w [ ]
take-IsWhole (lo ∷ hi ∷ pcm) (mlo ∷ mhi ∷ model) w = take-IsWhole pcm model w

drop-IsWhole : (pcm model : List ℕ) → IsWhole model → IsWhole (drop (whole_bytes pcm) model)
drop-IsWhole [] model w = w
drop-IsWhole (lo ∷ []) model w = w
drop-IsWhole (lo ∷ hi ∷ pcm) [] w = tt
drop-IsWhole (lo ∷ hi ∷ pcm) (m ∷ []) w = elim w [ ]
drop-IsWhole (lo ∷ hi ∷ pcm) (mlo ∷ mhi ∷ model) w = drop-IsWhole pcm model w

-- When the queue holds whole samples, a chunk of the other party's audio never makes `line` throw:
-- what comes back is as long as the chunk's whole samples, and is its samples, each with the next
-- queued sample of the model added and clipped to 16 bits, or alone once the queue has run out. The
-- queue then holds what comes after the samples that were played.
pub line_lem :
    (m : CallMix) (pcm : List ℕ)
    → IsWhole (buffered m.queue)
    → (out : List ℕ) × ((line m pcm).0 ≡ some out)
      × (samples out ≡ mixed (samples pcm) (samples (buffered m.queue)))
      × (length out ≡ whole_bytes pcm)
      × (buffered (line m pcm).1.queue ≡ drop (whole_bytes pcm) (buffered m.queue))
unfolding line take_bytes
line_lem m pcm w =
    let (got, kept) = take_loop_lem (whole_bytes pcm) m.queue in
    let (out, e, s, n) =
      mix_loop_lem pcm (take (whole_bytes pcm) (buffered m.queue)) (take-IsWhole pcm _ w) in
    (out, ap (mix_loop pcm) got ∙ e, s ∙ mixed-take pcm (buffered m.queue), n, kept)

pub samples-append : (a b : List ℕ) → IsWhole a → samples (a ++ b) ≡ samples a ++ samples b
samples-append [] b w = refl
samples-append (x ∷ []) b w = elim w [ ]
samples-append (x ∷ y ∷ a) b w = ap (◌∷◌ (read_sample x y)) (samples-append a b w)

mixed-append_nil : (ss ts : List ℤ) → mixed (ss ++ ts) [] ≡ mixed ss [] ++ mixed ts []
mixed-append_nil [] ts = refl
mixed-append_nil (s ∷ ss) ts = ap (◌∷◌ (clamp16 (s +ℤ pos 0))) (mixed-append_nil ss ts)

mixed-append :
    (a b model : List ℕ)
    → IsWhole a
    → IsWhole model
    → mixed (samples a ++ samples b) (samples model)
      ≡ mixed (samples a) (samples model)
        ++ mixed (samples b) (samples (drop (whole_bytes a) model))
mixed-append [] b model w v = refl
mixed-append (x ∷ []) b model w v = elim w [ ]
mixed-append (x ∷ y ∷ a) b [] w v = mixed-append_nil (samples (x ∷ y ∷ a)) (samples b)
mixed-append (x ∷ y ∷ a) b (m ∷ []) w v = elim v [ ]
mixed-append (x ∷ y ∷ a) b (mlo ∷ mhi ∷ model) w v =
    ap (◌∷◌ (clamp16 (read_sample x y +ℤ read_sample mlo mhi))) (mixed-append a b model w v)

whole_bytes-append :
    (a b : List ℕ) → IsWhole a → whole_bytes (a ++ b) ≡ whole_bytes a + whole_bytes b
whole_bytes-append [] b w = omega arith
whole_bytes-append (x ∷ []) b w = elim w [ ]
whole_bytes-append (x ∷ y ∷ a) b w = omega (arith, whole_bytes-append a b w)

drop-add {ℓ} : {A : Type ℓ} (m n : ℕ) (xs : List A) → drop (m + n) xs ≡ drop n (drop m xs)
drop-add zero n xs = rw zero-add
drop-add (suc m) n [] =
    let e : suc m + n ≡ suc (m + n) = omega arith in rw e (sym (drop_all n [] (omega arith)))
drop-add (suc m) n (x ∷ xs) =
    let e : suc m + n ≡ suc (m + n) = omega arith in rw e (drop-add m n xs)

-- The pace does not matter: two chunks one after the other, the first of whole samples, give the
-- listener the same samples as the two in one, and leave the same audio queued.
pub line-append :
    (m : CallMix) (a b : List ℕ)
    → IsWhole a
    → IsWhole (buffered m.queue)
    → (x : List ℕ) × (y : List ℕ) × (z : List ℕ) × ((line m a).0 ≡ some x)
      × ((line (line m a).1 b).0 ≡ some y)
      × ((line m (a ++ b)).0 ≡ some z)
      × (samples z ≡ samples x ++ samples y)
      × (buffered (line (line m a).1 b).1.queue ≡ buffered (line m (a ++ b)).1.queue)
line-append m a b w v =
    let (x, ex, sx, nx, qx) = line_lem m a v in
    let (y, ey, sy, ny, qy) =
      line_lem (line m a).1 b (subst IsWhole (sym qx) (drop-IsWhole a _ v)) in
    let (z, ez, sz, nz, qz) = line_lem m (a ++ b) v in
    (
      x,
      y,
      z,
      ex,
      ey,
      ez,
      rw (sz, sx, sy, qx, samples-append a b w) (mixed-append a b (buffered m.queue) w v),
      rw (qy, qx, qz, whole_bytes-append a b w)
          (sym (drop-add (whole_bytes a) (whole_bytes b) (buffered m.queue))),
    )
