-- ===== src/Voice/G711/Streams.antt =====
-- The two converters of a stream, chunk by chunk.
use otacon.Prelude.{
  ℕ, ◌*◌, ◌≡◌, refl, ap, ◌∙◌, Bool, true, false, List, [], ◌∷◌, ◌++◌, arith, length,
}
use otacon.Prelude.Int.{ℤ, pos}
use otacon.Voice.Pcm.{samples, IsWhole}
use otacon.Voice.Mix.Pace.{samples-append}
use otacon.Voice.G711.{
  Filter, mu_law_encode, mu_law_decode, to_pcm, to_mu_law_loop, to_mu_law, sample_bytes,
}

module _ (F : Filter) where
  loop-append :
      (s : F.State × Bool) (xs ys : List ℤ)
      → to_mu_law_loop F s (xs ++ ys) ≡ (
        (to_mu_law_loop F (to_mu_law_loop F s xs).0 ys).0,
        (to_mu_law_loop F s xs).1 ++ (to_mu_law_loop F (to_mu_law_loop F s xs).0 ys).1,
      )
  unfolding to_mu_law_loop
  loop-append s [] ys = refl
  loop-append (fir, true) (x ∷ xs) ys = loop-append _ xs ys
  loop-append (fir, false) (x ∷ xs) ys =
      let r = loop-append ((F.push fir x).0, true) xs ys in
      ap (λ p. (p.0, mu_law_encode (F.round (F.push fir x).1) ∷ p.1)) r

  -- A stream towards the call may be cut between any two samples: coding the pieces one after the
  -- other gives the same bytes, and leaves the converter in the same state, as coding the whole.
  pub to_mu_law-append :
      (s : F.State × Bool) (a b : List ℕ)
      → IsWhole a
      → to_mu_law F s (a ++ b) ≡ (
        (to_mu_law F (to_mu_law F s a).0 b).0,
        (to_mu_law F s a).1 ++ (to_mu_law F (to_mu_law F s a).0 b).1,
      )
  unfolding to_mu_law
  to_mu_law-append s a b w =
      ap (to_mu_law_loop F s) (samples-append a b w) ∙ loop-append s (samples a) (samples b)

  -- A stream from the call may be cut anywhere: decoding the pieces one after the other gives the
  -- same bytes, and leaves the converter in the same state, as decoding the whole.
  pub to_pcm-append :
      (fir : F.State) (a b : List ℕ)
      → to_pcm F fir (a ++ b) ≡ (
        (to_pcm F (to_pcm F fir a).0 b).0,
        (to_pcm F fir a).1 ++ (to_pcm F (to_pcm F fir a).0 b).1,
      )
  unfolding to_pcm
  to_pcm-append fir [] b = refl
  to_pcm-append fir (x ∷ a) b = ap (λ p. (p.0, heard ++ (again ++ p.1))) (to_pcm-append next a b)
    where
      first : F.State × F.Real
      first = F.push fir (mu_law_decode x)

      next : F.State
      next = (F.push first.0 (pos 0)).0

      heard : List ℕ
      heard = sample_bytes (F.round_double first.1)

      again : List ℕ
      again = sample_bytes (F.round_double (F.push first.0 (pos 0)).1)

  -- Each byte from the call gives two samples at twice the rate, four bytes.
  pub length-to_pcm : (fir : F.State) (a : List ℕ) → length (to_pcm F fir a).1 ≡ 4 * length a
  unfolding to_pcm
  length-to_pcm fir [] = omega arith
  length-to_pcm fir (x ∷ a) =
      let rest = length-to_pcm (F.push (F.push fir (mu_law_decode x)).0 (pos 0)).0 a in
      omega (arith, rest)
