-- ===== src/Voice/G711.antt =====
-- g711.ts: G.711 mu-law coding of samples, and the two converters of a stream. A converter's
-- low-pass filter works in floating point, so it is a parameter.
pub mod Coding
pub mod Streams
mod Tests
use otacon.Prelude.{
  ℕ, zero, suc, ◌+◌, ◌-◌, ◌*◌, ◌/◌, ◌%◌, ◌^◌, min, Bool, true, false, not, List, [], ◌∷◌, ◌++◌,
  ◌==◌, leb, ltb, if◌then◌else◌,
}
use otacon.Prelude.Int.{ℤ, pos, negsuc, sub_ℕ}
use otacon.Voice.Pcm.{clamp16, samples, low_byte, high_byte}

abbrev pub bias : ℕ
bias = 132

abbrev pub clip : ℕ
clip = 32635

-- The magnitude that a byte's complement codes, with the bias.
abbrev pub biased : ℕ → ℕ
biased u = ((u % 16) * 8 + bias) * 2 ^ (u / 16 % 8)

abbrev pub signed : ℕ → ℤ
signed u = if leb 128 u then sub_ℕ bias (biased u) else sub_ℕ (biased u) bias

unfoldable pub mu_law_decode : ℕ → ℤ
mu_law_decode byte = signed (255 - byte)

abbrev pub magnitude : ℤ → ℕ
magnitude (pos n) = n
magnitude (negsuc n) = suc n

abbrev pub sign_bit : ℤ → ℕ
sign_bit (pos n) = 0
sign_bit (negsuc n) = 128

-- `for (let mask = 0x4000; (s & mask) === 0 && exponent > 0; mask >>= 1) exponent--`
unfoldable pub exponent_of : ℕ → ℕ → ℕ → ℕ
exponent_of s zero mask = 0
exponent_of s (suc e) mask =
    let rest = exponent_of s e (mask / 2) in if (s / mask) % 2 == 0 then rest else suc e

-- The code of a magnitude with the bias, by its exponent.
abbrev pub code_of : ℕ → ℕ → ℕ → ℕ
code_of sign s e = 255 - (sign + e * 16 + s / 2 ^ (e + 3) % 16)

-- `muLawEncode` of a sample that is already rounded.
unfoldable pub mu_law_encode : ℤ → ℕ
mu_law_encode sample =
    let c = clamp16 sample in
    let s = min (magnitude c) clip + bias in code_of (sign_bit c) s (exponent_of s 7 0x4000)

-- A low-pass filter over the numbers `Real`, its push, and the two roundings of what it gives.
pub record Filter : Type 1 where
  pub State : Type 0
  pub Real : Type 0
  pub fresh : State
  pub push : State → ℤ → State × Real
  pub round : Real → ℤ
  pub round_double : Real → ℤ

abbrev pub sample_bytes : ℤ → List ℕ
sample_bytes z = low_byte (clamp16 z) ∷ high_byte (clamp16 z) ∷ []

module _ (F : Filter) where
  -- MuLawToPcm16k.process: each sample, then a zero.
  unfoldable pub to_pcm : F.State → List ℕ → F.State × List ℕ
  to_pcm fir [] = (fir, [])
  to_pcm fir (byte ∷ mulaw) =
      let (fir', x) = F.push fir (mu_law_decode byte) in
      let (fir'', y) = F.push fir' (pos 0) in
      let (last, out) = to_pcm fir'' mulaw in
      (last, sample_bytes (F.round_double x) ++ (sample_bytes (F.round_double y) ++ out))

  -- The loop of Pcm16kToMuLaw.process: every sample goes through the filter, every second one out.
  unfoldable pub to_mu_law_loop : F.State × Bool → List ℤ → (F.State × Bool) × List ℕ
  to_mu_law_loop s [] = (s, [])
  to_mu_law_loop (fir, odd) (x ∷ xs) =
      let (fir', y) = F.push fir x in
      let (last, out) = to_mu_law_loop (fir', not odd) xs in
      (last, if odd then out else mu_law_encode (F.round y) ∷ out)

  unfoldable pub to_mu_law : F.State × Bool → List ℕ → (F.State × Bool) × List ℕ
  unfolding to_mu_law_loop
  to_mu_law s pcm = to_mu_law_loop s (samples pcm)
