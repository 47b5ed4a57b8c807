-- ===== src/Voice/G711/Coding.antt =====
-- Coding a sample as a byte and back.
use otacon.Prelude.{
  ℕ, zero, suc, ◌+◌, ◌*◌, ◌≤◌, ◌<◌, ◌≡◌, refl, inl, inr, Bool, true, ◌&&◌, arith, ◌==◌, leb,
  if◌then◌else◌, Bool-cases,
}
use otacon.Prelude.Int.{ℤ, pos, negsuc, ◌-ℤ◌}
use otacon.Voice.Pcm.{clamp16}
use otacon.Voice.G711.{mu_law_decode, magnitude, exponent_of, mu_law_encode}

-- The test of all numbers below a bound.
abbrev all_below : (ℕ → Bool) → ℕ → Bool
all_below p zero = true
all_below p (suc n) = p n && all_below p n

all_below_lem : (p : ℕ → Bool) (n k : ℕ) → all_below p n ≡ true → k < n → p k ≡ true
all_below_lem p zero k h lt = absurd (omega arith)
all_below_lem p (suc n) k h lt = elim (Bool-cases (k == n)) [
  | inl e ↦ let same : k ≡ n = ground (arith, e) in rw same (ground (arith, h))
  | inr e ↦ all_below_lem p n k (ground (arith, h)) (ground (arith, e))
]

abbrev round_trips : ℕ → Bool
round_trips byte = mu_law_encode (mu_law_decode byte) == (if byte == 127 then 255 else byte)

every_byte : all_below round_trips 256 ≡ true
unfolding mu_law_encode mu_law_decode exponent_of clamp16
every_byte = refl

-- Every byte codes the sample it decodes to, but 127, whose sample 0 is coded as 255.
pub mu_law_encode-mu_law_decode :
    (byte : ℕ)
    → byte < 256
    → mu_law_encode (mu_law_decode byte) ≡ (if byte == 127 then 255 else byte)
mu_law_encode-mu_law_decode byte lt =
    let h = all_below_lem round_trips 256 byte every_byte lt in ground (arith, h)

-- How far apart two samples are.
abbrev pub off_by : ℤ → ℤ → ℕ
off_by a b = magnitude (a -ℤ b)

abbrev pub coded : ℤ → ℤ
coded z = mu_law_decode (mu_law_encode z)

abbrev close : ℤ → Bool
close z = leb (32 * off_by (coded z) z) (magnitude z + 132)

all_close :
    (all_below (λ n. close (pos n)) 32636 ≡ true) × (all_below (λ n. close (negsuc n)) 32635 ≡ true)
unfolding mu_law_encode mu_law_decode exponent_of clamp16 ◌-ℤ◌
all_close = (refl, refl)

-- Coding a sample within the clip loses at most a 32nd of its magnitude and the bias together.
pub coded_lem : (z : ℤ) → magnitude z ≤ 32635 → 32 * off_by (coded z) z ≤ magnitude z + 132
coded_lem (pos n) le =
    let h = all_below_lem (λ n. close (pos n)) 32636 n all_close.0 (omega arith) in
    ground (arith, h)
coded_lem (negsuc n) le =
    let h = all_below_lem (λ n. close (negsuc n)) 32635 n all_close.1 (omega arith) in
    ground (arith, h)
