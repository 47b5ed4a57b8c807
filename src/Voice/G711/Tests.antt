-- ===== src/Voice/G711/Tests.antt =====
-- Coding at concrete samples, and a filter that passes everything.
use otacon.Prelude.{ℕ, suc, ◌≡◌, ◌≤◌, ◌+◌, ◌*◌, refl, arith, if◌then◌else◌, ◌==◌}
use otacon.Prelude.Int.{ℤ, pos, negsuc}
use otacon.Voice.Pcm.{clamp16}
use otacon.Voice.G711.{Filter, mu_law_encode, mu_law_decode, exponent_of, magnitude}
use otacon.Voice.G711.Coding.{mu_law_encode-mu_law_decode, coded, coded_lem, off_by}

abbrev all_pass : Filter
all_pass = record {
  State = ℕ;
  Real = ℤ;
  fresh = 0;
  push = λ s z. (suc s, z);
  round = λ z. z;
  round_double = λ z. z;
}

some_codes :
    (mu_law_encode (pos 0) ≡ 255) × (mu_law_encode (pos 1000) ≡ 206) × (mu_law_decode 206 ≡ pos 988)
unfolding mu_law_encode mu_law_decode exponent_of clamp16
some_codes = (refl, refl, refl)

mu_law_encode-mu_law_decode_example :
    mu_law_encode (mu_law_decode 127) ≡ (if 127 == 127 then 255 else 127)
mu_law_encode-mu_law_decode_example = mu_law_encode-mu_law_decode 127 (omega arith)

coded_lem_example : 32 * off_by (coded (negsuc 999)) (negsuc 999) ≤ magnitude (negsuc 999) + 132
coded_lem_example = coded_lem (negsuc 999) (omega arith)
