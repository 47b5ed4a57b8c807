-- ===== src/Voice/Pcm.antt =====
-- pcm_s16le audio: a buffer is a list of bytes, a sample two of them, little end first.
use otacon.Prelude.{ℕ, ◌+◌, ◌-◌, ◌*◌, ◌/◌, ◌%◌, ◌≡◌, List, [], ◌∷◌, arith, ltb, if◌then◌else◌}
use otacon.Prelude.Int.{ℤ, pos, negsuc, ltb_ℤ, ◌≤ℤ◌}

-- `readInt16LE` of the two bytes.
unfoldable pub read_sample : ℕ → ℕ → ℤ
read_sample lo hi = let w = lo + 256 * hi in if ltb w 32768 then pos w else negsuc (65535 - w)

-- The 16-bit pattern that `writeInt16LE` stores.
abbrev pub pattern_of : ℤ → ℕ
pattern_of (pos n) = n
pattern_of (negsuc n) = 65535 - n

abbrev pub low_byte : ℤ → ℕ
low_byte z = pattern_of z % 256

abbrev pub high_byte : ℤ → ℕ
high_byte z = pattern_of z / 256

-- `Math.max(-32768, Math.min(32767, x))`
unfoldable pub clamp16 : ℤ → ℤ
clamp16 z =
    if ltb_ℤ (pos 32767) z then pos 32767 else if ltb_ℤ z (negsuc 32767) then negsuc 32767 else z

pub clamp16_bounds : (z : ℤ) → (negsuc 32767 ≤ℤ clamp16 z) × (clamp16 z ≤ℤ pos 32767)
unfolding clamp16
clamp16_bounds z = ground arith

pub read-write_clamp :
    (z : ℤ) → read_sample (low_byte (clamp16 z)) (high_byte (clamp16 z)) ≡ clamp16 z
unfolding clamp16 read_sample
read-write_clamp z = ground arith

-- The samples of a buffer; an odd last byte is no sample.
abbrev pub samples : List ℕ → List ℤ
samples [] = []
samples (lo ∷ []) = []
samples (lo ∷ hi ∷ bytes) = read_sample lo hi ∷ samples bytes

-- A buffer of whole samples.
abbrev pub IsWhole : List ℕ → Type 0
IsWhole [] = Unit
IsWhole (lo ∷ []) = ⊥
IsWhole (lo ∷ hi ∷ bytes) = IsWhole bytes
