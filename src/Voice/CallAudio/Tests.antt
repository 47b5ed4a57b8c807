-- ===== src/Voice/CallAudio/Tests.antt =====
-- Hold music, then speech: a line that hears 16 kHz as it is.
use otacon.Prelude.{◌≡◌, ◌+◌, refl, true, false, List, [], ◌∷◌, ℕ}
use otacon.Voice.CallAudio.{Resampling, CallAudio, new_audio, has_speech}
use otacon.Voice.Pcm.{read_sample}

abbrev plain : Resampling
plain = record { Resampler = ℕ; up = 0; down = 0; process = λ n pcm. (pcm, n + 1) }

abbrev on_hold : CallAudio plain
on_hold = record (new_audio plain) {
  has_session = true;
  muted = true;
  quiet_seconds = 10;
  navigating = true;
}

abbrev two_chunks : List (List ℕ)
two_chunks = (1 ∷ 0 ∷ []) ∷ (100 ∷ 1 ∷ []) ∷ []

speaks : (has_speech (1 ∷ 0 ∷ []) ≡ false) × (has_speech (100 ∷ 1 ∷ []) ≡ true)
unfolding has_speech read_sample
speaks = (refl, refl)
