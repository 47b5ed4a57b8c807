-- ===== src/Voice/CallAudio/Preroll.antt =====
-- What a muted model hears of the line once someone speaks.
use otacon.Prelude.{ℕ, ◌≡◌, true, List, [], ◌∷◌, ◌++◌}
use otacon.Voice.CallAudio.{Resampling, CallAudio, AudioEffect, model_hears, on_downlink}
use otacon.Voice.CallAudio.Trimmed.{total, Within, Tight}

module _ (resampling : Resampling) where
  abbrev Audio : Type 0
  Audio = CallAudio resampling

  -- The line's chunks, one after the other.
  abbrev pub hears_all : Audio → List (List ℕ) → Audio
  hears_all a [] = a
  hears_all a (pcm ∷ chunks) = hears_all (on_downlink resampling a true pcm).0 chunks

  -- The effects of the line's chunks.
  abbrev pub passed_on : Audio → List (List ℕ) → List AudioEffect
  passed_on a [] = []
  passed_on a (pcm ∷ chunks) =
      (on_downlink resampling a true pcm).1
      ++ passed_on (on_downlink resampling a true pcm).0 chunks

  abbrev pub to_the_model : List AudioEffect → List (List ℕ)
  to_the_model [] = []
  to_the_model (model_hears pcm ∷ es) = pcm ∷ to_the_model es
  to_the_model (e ∷ es) = to_the_model es

  -- What the model hears, once someone speaks, of the chunks that came while the line was muted.
  abbrev Kept : List (List ℕ) → Audio → Type 0
  Kept chunks a =
      (dropped : List (List ℕ)) × (chunks ≡ dropped ++ a.preroll)
      × (a.preroll_bytes ≡ total a.preroll)
      × Within a.preroll
      × Tight dropped a.preroll
      × (a.muted ≡ true)
      × (a.listeners ≡ [])
      × (a.has_session ≡ true)
