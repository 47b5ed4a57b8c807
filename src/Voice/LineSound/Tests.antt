-- ===== src/Voice/LineSound/Tests.antt =====
-- Runs and holds at concrete inputs.
use mathlib.Core.List.{reverse}
use otacon.Prelude.{◌+◌, length, ◌-◌, ◌≤◌, ◌≡◌, refl, some, none, List, [], ◌∷◌}
use otacon.Voice.LineSound.{
  Sound, speech, music, silence, SoundRun, runs, quiet_since, hold_from, seconds_on_hold, last_to,
  hold_after_seconds,
}
use otacon.Voice.LineSound.Runs.{Covers, Folded, Plays, runs_lem}
use otacon.Voice.LineSound.Quiet.{QuietFrom, quiet_since_lem}

abbrev menu_then_music : List Sound
menu_then_music =
    speech ∷ speech ∷ silence ∷ speech ∷ music ∷ music ∷ music ∷ silence ∷ music ∷ music ∷ []

abbrev menu_runs : List SoundRun
menu_runs =
    record { sound = music; from = 14; to = 20 }
    ∷ record { sound = speech; from = 10; to = 14 }
    ∷ []

folds : runs 10 menu_then_music ≡ menu_runs
unfolding runs
folds = refl

holds :
    (hold_from 125
        (record { sound = speech; from = 10; to = 14 }
          ∷ record { sound = music; from = 14; to = 20 }
          ∷ [])
        none
      ≡ some 140)
    × (seconds_on_hold 20 (some 125) ≡ 8)
unfolding hold_from seconds_on_hold
holds = (refl, refl)

quiet_since_lem_example : QuietFrom menu_runs 14 × (hold_after_seconds ≤ last_to menu_runs - 14)
unfolding quiet_since
quiet_since_lem_example = quiet_since_lem menu_runs 14 refl

runs_lem_example :
    Covers 10 (runs 10 menu_then_music) (10 + length menu_then_music)
    × Folded (runs 10 menu_then_music)
    × Plays (reverse menu_then_music) (runs 10 menu_then_music)
runs_lem_example = runs_lem 10 menu_then_music
