-- ===== src/Voice/LineSound.antt =====
-- linesound.ts: what the line plays, second by second, and the runs of it. Whole seconds are
-- numbers; a key press and a hold are timed in tenths of a second. A list of runs has the newest
-- at its head.
pub mod Runs
pub mod Quiet
mod Tests
use otacon.Prelude.{
  ℕ, suc, ◌+◌, ◌-◌, ◌*◌, ◌/◌, ◌≡◌, Bool, true, false, ◌&&◌, ◌||◌, Option, none, some, List, [], ◌∷◌,
  ◌++◌, ltb, leb, if◌then◌else◌, max, arith, take,
}
use mathlib.Core.List.{reverse}

pub data Sound : Type 0 where
  speech music silence : Sound

abbrev pub same_sound : Sound → Sound → Bool
same_sound speech speech = true
same_sound music music = true
same_sound silence silence = true
same_sound _ _ = false

pub same_sound-eq : (a b : Sound) → same_sound a b ≡ true → a ≡ b
same_sound-eq a b h = ground arith

abbrev pub is_speech : Sound → Bool
is_speech s = same_sound s speech

pub record SoundRun : Type 0 where
  pub sound : Sound
  pub from : ℕ
  pub to : ℕ

abbrev pub windows_per_second : ℕ
windows_per_second = 31

abbrev pub hold_after_seconds : ℕ
hold_after_seconds = 5

abbrev pub blip_seconds : ℕ
blip_seconds = 2

-- The arithmetic of floating-point loudness: `squares + rms * rms`, and
-- `Math.sqrt(squares / windows) >= SILENCE_RMS`.
pub record Loudness : Type 1 where
  pub Squares : Type 0
  pub Rms : Type 0
  pub zero_squares : Squares
  pub add_square : Squares → Rms → Squares
  pub is_loud : Squares → ℕ → Bool

module _ (loudness : Loudness) where
  open loudness use {Squares, Rms, zero_squares, add_square, is_loud}

  pub record LineSound : Type 0 where
    pub secs : List Sound
    pub start : ℕ
    pub windows : ℕ
    pub speech_windows : ℕ
    pub squares : Squares

  -- `speechWindows / windows >= 0.3`
  abbrev pub second_of : ℕ → ℕ → Squares → Sound
  second_of windows speech_windows squares =
      if leb (3 * windows) (10 * speech_windows)
      then speech
      else if is_loud squares windows
      then music
      else silence

  abbrev pub is_first : List Sound → Bool
  is_first [] = true
  is_first (_ ∷ _) = false

  -- `speaks` is `prob > 0.5`, and `now` the rounded seconds into the call.
  unfoldable pub window : LineSound → Bool → Rms → ℕ → LineSound × Option Sound
  window s speaks rms now =
      let windows = s.windows + 1 in
      let speech_windows = if speaks then s.speech_windows + 1 else s.speech_windows in
      let squares = add_square s.squares rms in
      let sound = second_of windows speech_windows squares in
      if ltb windows windows_per_second
      then (
        record s { windows = windows; speech_windows = speech_windows; squares = squares },
        none,
      )
      else (
        record {
          secs = s.secs ++ sound ∷ [];
          start = if is_first s.secs then now - 1 else s.start;
          windows = 0;
          speech_windows = 0;
          squares = zero_squares;
        },
        some sound,
      )

-- One round of `runs`: the second `t` sounds `sound`.
unfoldable pub add_second : List SoundRun → Sound → ℕ → List SoundRun
add_second [] sound t = record { sound = sound; from = t; to = t + 1 } ∷ []
add_second (last ∷ []) sound t =
    if same_sound last.sound sound
    then record last { to = t + 1 } ∷ []
    else record { sound = sound; from = t; to = t + 1 } ∷ last ∷ []
add_second (last ∷ before ∷ runs) sound t =
    if same_sound last.sound sound
    then record last { to = t + 1 } ∷ before ∷ runs
    else if same_sound before.sound sound && ltb (last.to - last.from) blip_seconds
    then record before { to = t + 1 } ∷ runs
    else record { sound = sound; from = t; to = t + 1 } ∷ last ∷ before ∷ runs

pub runs_from : List SoundRun → ℕ → List Sound → List SoundRun
runs_from runs t [] = runs
runs_from runs t (sound ∷ secs) = runs_from (add_second runs sound t) (suc t) secs

unfoldable pub runs : ℕ → List Sound → List SoundRun
unfolding runs_from add_second
runs start secs = runs_from [] start secs

-- The loop of `quietSince`: the start of the oldest run since the last speech.
unfoldable pub quiet_from : List SoundRun → Option ℕ
quiet_from [] = none
quiet_from (r ∷ runs) =
    if is_speech r.sound
    then none
    else elim (quiet_from runs) [ none ↦ some r.from | some from ↦ some from ]

abbrev pub last_to : List SoundRun → ℕ
last_to [] = 0
last_to (r ∷ runs) = r.to

unfoldable pub quiet_since : List SoundRun → Option ℕ
unfolding quiet_from
quiet_since runs = elim (quiet_from runs) [
  | none ↦ none
  | some from ↦ if leb hold_after_seconds (last_to runs - from) then some from else none
]

abbrev pub or_else : Option ℕ → ℕ → ℕ
or_else none d = d
or_else (some n) d = n

-- The loop of `summary`, oldest run first: when the hold began, in tenths. `after` is the time of
-- the last key press.
unfoldable pub hold_from : ℕ → List SoundRun → Option ℕ → Option ℕ
hold_from after [] quiet = none
hold_from after (r ∷ runs) quiet =
    let from = or_else quiet (max (r.from * 10) after) in
    let again = hold_from after runs none in
    let longer = hold_from after runs (some from) in
    if leb (r.to * 10) after || is_speech r.sound
    then again
    else if leb 50 (r.to * 10 - from)
    then some from
    else longer

-- `Math.round(now.to - holdFrom)`
unfoldable pub seconds_on_hold : ℕ → Option ℕ → ℕ
seconds_on_hold to none = 0
seconds_on_hold to (some from) = (to * 10 - from + 5) / 10

-- What the navigator gets to see of the line.
pub record Summary : Type 0 where
  pub now : Sound
  pub for_seconds : ℕ
  pub on_hold : ℕ
  pub recent : List SoundRun

abbrev pub recent_runs : ℕ
recent_runs = 12

-- `lastPressAt` is in tenths of a second; a run is later than 0, where there is no press.
unfoldable pub summary : List SoundRun → Option ℕ → Option Summary
unfolding hold_from seconds_on_hold
summary [] last_press_at = none
summary (now ∷ older) last_press_at = some (record {
  now = now.sound;
  for_seconds = now.to - now.from;
  on_hold =
      seconds_on_hold now.to (hold_from (or_else last_press_at 0) (reverse (now ∷ older)) none);
  recent = reverse (take recent_runs (now ∷ older));
})
