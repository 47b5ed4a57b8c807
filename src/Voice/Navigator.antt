-- ===== src/Voice/Navigator.antt =====
-- navigator.ts: the phone-menu navigator, its transcript of the call and its checks. Texts are lists
-- of UTF-16 units, times in milliseconds but for an entry's, which is in tenths of a second.
-- Probabilities are numbers in any unit, since the code only compares them. What it logs is left out.
pub mod Check
pub mod Ink
pub mod Sane
pub mod Heard
pub mod Recent
pub mod Pressed
pub mod Ends
mod Tests
use otacon.Prelude.{
  ℕ, suc, ◌+◌, ◌-◌, ◌/◌, Bool, true, false, ◌&&◌, ◌||◌, not, Option, none, some, List, [], ◌∷◌,
  ◌++◌, String, length, last?, ltb, ◌==◌, if◌then◌else◌,
}
use otacon.Prelude.Scan.{codes, is_nil, is_space, drop_while, trim}
use otacon.Voice.LineSound.{Loudness, LineSound, Sound, SoundRun, window, runs}

pub data Who : Type 0 where
  line assistant keypad : Who

-- `made` tells the objects apart: it numbers the entries as they are created.
pub record Entry : Type 0 where
  pub made : ℕ
  pub t : ℕ
  pub who : Who
  pub text : List ℕ

pub data Side : Type 0 where
  navigator the_assistant : Side

pub record KeyPress : Type 0 where
  pub t : ℕ
  pub by : Side
  pub keys : List ℕ

-- What an asynchronous check that is under way waits for: `inFlight` is false at `idle`. A press
-- waits with its index in `presses` and the number of its entry.
pub data Phase : Type 0 where
  idle deciding : Phase
  pressing : ℕ → ℕ → Phase

abbrev pub max_transcript_chars : ℕ
max_transcript_chars = 4000

abbrev pub quiet_check_ms : ℕ
quiet_check_ms = 15_000

-- `t()`, in tenths of a second.
abbrev pub tenths : ℕ → ℕ
tenths now = (now + 50) / 100

abbrev pub is_stop : ℕ → Bool
is_stop c = (c == b'.') || (c == b'!') || (c == b'?')

abbrev pub starts_with_space : List ℕ → Bool
starts_with_space [] = false
starts_with_space (c ∷ s) = is_space c

-- The captures of `/^([\s\S]*[.!?])\s+([\s\S]*)$/`: the first as long as it can be.
unfoldable pub last_break : List ℕ → Option (List ℕ × List ℕ)
last_break [] = none
last_break (c ∷ s) = elim (last_break s) [
  | some (a, b) ↦ some (c ∷ a, b)
  | none ↦ if is_stop c && starts_with_space s then some (c ∷ [], drop_while is_space s) else none
]

-- The text of a keypad entry.
abbrev pub press_text : Side → List ℕ → List ℕ
press_text navigator keys = codes "pressed " ++ (keys ++ codes " (you)")
press_text the_assistant keys = codes "pressed " ++ (keys ++ codes " (the assistant)")

module _ (loudness : Loudness) where
  -- `none` stands for -1 in the counts of characters, which no count equals.
  pub record MenuNavigator : Type 0 where
    pub entries : List Entry
    pub next_entry : ℕ
    pub partial : List ℕ
    pub partial_at : ℕ
    pub presses : List KeyPress
    pub sound : LineSound loudness
    pub phase : Phase
    pub seen_chars : Option ℕ
    pub pressed_at_chars : Option ℕ
    pub total_chars : ℕ
    pub checked_quiet_since : Option ℕ
    pub last_check_at : ℕ
    pub stopped : Bool

  abbrev pub new_navigator : MenuNavigator
  new_navigator = record {
    entries = [];
    next_entry = 0;
    partial = [];
    partial_at = 0;
    presses = [];
    sound = record {
      secs = [];
      start = 0;
      windows = 0;
      speech_windows = 0;
      squares = loudness.zero_squares;
    };
    phase = idle;
    seen_chars = some 0;
    pressed_at_chars = none;
    total_chars = 0;
    checked_quiet_since = none;
    last_check_at = 0;
    stopped = false;
  }

  abbrev pub push_entry : MenuNavigator → ℕ → Who → List ℕ → MenuNavigator
  push_entry n t who text = record n {
    entries = n.entries ++ (record { made = n.next_entry; t = t; who = who; text = text } ∷ []);
    next_entry = suc n.next_entry;
  }

  abbrev pub stop : MenuNavigator → MenuNavigator
  stop n = record n { stopped = true }

  -- A sentence that has ended becomes an entry.
  abbrev pub keep_sentence : MenuNavigator → ℕ → Option (List ℕ × List ℕ) → MenuNavigator
  keep_sentence n now none = n
  keep_sentence n now (some (sentence, rest)) =
      if is_nil (trim sentence)
      then n
      else record (push_entry n n.partial_at line (trim sentence)) {
        partial = rest;
        partial_at = tenths now;
      }

  unfoldable pub take_text : MenuNavigator → List ℕ → ℕ → MenuNavigator
  take_text n delta now =
      let m : MenuNavigator = record n {
        partial = n.partial ++ delta;
        partial_at = if is_nil n.partial then tenths now else n.partial_at;
        total_chars = n.total_chars + length delta;
      } in
      keep_sentence m now (last_break m.partial)

  unfoldable pub line_text : MenuNavigator → List ℕ → ℕ → MenuNavigator
  line_text n delta now = if n.stopped || is_nil delta then n else take_text n delta now

  unfoldable pub flush_partial : MenuNavigator → MenuNavigator
  flush_partial n =
      let m =
        if is_nil (trim n.partial) then n else push_entry n n.partial_at line (trim n.partial) in
      record m { partial = [] }

  unfoldable pub note_said : MenuNavigator → List ℕ → ℕ → MenuNavigator
  note_said n text now =
      let m = push_entry (flush_partial n) (tenths now) assistant (trim text) in
      record m { total_chars = m.total_chars + length text }

  unfoldable pub assistant_said : MenuNavigator → List ℕ → ℕ → MenuNavigator
  assistant_said n text now = if n.stopped || is_nil (trim text) then n else note_said n text now

  abbrev pub add_press : MenuNavigator → KeyPress → MenuNavigator
  add_press n p = record n { presses = n.presses ++ p ∷ [] }

  abbrev pub mark_press : MenuNavigator → Side → MenuNavigator
  mark_press n navigator = record n { pressed_at_chars = some n.total_chars }
  mark_press n the_assistant = n

  unfoldable pub note_press : MenuNavigator → Side → List ℕ → ℕ → MenuNavigator
  note_press n by keys now =
      let m = flush_partial (add_press n (record { t = tenths now; by = by; keys = keys })) in
      mark_press (push_entry m (tenths now) keypad (press_text by keys)) by

  unfoldable pub pressed : MenuNavigator → Side → List ℕ → ℕ → MenuNavigator
  pressed n by keys now = if n.stopped then n else note_press n by keys now

  -- `speaks` is `prob > 0.5`, and `second` the rounded seconds into the call.
  unfoldable pub line_sound : MenuNavigator → Bool → loudness.Rms → ℕ → MenuNavigator × Option Sound
  unfolding window
  line_sound n speaks rms second =
      let (sound, heard) = window loudness n.sound speaks rms second in
      if n.stopped then (n, none) else (record n { sound = sound }, heard)

  abbrev pub sound_runs : MenuNavigator → List SoundRun
  sound_runs n = runs n.sound.start n.sound.secs

-- The loop of `state` from the newest entry back: what it takes, and its characters.
unfoldable pub recent_entries : List Entry → List Entry × ℕ
recent_entries [] = ([], 0)
recent_entries (e ∷ es) =
    let (kept, used) = recent_entries es in
    if ltb used max_transcript_chars then (e ∷ kept, used + length e.text) else (kept, used)
