-- ===== src/Voice/CallAudio.antt =====
-- call.ts: the audio of a call, between the line, the voice model, the navigator and the people who
-- listen in. Chunks are lists of bytes, times in milliseconds. The resamplers are the plugin SDK's: a
-- parameter. What it logs is left out.
pub mod Trimmed
pub mod Preroll
mod Tests
use otacon.Prelude.{
  ℕ, suc, ◌+◌, ◌-◌, ◌*◌, Bool, true, false, ◌&&◌, ◌||◌, not, Option, none, some, List, [], ◌∷◌,
  ◌++◌, length, ltb, leb, ◌==◌, if◌then◌else◌,
}
use otacon.Prelude.Int.{pos, negsuc, ltb_ℤ}
use otacon.Voice.Pcm.{read_sample}
use otacon.Voice.LineSound.{Sound, speech}
use otacon.Voice.Mix.{CallMix, empty, line, model, clear}

-- `sdk.resampler(inRate, outRate)`: a fresh one up (16 to 24 kHz) or down, and what `process` gives.
pub record Resampling : Type 1 where
  pub Resampler : Type 0
  pub up : Resampler
  pub down : Resampler
  pub process : Resampler → List ℕ → List ℕ × Resampler

abbrev pub mute_after_seconds : ℕ
mute_after_seconds = 10

-- 2000 ms of 32 bytes.
abbrev pub preroll_bytes_kept : ℕ
preroll_bytes_kept = 64_000

abbrev pub live_target_lead_ms : ℕ
live_target_lead_ms = 250

-- Louder than SPEECH_PEAK, 64, either way.
unfoldable pub has_speech : List ℕ → Bool
has_speech [] = false
has_speech (lo ∷ []) = false
has_speech (lo ∷ hi ∷ pcm) =
    let s = read_sample lo hi in ltb_ℤ (pos 64) s || ltb_ℤ s (negsuc 63) || has_speech pcm

-- `sent` is counted in bytes, 48 of which are a millisecond.
pub record Playing : Type 0 where
  pub item_id : ℕ
  pub first_at : ℕ
  pub sent : ℕ

-- Listeners by their ids.
pub data AudioEffect : Type 0 where
  model_hears : List ℕ → AudioEffect
  transcriber_hears : List ℕ → AudioEffect
  detector_hears : List ℕ → AudioEffect
  listener_hears : ℕ → List ℕ → AudioEffect
  line_plays : List ℕ → AudioEffect
  line_clears : AudioEffect

-- Chunks that go to every listener.
abbrev pub to_listeners : List ℕ → List ℕ → List AudioEffect
to_listeners pcm [] = []
to_listeners pcm (id ∷ ids) = listener_hears id pcm ∷ to_listeners pcm ids

abbrev pub is_empty : List ℕ → Bool
is_empty [] = true
is_empty (x ∷ xs) = false

-- The loop of `keepPreroll`.
pub trim_preroll : List (List ℕ) → ℕ → List (List ℕ) × ℕ
trim_preroll [] bytes = ([], bytes)
trim_preroll (x ∷ []) bytes = (x ∷ [], bytes)
trim_preroll (x ∷ y ∷ chunks) bytes =
    let rest = trim_preroll (y ∷ chunks) (bytes - length x) in
    if ltb preroll_bytes_kept bytes then rest else (x ∷ y ∷ chunks, bytes)

module _ (resampling : Resampling) where
  open resampling use {Resampler, up, down, process}

  -- `has_session`: there is a session of the voice model. `navigating`: there is a navigator, which
  -- hears the line too, with its transcriber and a detector.
  pub record CallAudio : Type 0 where
    pub has_session : Bool
    pub to_model : Resampler
    pub to_line : Resampler
    pub to_navigator : Resampler
    pub playing : Option Playing
    pub muted : Bool
    pub quiet_seconds : ℕ
    pub preroll : List (List ℕ)
    pub preroll_bytes : ℕ
    pub navigating : Bool
    pub listeners : List ℕ
    pub mix : CallMix
    pub speech_at : ℕ

  abbrev pub new_audio : CallAudio
  new_audio = record {
    has_session = false;
    to_model = up;
    to_line = down;
    to_navigator = up;
    playing = none;
    muted = false;
    quiet_seconds = 0;
    preroll = [];
    preroll_bytes = 0;
    navigating = false;
    listeners = [];
    mix = empty;
    speech_at = 0;
  }

  unfoldable pub keep_preroll : CallAudio → List ℕ → CallAudio
  keep_preroll a pcm =
      let (chunks, bytes) = trim_preroll (a.preroll ++ pcm ∷ []) (a.preroll_bytes + length pcm) in
      record a { preroll = chunks; preroll_bytes = bytes }

  -- Chunks that go to a session of the model, one after the other.
  abbrev pub replay : Resampler → List (List ℕ) → Resampler × List AudioEffect
  replay r [] = (r, [])
  replay r (pcm ∷ chunks) =
      let (out, r') = process r pcm in
      let (last, es) = replay r' chunks in (last, model_hears out ∷ es)

  abbrev pub no_preroll : CallAudio → CallAudio
  no_preroll a = record a { preroll = []; preroll_bytes = 0 }

  unfoldable pub unmute : CallAudio → Bool → CallAudio × List AudioEffect
  unmute a detached =
      let (r, es) = if a.has_session then replay up a.preroll else (up, []) in
      if not a.muted
      then (a, [])
      else if detached
      then (no_preroll (record a { muted = false }), [])
      else (no_preroll (record a { muted = false; to_model = r }), es)

  -- A second of the line that is not speech.
  abbrev pub quiet_second : CallAudio → CallAudio
  quiet_second a =
      let q = suc a.quiet_seconds in
      if leb mute_after_seconds q && not a.muted
      then no_preroll (record a { quiet_seconds = q; muted = true })
      else record a { quiet_seconds = q }

  -- `heard` is what the navigator makes of the window: a second's sound, once it is complete.
  unfoldable pub on_line_sound : CallAudio → Option Sound → Bool → CallAudio × List AudioEffect
  on_line_sound a none detached = (a, [])
  on_line_sound a (some speech) detached = unmute (record a { quiet_seconds = 0 }) detached
  on_line_sound a (some s) detached = (quiet_second a, [])

  -- What the listeners hear of the line; a `line` that throws ends the handler.
  abbrev pub mix_line : CallAudio → List ℕ → CallAudio × Option (List AudioEffect)
  mix_line a pcm =
      let (mixed, m) = line a.mix pcm in
      if is_empty a.listeners then (a, some []) else (
        record a { mix = m },
        elim mixed [ none ↦ none | some out ↦ some (to_listeners out a.listeners) ],
      )

  abbrev pub model_or_preroll : CallAudio → List ℕ → CallAudio × List AudioEffect
  model_or_preroll a pcm =
      let (out, r) = process a.to_model pcm in
      if a.muted
      then (keep_preroll a pcm, [])
      else if a.has_session
      then (record a { to_model = r }, model_hears out ∷ [])
      else (a, [])

  abbrev pub to_menu : CallAudio → List ℕ → CallAudio × List AudioEffect
  to_menu a pcm =
      let (out, r) = process a.to_navigator pcm in
      if a.navigating
      then (record a { to_navigator = r }, transcriber_hears out ∷ detector_hears pcm ∷ [])
      else (a, [])

  abbrev pub pass_on : CallAudio × Option (List AudioEffect) → List ℕ → CallAudio × List AudioEffect
  pass_on (a, none) pcm = (a, [])
  pass_on (a, some heard) pcm =
      let (b, es) = model_or_preroll a pcm in let (c, fs) = to_menu b pcm in (c, heard ++ es ++ fs)

  -- `is_up` is the handler's guard: neither ended nor detached, and on a line.
  unfoldable pub on_downlink : CallAudio → Bool → List ℕ → CallAudio × List AudioEffect
  on_downlink a false pcm = (a, [])
  on_downlink a true pcm = pass_on (mix_line a pcm) pcm

  -- Whether silence of a live model is skipped: its playback leads by too much.
  abbrev pub leads : Option Playing → ℕ → ℕ → Bool
  leads none id now = false
  leads (some p) id now =
      (p.item_id == id) && ltb (48 * (live_target_lead_ms + (now - p.first_at))) p.sent

  abbrev pub played : Option Playing → ℕ → ℕ → ℕ → Playing
  played none id now n = record { item_id = id; first_at = now; sent = n }
  played (some p) id now n =
      if p.item_id == id
      then record p { sent = p.sent + n }
      else record { item_id = id; first_at = now; sent = n }

  -- A chunk goes to the line, and to the mix if someone listens.
  abbrev pub play : CallAudio → ℕ → ℕ → List ℕ → CallAudio × List AudioEffect
  play a id now audio =
      let (pcm, r) = process a.to_line audio in
      (
        record a {
          to_line = r;
          playing = some (played a.playing id now (length audio));
          mix = if is_empty a.listeners then a.mix else model a.mix pcm;
        },
        line_plays pcm ∷ [],
      )

  unfoldable pub on_model_audio :
      CallAudio → Bool → Bool → ℕ → ℕ → List ℕ → CallAudio × List AudioEffect
  on_model_audio a is_up live id now audio =
      let b : CallAudio = record a { speech_at = if has_speech audio then now else a.speech_at } in
      if not is_up
      then (a, [])
      else if live && not (has_speech audio) && leads a.playing id now
      then (a, [])
      else play b id now audio

  unfoldable pub on_clear_audio : CallAudio → CallAudio × List AudioEffect
  on_clear_audio a =
      (record a { playing = none; mix = clear a.mix; to_line = down }, line_clears ∷ [])

  -- `listeners.set`, for an id that is new.
  unfoldable pub add_listener : CallAudio → ℕ → CallAudio
  add_listener a id = record a {
    listeners = a.listeners ++ id ∷ [];
    mix = if is_empty a.listeners then clear a.mix else a.mix;
  }
