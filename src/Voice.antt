-- ===== src/Voice.antt =====
-- The voice plugin, openclaw-voice.
pub mod Line
pub mod Twilio
pub mod Pcm
pub mod Mix
pub mod LineSound
pub mod G711
pub mod Recent
pub mod Navigator
pub mod CallAudio
pub mod Mission
pub mod Otacon
pub mod Config
pub mod Runtime
pub mod Report
