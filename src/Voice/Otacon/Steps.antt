-- ===== src/Voice/Otacon/Steps.antt =====
-- otacon.ts: what happens to a link, one step after another.
use otacon.Prelude.{ℕ, List, [], ◌∷◌, ◌++◌}
use otacon.Voice.Otacon.{
  Message, OtaconLink, Out, connect, start, stop, on_open, on_close, on_text, cmd, timed_out,
  send_audio, mark, emits_audio,
}

pub data Input : Type 0 where
  starts stops opens reconnects marks : Input
  closes timer_fires runs : ℕ → Input
  text : Message → Input
  hears : ℕ → Input
  sends : ℕ → ℕ → Input

unfoldable pub handle : OtaconLink → Input → Out
handle l starts = start l
handle l stops = stop l
handle l opens = on_open l
handle l reconnects = connect l
handle l marks = mark l
handle l (closes code) = on_close l code
handle l (timer_fires timer) = timed_out l timer
handle l (runs type) = cmd l type
handle l (text m) = on_text l m
handle l (hears pcm) = (l, emits_audio pcm ∷ [])
handle l (sends pcm bytes) = send_audio l pcm bytes

unfoldable pub run : OtaconLink → List Input → Out
run l [] = (l, [])
run l (i ∷ is) = let (m, es) = handle l i in let (n, fs) = run m is in (n, es ++ fs)
