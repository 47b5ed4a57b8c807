-- ===== src/Voice/Navigator/Pressed.antt =====
-- navigator.ts: the keys that the navigator presses.
use otacon.Prelude.{List}
use otacon.Voice.LineSound.{Loudness}
use otacon.Voice.Navigator.{MenuNavigator}
use otacon.Voice.Navigator.Sane.{Numbered, SaneNav}
use otacon.Voice.Navigator.Sane.{Numbered, SaneNav}

module _ (loudness : Loudness) where
  abbrev Nav : Type 0
  Nav = MenuNavigator loudness
