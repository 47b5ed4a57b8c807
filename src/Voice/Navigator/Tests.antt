-- ===== src/Voice/Navigator/Tests.antt =====
-- A phone menu: it is heard, a key is pressed, and the press fails.
use otacon.Prelude.{ℕ, ◌+◌, ◌*◌, ◌≡◌, ◌≤◌, ◌⊎◌, refl, false, some, List, [], ◌∷◌, ◌++◌, String, leb}
use otacon.Prelude.Scan.{codes, is_space}
use otacon.Voice.LineSound.{Loudness}
use otacon.Voice.Navigator.{
  Entry, line, MenuNavigator, new_navigator, pressed, line_text, take_text, last_break, note_press,
  flush_partial, max_transcript_chars, recent_entries,
}
use otacon.Voice.Navigator.Check.{
  Answers, Input, hears, checks, answers, press_ends, run, step, check, decided,
}
use otacon.Voice.Navigator.Ink.{kept}
use otacon.Voice.Navigator.Heard.{kept-run, all_told}
use otacon.Voice.Navigator.Ends.{run-FinalLast, FinalLast}
use otacon.Voice.Navigator.Recent.{recent_entries-Fits, entry_chars, Fits}

abbrev whole_loudness : Loudness
whole_loudness = record {
  Squares = ℕ;
  Rms = ℕ;
  zero_squares = 0;
  add_square = λ s r. s + r * r;
  is_loud = λ s windows. leb (windows * 90000) s;
}

abbrev sure_of : String → String → Answers
sure_of action key = record { action = some action; key = some key; p = λ q c. 95 }

abbrev menu : List (Input whole_loudness)
menu =
    hears (codes "Press 1 for sales. ") 1000
    ∷ checks 1500
    ∷ answers (sure_of "press" "1") 1700
    ∷ hears (codes "Or wait") 1800
    ∷ press_ends false
    ∷ checks 2500
    ∷ []

abbrev menu_then_person : List (Input whole_loudness)
menu_then_person = menu ++ answers (sure_of "hand_off" "none") 2600 ∷ checks 3000 ∷ []

abbrev fresh : MenuNavigator whole_loudness
fresh = new_navigator whole_loudness

menu_goes_on : (run whole_loudness 80 fresh menu).0.stopped ≡ false
unfolding run step check line_text take_text last_break is_space decided pressed note_press
    flush_partial
menu_goes_on = refl

kept-run_example :
    kept whole_loudness (run whole_loudness 80 fresh menu).0 ≡ all_told whole_loudness menu
kept-run_example = kept-run whole_loudness 80 menu menu_goes_on

run-FinalLast_example : FinalLast (run whole_loudness 80 fresh menu_then_person).1
run-FinalLast_example = run-FinalLast whole_loudness 80 fresh menu_then_person

abbrev two_entries : List Entry
two_entries =
    record { made = 0; t = 10; who = line; text = codes "Press 1 for sales." }
    ∷ record { made = 1; t = 25; who = line; text = codes "Or wait." }
    ∷ []

recent_entries-Fits_example :
    (older : List Entry) × (two_entries ≡ older ++ (recent_entries two_entries).0)
    × ((older ≡ []) ⊎ (max_transcript_chars ≤ entry_chars (recent_entries two_entries).0))
    × Fits (recent_entries two_entries).0
recent_entries-Fits_example = recent_entries-Fits two_entries
