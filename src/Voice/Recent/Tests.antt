-- ===== src/Voice/Recent/Tests.antt =====
-- Context at concrete messages.
use otacon.Prelude.{◌≡◌, refl, some, [], ◌∷◌, ◌++◌}
use otacon.Prelude.Scan.{codes, is_space}
use otacon.Voice.Recent.{clip, consult_context, shift_loop}

clipped :
    (clip (codes "  the  door is open ") 200 ≡ codes "the door is open")
    × (clip (codes "the door is open") 9 ≡ codes "the door" ++ 0x2026 ∷ [])
unfolding clip is_space
clipped = (refl, refl)

shown :
    consult_context (codes "Latest: ") (codes "a" ∷ codes "b" ∷ [])
    ≡ some (codes "Latest: a" ++ 10 ∷ codes "b")
unfolding consult_context shift_loop
shown = refl
