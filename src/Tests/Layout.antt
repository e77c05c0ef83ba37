-- ===== src/Tests/Layout.antt =====
-- The layout of participants.
use huddle.Prelude.{ℕ, ◌≡◌, refl, String, String-discrete, some, List, [], ◌∷◌, true, false, length}
use huddle.Layout.{ℤ, Tile, promote_speaking_participant, build_participant_pages}
use huddle.Layout.Pages.{concat, build_participant_pages_lem}
use huddle.Layout.Speakers.{promote_speaking_participant_lem}

build_participant_pages_lem_example :
    concat {A = ℕ} (build_participant_pages (1 ∷ 2 ∷ 3 ∷ 4 ∷ 5 ∷ []) true) ≡ 1 ∷ 2 ∷ 3 ∷ 4 ∷ 5 ∷ []
build_participant_pages_lem_example =
    (build_participant_pages_lem (1 ∷ 2 ∷ 3 ∷ 4 ∷ 5 ∷ []) true (ℤ.negsuc 0)).0

abbrev tile : String → ℕ → Tile
tile identity at = record { identity = identity; speaking = false; last_spoke_at = some at }

abbrev visible : List Tile
visible = tile "ann" 30 ∷ tile "bob" 10 ∷ tile "cy" 20 ∷ []

promotion :
    promote_speaking_participant visible (tile "di" 40) ("bob" ∷ [])
    ≡ (tile "ann" 30 ∷ tile "bob" 10 ∷ tile "di" 40 ∷ [], some (tile "cy" 20))
unfolding promote_speaking_participant String-discrete
promotion = refl

promote_speaking_participant_lem_example :
    length (promote_speaking_participant visible (tile "di" 40) ("bob" ∷ [])).0 ≡ 3
unfolding String-discrete
promote_speaking_participant_lem_example =
    (promote_speaking_participant_lem visible (tile "di" 40) ("bob" ∷ []) "bob").0
