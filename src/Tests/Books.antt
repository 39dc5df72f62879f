-- ===== src/Tests/Books.antt =====
-- A book with the result of one battle.
use atlas_game_layout.Common.{ℕ, ◌≤◌, List, [], ◌∷◌, string_key, refl}
use atlas_game_layout.EndedBook.{EndedBook, Entry, max_end_replays}
use atlas_game_layout.EndedBook.Claims.{Call, claims, reads, counts, notices, notices-le-max}

abbrev entry : Entry
entry = record { winner = "ann"; players = "ann" ∷ "bob" ∷ []; expire_at = 100; replays = [] }

abbrev book : EndedBook
book = record { ttl = 50; entries = ("b1", entry) ∷ [] }

abbrev run : List (ℕ × Call)
run = (1, claims "b1" "bob") ∷ (2, counts) ∷ (3, claims "b1" "bob") ∷ (101, reads "b1") ∷ []

notices-le-max_example : notices book run "b1" "bob" ≤ max_end_replays
notices-le-max_example = notices-le-max book run "b1" "bob" (refl, tt)
