-- ===== src/Grep/Tests.antt =====
-- Runs of the matcher of user/grep.c, and its theorem at one of them.
use os_assignments.Prelude.{ℕ, ◌≡◌, refl, ◌↔◌, true, false, List, [], ◌∷◌}
use os_assignments.Grep.{star, dollar, dot, caret, match_text}
use os_assignments.Grep.Meaning.{Matches, match_text-Matches}

-- a.*c$ and the text xabbc.
abbrev pattern_1 : List ℕ
pattern_1 = 97 ∷ dot ∷ star ∷ 99 ∷ dollar ∷ []

abbrev text_1 : List ℕ
text_1 = 120 ∷ 97 ∷ 98 ∷ 98 ∷ 99 ∷ []

finds : match_text pattern_1 text_1 ≡ true
unfolding match_text
finds = refl

not_at_start : match_text (caret ∷ pattern_1) text_1 ≡ false
unfolding match_text
not_at_start = refl

match_text-Matches_example : (match_text pattern_1 text_1 ≡ true) ↔ Matches pattern_1 text_1
match_text-Matches_example = match_text-Matches pattern_1 text_1
