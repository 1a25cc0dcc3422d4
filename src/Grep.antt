-- ===== src/Grep.antt =====
-- The matcher of user/grep.c. A pattern and a text are the lists of their bytes up to the
-- terminating zero.
pub mod Meaning
mod Tests
use os_assignments.Prelude.{ℕ, Bool, true, false, ◌&&◌, ◌||◌, ◌==◌, if◌then◌else◌, List, [], ◌∷◌}

abbrev pub caret : ℕ
caret = 94

abbrev pub star : ℕ
star = 42

abbrev pub dollar : ℕ
dollar = 36

abbrev pub dot : ℕ
dot = 46

-- `matchstar`, with `matchhere` of the rest of the pattern.
pub matchstar : (c : ℕ) → (List ℕ → Bool) → List ℕ → Bool
matchstar c here [] = here []
matchstar c here (x ∷ text) = here (x ∷ text) || ((x == c || c == dot) && matchstar c here text)

-- `*text!='\0' && (re[0]=='.' || re[0]==*text)`, and then the rest of the pattern.
pub matchone : (c : ℕ) → (List ℕ → Bool) → List ℕ → Bool
matchone c here [] = false
matchone c here (x ∷ text) = (c == dot || c == x) && here text

abbrev pub is_end : List ℕ → Bool
is_end [] = true
is_end (x ∷ text) = false

pub matchhere : (re text : List ℕ) → Bool
unfolding matchstar matchone
matchhere [] text = true
matchhere (c ∷ []) text = if c == dollar then is_end text else matchone c (matchhere []) text
matchhere (c ∷ d ∷ re) text =
    if d == star then matchstar c (matchhere re) text else matchone c (matchhere (d ∷ re)) text

-- The loop of `match`.
pub match_loop : (re text : List ℕ) → Bool
unfolding matchhere
match_loop re [] = matchhere re []
match_loop re (x ∷ text) = matchhere re (x ∷ text) || match_loop re text

pub match_text : (re text : List ℕ) → Bool
unfolding matchhere match_loop
match_text [] text = match_loop [] text
match_text (c ∷ re) text = if c == caret then matchhere re text else match_loop (c ∷ re) text
