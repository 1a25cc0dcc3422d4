-- ===== src/Grep/Meaning.antt =====
-- What a pattern of user/grep.c describes, and that the matcher finds exactly that.
use os_assignments.Prelude.{
  ℕ, ◌≡◌, refl, sym, ap, Bool, true, ◌&&◌, ◌||◌, ◌==◌, ◌⊎◌, inl, inr, ◌↔◌, arith, if◌then◌else◌,
  List, [], ◌∷◌, ◌++◌, All, Bool-cases, ==→eq, ◌≢◌, ==_false→ne,
}
use mathlib.Core.Path.{subst}
use os_assignments.Grep.{
  caret, star, dollar, dot, matchstar, matchone, is_end, matchhere, match_loop, match_text,
}

-- A pattern is a sequence of characters, repeated characters, and the end of the text.
pub data Item : Type 0 where
  one : ℕ → Item
  many : ℕ → Item
  at_end : Item

pub items : List ℕ → List Item
items [] = []
items (c ∷ []) = if c == dollar then at_end ∷ [] else one c ∷ []
items (c ∷ d ∷ re) = if d == star then many c ∷ items re else one c ∷ items (d ∷ re)

abbrev pub Fits : (c x : ℕ) → Type 0
Fits c x = (c ≡ dot) ⊎ (c ≡ x)

-- The text begins with what the items describe.
pub Begins : List Item → List ℕ → Type 0
Begins [] text = Unit
Begins (one c ∷ p) text = (x : ℕ) × (rest : List ℕ) × (text ≡ x ∷ rest) × Fits c x × Begins p rest
Begins (many c ∷ p) text =
    (run : List ℕ) × (rest : List ℕ) × (text ≡ run ++ rest) × All (Fits c) run × Begins p rest
Begins (at_end ∷ p) text = (text ≡ []) × Begins p text

-- The code's test on texts decides a predicate.
abbrev Decides : (List ℕ → Bool) → (List ℕ → Type 0) → Type 0
Decides test P = (text : List ℕ) → (test text ≡ true → P text) × (P text → test text ≡ true)

abbrev head : List ℕ → ℕ
head [] = 0
head (x ∷ xs) = x

abbrev tail : List ℕ → List ℕ
tail [] = []
tail (x ∷ xs) = xs

not_nil : (x : ℕ) (xs : List ℕ) → ¬ ([] ≡ x ∷ xs)
not_nil x xs e = ground (arith, e)

Fits-test : (c x y : ℕ) → x ≡ y → Fits c y → (c == dot || c == x) ≡ true
Fits-test c x y e f = ground arith

Fits-star : (c x y : ℕ) → x ≡ y → Fits c y → (x == c || c == dot) ≡ true
Fits-star c x y e f = ground arith

star_test_sound : (c x : ℕ) → (x == c || c == dot) ≡ true → Fits c x
star_test_sound c x h = ground arith

both : (a b : Bool) → (a && b) ≡ true → (a ≡ true) × (b ≡ true)
both a b h = ground arith

one_test_sound : (c x : ℕ) → (c == dot || c == x) ≡ true → Fits c x
one_test_sound c x h = ground arith

matchone-Decides :
    (c : ℕ) (here : List ℕ → Bool) (p : List Item)
    → Decides here (Begins p)
    → Decides (matchone c here) (Begins (one c ∷ p))
unfolding matchone Begins
matchone-Decides c here p d [] = (λ h. absurd (ground arith), λ b. absurd (not_nil b.0 b.1 b.2))
matchone-Decides c here p d (x ∷ text) = (
  λ h.
      let (fits, more) = both (c == dot || c == x) (here text) h in
      (x, text, refl, one_test_sound c x fits, (d text).0 more),
  λ b.
      let more : here text ≡ true = (d text).1 (subst (Begins p) (sym (ap tail b.2)) b.4) in
      rw (Fits-test c x b.0 (ap head b.2) b.3, more) refl,
)

nothing : (text : List ℕ) → Begins [] text
unfolding Begins
nothing text = tt

empty_run : (p : List Item) (run rest : List ℕ) → [] ≡ run ++ rest → Begins p rest → Begins p []
empty_run p [] rest e b = subst (Begins p) (sym e) b
empty_run p (y ∷ run) rest e b = absurd (not_nil y (run ++ rest) e)

star_back :
    (c x : ℕ) (here : List ℕ → Bool) (p : List Item) (text : List ℕ)
    → (Begins p (x ∷ text) → here (x ∷ text) ≡ true)
    → (Begins (many c ∷ p) text → matchstar c here text ≡ true)
    → (run rest : List ℕ) → x ∷ text ≡ run ++ rest
    → All (Fits c) run
    → Begins p rest
    → matchstar c here (x ∷ text) ≡ true
unfolding matchstar Begins
star_back c x here p text first later [] rest e all b =
    let now : here (x ∷ text) ≡ true = first (subst (Begins p) (sym e) b) in rw now refl
star_back c x here p text first later (y ∷ run) rest e (f, all) b =
    let more : matchstar c here text ≡ true = later (run, rest, ap tail e, all, b) in
    let fits : (x == c || c == dot) ≡ true = Fits-star c x y (ap head e) f in
    ground (arith, more, fits)

matchstar-Decides :
    (c : ℕ) (here : List ℕ → Bool) (p : List Item)
    → Decides here (Begins p)
    → Decides (matchstar c here) (Begins (many c ∷ p))
unfolding matchstar Begins
matchstar-Decides c here p d [] =
    (λ h. ([], [], refl, tt, (d []).0 h), λ b. (d []).1 (empty_run p b.0 b.1 b.2 b.4))
matchstar-Decides c here p d (x ∷ text) =
    let rest = matchstar-Decides c here p d text in
    (
      λ h. elim (Bool-cases (here (x ∷ text))) [
        | inl now ↦ ([], x ∷ text, refl, tt, (d (x ∷ text)).0 now)
        | inr later ↦
            let (fits, more) = both (x == c || c == dot) (matchstar c here text) (ground arith) in
            let (run, end, e, all, b) = rest.0 more in
            (x ∷ run, end, ap (λ l. x ∷ l) e, (star_test_sound c x fits, all), b)
      ],
      λ b. star_back c x here p text (d (x ∷ text)).1 rest.1 b.0 b.1 b.2 b.3 b.4,
    )

is_end-Decides : Decides is_end (Begins (at_end ∷ []))
unfolding Begins
is_end-Decides [] = (λ h. (refl, tt), λ b. refl)
is_end-Decides (x ∷ text) = (λ h. absurd (ground arith), λ b. absurd (not_nil x text (sym b.0)))

matchhere-Decides : (re : List ℕ) → Decides (matchhere re) (Begins (items re))
unfolding matchhere items
matchhere-Decides [] text = (λ h. nothing text, λ b. refl)
matchhere-Decides (c ∷ []) text = elim (Bool-cases (c == dollar)) [
  | inl e ↦ rw e (is_end-Decides text)
  | inr e ↦ rw e (matchone-Decides c (matchhere []) [] (matchhere-Decides []) text)
]
matchhere-Decides (c ∷ d ∷ re) text = elim (Bool-cases (d == star)) [
  | inl e ↦ rw e (matchstar-Decides c (matchhere re) (items re) (matchhere-Decides re) text)
  | inr e ↦
      rw e
        (matchone-Decides c (matchhere (d ∷ re)) (items (d ∷ re)) (matchhere-Decides (d ∷ re)) text)
]

-- Somewhere in the text.
abbrev pub Contains : List Item → List ℕ → Type 0
Contains p text = (pre : List ℕ) × (post : List ℕ) × (text ≡ pre ++ post) × Begins p post

loop_back :
    (re : List ℕ) (x : ℕ) (text : List ℕ)
    → (Contains (items re) text → match_loop re text ≡ true)
    → (pre post : List ℕ) → x ∷ text ≡ pre ++ post
    → Begins (items re) post
    → match_loop re (x ∷ text) ≡ true
unfolding match_loop
loop_back re x text later [] post e b =
    let now : matchhere re (x ∷ text) ≡ true =
      (matchhere-Decides re (x ∷ text)).1 (subst (Begins (items re)) (sym e) b) in
    rw now refl
loop_back re x text later (y ∷ pre) post e b =
    let more : match_loop re text ≡ true = later (pre, post, ap tail e, b) in ground (arith, more)

match_loop-Decides : (re : List ℕ) → Decides (match_loop re) (Contains (items re))
unfolding match_loop
match_loop-Decides re [] = (
  λ h. ([], [], refl, (matchhere-Decides re []).0 h),
  λ b. (matchhere-Decides re []).1 (empty_run (items re) b.0 b.1 b.2 b.3),
)
match_loop-Decides re (x ∷ text) =
    let rest = match_loop-Decides re text in
    (
      λ h. elim (Bool-cases (matchhere re (x ∷ text))) [
        | inl now ↦ ([], x ∷ text, refl, (matchhere-Decides re (x ∷ text)).0 now)
        | inr later ↦
            let (pre, post, e, b) = rest.0 (ground arith) in (x ∷ pre, post, ap (λ l. x ∷ l) e, b)
      ],
      λ b. loop_back re x text rest.1 b.0 b.1 b.2 b.3,
    )

-- The text has a match of the pattern: at its beginning behind a caret, else anywhere.
abbrev pub Matches : List ℕ → List ℕ → Type 0
Matches [] text = Contains [] text
Matches (c ∷ re) text =
    ((c ≡ caret) × Begins (items re) text) ⊎ ((c ≢ caret) × Contains (items (c ∷ re)) text)

-- match_text returns 1 exactly if the text has a match: at its beginning for a pattern behind a caret,
-- and anywhere else, where the pattern's items describe the text found one behind the other.
pub match_text-Matches : (re text : List ℕ) → (match_text re text ≡ true) ↔ Matches re text
unfolding match_text items
match_text-Matches [] text = match_loop-Decides [] text
match_text-Matches (c ∷ re) text = elim (Bool-cases (c == caret)) [
  | inl e ↦
      let front = matchhere-Decides re text in
      rw e (
        λ h. inl (==→eq c caret e, front.0 h),
        λ m. elim m [ inl b ↦ front.1 b.1 | inr b ↦ absurd (b.0 (==→eq c caret e)) ],
      )
  | inr e ↦
      let anywhere = match_loop-Decides (c ∷ re) text in
      let other = ==_false→ne c caret e in
      rw e (
        λ h. inr (other, anywhere.0 h),
        λ m. elim m [ inl b ↦ absurd (other b.0) | inr b ↦ anywhere.1 b.1 ],
      )
]
