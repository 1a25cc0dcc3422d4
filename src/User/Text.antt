-- ===== src/User/Text.antt =====
-- Lines and strings in user/ulib.c: what `gets`, `strcmp` and `strchr` return.
use os_assignments.Prelude.{
  ℕ, zero, suc, ◌-◌, ◌^◌, ◌≤◌, ◌<◌, ◌≡◌, ◌≢◌, refl, ap, ◌∙◌, inl, inr, ◌⊎◌, arith, Bool, true,
  false, Option, none, some, ◌||◌, ◌==◌, if◌then◌else◌, word, int_lt, Bool-cases, ==→eq,
  ==_false→ne, List, [], ◌∷◌, ◌++◌, length, length-append, On,
}
use os_assignments.User.Ulib.{Input, gets_loop, gets, strcmp, strchr, head}

abbrev pub is_newline : ℕ → Bool
is_newline c = c == 10 || c == 13

-- A line without a newline but at its end.
abbrev pub IsLine : (s : List ℕ) → Type 0
IsLine [] = word ≡ word
IsLine (c ∷ []) = word ≡ word
IsLine (c ∷ d ∷ s) = (is_newline c ≡ false) × IsLine (d ∷ s)

abbrev pub ends_line : List ℕ → Bool
ends_line [] = false
ends_line (c ∷ []) = is_newline c
ends_line (c ∷ d ∷ s) = ends_line (d ∷ s)

-- The line and the rest are the input; the line has no newline but at its end, and it stops there, or with the
-- room used up, or at the end of the input.
abbrev pub Got : (room : ℕ) → Input → List ℕ × Input → Type 0
Got room input (line, rest) =
    (line ++ rest ≡ input)
    × IsLine line
    × (length line ≤ room)
    × ((ends_line line ≡ true) ⊎ (length line ≡ room) ⊎ (rest ≡ []))

one_more : (c : ℕ) (s : List ℕ) → is_newline c ≡ false → IsLine s → IsLine (c ∷ s)
one_more c [] plain h = refl
one_more c (d ∷ s) plain h = (plain, h)

still_ends : (c : ℕ) (s : List ℕ) → ends_line s ≡ true → ends_line (c ∷ s) ≡ true
still_ends c [] e = absurd (ground (arith, e))
still_ends c (d ∷ s) e = e

gets_loop-Got : (room : ℕ) (input : Input) → Got room input (gets_loop room input)
unfolding gets_loop
gets_loop-Got zero input = (refl, refl, omega arith, inr (inl refl))
gets_loop-Got (suc room) [] = (refl, refl, omega arith, inr (inr refl))
gets_loop-Got (suc room) (c ∷ input) = elim (Bool-cases (is_newline c)) [
  | inl newline ↦ rw newline (refl, refl, omega arith, inl newline)
  | inr plain ↦
      let (all, line, le, why) = gets_loop-Got room input in
      rw plain (
        ap (λ s. c ∷ s) all,
        one_more c (gets_loop room input).0 plain line,
        omega arith,
        elim why [
          | inl e ↦ inl (still_ends c (gets_loop room input).0 e)
          | inr (inl full) ↦ inr (inl (ap suc full))
          | inr (inr end) ↦ inr (inr end)
        ],
      )
]

-- What `gets` has written: a line and a zero, in `max` bytes.
abbrev pub GotText : (max : ℕ) → Input → List ℕ × Input → Type 0
GotText max input (buf, rest) =
    (line : List ℕ) × (buf ≡ line ++ 0 ∷ []) × (length buf ≤ max) × Got (max - 1) input (line, rest)

-- gets with a positive `int max` writes a line and a terminating zero, `max` bytes at most. The line and
-- the rest are the input, the line has no newline but at its end, and it stops at a newline, with
-- only the zero's room left, or at the end of the input.
pub gets-Got :
    (max : ℕ) (input : Input) → 0 < max → max < 2 ^ 31 → GotText max input (gets max input)
unfolding gets
gets-Got max input pos small =
    let room : (if int_lt 0 max then max - 1 else 0) ≡ max - 1 = ground arith in
    let got = gets_loop-Got (max - 1) input in
    let line = (gets_loop (max - 1) input).0 in
    rw room (line, refl, omega (arith, length-append line (0 ∷ []), got.2), got)

-- Without room for any byte, the zero is written all the same, behind the buffer.
pub gets_no_room : (input : Input) → gets 0 input ≡ (0 ∷ [], input)
unfolding gets gets_loop
gets_no_room input = refl

abbrev pub AllBytes : List ℕ → Type 0
AllBytes [] = word ≡ word
AllBytes (c ∷ s) = (0 < c) × (c < 256) × AllBytes s

-- strcmp returns 0 only for equal strings.
pub strcmp-eq : (p q : List ℕ) → AllBytes p → AllBytes q → strcmp p q ≡ 0 → p ≡ q
unfolding strcmp
strcmp-eq [] [] bp bq e = refl
strcmp-eq [] (d ∷ q) bp (pos, lt, bq) e = absurd (omega arith)
strcmp-eq (c ∷ p) [] (pos, lt, bp) bq e = absurd (omega arith)
strcmp-eq (c ∷ p) (d ∷ q) (pos, lt, bp) (pos', lt', bq) e = elim (Bool-cases (c == d)) [
  | inl same ↦
      ap (λ x. x ∷ p) (==→eq c d same)
      ∙ ap (λ s. d ∷ s) (strcmp-eq p q bp bq (ground (arith, e, same)))
  | inr other ↦ absurd (ground (arith, e, other))
]

pub strcmp_refl : (p : List ℕ) → strcmp p p ≡ 0
unfolding strcmp
strcmp_refl [] = omega arith
strcmp_refl (c ∷ p) = ground (arith, strcmp_refl p)

-- The first place of the byte, if it is in the string.
abbrev pub Finds : List ℕ → (c : ℕ) → Option (List ℕ) → Type 0
Finds s c none = On c s → ⊥
Finds s c (some rest) = (front : List ℕ) × (s ≡ front ++ rest) × (head rest ≡ c) × (On c front → ⊥)

behind :
    (x : ℕ) (s : List ℕ) (c : ℕ) (o : Option (List ℕ)) → x ≢ c → Finds s c o → Finds (x ∷ s) c o
behind x s c none ne h = λ on. elim on [ inl e ↦ ne e | inr m ↦ h m ]
behind x s c (some rest) ne (front, e, here, out) =
    (x ∷ front, ap (λ s. x ∷ s) e, here, λ on. elim on [ inl e ↦ ne e | inr m ↦ out m ])

pub strchr-Finds : (s : List ℕ) (c : ℕ) → c ≢ 0 → Finds s c (strchr s c)
unfolding strchr
strchr-Finds [] c ne = λ on. on
strchr-Finds (x ∷ s) c ne = elim (Bool-cases (x == c)) [
  | inl here ↦ rw here ([], refl, ==→eq x c here, λ on. on)
  | inr other ↦ rw other (behind x s c (strchr s c) (==_false→ne x c other) (strchr-Finds s c ne))
]
