-- ===== src/User/Ulib.antt =====
-- user/ulib.c: numbers, lines and strings. A string is the list of its bytes without the terminating
-- zero; `char` is unsigned on RISC-V.
use os_assignments.Prelude.{
  ℕ, zero, suc, ◌+◌, ◌-◌, ◌*◌, ◌%◌, Option, none, some, ◌&&◌, ◌||◌, leb, ◌==◌, if◌then◌else◌, word,
  int_lt, List, [], ◌∷◌, ◌++◌,
}

-- `atoi` from the number `n` on.
unfoldable pub atoi_loop : (n : ℕ) → List ℕ → ℕ
atoi_loop n [] = n
atoi_loop n (c ∷ s) =
    let rest = atoi_loop ((n * 10 + c + (word - 48)) % word) s in
    if leb 48 c && leb c 57 then rest else n

unfoldable pub atoi : List ℕ → ℕ
unfolding atoi_loop
atoi s = atoi_loop 0 s

-- The difference of two bytes as an `int`.
abbrev pub byte_diff : (a b : ℕ) → ℕ
byte_diff a b = (a + (word - b)) % word

abbrev pub head : List ℕ → ℕ
head [] = 0
head (c ∷ s) = c

unfoldable pub strcmp : List ℕ → List ℕ → ℕ
strcmp [] q = byte_diff 0 (head q)
strcmp (c ∷ p) [] = byte_diff c 0
strcmp (c ∷ p) (e ∷ q) = let rest = strcmp p q in if c == e then rest else byte_diff c e

-- The rest of the string from the byte on; `none` is a null pointer.
unfoldable pub strchr : List ℕ → (c : ℕ) → Option (List ℕ)
strchr [] c = none
strchr (x ∷ s) c = let rest = strchr s c in if x == c then some (x ∷ s) else rest

-- What `read(0, &c, 1)` returns: the input's next byte, or nothing at its end or on an error.
abbrev pub Input : Type 0
Input = List ℕ

-- The loop of `gets` with `room` for that many bytes and the final zero, and the input that is left.
unfoldable pub gets_loop : (room : ℕ) → Input → List ℕ × Input
gets_loop zero input = ([], input)
gets_loop (suc room) [] = ([], [])
gets_loop (suc room) (c ∷ input) =
    let rest = gets_loop room input in
    if c == 10 || c == 13 then (c ∷ [], input) else (c ∷ rest.0, rest.1)

-- `gets`: the bytes that it has written to the buffer, the final zero with them, and the input that
-- is left. `max` is an `int`.
unfoldable pub gets : (max : ℕ) → Input → List ℕ × Input
unfolding gets_loop
gets max input =
    let r = gets_loop (if int_lt 0 max then max - 1 else 0) input in (r.0 ++ 0 ∷ [], r.1)
