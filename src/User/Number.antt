-- ===== src/User/Number.antt =====
-- Numbers in user/printf.c and user/ulib.c: `atoi` reads what `printint` writes.
use os_assignments.Prelude.{
  ℕ, zero, suc, ◌+◌, ◌-◌, ◌*◌, ◌/◌, ◌%◌, ◌≤◌, ◌<◌, ◌≡◌, ◌≢◌, refl, sym, ap, ◌∙◌, inl, inr, arith,
  Bool, true, false, Option, none, some, ◌&&◌, leb, ltb, ◌==◌, if◌then◌else◌, word, int_lt,
  Bool-cases, ==→eq, ==_false→ne, List, [], ◌∷◌, ◌++◌, length, ◌>>=◌, length-append, append_assoc,
  append-nil,
}
use mathlib.Core.Path.{subst}
use os_assignments.User.Ulib.{atoi_loop, atoi}
use os_assignments.User.Printf.{digit, put_digits, printint, sign}

-- The number that decimal digits stand for, behind `n`.
abbrev pub value : (n : ℕ) → List ℕ → ℕ
value n [] = n
value n (c ∷ s) = value (n * 10 + (c - 48)) s

abbrev pub AllDigits : List ℕ → Type 0
AllDigits [] = word ≡ word
AllDigits (c ∷ s) = (48 ≤ c) × (c ≤ 57) × AllDigits s

value-append : (n : ℕ) (s : List ℕ) (c : ℕ) → value n (s ++ c ∷ []) ≡ value n s * 10 + (c - 48)
value-append n [] c = refl
value-append n (x ∷ s) c = value-append (n * 10 + (x - 48)) s c

AllDigits-append : (s : List ℕ) (c : ℕ) → AllDigits s → 48 ≤ c → c ≤ 57 → AllDigits (s ++ c ∷ [])
AllDigits-append [] c all lo hi = (lo, hi, refl)
AllDigits-append (x ∷ s) c (l, h, all) lo hi = (l, h, AllDigits-append s c all lo hi)

-- 10 to the power of `k`.
abbrev limit : ℕ → ℕ
limit zero = 1
limit (suc k) = limit k * 10

-- The decimal digits of `x`, at most `k` of them.
abbrev pub Decimal : (k x : ℕ) → List ℕ → Type 0
Decimal k x s = AllDigits s × (value 0 s ≡ x) × (0 < length s) × (length s ≤ k)

Decimal-more :
    (k x : ℕ) (s : List ℕ) → Decimal k (x / 10) s → Decimal (suc k) x (s ++ digit (x % 10) ∷ [])
unfolding digit
Decimal-more k x s (all, v, pos, le) =
    let low : ltb (x % 10) 10 ≡ true = ground arith in
    let len = length-append s ((48 + x % 10) ∷ []) in
    rw low (
      AllDigits-append s (48 + x % 10) all (omega arith) (omega arith),
      value-append 0 s (48 + x % 10) ∙ (ground (arith, v)),
      omega arith,
      omega arith,
    )

small_Decimal : (k x : ℕ) → x / 10 ≡ 0 → Decimal (suc k) x (digit (x % 10) ∷ [])
unfolding digit
small_Decimal k x e =
    let low : ltb (x % 10) 10 ≡ true = ground arith in
    rw low ((omega arith, omega arith, refl), omega arith, omega arith, omega arith)

more_digits : (k x : ℕ) → x < limit (suc k) → x / 10 ≢ 0 → 0 < k
more_digits zero x lt ne = absurd (omega arith)
more_digits (suc k) x lt ne = omega arith

put_digits-Decimal :
    (f k x : ℕ) (buf : List ℕ)
    → k ≤ f
    → x < limit k
    → 0 < k
    → (s : List ℕ) × (put_digits f x 10 buf ≡ some (s ++ buf)) × Decimal k x s
unfolding put_digits
put_digits-Decimal zero k x buf le lt pos = absurd (omega arith)
put_digits-Decimal (suc f) zero x buf le lt pos = absurd (omega arith)
put_digits-Decimal (suc f) (suc k) x buf le lt pos = elim (Bool-cases (x / 10 == 0)) [
  | inl small ↦ rw small (digit (x % 10) ∷ [], refl, small_Decimal k x (==→eq (x / 10) 0 small))
  | inr more ↦
      let (s, e, d) =
        put_digits-Decimal f k (x / 10) (digit (x % 10) ∷ buf) (omega arith) (omega arith)
          (more_digits k x lt (==_false→ne (x / 10) 0 more)) in
      rw (more, e)
        (
          s ++ digit (x % 10) ∷ [],
          ap some (sym (append_assoc s (digit (x % 10) ∷ []) buf)),
          Decimal-more k x s d,
        )
]

le-value : (n : ℕ) (s : List ℕ) → n ≤ value n s
le-value n [] = omega arith
le-value n (c ∷ s) = let le = le-value (n * 10 + (c - 48)) s in omega arith

atoi_loop-value : (n : ℕ) (s : List ℕ) → AllDigits s → value n s < word → atoi_loop n s ≡ value n s
unfolding atoi_loop
atoi_loop-value n [] all lt = refl
atoi_loop-value n (c ∷ s) (lo, hi, all) lt =
    let le = le-value (n * 10 + (c - 48)) s in
    let is_digit : (leb 48 c && leb c 57) ≡ true = ground arith in
    let next : (n * 10 + c + (word - 48)) % word ≡ n * 10 + (c - 48) = omega arith in
    rw (is_digit, next) (atoi_loop-value (n * 10 + (c - 48)) s all lt)

-- What `printint` has written.
abbrev pub Printed : (xx : ℕ) → Bool → Option (List ℕ) → Type 0
Printed xx sgn none = ⊥
Printed xx sgn (some out) =
    (s : List ℕ) × (out ≡ sign (sgn && int_lt xx 0) s)
    × (length out ≤ 11)
    × (0 < length s)
    × AllDigits s
    × (atoi s ≡ (if sgn && int_lt xx 0 then word - xx else xx))

sign-Printed :
    (xx x : ℕ) (sgn neg : Bool) (s : List ℕ)
    → (sgn && int_lt xx 0) ≡ neg
    → x ≡ (if neg then word - xx else xx)
    → x < word
    → Decimal 10 x s
    → Printed xx sgn (some (sign neg s))
unfolding atoi
sign-Printed xx x sgn true s e is small (all, v, pos, le) =
    rw e (s, refl, omega arith, pos, all, atoi_loop-value 0 s all (ground (arith, v)) ∙ (v ∙ is))
sign-Printed xx x sgn false s e is small (all, v, pos, le) =
    rw e (s, refl, omega arith, pos, all, atoi_loop-value 0 s all (ground (arith, v)) ∙ (v ∙ is))

digits-Printed :
    (xx x : ℕ) (sgn neg : Bool)
    → (sgn && int_lt xx 0) ≡ neg
    → x ≡ (if neg then word - xx else xx)
    → x < word
    → Printed xx sgn (put_digits 32 x 10 [] >>= λ buf. some (sign neg buf))
digits-Printed xx x sgn neg e is small =
    let (s, put, d) = put_digits-Decimal 32 10 x [] (omega arith) (omega arith) (omega arith) in
    subst (λ o. Printed xx sgn (o >>= λ buf. some (sign neg buf)))
      (sym (put ∙ ap some (append-nil s))) (sign-Printed xx x sgn neg s e is small d)

-- In base 10, printint ends and writes decimal digits, one at least, behind a minus sign exactly for a negative number that
-- is printed as signed, at most 11 bytes of its buffer of 16, and atoi reads the digits as
-- the number's absolute value.
pub atoi-printint : (xx : ℕ) (sgn : Bool) → xx < word → Printed xx sgn (printint xx 10 sgn)
unfolding printint
atoi-printint xx sgn lt = elim (Bool-cases (sgn && int_lt xx 0)) [
  | inl neg ↦
      let abs : (word - xx) % word ≡ word - xx = ground (arith, neg) in
      rw (neg, abs) (digits-Printed xx (word - xx) sgn true neg refl (ground (arith, neg)))
  | inr plain ↦ rw plain (digits-Printed xx xx sgn false plain refl lt)
]
