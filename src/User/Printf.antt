-- ===== src/User/Printf.antt =====
-- user/printf.c: the bytes that it writes, as a list.
use os_assignments.Prelude.{
  ℕ, zero, suc, ◌+◌, ◌-◌, ◌*◌, ◌/◌, ◌%◌, ◌^◌, Bool, true, false, Option, none, some, ◌&&◌, ltb,
  ◌==◌, if◌then◌else◌, word, int_lt, List, [], ◌∷◌, ◌++◌, ◌>>=◌,
}

-- `digits[d]`
unfoldable pub digit : (d : ℕ) → ℕ
digit d = if ltb d 10 then 48 + d else 55 + d

-- The `do` loop of `printint`: `buf` has what is in the buffer, the last byte first. A round for each
-- digit.
unfoldable pub put_digits : ℕ → (x base : ℕ) → (buf : List ℕ) → Option (List ℕ)
unfolding digit
put_digits zero x base buf = none
put_digits (suc k) x base buf =
    let more = put_digits k (x / base) base (digit (x % base) ∷ buf) in
    if x / base == 0 then some (digit (x % base) ∷ buf) else more

abbrev pub sign : Bool → List ℕ → List ℕ
sign neg buf = if neg then 45 ∷ buf else buf

-- `printint`: the buffer is written from its last byte back. 32 rounds are enough for any base.
unfoldable pub printint : (xx base : ℕ) → (sgn : Bool) → Option (List ℕ)
printint xx base sgn =
    let neg = sgn && int_lt xx 0 in
    let x = if neg then (word - xx) % word else xx in
    do buf ← put_digits 32 x base []; some (sign neg buf)

-- The loop of `printptr`.
pub put_nibbles : ℕ → (x : ℕ) → List ℕ
unfolding digit
put_nibbles zero x = []
put_nibbles (suc k) x = digit (x / 2 ^ 60) ∷ put_nibbles k (x * 16 % 2 ^ 64)

pub printptr : (x : ℕ) → List ℕ
unfolding put_nibbles
printptr x = 48 ∷ 120 ∷ put_nibbles 16 x

-- `va_arg`: the next argument; `none` when the caller has given too few.
abbrev pub va_arg : List ℕ → Option (ℕ × List ℕ)
va_arg [] = none
va_arg (a ∷ args) = some (a, args)

-- `(null)`
abbrev pub null_text : List ℕ
null_text = 40 ∷ 110 ∷ 117 ∷ 108 ∷ 108 ∷ 41 ∷ []

-- What is written for `%c`, and the arguments that are left. `memory` has the strings at their
-- addresses.
pub directive : (memory : ℕ → List ℕ) → (c : ℕ) → List ℕ → Option (List ℕ × List ℕ)
unfolding printint printptr
directive memory c args =
    if c == 100
    then (do (a, rest) ← va_arg args; out ← printint (a % word) 10 true; some (out, rest))
    else if c == 108
    then (do (a, rest) ← va_arg args; out ← printint (a % word) 10 false; some (out, rest))
    else if c == 120
    then (do (a, rest) ← va_arg args; out ← printint (a % word) 16 false; some (out, rest))
    else if c == 112
    then (do (a, rest) ← va_arg args; some (printptr a, rest))
    else if c == 115
    then (do (a, rest) ← va_arg args; some (if a == 0 then null_text else memory a, rest))
    else if c == 99
    then (do (a, rest) ← va_arg args; some (a % 256 ∷ [], rest))
    else if c == 37
    then some (c ∷ [], args)
    else some (37 ∷ c ∷ [], args)

-- The loop of `vprintf`; `percent` is its state.
pub vprintf_loop : (memory : ℕ → List ℕ) → (percent : Bool) → (fmt args : List ℕ) → Option (List ℕ)
unfolding directive
vprintf_loop memory percent [] args = some []
vprintf_loop memory false (c ∷ fmt) args =
    let plain = do out ← vprintf_loop memory false fmt args; some (c ∷ out)
    in let special = vprintf_loop memory true fmt args in if c == 37 then special else plain
vprintf_loop memory true (c ∷ fmt) args = do
  (out, rest) ← directive memory c args
  more ← vprintf_loop memory false fmt rest
  some (out ++ more)

pub vprintf : (memory : ℕ → List ℕ) → (fmt args : List ℕ) → Option (List ℕ)
unfolding vprintf_loop
vprintf memory fmt args = vprintf_loop memory false fmt args
