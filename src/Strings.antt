-- ===== src/Strings.antt =====
-- kernel/string.c over memory as a function from addresses to bytes. An object lies within the
-- address space, so a pointer into it is a plain number and does not wrap.
pub mod Bytes
pub mod Text
mod Tests
use os_assignments.Prelude.{
  ℕ, zero, suc, ◌+◌, ◌-◌, ◌%◌, Bool, Option, none, some, not, ◌&&◌, ltb, ◌==◌, if◌then◌else◌, word,
  int_lt, update,
}

abbrev pub Memory : Type 0
Memory = ℕ → ℕ

-- `memset` from place `i` on: `i` is compared with the `uint n` as a `uint`, so there are `n` rounds.
unfoldable memset_loop : ℕ → (i dst c : ℕ) → Memory → Memory
memset_loop zero i dst c m = m
memset_loop (suc k) i dst c m = memset_loop k (i + 1) dst c (update m (dst + i) (c % 256))

unfoldable pub memset : (dst c n : ℕ) → Memory → Memory
unfolding memset_loop
memset dst c n m = memset_loop n 0 dst c m

-- The difference of two bytes as an `int`, a word in two's complement.
abbrev pub int_diff : ℕ → ℕ → ℕ
int_diff a b = (a + (word - b)) % word

unfoldable pub memcmp : (v1 v2 n : ℕ) → Memory → ℕ
memcmp v1 v2 zero m = 0
memcmp v1 v2 (suc n) m =
    let rest = memcmp (v1 + 1) (v2 + 1) n m in if m v1 == m v2 then rest else int_diff (m v1) (m v2)

-- `*--d = *--s`, `n` times.
unfoldable pub copy_down : (n d s : ℕ) → Memory → Memory
copy_down zero d s m = m
copy_down (suc n) d s m = copy_down n (d - 1) (s - 1) (update m (d - 1) (m (s - 1)))

-- `*d++ = *s++`, `n` times.
unfoldable pub copy_up : (n d s : ℕ) → Memory → Memory
copy_up zero d s m = m
copy_up (suc n) d s m = copy_up n (d + 1) (s + 1) (update m d (m s))

unfoldable pub memmove : (dst src n : ℕ) → Memory → Memory
unfolding copy_down copy_up
memmove dst src n m =
    if n == 0
    then m
    else if ltb src dst && ltb dst (src + n)
    then copy_down n (dst + n) (src + n) m
    else copy_up n dst src m

unfoldable pub memcpy : (dst src n : ℕ) → Memory → Memory
unfolding memmove
memcpy dst src n m = memmove dst src n m

-- The bytes are compared as they are, `char` being unsigned on RISC-V.
unfoldable pub strncmp : (p q n : ℕ) → Memory → ℕ
strncmp p q zero m = 0
strncmp p q (suc n) m =
    let rest = strncmp (p + 1) (q + 1) n m in
    if not (m p == 0) && m p == m q then rest else int_diff (m p) (m q)

-- The second loop of `strncpy`.
unfoldable pub pad : (n s : ℕ) → Memory → Memory
pad zero s m = m
pad (suc n) s m = pad n (s + 1) (update m s 0)

-- The first loop of `strncpy` with `n` places left, and then the second.
unfoldable pub strncpy_loop : (n s t : ℕ) → Memory → Memory
unfolding pad
strncpy_loop zero s t m = m
strncpy_loop (suc n) s t m =
    let m' = update m s (m t) in
    let rest = strncpy_loop n (s + 1) (t + 1) m' in if m t == 0 then pad n (s + 1) m' else rest

-- `n` is an `int`, and a negative one copies nothing.
unfoldable pub strncpy : (s t n : ℕ) → Memory → Memory
unfolding strncpy_loop
strncpy s t n m = if int_lt 0 n then strncpy_loop n s t m else m

-- The loop of `safestrcpy` with room for `n` bytes before the last one, and the final `*s = 0`.
unfoldable pub safestrcpy_loop : (n s t : ℕ) → Memory → Memory
safestrcpy_loop zero s t m = update m s 0
safestrcpy_loop (suc n) s t m =
    let m' = update m s (m t) in
    let rest = safestrcpy_loop n (s + 1) (t + 1) m' in
    if m t == 0 then update m' (s + 1) 0 else rest

unfoldable pub safestrcpy : (s t n : ℕ) → Memory → Memory
unfolding safestrcpy_loop
safestrcpy s t n m = if int_lt 0 n then safestrcpy_loop (n - 1) s t m else m

-- `strlen` from place `n` on, in at most `fuel` rounds.
unfoldable pub strlen_loop : (fuel s n : ℕ) → Memory → Option ℕ
strlen_loop zero s n m = none
strlen_loop (suc fuel) s n m =
    let rest = strlen_loop fuel s ((n + 1) % word) m in if m (s + n) == 0 then some n else rest
