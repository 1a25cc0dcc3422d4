-- ===== src/Pipe/Ring.antt =====
-- The ring of kernel/pipe.c as a queue of bytes. The two counters wrap at 2^32, a multiple of
-- the ring's size.
use os_assignments.Prelude.{
  ℕ, zero, suc, ◌+◌, ◌-◌, ◌%◌, ◌≤◌, ◌<◌, ◌≡◌, ◌≢◌, refl, ap, ap₂, ◌∙◌, ◌==◌, arith, List, [], ◌∷◌,
  ◌++◌, length, word, update,
}
use os_assignments.Pipe.{Pipe, pipe_size, is_full, is_empty, put, oldest, take_one}

-- The `k` bytes from counter `r` on.
abbrev pub window : (ℕ → ℕ) → ℕ → ℕ → List ℕ
window d r zero = []
window d r (suc k) = d (r % pipe_size) ∷ window d ((r + 1) % word) k

abbrev pub count : Pipe → ℕ
count p = (p.nwrite + (word - p.nread)) % word

-- The bytes in the pipe, oldest first.
abbrev pub contents : Pipe → List ℕ
contents p = window p.buffer p.nread (count p)

pub record IsValid (p : Pipe) : Type 0 where
  pub nread_uint : p.nread < word
  pub nwrite_uint : p.nwrite < word
  pub held : count p ≤ pipe_size

pub length-window : (d : ℕ → ℕ) (r k : ℕ) → length (window d r k) ≡ k
length-window d r zero = refl
length-window d r (suc k) = ap suc (length-window d ((r + 1) % word) k)

-- A byte written just past the window extends it.
window-put :
    (d : ℕ → ℕ) (x k r j : ℕ)
    → k < pipe_size
    → j ≡ (r + k) % pipe_size
    → window (update d j x) r (suc k) ≡ window d r k ++ (x ∷ [])
window-put d x zero r j h e = ground arith
window-put d x (suc k) r j h e =
    ap₂ ◌∷◌ (ground arith) (window-put d x k ((r + 1) % word) j (omega arith) (omega arith))

-- `window` matches on `suc`, the code compares counters.
window_of_ne_zero :
    (d : ℕ → ℕ) (r k : ℕ)
    → k ≢ 0
    → window d r k ≡ d (r % pipe_size) ∷ window d ((r + 1) % word) (k - 1)
window_of_ne_zero d r zero h = absurd (h refl)
window_of_ne_zero d r (suc k) h =
    ap (λ (j : ℕ). d (r % pipe_size) ∷ window d ((r + 1) % word) j) (omega arith)

module _ {p : Pipe} (v : IsValid p) where
  pub full_iff : is_full p ≡ (count p == pipe_size)
  full_iff = ground arith

  pub empty_iff : is_empty p ≡ (count p == 0)
  empty_iff = ground arith

  pub count-put : (x : ℕ) → count p < pipe_size → count (put x p) ≡ count p + 1
  unfolding put
  count-put x h = omega arith

  pub contents-put : (x : ℕ) → count p < pipe_size → contents (put x p) ≡ contents p ++ (x ∷ [])
  unfolding put
  contents-put x h =
      let more : count (put x p) ≡ suc (count p) = omega (arith, count-put x h) in
      ap (window (put x p).buffer p.nread) more
      ∙ window-put p.buffer x (count p) p.nread (p.nwrite % pipe_size) h (omega arith)

  pub put-IsValid : (x : ℕ) → count p < pipe_size → IsValid (put x p)
  unfolding put
  put-IsValid x h = omega arith

  pub take_one-IsValid : count p ≢ 0 → IsValid (take_one p)
  unfolding take_one
  take_one-IsValid h = omega arith

  pub count-take_one : count p ≢ 0 → count (take_one p) + 1 ≡ count p
  unfolding take_one
  count-take_one h = omega arith

  pub contents-take_one : count p ≢ 0 → contents p ≡ oldest p ∷ contents (take_one p)
  unfolding oldest take_one
  contents-take_one h =
      window_of_ne_zero p.buffer p.nread (count p) h
      ∙ ap (λ (k : ℕ). oldest p ∷ window p.buffer ((p.nread + 1) % word) k)
          (omega (arith, count-take_one h))
