-- ===== src/File/Refs.antt =====
-- filealloc, filedup and fileclose of kernel/file.c on a file with a given reference count.
use os_assignments.Prelude.{
  ℕ, ◌+◌, ◌-◌, ◌%◌, ◌^◌, ◌<◌, ◌≡◌, ◌≢◌, refl, true, false, ◌⊎◌, inl, inr, arith, ◌==◌, ==→eq,
  ==_false→ne, Bool-cases, word, int_lt, update, Option, none, some, [], find_from, FindResult,
  find_from-FindResult,
}
use os_assignments.File.{
  FileTable, fd_none, nfile, last_calls, filealloc_at, filealloc, filedup, fileclose,
}

-- `filealloc` on every branch: the first file without references, or null.
abbrev pub Allocates : FileTable → Option ℕ × FileTable → Type 0
Allocates t (none, t') = (t' ≡ t) × ((f : ℕ) → f < nfile → (t f).ref ≢ 0)
Allocates t (some f, t') =
    (f < nfile)
    × ((t f).ref ≡ 0)
    × (t' ≡ update t f (record (t f) { ref = 1 }))
    × ((g : ℕ) → g < f → (t g).ref ≢ 0)

filealloc_at-Allocates :
    (t : FileTable) (o : Option ℕ)
    → FindResult nfile 0 (λ i. (t i).ref == 0) o
    → Allocates t (filealloc_at o t)
unfolding filealloc_at
filealloc_at-Allocates t none miss =
    (refl, λ f lt. ==_false→ne (t f).ref 0 (miss f (omega arith) (omega arith)))
filealloc_at-Allocates t (some f) (lo, hi, hit, first) = (
  omega arith,
  ==→eq (t f).ref 0 hit,
  refl,
  λ g lt. ==_false→ne (t g).ref 0 (first g (omega arith) lt),
)

pub filealloc-Allocates : (t : FileTable) → Allocates t (filealloc t)
unfolding filealloc
filealloc-Allocates t =
    filealloc_at-Allocates t (find_from nfile 0 (λ i. (t i).ref == 0))
      (find_from-FindResult (λ i. (t i).ref == 0) nfile 0)

-- `fileclose` and `filedup` of a file with `n` references.
abbrev pub Closes : (f n : ℕ) → FileTable → Type 0
Closes f n t =
    ((n ≡ 1)
      × (fileclose f t
          ≡ some
              (last_calls (t f).type (t f), update t f (record (t f) { ref = 0; type = fd_none }))))
    ⊎ ((1 < n) × (fileclose f t ≡ some ([], update t f (record (t f) { ref = n - 1 }))))

pub fileclose-Closes : (t : FileTable) (f n : ℕ) → (t f).ref ≡ n → 0 < n → n < 2 ^ 31 → Closes f n t
unfolding fileclose
fileclose-Closes t f n e some_ref small =
    let open_file : int_lt (t f).ref 1 ≡ false = ground arith in
    let less : ((t f).ref + (word - 1)) % word ≡ n - 1 = ground arith in
    elim (Bool-cases (n == 1)) [
      | inl last ↦
          let gone : int_lt 0 (n - 1) ≡ false = ground arith in
          inl (==→eq n 1 last, rw (open_file, less, gone) refl)
      | inr more ↦
          let kept : int_lt 0 (n - 1) ≡ true = ground arith in
          inr (ground arith, rw (open_file, less, kept) refl)
    ]

pub filedup_lem :
    (t : FileTable) (f n : ℕ)
    → (t f).ref ≡ n
    → 0 < n
    → n + 1 < 2 ^ 31
    → filedup f t ≡ some (update t f (record (t f) { ref = n + 1 }))
unfolding filedup
filedup_lem t f n e some_ref small =
    let open_file : int_lt (t f).ref 1 ≡ false = ground arith in
    let one_more : ((t f).ref + 1) % word ≡ n + 1 = ground arith in rw (open_file, one_more) refl
