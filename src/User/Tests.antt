-- ===== src/User/Tests.antt =====
-- Runs of the library of the user programs, and its theorems at them.
use os_assignments.Prelude.{ℕ, ◌≡◌, refl, arith, true, some, List, [], ◌∷◌}
use os_assignments.User.Ulib.{gets}
use os_assignments.User.Printf.{printint, put_digits}
use os_assignments.User.Number.{Printed, atoi-printint}
use os_assignments.User.Text.{GotText, gets-Got}

-- -42
minus_42 : printint 4294967254 10 true ≡ some (45 ∷ 52 ∷ 50 ∷ [])
unfolding printint put_digits
minus_42 = refl

atoi-printint_example : Printed 4294967254 true (printint 4294967254 10 true)
atoi-printint_example = atoi-printint 4294967254 true (omega arith)

-- Two letters, a newline and a letter.
abbrev input : List ℕ
input = 104 ∷ 105 ∷ 10 ∷ 99 ∷ []

gets-Got_example : GotText 10 input (gets 10 input)
gets-Got_example = gets-Got 10 input (omega arith) (omega arith)
