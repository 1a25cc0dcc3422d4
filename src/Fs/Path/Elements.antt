-- ===== src/Fs/Path/Elements.antt =====
-- The elements of a path, and `skipelem` of kernel/fs.c.
use os_assignments.Prelude.{
  ℕ, zero, suc, ◌+◌, ◌≤◌, ◌<◌, ◌≡◌, ◌≢◌, refl, sym, ap, ◌∙◌, inl, inr, arith, true, false, ◌==◌,
  leb, update, Bool-cases, ==_false→ne, Option, none, some, List, [], ◌∷◌, ◌++◌, length,
}
use mathlib.Core.Path.{subst}
use os_assignments.Fs.Path.{
  dirsiz, slash, Name, skip_slashes, element, behind_element, copy_name, set_name, skipelem_at,
  skipelem, text,
}

-- Neither a slash nor the end of the string.
abbrev pub IsLetter : ℕ → Type 0
IsLetter c = (c ≢ slash) × (c ≢ 0)

abbrev pub AllLetters : List ℕ → Type 0
AllLetters [] = slash ≡ slash
AllLetters (c ∷ s) = IsLetter c × AllLetters s

-- A path is its elements, each behind any number of slashes and in front of one or of the end, and
-- then slashes.
pub data IsPath : List ℕ → List (List ℕ) → Type 0 where
  end-IsPath : IsPath [] []
  slash-IsPath : {path : List ℕ} {es : List (List ℕ)} → IsPath path es → IsPath (slash ∷ path) es
  last-IsPath : (c : ℕ) (e : List ℕ) → AllLetters (c ∷ e) → IsPath (c ∷ e) ((c ∷ e) ∷ [])
  element-IsPath :
      (c : ℕ) (e : List ℕ) {path : List ℕ} {es : List (List ℕ)}
      → AllLetters (c ∷ e)
      → IsPath (slash ∷ path) es
      → IsPath (c ∷ e ++ slash ∷ path) ((c ∷ e) ∷ es)

-- A path without a slash in front.
abbrev pub NoSlash : List ℕ → Type 0
NoSlash [] = slash ≡ slash
NoSlash (c ∷ path) = c ≢ slash

abbrev pub first : ℕ → List ℕ → List ℕ
first n [] = []
first zero (c ∷ s) = []
first (suc n) (c ∷ s) = c ∷ first n s

element-letters : (e : List ℕ) → AllLetters e → element e ≡ e
unfolding element
element-letters [] all = refl
element-letters (c ∷ e) ((ns, nz), all) =
    let other : (c == slash) ≡ false = ground arith in
    rw other (ap (λ e. c ∷ e) (element-letters e all))

element-append : (e path : List ℕ) → AllLetters e → element (e ++ slash ∷ path) ≡ e
unfolding element
element-append [] path all = refl
element-append (c ∷ e) path ((ns, nz), all) =
    let other : (c == slash) ≡ false = ground arith in
    rw other (ap (λ e. c ∷ e) (element-append e path all))

behind-letters : (e : List ℕ) → AllLetters e → behind_element e ≡ []
unfolding behind_element
behind-letters [] all = refl
behind-letters (c ∷ e) ((ns, nz), all) =
    let other : (c == slash) ≡ false = ground arith in rw other (behind-letters e all)

behind-append : (e path : List ℕ) → AllLetters e → behind_element (e ++ slash ∷ path) ≡ slash ∷ path
unfolding behind_element
behind-append [] path all = refl
behind-append (c ∷ e) path ((ns, nz), all) =
    let other : (c == slash) ≡ false = ground arith in rw other (behind-append e path all)

-- What `skipelem` leaves in the buffer.
copy_name-byte :
    (n i : ℕ) (s : List ℕ) (name : Name) (j : ℕ) → j < i → copy_name n i s name j ≡ name j
unfolding copy_name
copy_name-byte zero i s name j lt = refl
copy_name-byte (suc n) i [] name j lt = refl
copy_name-byte (suc n) i (c ∷ s) name j lt =
    copy_name-byte n (i + 1) s (update name i c) j (omega arith) ∙ ground arith

text-copy_full :
    (n i : ℕ) (s : List ℕ) (name : Name)
    → AllLetters s
    → n ≤ length s
    → text n i (copy_name n i s name) ≡ first n s
unfolding text copy_name
text-copy_full zero i [] name all le = refl
text-copy_full zero i (c ∷ s) name all le = refl
text-copy_full (suc n) i [] name all le = absurd (omega arith)
text-copy_full (suc n) i (c ∷ s) name ((ns, nz), all) le =
    let here : copy_name n (i + 1) s (update name i c) i ≡ c =
      copy_name-byte n (i + 1) s (update name i c) i (omega arith) ∙ ground arith in
    let other : (c == 0) ≡ false = ground arith in
    rw (here, other)
      (ap (λ s. c ∷ s) (text-copy_full n (i + 1) s (update name i c) all (omega arith)))

text-copy_short :
    (n i : ℕ) (s : List ℕ) (name : Name)
    → AllLetters s
    → length s < n
    → text n i (update (copy_name (length s) i s name) (i + length s) 0) ≡ first n s
unfolding text copy_name
text-copy_short zero i s name all lt = absurd (omega arith)
text-copy_short (suc n) i [] name all lt =
    let here : (i == i + 0) ≡ true = ground arith in rw here refl
text-copy_short (suc n) i (c ∷ s) name ((ns, nz), all) lt =
    let here : copy_name (length s) (i + 1) s (update name i c) i ≡ c =
      copy_name-byte (length s) (i + 1) s (update name i c) i (omega arith) ∙ ground arith in
    let apart : (i == i + suc (length s)) ≡ false = ground arith in
    let other : (c == 0) ≡ false = ground arith in
    let place : i + suc (length s) ≡ i + 1 + length s = omega arith in
    rw (apart, here, other, place)
      (ap (λ s. c ∷ s) (text-copy_short n (i + 1) s (update name i c) all (omega arith)))

text-set_name :
    (s : List ℕ) (name : Name) → AllLetters s → text dirsiz 0 (set_name s name) ≡ first dirsiz s
unfolding set_name
text-set_name s name all = elim (Bool-cases (leb dirsiz (length s))) [
  | inl long ↦ rw long (text-copy_full dirsiz 0 s name all (ground arith))
  | inr short ↦
      let place : 0 + length s ≡ length s = omega arith in
      rw short (
        subst (λ x. text dirsiz 0 (update (copy_name (length s) 0 s name) x 0) ≡ first dirsiz s)
          place (text-copy_short dirsiz 0 s name all (ground arith)))
]

-- What `skipelem` makes of a path with the elements `es`: none without elements; else the first element
-- is in the buffer, and the rest has the others and no slash in front.
abbrev pub Skips : List (List ℕ) → List ℕ → Option (List ℕ) × Name → Type 0
Skips [] path (rest, name) = rest ≡ none
Skips (e ∷ es) path (none, name) = ⊥
Skips (e ∷ es) path (some rest, name) =
    IsPath rest es
    × (text dirsiz 0 name ≡ first dirsiz e)
    × (length rest < length path)
    × NoSlash rest

skip-NoSlash : (path : List ℕ) → NoSlash (skip_slashes path)
unfolding skip_slashes
skip-NoSlash [] = refl
skip-NoSlash (c ∷ path) = elim (Bool-cases (c == slash)) [
  | inl e ↦ rw e (skip-NoSlash path)
  | inr e ↦ rw e (==_false→ne c slash e)
]

skip-length : (path : List ℕ) → length (skip_slashes path) ≤ length path
unfolding skip_slashes
skip-length [] = omega arith
skip-length (c ∷ path) = elim (Bool-cases (c == slash)) [
  | inl e ↦ rw e (let le = skip-length path in omega arith)
  | inr e ↦ rw e (omega arith)
]

skip-letter : (c : ℕ) (path : List ℕ) → c ≢ slash → skip_slashes (c ∷ path) ≡ c ∷ path
unfolding skip_slashes
skip-letter c path ne = let other : (c == slash) ≡ false = ground arith in rw other refl

skip-IsPath : {path : List ℕ} {es : List (List ℕ)} → IsPath path es → IsPath (skip_slashes path) es
unfolding skip_slashes
skip-IsPath end-IsPath = end-IsPath
skip-IsPath (slash-IsPath p) = skip-IsPath p
skip-IsPath (last-IsPath c e ((ns, nz), all)) =
    subst (λ p. IsPath p ((c ∷ e) ∷ [])) (sym (skip-letter c e ns))
      (last-IsPath c e ((ns, nz), all))
skip-IsPath (element-IsPath c e {path} {es} ((ns, nz), all) p) =
    subst (λ p. IsPath p ((c ∷ e) ∷ es)) (sym (skip-letter c (e ++ slash ∷ path) ns))
      (element-IsPath c e ((ns, nz), all) p)

Skips-more :
    (es : List (List ℕ)) (path : List ℕ) (r : Option (List ℕ) × Name)
    → Skips es path r
    → Skips es (slash ∷ path) r
Skips-more [] path (rest, name) h = h
Skips-more (e ∷ es) path (none, name) h = h
Skips-more (e ∷ es) path (some rest, name) (p, t, lt, ns) = (p, t, omega arith, ns)

length-behind : (e path : List ℕ) → length path < length (e ++ slash ∷ path)
length-behind [] path = omega arith
length-behind (c ∷ e) path = let lt = length-behind e path in omega arith

pub skipelem-Skips :
    {path : List ℕ} {es : List (List ℕ)} (name : Name)
    → IsPath path es
    → Skips es path (skipelem path name)
unfolding skipelem skipelem_at skip_slashes
skipelem-Skips name end-IsPath = refl
skipelem-Skips name (slash-IsPath {path} {es} p) =
    Skips-more es path (skipelem path name) (skipelem-Skips name p)
skipelem-Skips name (last-IsPath c e all) =
    let skipped = skip-letter c e all.0.0 in
    let rest : skip_slashes (behind_element (c ∷ e)) ≡ [] =
      ap skip_slashes (behind-letters (c ∷ e) all) in
    rw (skipped, rest, element-letters (c ∷ e) all)
      (end-IsPath, text-set_name (c ∷ e) name all, omega arith, refl)
skipelem-Skips name (element-IsPath c e {path} {es} all p) =
    let skipped = skip-letter c (e ++ slash ∷ path) all.0.0 in
    let rest : skip_slashes (behind_element (c ∷ e ++ slash ∷ path)) ≡ skip_slashes path =
      ap skip_slashes (behind-append (c ∷ e) path all) in
    let le = skip-length path in
    let lt = length-behind e path in
    rw (skipped, rest, element-append (c ∷ e) path all)
      (skip-IsPath p, text-set_name (c ∷ e) name all, omega arith, skip-NoSlash path)
