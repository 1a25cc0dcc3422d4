-- ===== src/Fs/Path/Walk.antt =====
-- `namex` of kernel/fs.c: it follows the elements of the path and keeps no reference but the one it
-- returns.
use os_assignments.Prelude.{
  ℕ, zero, suc, ◌+◌, ◌<◌, ◌≡◌, refl, sym, ◌∙◌, inl, inr, arith, Bool, true, false, if◌then◌else◌,
  ◌==◌, ◌&&◌, not, Bool-cases, Option, none, some, Option-cases, List, [], ◌∷◌, length,
}
use mathlib.Core.Option.{none-ne-some}
use os_assignments.Fs.Path.{
  dirsiz, slash, Name, skipelem, text, Tree, Refs, take_ref, put_ref, Walked, is_end, namex_end,
  namex_loop, is_absolute, namex,
}
use os_assignments.Fs.Path.Elements.{
  IsPath, end-IsPath, slash-IsPath, last-IsPath, element-IsPath, NoSlash, first, Skips,
  skipelem-Skips,
}

abbrev pub is_nil : List (List ℕ) → Bool
is_nil [] = true
is_nil (e ∷ es) = false

-- Where the elements lead from an inode; with `parent`, in front of the last one, which must be there.
unfoldable pub walk : Tree → (parent : Bool) → (ip : ℕ) → List (List ℕ) → Option ℕ
walk tree parent ip [] = if parent then none else some ip
walk tree parent ip (e ∷ es) =
    if not (tree.is_dir ip)
    then none
    else if parent && is_nil es
    then some ip
    else elim (tree.lookup ip (first dirsiz e)) [
      | none ↦ none
      | some next ↦ walk tree parent next es
    ]

is_end-is_nil :
    {path : List ℕ} {es : List (List ℕ)} → IsPath path es → NoSlash path → is_end path ≡ is_nil es
is_end-is_nil end-IsPath ns = refl
is_end-is_nil (slash-IsPath p) ns = absurd (ns refl)
is_end-is_nil (last-IsPath c e all) ns = refl
is_end-is_nil (element-IsPath c e all p) ns = refl

-- The references `r` and one to `ip`.
abbrev pub And : Option ℕ → Refs → Refs → Type 0
And none r refs = (j : ℕ) → refs j ≡ r j
And (some ip) r refs = (j : ℕ) → refs j ≡ (if j == ip then r j + 1 else r j)

abbrev pub last : List ℕ → List (List ℕ) → List ℕ
last e [] = e
last e (f ∷ es) = last f es

-- The name that is left for a caller that wants the parent.
abbrev pub NamesLast : (parent : Bool) → Option ℕ → List (List ℕ) → Name → Type 0
NamesLast false ret es name = slash ≡ slash
NamesLast true none es name = slash ≡ slash
NamesLast true (some i) [] name = slash ≡ slash
NamesLast true (some i) (e ∷ es) name = text dirsiz 0 name ≡ first dirsiz (last e es)

abbrev pub Walks : Tree → (parent : Bool) → (ip : ℕ) → Refs → List (List ℕ) → Option Walked → Type 0
Walks tree parent ip r es none = ⊥
Walks tree parent ip r es (some w) =
    (w.ret ≡ walk tree parent ip es) × And w.ret r w.refs × NamesLast parent w.ret es w.name

-- The last name of the rest is the last one.
NamesLast-behind :
    (parent : Bool) (ret : Option ℕ) (e : List ℕ) (es : List (List ℕ)) (name : Name)
    → (parent && is_nil es) ≡ false
    → NamesLast parent ret es name
    → NamesLast parent ret (e ∷ es) name
NamesLast-behind false ret e es name more h = h
NamesLast-behind true none e es name more h = h
NamesLast-behind true (some i) e [] name more h = absurd (ground (arith, more))
NamesLast-behind true (some i) e (f ∷ es) name more h = h

NamesLast-stop :
    (parent : Bool) (ip : ℕ) (e : List ℕ) (es : List (List ℕ)) (name : Name)
    → (parent && is_nil es) ≡ true
    → text dirsiz 0 name ≡ first dirsiz e
    → NamesLast parent (some ip) (e ∷ es) name
NamesLast-stop false ip e es name stop t = refl
NamesLast-stop true ip e [] name stop t = t
NamesLast-stop true ip e (f ∷ es) name stop t = absurd (ground (arith, stop))

Walks-behind :
    (tree : Tree) (parent : Bool) (ip next : ℕ) (r : Refs) (e : List ℕ) (es : List (List ℕ))
    (o : Option Walked)
    → walk tree parent ip (e ∷ es) ≡ walk tree parent next es
    → (parent && is_nil es) ≡ false
    → Walks tree parent next r es o
    → Walks tree parent ip r (e ∷ es) o
Walks-behind tree parent ip next r e es none same more h = h
Walks-behind tree parent ip next r e es (some w) same more (ret, refs, name) =
    (ret ∙ sym same, refs, NamesLast-behind parent w.ret e es w.name more name)

NamesLast-none : (parent : Bool) (es : List (List ℕ)) (name : Name) → NamesLast parent none es name
NamesLast-none false es name = refl
NamesLast-none true es name = refl

module _ (k : ℕ) (tree : Tree) (parent : Bool) (r : Refs)
    (loop : (path : List ℕ) (es : List (List ℕ)) (name : Name) (ip : ℕ) (refs : Refs)
      → IsPath path es
      → length path < k
      → And (some ip) r refs
      → Walks tree parent ip r es (namex_loop k tree parent path name ip refs)) where
  after_skipelem :
      (path : List ℕ) (es : List (List ℕ)) (ip : ℕ) (refs : Refs) (s : Option (List ℕ) × Name)
      → Skips es path s
      → length path < suc k
      → And (some ip) r refs
      → Walks tree parent ip r es (elim (s.0) [
        | none ↦ some (namex_end parent ip s.1 refs)
        | some rest ↦
            if not (tree.is_dir ip)
            then some (record { ret = none; name = s.1; refs = put_ref ip refs })
            else if parent && is_end rest
            then some (record { ret = some ip; name = s.1; refs = refs })
            else elim (tree.lookup ip (text dirsiz 0 s.1)) [
              | none ↦ some (record { ret = none; name = s.1; refs = put_ref ip refs })
              | some next ↦ namex_loop k tree parent rest s.1 next (put_ref ip (take_ref next refs))
            ]
      ])
  unfolding walk namex_end
  after_skipelem path [] ip refs (none, name) e lt h = elim (Bool-cases parent) [
    | inl up ↦ rw up (refl, λ j. ground (arith, h j, h ip), refl)
    | inr down ↦ rw down (refl, h, refl)
  ]
  after_skipelem path [] ip refs (some rest, name) e lt h = absurd (none-ne-some rest (sym e))
  after_skipelem path (e ∷ es) ip refs (none, name) bad lt h = absurd bad
  after_skipelem path (e ∷ es) ip refs (some rest, name) (p, t, less, ns) lt h =
      elim (Bool-cases (tree.is_dir ip)) [
        | inr no_dir ↦
            let w : walk tree parent ip (e ∷ es) ≡ none = rw no_dir refl in
            rw no_dir (sym w, λ j. ground (arith, h j, h ip), NamesLast-none parent (e ∷ es) name)
        | inl dir ↦
            let end = is_end-is_nil p ns in
            elim (Bool-cases (parent && is_nil es)) [
              | inl stop ↦
                  let w : walk tree parent ip (e ∷ es) ≡ some ip = rw (dir, stop) refl in
                  rw (dir, end, stop) (sym w, h, NamesLast-stop parent ip e es name stop t)
              | inr more ↦ elim (Option-cases (tree.lookup ip (first dirsiz e))) [
                | inl missing ↦
                    let w : walk tree parent ip (e ∷ es) ≡ none = rw (dir, more, missing) refl in
                    rw (dir, end, more, t, missing)
                      (sym w, λ j. ground (arith, h j, h ip), NamesLast-none parent (e ∷ es) name)
                | inr (next, found) ↦
                    let w : walk tree parent ip (e ∷ es) ≡ walk tree parent next es =
                      rw (dir, more, found) refl in
                    rw (dir, end, more, t, found)
                      (Walks-behind tree parent ip next r e es
                        (namex_loop k tree parent rest name next (put_ref ip (take_ref next refs)))
                        w more
                        (loop rest es name next (put_ref ip (take_ref next refs)) p (omega arith)
                          (λ j. ground (arith, h j, h ip, h next))))
              ]
            ]
      ]

namex_loop-Walks :
    (k : ℕ) (tree : Tree) (parent : Bool) (path : List ℕ) (es : List (List ℕ)) (name : Name)
    (ip : ℕ) (r refs : Refs)
    → IsPath path es
    → length path < k
    → And (some ip) r refs
    → Walks tree parent ip r es (namex_loop k tree parent path name ip refs)
unfolding namex_loop
namex_loop-Walks zero tree parent path es name ip r refs p lt h = absurd (omega arith)
namex_loop-Walks (suc k) tree parent path es name ip r refs p lt h =
    after_skipelem k tree parent r
      (λ path es name ip refs. namex_loop-Walks k tree parent path es name ip r refs) path es ip
      refs (skipelem path name) (skipelem-Skips name p) lt h

-- For a path with the elements `es`, namex and so namei and nameiparent end, with what the elements lead
-- to from the root or the working directory, or 0; nameiparent leaves the last name, cut at DIRSIZ bytes; and the caller
-- has one reference more, to what is returned, or none.
pub namex-Walks :
    (tree : Tree) (root cwd : ℕ) (parent : Bool) (path : List ℕ) (es : List (List ℕ)) (name : Name)
    (refs : Refs)
    → IsPath path es
    → Walks tree parent
        (if is_absolute path then root else cwd)
        refs
        es
        (namex tree root cwd parent path name refs)
unfolding namex
namex-Walks tree root cwd parent path es name refs p =
    let ip = if is_absolute path then root else cwd in
    namex_loop-Walks (length path + 1) tree parent path es name ip refs (take_ref ip refs) p
      (omega arith) (λ j. ground arith)
