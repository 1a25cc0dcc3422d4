-- ===== src/Fs/Path/Tests.antt =====
-- Runs on small paths of kernel/fs.c, and its theorems at them.
use os_assignments.Prelude.{
  ℕ, ◌≡◌, refl, arith, true, none, some, List, [], ◌∷◌, ◌==◌, if◌then◌else◌,
}
use os_assignments.Fs.Path.{Name, Tree, namex, skipelem}
use os_assignments.Fs.Path.Elements.{IsPath, slash-IsPath, last-IsPath, element-IsPath}
use os_assignments.Fs.Path.Walk.{Walks, namex-Walks}

-- /a/bb
abbrev path : List ℕ
path = 47 ∷ 97 ∷ 47 ∷ 98 ∷ 98 ∷ []

path-IsPath : IsPath path ((97 ∷ []) ∷ (98 ∷ 98 ∷ []) ∷ [])
path-IsPath = slash-IsPath (
    element-IsPath 97 [] (((λ e. omega arith), (λ e. omega arith)), refl)
      (slash-IsPath (
        last-IsPath 98 (98 ∷ []) (
          ((λ e. omega arith), (λ e. omega arith)),
          (((λ e. omega arith), (λ e. omega arith)), refl),
        ))))

-- The root directory 1 has the directory 2 as its only entry.
abbrev tree : Tree
tree = record { is_dir = λ ip. true; lookup = λ ip name. if ip == 1 then some 2 else none }

abbrev no_name : Name
no_name i = 0

skipped : (skipelem path no_name).0 ≡ some (98 ∷ 98 ∷ [])
unfolding skipelem
skipped = refl

namex-Walks_example :
    Walks tree true 1
      (λ i. 0)
      ((97 ∷ []) ∷ (98 ∷ 98 ∷ []) ∷ [])
      (namex tree 1 5 true path no_name (λ i. 0))
namex-Walks_example =
    namex-Walks tree 1 5 true path ((97 ∷ []) ∷ (98 ∷ 98 ∷ []) ∷ []) no_name (λ i. 0) path-IsPath
