-- ===== src/NameMap/Delete.antt =====
-- `Minimal_delName` and `Minimal_SyntaxMap_empty` of minimal/src/syntax_map.c.
use pylinda.Base.{String, ◌≡◌, refl, true, false, none, some, arith}
use pylinda.Base.Int.{ℤ, is_pos}
use pylinda.NameMap.{NameMap, null, node, get_name2, del_name, empty, size, get_references}
use pylinda.NameMap.Strcmp.{IsStrcmp}

module _ {ℓ} {V : Type ℓ} {strcmp : String → String → ℤ} (s : IsStrcmp strcmp) where
  -- Emptying a tree releases exactly the values that the tree reports to the cyclic collector, in
  -- the same order, and leaves no name.
  pub empty-get_references :
      (m : NameMap V) → ((empty strcmp m).1 ≡ get_references m) × (size (empty strcmp m).0 ≡ 0)
  unfolding empty get_references size
  empty-get_references null = (refl, refl)
  empty-get_references (node none l r) =
      ground (arith, empty-get_references l, empty-get_references r)
  empty-get_references (node (some (k, v)) l r) =
      ground (arith, empty-get_references l, empty-get_references r, s.same k)

  -- A name that sorts to the right of the root is not deleted: it reads the same before and after.
  pub del_name-right :
      (k : String) (v : V) (l r : NameMap V) (q : String)
      → is_pos (strcmp k q) ≡ true
      → get_name2 strcmp q (del_name strcmp q (node (some (k, v)) l r)).0
        ≡ get_name2 strcmp q (node (some (k, v)) l r)
  unfolding del_name get_name2
  del_name-right k v l r q h = ground arith

  -- the path to `q` only ever goes left
  abbrev pub OnSpine : String → NameMap V → Type 0
  OnSpine q null = Unit
  OnSpine q (node none l r) = Unit
  OnSpine q (node (some (k, v)) l r) = (is_pos (strcmp k q) ≡ false) × OnSpine q l
