-- ===== src/NameMap/Order.antt =====
-- The order that the tree of minimal/src/syntax_map.c keeps: greater names to the left.
use pylinda.Base.{String, ◌≡◌, true, none, some}
use pylinda.Base.Int.{ℤ, is_neg, is_pos}
use pylinda.NameMap.{NameMap, null, node}

module _ {ℓ} {V : Type ℓ} where
  -- every name of the tree satisfies `P`
  abbrev pub All {κ} : (String → Type κ) → NameMap V → Type κ
  All P null = Unit
  All P (node none l r) = All P l × All P r
  All P (node (some (k, v)) l r) = P k × All P l × All P r

  pub All-imp {κ μ} :
      {P : String → Type κ} {Q : String → Type μ}
      → ((k : String) → P k → Q k)
      → (m : NameMap V) → All P m
      → All Q m
  All-imp f null a = tt
  All-imp f (node none l r) (a, b) = (All-imp f l a, All-imp f r b)
  All-imp f (node (some (k, v)) l r) (p, a, b) = (f k p, All-imp f l a, All-imp f r b)

module _ {ℓ} {V : Type ℓ} (strcmp : String → String → ℤ) where
  -- Search order. A node without a name has no children: what `init` and a deleted leaf are.
  abbrev pub IsOrdered : NameMap V → Type 0
  IsOrdered null = Unit
  IsOrdered (node none null null) = Unit
  IsOrdered (node none _ _) = ⊥
  IsOrdered (node (some (k, v)) l r) =
      All (λ x. is_neg (strcmp k x) ≡ true) l
      × All (λ x. is_pos (strcmp k x) ≡ true) r
      × IsOrdered l
      × IsOrdered r
