-- ===== src/NameMap/Insert.antt =====
-- `Minimal_addName` and `Minimal_getName2` of minimal/src/syntax_map.c on trees in search order,
-- against insertion into a search tree.
use pylinda.Base.{
  String, ◌≡◌, ◌≢◌, refl, true, false, Option, none, some, List, [], ◌∷◌, ok, arith, if◌then◌else◌,
  str_eq, Bool, ◌&&◌,
}
use pylinda.Base.Int.{ℤ, is_neg, is_zero, is_pos}
use pylinda.NameMap.{NameMap, null, node, Added, rejected, add_child, add_name, get_name2}
use pylinda.NameMap.Order.{All, IsOrdered}
use pylinda.NameMap.Strcmp.{IsStrcmp, is_unit}

abbrev pub opt_list {ℓ} : {V : Type ℓ} → Option V → List V
opt_list none = []
opt_list (some v) = v ∷ []

module _ {ℓ} {V : Type ℓ} (strcmp : String → String → ℤ) where
  -- insertion into a search tree
  unfoldable pub insert : String → V → NameMap V → NameMap V
  insert name v null = node (some (name, v)) null null
  insert name v (node none l r) = node (some (name, v)) l r
  insert name v (node (some (k, w)) l r) =
      let left = insert name v l in
      let right = insert name v r in
      let c = strcmp k name in
      if is_zero c
      then node (some (k, v)) l r
      else if is_neg c
      then node (some (k, w)) left r
      else node (some (k, w)) l right

  -- every comparison on the way down to the name's place is -1, 0 or 1
  unfoldable pub is_reached : String → NameMap V → Bool
  unfolding is_unit
  is_reached name null = true
  is_reached name (node none l r) = true
  is_reached name (node (some (k, w)) l r) =
      let left = is_reached name l in
      let right = is_reached name r in
      let c = strcmp k name in
      is_unit c && (if is_zero c then true else if is_neg c then left else right)

  -- the name and the value in their place
  abbrev pub inserted : String → V → NameMap V → Added V
  inserted name v m = record {
    map = insert name v m;
    released = opt_list (get_name2 strcmp name m);
    stored = true;
  }

module _ {ℓ} {V : Type ℓ} (strcmp : String → String → ℤ) (name : String) (v : V) where
  add_name-insert_node :
      (m : NameMap V)
      → str_eq name "" ≡ false
      → IsOrdered strcmp m
      → add_child m name v (add_name strcmp name (some v) m)
        ≡ ok (if is_reached strcmp name m then inserted strcmp name v m else rejected m)
  unfolding add_name insert get_name2 add_child is_reached
  add_name-insert_node null h o = refl
  add_name-insert_node (node none null null) h o = rw h
  add_name-insert_node (node none null (node e a b)) h o = absurd o
  add_name-insert_node (node none (node e a b) r) h o = absurd o
  add_name-insert_node (node (some (k, w)) l r) h o =
      ground (arith, add_name-insert_node l, add_name-insert_node r)

  -- A nonempty name is added to a tree in search order that is not NULL. The call returns. Where every
  -- comparison on the way to the name's place is -1, 0 or 1, it releases exactly the value that the name
  -- had, and the tree is that of an insertion; elsewhere the tree is as it was and nothing is released.
  pub add_name-insert :
      (m : NameMap V)
      → str_eq name "" ≡ false
      → m ≢ null
      → IsOrdered strcmp m
      → add_name strcmp name (some v) m
        ≡ ok (if is_reached strcmp name m then inserted strcmp name v m else rejected m)
  unfolding add_child
  add_name-insert null h n o = absurd (n refl)
  add_name-insert (node e l r) h n o = add_name-insert_node (node e l r) h o

  -- a name that compares so with every name of the tree is reached
  pub is_reached-All :
      (m : NameMap V)
      → All (λ k. is_unit (strcmp k name) ≡ true) m
      → is_reached strcmp name m ≡ true
  unfolding is_reached
  is_reached-All null a = refl
  is_reached-All (node none l r) a = refl
  is_reached-All (node (some (k, w)) l r) a =
      ground (arith, is_reached-All l a.1, is_reached-All r a.2)

module _ {ℓ} {V : Type ℓ} {strcmp : String → String → ℤ} (s : IsStrcmp strcmp) where
  pub All-insert {κ} :
      (P : String → Type κ) (name : String) (v : V) (m : NameMap V)
      → P name
      → All P m
      → All P (insert strcmp name v m)
  unfolding insert
  All-insert P name v null p a = (p, tt, tt)
  All-insert P name v (node none l r) p (a, b) = (p, a, b)
  All-insert P name v (node (some (k, w)) l r) p a =
      ground (arith, All-insert P name v l p, All-insert P name v r p)

  -- insertion keeps the search order
  pub insert-IsOrdered :
      (name : String) (v : V) (m : NameMap V)
      → IsOrdered strcmp m
      → IsOrdered strcmp (insert strcmp name v m)
  unfolding insert
  insert-IsOrdered name v null o = (tt, tt, tt, tt)
  insert-IsOrdered name v (node none null null) o = (tt, tt, tt, tt)
  insert-IsOrdered name v (node none null (node e a b)) o = absurd o
  insert-IsOrdered name v (node none (node e a b) r) o = absurd o
  insert-IsOrdered name v (node (some (k, w)) l r) o = ground (
    arith,
    insert-IsOrdered name v l,
    insert-IsOrdered name v r,
    All-insert (λ x. is_neg (strcmp k x) ≡ true) name v l,
    All-insert (λ x. is_pos (strcmp k x) ≡ true) name v r,
  )

  -- after an insertion the name reads the new value and every other name what it read before
  pub get_name2-insert :
      (name : String) (v : V) (m : NameMap V) (q : String)
      → IsOrdered strcmp m
      → get_name2 strcmp q (insert strcmp name v m)
        ≡ (if is_zero (strcmp name q) then some v else get_name2 strcmp q m)
  unfolding insert get_name2
  get_name2-insert name v null q o = ground arith
  get_name2-insert name v (node none null null) q o = ground arith
  get_name2-insert name v (node none null (node e a b)) q o = absurd o
  get_name2-insert name v (node none (node e a b) r) q o = absurd o
  get_name2-insert name v (node (some (k, w)) l r) q o = ground (
    arith,
    get_name2-insert name v l q,
    get_name2-insert name v r q,
    s.eq_of_zero k name,
    s.eq_of_zero name q,
    s.same q,
  )
