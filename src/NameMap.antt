-- ===== src/NameMap.antt =====
-- minimal/src/syntax_map.c: the binary tree that a layer keeps its names in. The nodes are owned by
-- their parent, so an update in place is a function that returns the new tree; the references that a
-- call gives up (`Minimal_delReference`) are returned beside it, in the order of the calls.
-- `strcmp` is a parameter: C fixes the sign of what it returns and not its size.
pub mod Strcmp
pub mod Order
pub mod Insert
pub mod Client
pub mod Delete
pub mod Lex
mod Examples
use pylinda.Base.{
  ℕ, ◌+◌, String, Bool, true, false, Option, none, some, List, [], ◌∷◌, ◌++◌, Outcome, ok, crash,
  ◌>>=◌, if◌then◌else◌, str_eq,
}
use pylinda.Base.Int.{ℤ, is_neg, is_zero, is_pos, is_one, is_minus_one}

-- `Minimal_NameValueMap*`: NULL, or a node whose name may be NULL (its value is then unused).
pub data NameMap {ℓ} (V : Type ℓ) : Type ℓ where
  null : NameMap V
  node : Option (String × V) → NameMap V → NameMap V → NameMap V

-- What `Minimal_addName` leaves: the tree, the values released, and whether the value was stored.
pub record Added {ℓ} (V : Type ℓ) : Type ℓ where
  pub map : NameMap V
  pub released : List V
  pub stored : Bool

-- Where a node without a name sends a new one.
pub data Slot : Type 0 where
  here in_left in_right bad : Slot

module _ {ℓ} {V : Type ℓ} where
  -- `Minimal_SyntaxMap_init`
  abbrev pub init : NameMap V
  init = node none null null

  -- an error message, and the tree as it was
  abbrev pub rejected : NameMap V → Added V
  rejected m = record { map = m; released = []; stored = false }

  abbrev pub stored_at : String → V → NameMap V → NameMap V → List V → Added V
  stored_at name v l r old = record {
    map = node (some (name, v)) l r;
    released = old;
    stored = true;
  }

  -- `if(map->left == NULL)`: a fresh node takes the name; otherwise `rest` is the call on the child
  unfoldable pub add_child : NameMap V → String → V → Outcome (Added V) → Outcome (Added V)
  add_child null name v rest = ok (stored_at name v null null [])
  add_child (node e l r) name v rest = rest

  unfoldable pub descend :
      Slot → Outcome (Added V) → Outcome (Added V) → Outcome (Added V) → Outcome (Added V)
  descend here a b c = a
  descend in_left a b c = b
  descend in_right a b c = c
  descend bad a b c = crash

module _ {ℓ} {V : Type ℓ} (strcmp : String → String → ℤ) where
  -- The two tests at a node without a name. Both read `map->left->name`, the second also where
  -- `map->left` is NULL.
  unfoldable pub slot : String → NameMap V → NameMap V → Slot
  slot name null null = here
  slot name null (node e l r) = bad
  slot name (node none l r) right = bad
  slot name (node (some (k, w)) l r) null = if is_neg (strcmp k name) then in_left else here
  slot name (node (some (k, w)) l r) (node e a b) =
      if is_neg (strcmp k name) then in_left else if is_pos (strcmp k name) then in_right else here

  -- `Minimal_addName`. An empty name dereferences NULL.
  unfoldable pub add_name : String → Option V → NameMap V → Outcome (Added V)
  unfolding add_child descend slot
  add_name name tree null = if str_eq name "" then crash else ok (rejected null)
  add_name name none (node e l r) = if str_eq name "" then crash else ok (rejected (node e l r))
  add_name name (some v) (node none l r) =
      let left = add_name name (some v) l >>= λ a. ok (record a { map = node none a.map r }) in
      let right = add_name name (some v) r >>= λ a. ok (record a { map = node none l a.map }) in
      if str_eq name ""
      then crash
      else descend (slot name l r) (ok (stored_at name v l r [])) left right
  add_name name (some v) (node (some (k, old)) l r) =
      let c = strcmp k name in
      let left = add_child l name v (add_name name (some v) l) >>= λ a.
      ok (record a { map = node (some (k, old)) a.map r }) in
      let right = add_child r name v (add_name name (some v) r) >>= λ a.
      ok (record a { map = node (some (k, old)) l a.map }) in
      if str_eq name ""
      then crash
      else if is_zero c
      then ok (stored_at k v l r (old ∷ []))
      else if is_minus_one c
      then left
      else if is_one c
      then right
      else ok (rejected (node (some (k, old)) l r))

  -- `Minimal_getName2`, but for the reference that the caller gets to the value
  unfoldable pub get_name2 : String → NameMap V → Option V
  get_name2 name null = none
  get_name2 name (node none l r) =
      let right = get_name2 name r in elim (get_name2 name l) [ none ↦ right | some v ↦ some v ]
  get_name2 name (node (some (k, v)) l r) =
      let left = get_name2 name l in
      let right = get_name2 name r in
      let c = strcmp k name in
      if is_zero c then some v else if is_neg c then left else if is_pos c then right else none

  -- `Minimal_getName`: the layers from the inner one to the default one
  unfoldable pub get_name : String → List (NameMap V) → Option V
  unfolding get_name2
  get_name name [] = none
  get_name name (m ∷ ms) =
      let rest = get_name name ms in elim (get_name2 name m) [ none ↦ rest | some v ↦ some v ]

  -- `Minimal_delName`. Both unequal cases go to the left child.
  unfoldable pub del_name : String → NameMap V → NameMap V × List V
  del_name name null = (null, [])
  del_name name (node none l r) = (node none l r, [])
  del_name name (node (some (k, v)) l r) =
      let left = del_name name l in
      let below : NameMap V × List V = (node (some (k, v)) left.0 r, left.1) in
      let c = strcmp k name in
      if is_zero c
      then (node none l r, v ∷ [])
      else if is_neg c
      then below
      else if is_pos c
      then below
      else (node (some (k, v)) l r, [])

  -- `Minimal_SyntaxMap_empty`: both children first, then the node's own name
  unfoldable pub empty : NameMap V → NameMap V × List V
  unfolding del_name
  empty null = (null, [])
  empty (node none l r) = (node none null null, (empty l).1 ++ (empty r).1)
  empty (node (some (k, v)) l r) =
      let own : NameMap V × List V = del_name k (node (some (k, v)) null null) in
      (own.0, (empty l).1 ++ ((empty r).1 ++ own.1))

module _ {ℓ} {V : Type ℓ} where
  -- `Minimal_SyntaxMap_size`
  unfoldable pub size : NameMap V → ℕ
  size null = 0
  size (node none l r) = size l + size r
  size (node (some _) l r) = size l + size r + 1

  -- `Minimal_SyntaxMap_listNames`: the names, as printed
  unfoldable pub list_names : NameMap V → List String
  list_names null = []
  list_names (node none l r) = list_names l ++ list_names r
  list_names (node (some (k, v)) l r) = list_names l ++ (list_names r ++ k ∷ [])

  -- `Minimal_SyntaxMap_getReferences`
  unfoldable pub get_references : NameMap V → List V
  get_references null = []
  get_references (node none l r) = get_references l ++ get_references r
  get_references (node (some (k, v)) l r) = get_references l ++ (get_references r ++ v ∷ [])
