-- ===== src/TypeList.antt =====
-- minimal/src/type_list.c: the list of the types that a type is made of, as it is collected for
-- serialisation. A type is its number among `cells`; counts of references are left out.
pub mod Missing
pub mod Closed
pub mod Added
pub mod Walk
pub mod Ends
mod Examples
use pylinda.Base.{
  ℕ, zero, suc, String, Bool, true, false, ◌||◌, Option, none, some, List, [], ◌∷◌, ◌++◌, get_elem?,
  Outcome, ok, crash, ◌==◌, if◌then◌else◌, str_eq,
}
use pylinda.Base.Int.{ℤ}
use pylinda.SyntaxTree.{
  Tree, null, identifier, type_spec, type_function, product_type, sum_type, pointer, bracket, Trees,
}
use pylinda.Value.{Value}
use pylinda.Eval.{Run, value, crashed, starved, ◌>>=◌, run, EvalLayer}
use pylinda.Eval.Layers.{get_layer_name}

-- a value that is a type: its own type, and the code and the layer that define it
pub record TypeCell : Type 0 where
  pub typeobj : Option ℕ
  pub type_spec : Tree
  pub typemap : Option ℕ

abbrev pub typemap_of : Option TypeCell → Option ℕ
typemap_of none = none
typemap_of (some c) = c.typemap

-- `Minimal_isBuiltIn`
unfoldable pub is_built_in : String → Bool
is_built_in n =
    str_eq n "int8"
    || str_eq n "int16"
    || str_eq n "int32"
    || str_eq n "int64"
    || str_eq n "uint8"
    || str_eq n "uint16"
    || str_eq n "uint32"
    || str_eq n "uint64"
    || str_eq n "ieeesingle"
    || str_eq n "ieeedouble"
    || str_eq n "bool"
    || str_eq n "asciichar"
    || str_eq n "unicodechar"
    || str_eq n "string"
    || str_eq n "type"
    || str_eq n "tuplespace"

-- the loop over the list
abbrev pub mem : ℕ → List ℕ → Bool
mem a [] = false
mem a (x ∷ xs) = if x == a then true else mem a xs

module _ {F : Type 0} (strcmp : String → String → ℤ) (layers : List (EvalLayer F))
    (cells : List TypeCell) where
  -- the fields of a type are read from whatever value a name stands for
  unfoldable pub type_value : Option (Value F) → Outcome (Option ℕ)
  type_value none = ok none
  type_value (some (Value.type_ a)) = ok (some a)
  type_value (some v) = crash

  -- the type that a name stands for
  unfoldable pub named_type : Option ℕ → String → Outcome (Option ℕ)
  unfolding get_layer_name type_value
  named_type none name = ok none
  named_type (some l) name = type_value (get_layer_name strcmp l name layers)

  module _ (add : ℕ → List ℕ → Run (Bool × List ℕ))
      (walk : Tree → Option ℕ → List ℕ → Run (List ℕ)) where
    -- the code of a type that was added, read over the layer of the code that names it
    unfoldable pub follow : Option TypeCell → Option ℕ → Bool × List ℕ → Run (List ℕ)
    follow c p (false, list) = value list
    follow none p (true, list) = crashed
    follow (some c) p (true, list) = walk c.type_spec p list

    unfoldable pub add_found : Option ℕ → Option ℕ → List ℕ → Run (List ℕ)
    unfolding follow
    add_found none p list = value list
    add_found (some v) p list = add v list >>= follow (get_elem? cells v) p

    unfoldable pub add_named : String → Option ℕ → List ℕ → Run (List ℕ)
    unfolding add_found named_type is_built_in
    add_named name p list =
        if is_built_in name
        then value list
        else (run (named_type p name) >>= λ found. add_found found p list)

    unfoldable mutual
      unfolding add_named

      pub walk_tree : Tree → Option ℕ → List ℕ → Run (List ℕ)
      walk_tree null p list = crashed
      walk_tree (identifier name d) p list = add_named name p list
      walk_tree (type_spec n t) p list = walk_tree t p list
      walk_tree (type_function (Trees.next a (Trees.next b ts))) p list =
          walk_tree a p list >>= walk_tree b p
      walk_tree (type_function ts) p list = crashed
      walk_tree (product_type ts) p list = walk_trees ts p list
      walk_tree (sum_type ts) p list = walk_trees ts p list
      walk_tree (pointer name) p list = add_named name p list
      walk_tree (bracket t) p list = walk_tree t p list
      walk_tree t p list = value list

      pub walk_trees : Trees → Option ℕ → List ℕ → Run (List ℕ)
      walk_trees Trees.end p list = value list
      walk_trees (Trees.next t ts) p list = walk_tree t p list >>= walk_trees ts p

    -- the own type of a type that was added, and its code over its own layer
    unfoldable pub add_typeobj : Option ℕ → List ℕ → Run (Bool × List ℕ)
    unfolding follow
    add_typeobj none list = value (true, list)
    add_typeobj (some t) list = add t list >>= λ r.
        follow (get_elem? cells t) (typemap_of (get_elem? cells t)) r >>= λ list'.
        value (true, list')

    unfoldable pub add_cell : Option TypeCell → ℕ → List ℕ → Run (Bool × List ℕ)
    unfolding add_typeobj
    add_cell none a list = crashed
    add_cell (some c) a list =
        if mem a list then value (false, list) else add_typeobj c.typeobj (list ++ a ∷ [])

  unfoldable mutual
    unfolding walk_tree add_cell

    -- `Minimal_addTypeToTypeList`
    pub add_type_to_list : ℕ → ℕ → List ℕ → Run (Bool × List ℕ)
    add_type_to_list zero a list = starved
    add_type_to_list (suc n) a list =
        add_cell (add_type_to_list n) (get_type_list2 n) (get_elem? cells a) a list

    -- `Minimal_getTypeList2`
    pub get_type_list2 : ℕ → Tree → Option ℕ → List ℕ → Run (List ℕ)
    get_type_list2 zero t p list = starved
    get_type_list2 (suc n) t p list = walk_tree (add_type_to_list n) (get_type_list2 n) t p list

  -- a type without code has nothing to read
  unfoldable pub walk_spec : ℕ → Tree → Option ℕ → List ℕ → Run (List ℕ)
  unfolding get_type_list2
  walk_spec n null p list = value list
  walk_spec n t p list = get_type_list2 n t p list

  unfoldable pub walk_root : ℕ → Option TypeCell → List ℕ → Run (List ℕ)
  unfolding walk_spec
  walk_root n none list = crashed
  walk_root n (some c) list = walk_spec n c.type_spec c.typemap list

  -- `Minimal_getTypeList`
  unfoldable pub get_type_list : ℕ → ℕ → Run (List ℕ)
  unfolding walk_root add_type_to_list
  get_type_list n a = add_type_to_list n a [] >>= λ r. walk_root n (get_elem? cells a) r.1
