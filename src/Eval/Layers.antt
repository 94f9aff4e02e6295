-- ===== src/Eval/Layers.antt =====
-- minimal/src/layer.c: the names that a layer sees, and `Minimal_Layer_addTree`.
use pylinda.Base.{
  ℕ, String, Option, none, some, List, [], ◌∷◌, length, Outcome, ok, crash, ◌>>=◌, ◌==◌,
  if◌then◌else◌,
}
use pylinda.Base.Int.{ℤ}
use pylinda.NameMap.{NameMap, init, add_name, get_name2}
use pylinda.SyntaxTree.{Tree, null, sequence, type_spec, function_def, Trees}
use pylinda.Value.{Value, function, type_}
use pylinda.Eval.{EvalLayer, Store, Thing, function_at, type_at}

abbrev pub Names : Type 0 → Type 0
Names F = NameMap (Value F)

-- what stands at an address
unfoldable pub thing_at {ℓ} : {A : Type ℓ} → ℕ → List A → Option A
thing_at a [] = none
thing_at a (x ∷ xs) = let older = thing_at a xs in if a == length xs then some x else older

-- the names of a new layer
abbrev pub no_names : {F : Type 0} → Names F
no_names = init

module _ {F : Type 0} (strcmp : String → String → ℤ) where
  -- `Minimal_getName2`
  unfoldable pub get_map_name : String → Names F → Option (Value F)
  unfolding get_name2
  get_map_name name names = get_name2 strcmp name names

  -- what stands in a layer, or else what is seen above it
  abbrev pub or_above : Option (Value F) → Option (Value F) → Option (Value F)
  or_above here above = elim here [ none ↦ above | some v ↦ some v ]

  -- `Minimal_getName`: a parent is older than its layer
  unfoldable pub get_layer_name : ℕ → String → List (EvalLayer F) → Option (Value F)
  unfolding get_map_name
  get_layer_name a name [] = none
  get_layer_name a name (l ∷ ls) =
      let here = get_map_name name l.names in
      let above = λ (p : ℕ). get_layer_name p name ls in
      let older = get_layer_name a name ls in
      if a == length ls
      then or_above here (elim l.parent [ none ↦ none | some p ↦ above p ])
      else older

  -- `Minimal_addName`: the tree that is left
  unfoldable pub add_map_name : String → Option (Value F) → Names F → Outcome (Names F)
  unfolding add_name
  add_map_name name v names = add_name strcmp name v names >>= λ a. ok a.map

  -- to the map of a layer
  unfoldable pub add_layer_name :
      ℕ → String → Value F → List (EvalLayer F) → Outcome (List (EvalLayer F))
  unfolding add_map_name
  add_layer_name a name v [] = ok []
  add_layer_name a name v (l ∷ ls) =
      let older = add_layer_name a name v ls >>= λ ls'. ok (l ∷ ls') in
      if a == length ls
      then (add_map_name name (some v) l.names >>= λ names. ok (record l { names = names } ∷ ls))
      else older

  -- `Minimal_createLayer2`, with the names that are then added to the new layer
  unfoldable pub create_layer : ℕ → Names F → Store F → Store F
  create_layer parent names s = record s {
    layers = record { names = names; parent = some parent } ∷ s.layers;
  }

  -- a new function or type, and its name in a layer
  unfoldable pub define : ℕ → String → Thing → (ℕ → Value F) → Store F → Outcome (Store F)
  unfolding add_layer_name
  define a name t make s = add_layer_name a name (make (length s.things)) s.layers >>= λ ls.
      ok (record { layers = ls; things = t ∷ s.things })

  -- the type that a function's name already has gives its `type_spec`, which is not NULL
  unfoldable pub declared : Option (Value F) → List Thing → Outcome (Unit {0})
  unfolding thing_at
  declared (some (type_ t)) things = elim (thing_at t things) [
    | some (type_at n null) ↦ crash
    | _ ↦ ok tt
  ]
  declared v things = ok tt

  -- the case of a function
  unfoldable pub add_function : ℕ → String → Tree → Tree → Store F → Outcome (Store F)
  unfolding get_layer_name declared define
  add_function a name null body s = crash
  add_function a name params null s = crash
  add_function a name params body s = do
    u ← declared (get_layer_name a name s.layers) s.things
    define a name (function_at name params body a) function s

  -- the case of a type
  unfoldable pub add_type : ℕ → String → Tree → Store F → Outcome (Store F)
  unfolding define
  add_type a name null s = crash
  add_type a name t s = define a name (type_at name t) type_ s

  unfoldable mutual
    unfolding add_function add_type

    -- `Minimal_Layer_addTree`
    pub add_tree : ℕ → Tree → Store F → Outcome (Store F)
    add_tree a null s = crash
    add_tree a (sequence ts) s = add_trees a ts s
    add_tree a (type_spec name t) s = add_type a name t s
    add_tree a (function_def name spec params body) s = add_function a name params body s
    add_tree a t s = ok s

    pub add_trees : ℕ → Trees → Store F → Outcome (Store F)
    add_trees a Trees.end s = ok s
    add_trees a (Trees.next t ts) s = do s' ← add_tree a t s; add_trees a ts s'
