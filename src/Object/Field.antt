-- ===== src/Object/Field.antt =====
-- The pointers of values and layers, in minimal/src/values.c and layer.c, and the objects of all kinds
-- under Minimal_getReferences and Minimal_delObject of minimal/src/refcount.c.
use pylinda.Base.{ℕ, String, List, [], ◌∷◌, ◌++◌, Outcome, ok, crash, Bool, true, false}
use pylinda.Base.Int.{ℤ}
use pylinda.NameMap.{NameMap, empty, get_references}
use pylinda.Object.{del_reference, del_if, ◌then◌, del_all, del_all_if, add_if}
use pylinda.Object.Node.{Node, node_references, free_node}

-- The part of a value that its tag tells; `scalar` has no pointers to objects, and nothing but its
-- string is freed. A reference to a tuple space has with it whether `Minimal_linda_ts_delref_func`, NULL
-- at first, is set when the value is freed.
pub data Body : Type 0 where
  scalar : Body
  type_ : (type_spec typemap : ℕ) → Body
  tuple : List ℕ → Body
  sum : ℕ → Body
  function : (parameter_list code layer : ℕ) → Body
  pointer : ℕ → Body
  syntax_tree : ℕ → Body
  tsref : (delref_func : Bool) → Body

-- `struct MinimalValue_t`
pub record ValueObject : Type 0 where
  pub typeobj : ℕ
  pub body : Body

-- `struct MinimalLayer_t`
pub record Layer : Type 0 where
  pub parent : ℕ
  pub map : ℕ

pub data Object : Type 0 where
  value : ValueObject → Object
  layer : Layer → Object
  name_map : NameMap ℕ → Object
  tree : Node → Object

abbrev pub body_references : Body → List ℕ
body_references scalar = []
body_references (tsref f) = []
body_references (function p c l) = l ∷ p ∷ c ∷ []
body_references (type_ s m) = m ∷ s ∷ []
body_references (tuple vs) = vs
body_references (sum v) = v ∷ []
body_references (pointer v) = v ∷ []
body_references (syntax_tree t) = t ∷ []

-- `Minimal_Value_getReferences`
unfoldable pub value_references : ValueObject → List ℕ
value_references v = add_if v.typeobj ++ body_references v.body

-- the switch of `Minimal_Value_free`; the function that liblinda sets sends a message, and releases no
-- object
abbrev pub free_body : Body → Outcome (List ℕ)
free_body scalar = ok []
free_body (tsref true) = ok []
free_body (tsref false) = crash
free_body (type_ s m) = del_if s then del_if m
free_body (tuple vs) = del_all_if vs
free_body (sum v) = del_reference v
free_body (function p c l) = del_reference p then del_reference c then del_reference l
free_body (pointer v) = del_reference v
free_body (syntax_tree t) = del_reference t

-- `Minimal_Value_free`
unfoldable pub free_value : ValueObject → Outcome (List ℕ)
free_value v = del_if v.typeobj then free_body v.body

-- `Minimal_Layer_getReferences`
unfoldable pub layer_references : Layer → List ℕ
layer_references l = l.map ∷ add_if l.parent

-- `Minimal_Layer_free`
unfoldable pub free_layer : Layer → Outcome (List ℕ)
free_layer l = del_if l.parent then del_reference l.map

-- `Minimal_getReferences`, by the id of the object's type
unfoldable pub references : Object → List ℕ
unfolding value_references layer_references
references (value v) = value_references v
references (layer l) = layer_references l
references (name_map m) = get_references m
references (tree n) = node_references n

-- `Minimal_delObject`
unfoldable pub del_object : (strcmp : String → String → ℤ) → Object → Outcome (List ℕ)
unfolding free_value free_layer
del_object strcmp (value v) = free_value v
del_object strcmp (layer l) = free_layer l
del_object strcmp (name_map m) = del_all (empty strcmp m).1
del_object strcmp (tree n) = free_node n
