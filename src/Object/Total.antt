-- ===== src/Object/Total.antt =====
-- Deleting a whole object returns, in minimal/src/refcount.c and the files of the kinds of objects.
use pylinda.Base.{false, ℕ, ◌≡◌, List, [], ◌∷◌, Outcome, ok}
use pylinda.NameMap.{get_references}
use pylinda.Object.Copy.{AreSet}
use pylinda.Object.Node.{
  Node, function_def, parameter_list, argument_list, tuple, pointer, node_references,
}
use pylinda.Object.Field.{Body, Object, value, layer, name_map, tree, body_references}

-- the pointers of a node that are released with no test for NULL
abbrev pub node_required : Node → List ℕ
node_required (parameter_list n p) = []
node_required (argument_list a n) = a ∷ []
node_required (function_def n t p b) = p ∷ b ∷ []
node_required n = node_references n

abbrev pub body_required : Body → List ℕ
body_required (Body.type_ s m) = []
body_required (Body.tuple vs) = []
body_required (Body.tsref f) = []
body_required b = body_references b

abbrev pub required : Object → List ℕ
required (value v) = body_required v.body
required (layer l) = l.map ∷ []
required (name_map m) = get_references m
required (tree n) = node_required n

-- a function that is called through a pointer is set
abbrev pub HasFunction : Body → Type 0
HasFunction (Body.tsref false) = ⊥
HasFunction b = Unit

-- no pointer that is released without a test is null, the object is no `ST_POINTER`, and for a
-- reference to a tuple space the function is set that is called
abbrev pub IsDeletable : Object → Type 0
IsDeletable (tree (Node.pointer s)) = ⊥
IsDeletable (value v) = HasFunction v.body × AreSet (body_required v.body)
IsDeletable o = AreSet (required o)

Returns : Outcome (List ℕ) → Type 0
Returns r = (rs : List ℕ) × (r ≡ ok rs)
