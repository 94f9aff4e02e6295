-- ===== src/Serial/Write.antt =====
-- minimal/src/serialise.c: the nodes that the writing of a syntax tree adds to its parent.
use pylinda.Base.{String, Option, none, some, List, [], ◌∷◌, Outcome, ok, crash, ◌>>=◌}
use pylinda.Base.Int.{pos}
use pylinda.Message.Xml.{element, Nodes, end, next, ◌+++◌, leaf, single}
use pylinda.SyntaxTree.{
  Tree, null, blank, nil, identifier, integer, string, type_spec, type_function, parameter_list,
  function_call, argument_list, operator, product_type, sum_type, tuple, pointer, bracket, index,
  let_expr, Trees, size,
}
use pylinda.Serial.{Numerals}

-- the parameters of a chain; a node of another kind is read as one
unfoldable pub param_nodes : Tree → Outcome Nodes
param_nodes null = ok end
param_nodes (parameter_list v n) = do
  rest ← param_nodes n
  ok (next (leaf "param" (("name", v) ∷ [])) rest)
param_nodes t = crash

-- `Minimal_serialiseParameterList`
unfoldable pub serialise_parameter_list : Tree → Outcome Nodes
serialise_parameter_list t = do ps ← param_nodes t; ok (single (element "parameter_list" [] ps))

module _ (numerals : Numerals) where
  unfoldable mutual
    -- `Minimal_serialiseCode`
    pub serialise_code : Tree → Outcome Nodes
    serialise_code null = crash
    serialise_code blank = ok end
    serialise_code (identifier s d) = ok (single (leaf "id" (("name", s) ∷ [])))
    serialise_code (integer i) = ok (single (leaf "integer" (("val", numerals.show i) ∷ [])))
    serialise_code (string s) = ok (single (leaf "string" (("val", s) ∷ [])))
    serialise_code (operator o a b) = do
      xs ← serialise_code a
      ys ← serialise_code b
      ok (single (element "operator" (("op", o) ∷ []) (xs +++ ys)))
    serialise_code (index a b) = do
      xs ← serialise_code a
      ys ← serialise_code b
      ok (single (element "index" [] (xs +++ ys)))
    serialise_code (let_expr v e c) = do
      xs ← serialise_code v
      ys ← serialise_code e
      zs ← serialise_code c
      ok (single (element "let" [] (xs +++ (ys +++ zs))))
    serialise_code (function_call f a) = do
      xs ← serialise_code f
      ys ← serialise_code a
      ok (single (element "funccall" [] (xs +++ ys)))
    serialise_code (argument_list a null) = do
      xs ← serialise_code a
      ok (single (element "argument_list" [] xs))
    serialise_code (argument_list a n) = do
      xs ← serialise_code a
      ys ← serialise_code n
      ok (single (element "argument_list" [] (xs +++ ys)))
    serialise_code (tuple ts) = do
      xs ← serialise_codes ts
      ok (single (element "tuple" (("size", numerals.show (pos (size ts))) ∷ []) xs))
    serialise_code t = ok end

    pub serialise_codes : Trees → Outcome Nodes
    serialise_codes Trees.end = ok end
    serialise_codes (Trees.next t ts) = do
      xs ← serialise_code t
      ys ← serialise_codes ts
      ok (xs +++ ys)

abbrev pub id_attrs : String → Option String → List (String × String)
id_attrs s none = ("name", s) ∷ []
id_attrs s (some id) = ("name", s) ∷ ("typeid", id) ∷ []

abbrev pub own_or : Option String → Option String → Option String
own_or other none = other
own_or other (some id) = some id

-- `type_id` finds the id of the type that the type map has under a name, if it has an id
module _ (type_id : String → Option String) where
  unfoldable mutual
    -- `Minimal_serialiseTypeSpec`; the own id of an identifier goes first
    pub serialise_type_spec : Tree → Outcome Nodes
    serialise_type_spec null = ok end
    serialise_type_spec blank = ok end
    serialise_type_spec nil = ok (single (leaf "nil" []))
    serialise_type_spec (identifier s d) =
        ok (single (leaf "id" (id_attrs s (own_or (type_id s) d))))
    serialise_type_spec (type_spec n t) = serialise_type_spec t
    serialise_type_spec (type_function (Trees.next a (Trees.next b ts))) = do
      xs ← serialise_type_spec a
      ys ← serialise_type_spec b
      ok (single (element "type_function" [] (xs +++ ys)))
    serialise_type_spec (type_function ts) = crash
    serialise_type_spec (product_type ts) = do
      xs ← serialise_type_specs ts
      ok (single (element "product_type" [] xs))
    serialise_type_spec (sum_type ts) = do
      xs ← serialise_type_specs ts
      ok (single (element "sum_type" [] xs))
    serialise_type_spec (pointer s) = ok (single (leaf "ptr" (("name", s) ∷ [])))
    serialise_type_spec (bracket t) = serialise_type_spec t
    serialise_type_spec (parameter_list v n) = serialise_parameter_list (parameter_list v n)
    serialise_type_spec t = ok end

    pub serialise_type_specs : Trees → Outcome Nodes
    serialise_type_specs Trees.end = ok end
    serialise_type_specs (Trees.next t ts) = do
      xs ← serialise_type_spec t
      ys ← serialise_type_specs ts
      ok (xs +++ ys)
