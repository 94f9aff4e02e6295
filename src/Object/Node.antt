-- ===== src/Object/Node.antt =====
-- The nodes of minimal/src/syntax_tree.c with their pointers, Minimal_SyntaxTree_getReferences and
-- Minimal_SyntaxTree_free. The strings that are freed, and the ids of types, are left out.
use pylinda.Base.{ℕ, String, List, [], ◌∷◌, ◌++◌, Outcome, ok, crash}
use pylinda.Base.Int.{ℤ}
use pylinda.Object.{del_reference, del_if, ◌then◌, del_all, add_if}

-- `struct Minimal_SyntaxTree_t` by its tag
pub data Node : Type 0 where
  blank : Node
  nil : Node
  identifier : String → Node
  integer : ℤ → Node
  string : String → Node
  sequence : List ℕ → Node
  type_spec : (type_name : String) → (type_def : ℕ) → Node
  type_function : List ℕ → Node
  function_def : (func_name : String) → (spec parameter_list body : ℕ) → Node
  parameter_list : (var_name : String) → (next_var : ℕ) → Node
  function_call : (function arguments : ℕ) → Node
  argument_list : (argument next_arg : ℕ) → Node
  operator : (op : String) → (op1 op2 : ℕ) → Node
  product_type : List ℕ → Node
  sum_type : List ℕ → Node
  tuple : List ℕ → Node
  pointer : String → Node
  if_expr : (test then_expr else_expr : ℕ) → Node
  bracket : ℕ → Node
  index : (expr position : ℕ) → Node
  let_expr : (var expr code : ℕ) → Node

-- null pointers included, which the collector's list passes over
unfoldable pub node_references : Node → List ℕ
node_references blank = []
node_references nil = []
node_references (identifier s) = []
node_references (integer i) = []
node_references (string s) = []
node_references (sequence ps) = ps
node_references (type_spec n p) = p ∷ []
node_references (type_function ps) = ps
node_references (function_def n t p b) = add_if t ++ (p ∷ b ∷ [])
node_references (parameter_list n p) = p ∷ []
node_references (function_call f a) = f ∷ a ∷ []
node_references (let_expr v e c) = v ∷ e ∷ c ∷ []
node_references (argument_list a n) = a ∷ n ∷ []
node_references (operator o a b) = a ∷ b ∷ []
node_references (product_type ps) = ps
node_references (sum_type ps) = ps
node_references (tuple ps) = ps
node_references (pointer s) = []
node_references (if_expr a b c) = a ∷ b ∷ c ∷ []
node_references (bracket p) = p ∷ []
node_references (index a b) = a ∷ b ∷ []

-- The pointer of an `ST_POINTER` is a string, which is passed to Minimal_delReference.
unfoldable pub free_node : Node → Outcome (List ℕ)
free_node blank = ok []
free_node nil = ok []
free_node (identifier s) = ok []
free_node (integer i) = ok []
free_node (string s) = ok []
free_node (sequence ps) = del_all ps
free_node (type_spec n p) = del_reference p
free_node (type_function ps) = del_all ps
free_node (function_def n t p b) = del_if t then del_reference p then del_reference b
free_node (parameter_list n p) = del_if p
free_node (function_call f a) = del_reference f then del_reference a
free_node (let_expr v e c) = del_reference v then del_reference e then del_reference c
free_node (argument_list a n) = del_reference a then del_if n
free_node (operator o a b) = del_reference a then del_reference b
free_node (product_type ps) = del_all ps
free_node (sum_type ps) = del_all ps
free_node (tuple ps) = del_all ps
free_node (pointer s) = crash
free_node (if_expr a b c) = del_reference a then del_reference b then del_reference c
free_node (bracket p) = del_reference p
free_node (index a b) = del_reference a then del_reference b
