-- ===== src/SyntaxTree.antt =====
-- minimal/src/syntax_tree.c: syntax trees as the comparison walks over them. Only an identifier may have
-- the id of a type; the comparison does not read it.
pub mod Compare
pub mod Equal
pub mod Order
pub mod Zero
pub mod Chain
mod Examples
use pylinda.Base.{ℕ, zero, suc, String, Option, none}
use pylinda.Base.Int.{ℤ}

mutual
  -- `struct Minimal_SyntaxTree_t` by its tag, in the order of the enumeration; `null` is NULL
  pub data Tree : Type 0 where
    null : Tree
    blank : Tree
    nil : Tree
    identifier : String → (type_id : Option String) → Tree
    integer : ℤ → Tree
    string : String → Tree
    sequence : Trees → Tree
    type_spec : (type_name : String) → (type_def : Tree) → Tree
    type_function : Trees → Tree
    function_def : (func_name : String) → (spec parameter_list body : Tree) → Tree
    parameter_list : (var_name : String) → (next_var : Tree) → Tree
    function_call : (function arguments : Tree) → Tree
    argument_list : (argument next_arg : Tree) → Tree
    operator : (op : String) → (op1 op2 : Tree) → Tree
    product_type : Trees → Tree
    sum_type : Trees → Tree
    tuple : Trees → Tree
    pointer : String → Tree
    if_expr : (test then_expr else_expr : Tree) → Tree
    bracket : Tree → Tree
    index : (expr position : Tree) → Tree
    let_expr : (var expr code : Tree) → Tree

  -- an array of branches
  pub data Trees : Type 0 where
    end : Trees
    next : Tree → Trees → Trees

-- NULL is below every tag
abbrev pub rank : Tree → ℕ
rank null = 0
rank blank = 1
rank nil = 2
rank (identifier s d) = 3
rank (integer i) = 4
rank (string s) = 5
rank (sequence ts) = 6
rank (type_spec n t) = 7
rank (type_function ts) = 8
rank (function_def n s p b) = 9
rank (parameter_list n t) = 10
rank (function_call f a) = 11
rank (argument_list a t) = 12
rank (operator o a b) = 13
rank (product_type ts) = 14
rank (sum_type ts) = 15
rank (tuple ts) = 16
rank (pointer s) = 17
rank (if_expr a b c) = 18
rank (bracket t) = 19
rank (index a b) = 20
rank (let_expr a b c) = 21

-- `Minimal_SyntaxTree_createID`
abbrev pub create_id : String → Tree
create_id s = identifier s none

abbrev pub size : Trees → ℕ
size end = 0
size (next t ts) = suc (size ts)
