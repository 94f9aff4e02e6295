-- ===== src/SyntaxTree/Compare.antt =====
-- `Minimal_SyntaxTree_cmp` of minimal/src/syntax_tree.c.
use pylinda.Base.{ℕ, String, ltb, if◌then◌else◌}
use pylinda.Base.Int.{ℤ, pos, negsuc, is_zero, ltb_ℤ, eqb_ℤ}
use pylinda.SyntaxTree.{
  Tree, null, blank, nil, identifier, integer, string, sequence, type_spec, type_function,
  function_def, parameter_list, function_call, argument_list, operator, product_type, sum_type,
  tuple, pointer, if_expr, bracket, index, let_expr, Trees, next, rank, size,
}

-- the answer for different tags, and for arrays of different sizes
abbrev pub by_rank : ℕ → ℕ → ℤ
by_rank m n = if ltb m n then negsuc 0 else pos 1

-- `if(c) { return c; } else { return d; }`
abbrev pub or_else : ℤ → ℤ → ℤ
or_else c d = if is_zero c then d else c

abbrev pub integer_cmp : ℤ → ℤ → ℤ
integer_cmp i j = if ltb_ℤ i j then negsuc 0 else if eqb_ℤ i j then pos 0 else pos 1

-- a chain of parameters or of arguments is compared where both go on; the second test for NULL, which
-- the source makes of `t1` again, is left to the comparison of the rest
abbrev pub chain_cmp : Tree → Tree → ℤ → ℤ
chain_cmp null null c = pos 0
chain_cmp null _ c = negsuc 0
chain_cmp _ _ c = c

-- arrays: the sizes are compared first
abbrev pub sized : (m n : ℕ) → ℤ → ℤ
sized m n c = if ltb m n then negsuc 0 else if ltb n m then pos 1 else c

-- the case of a let: the later parts count where the earlier ones differ
abbrev pub let_cmp : (var expr code : ℤ) → ℤ
let_cmp var expr code = if is_zero var then var else if is_zero expr then expr else code

module _ (strcmp : String → String → ℤ) where
  unfoldable mutual
    pub cmp : Tree → Tree → ℤ
    cmp null null = pos 0
    cmp blank blank = pos 0
    cmp nil nil = pos 0
    cmp (identifier s d) (identifier t e) = strcmp s t
    cmp (integer i) (integer j) = integer_cmp i j
    cmp (string s) (string t) = strcmp s t
    cmp (sequence xs) (sequence ys) = sized (size xs) (size ys) (branches_cmp xs ys)
    cmp (type_spec m s) (type_spec n t) = or_else (strcmp m n) (cmp s t)
    cmp (type_function xs) (type_function ys) = sized (size xs) (size ys) (branches_cmp xs ys)
    cmp (function_def m s p a) (function_def n t q b) =
        or_else (strcmp m n) (or_else (cmp p q) (cmp a b))
    cmp (parameter_list m s) (parameter_list n t) = or_else (strcmp m n) (chain_cmp s t (cmp s t))
    cmp (function_call f a) (function_call g b) = or_else (cmp f g) (cmp a b)
    cmp (argument_list a s) (argument_list b t) = or_else (cmp a b) (chain_cmp s t (cmp s t))
    cmp (operator o a b) (operator p c d) = or_else (strcmp o p) (or_else (cmp a c) (cmp b d))
    cmp (product_type xs) (product_type ys) = sized (size xs) (size ys) (branches_cmp xs ys)
    cmp (sum_type xs) (sum_type ys) = sized (size xs) (size ys) (branches_cmp xs ys)
    cmp (tuple xs) (tuple ys) = sized (size xs) (size ys) (branches_cmp xs ys)
    cmp (pointer s) (pointer t) = strcmp s t
    cmp (if_expr a b c) (if_expr d e f) = or_else (cmp a d) (or_else (cmp b e) (cmp c f))
    cmp (bracket s) (bracket t) = cmp s t
    cmp (index a b) (index c d) = or_else (cmp a c) (cmp b d)
    cmp (let_expr a b c) (let_expr d e f) = let_cmp (cmp a d) (cmp b e) (cmp c f)
    cmp s t = by_rank (rank s) (rank t)

    -- the first branches that differ
    pub branches_cmp : Trees → Trees → ℤ
    branches_cmp (next s xs) (next t ys) = or_else (cmp s t) (branches_cmp xs ys)
    branches_cmp xs ys = pos 0
