-- ===== src/SyntaxTree/Examples.antt =====
-- Tests of minimal/src/syntax_tree.c, and its theorems at small trees.
use pylinda.Base.{◌≡◌, refl, ◌++◌}
use pylinda.Base.Int.{pos, negsuc}
use pylinda.NameMap.Lex.{lex, lex-IsStrcmp}
use pylinda.SyntaxTree.{
  Tree, null, create_id, integer, operator, parameter_list, argument_list, function_def, bracket,
}
use pylinda.SyntaxTree.Compare.{cmp}
use pylinda.SyntaxTree.Equal.{cmp_self}
use pylinda.SyntaxTree.Order.{AreOpposite, cmp_swap}
use pylinda.SyntaxTree.Zero.{HasNoLet, without_specs, cmp-eq_of_zero}
use pylinda.SyntaxTree.Chain.{arguments, argument_list2, argument_list2-arguments}

abbrev x_plus_1 : Tree
x_plus_1 = operator "+" (create_id "x") (integer (pos 1))

abbrev x_plus_2 : Tree
x_plus_2 = operator "+" (create_id "x") (integer (pos 2))

abbrev inc : Tree
inc = function_def "inc" null (parameter_list "x" null) x_plus_1

abbrev typed_inc : Tree
typed_inc = function_def "inc" (create_id "int") (parameter_list "x" null) x_plus_1

less : cmp (lex 0) (bracket x_plus_1) (bracket x_plus_2) ≡ negsuc 0
unfolding cmp lex
less = refl

cmp_self_example : cmp (lex 0) inc inc ≡ pos 0
cmp_self_example = cmp_self (lex-IsStrcmp 0) inc

cmp_swap_example : AreOpposite (cmp (lex 0) x_plus_1 inc) (cmp (lex 0) inc x_plus_1)
cmp_swap_example = cmp_swap (lex-IsStrcmp 0) x_plus_1 inc

cmp-eq_of_zero_example : without_specs inc ≡ without_specs typed_inc
unfolding cmp lex HasNoLet
cmp-eq_of_zero_example = cmp-eq_of_zero (lex-IsStrcmp 0) inc typed_inc (tt, (tt, tt)) refl

argument_list2-arguments_example :
    arguments (argument_list2 x_plus_1 (argument_list x_plus_2 null))
    ≡ arguments x_plus_1 ++ arguments (argument_list x_plus_2 null)
argument_list2-arguments_example =
    argument_list2-arguments x_plus_1 (argument_list x_plus_2 null) tt tt
