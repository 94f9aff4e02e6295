-- ===== src/Object/Examples.antt =====
-- Tests of the pointers of objects in minimal/src, and the theorems about them at small objects.
use pylinda.Base.{false, String, ◌≡◌, refl, [], ◌∷◌, ◌++◌, ok, crash}
use pylinda.Base.Int.{pos}
use pylinda.NameMap.Lex.{lex}
use pylinda.Object.Node.{
  type_function, free_node, Node, sequence, operator, function_def, parameter_list, argument_list,
  bracket, index, function_call, node_references,
}
use pylinda.Object.Copy.{Memory, returned, AreSet, HasCopy, with_spec, copy_node, copy_node-null}
use pylinda.Object.Field.{Object, value, tree, Body, references, del_object}
use pylinda.Object.Build.{definitions, create_sequence2, create_sequence2-definitions}

abbrev closure : Object
closure = value (record { typeobj = 9; body = Body.function 4 5 6 })

closure_released : del_object (lex 0) closure ≡ ok (9 ∷ 4 ∷ 5 ∷ 6 ∷ [])
unfolding del_object
closure_released = refl

closure_references : references closure ≡ 9 ∷ 6 ∷ 4 ∷ 5 ∷ []
unfolding references
closure_references = refl

-- a reference to a tuple space, before liblinda sets the function for its freeing
unset_crashes : del_object (lex 0) (value (record { typeobj = 9; body = Body.tsref false })) ≡ crash
unfolding del_object
unset_crashes = refl

-- a call with no arguments, as the grammar makes it
call_crashes : del_object (lex 0) (tree (function_call 3 0)) ≡ crash
unfolding del_object free_node
call_crashes = refl

abbrev inc : Node
inc = function_def "inc" 7 2 3

abbrev memory : Memory
memory = record { ref_count = pos 77; value_type = 5; type_spec = 1000; first_word = 0 }

copy_node-null_example :
    (HasCopy (operator "+" 1 0)
      → ¬ AreSet (node_references (with_spec 0 (operator "+" 1 0)))
      → copy_node memory (operator "+" 1 0) ≡ crash)
    × ((name : String) → copy_node memory (parameter_list name 0) ≡ crash)
    × (copy_node memory (argument_list 5 0) ≡ crash)
    × (copy_node memory (type_function (4 ∷ [])) ≡ crash)
    × (copy_node memory (bracket 5) ≡ crash)
    × (copy_node memory (index 6 8) ≡ returned (6 ∷ []))
copy_node-null_example = copy_node-null memory (operator "+" 1 0) 4 5 8

create_sequence2-definitions_example :
    definitions (create_sequence2 9 (1, sequence (2 ∷ 3 ∷ [])) (4, bracket 5)).0
    ≡ definitions (1, sequence (2 ∷ 3 ∷ [])) ++ definitions (4, bracket 5)
create_sequence2-definitions_example =
    create_sequence2-definitions 9 (1, sequence (2 ∷ 3 ∷ [])) (4, bracket 5)
