-- ===== src/Eval/Examples.antt =====
-- Tests of minimal/src/evaluate.c, and its theorems at small programs.
use pylinda.Base.{ok, ◌≡◌, ◌≢◌, refl, Bool, true, false, none, some, [], ◌∷◌, crash, arith}
use pylinda.Base.Int.{pos}
use pylinda.NameMap.{null as no_child, node}
use pylinda.NameMap.Lex.{lex}
use pylinda.SyntaxTree.{
  Tree, null, create_id, integer, sequence, function_def, parameter_list, argument_list, operator,
  tuple, if_expr, index, let_expr, Trees,
}
use pylinda.Value.{Value}
use pylinda.Value.Compare.{Floats}
use pylinda.Eval.{value, crashed, EvalLayer, Store, function_at}
use pylinda.Eval.Layers.{Names, get_layer_name, add_map_name}
use pylinda.Eval.Operate.{Machine, variable, operate, is_true, get_item, add_value}
use pylinda.Eval.Node.{evaluate}
use pylinda.Eval.Denote.{denote, before}
use pylinda.Eval.Agree.{Agrees, evaluate-denote}
use pylinda.Eval.Call.{denote_arguments, denote_call, evaluate-sequence}

abbrev floats : Floats
floats = record { F = Bool; gt = λ a b. false; eq = λ a b. true }

abbrev machine : Machine
machine = record {
  floats = floats;
  arithmetic = record {
    add = λ a b. a;
    sub = λ a b. a;
    mul = λ a b. a;
    div = λ a b. a;
    is_zero_float = λ a. a;
  };
  strcmp = lex 0;
  native = λ a vs. crash;
}

-- a default layer with a number, and a function `f` that adds it to its parameter
abbrev body : Tree
body = operator "+" (create_id "x") (create_id "y")

abbrev default_names : Names Bool
default_names =
    node (some ("f", Value.function 0)) (node (some ("y", Value.integer (pos 5))) no_child no_child)
      no_child

abbrev store : Store Bool
store = record {
  layers = record { names = default_names; parent = none } ∷ [];
  things = function_at "f" (parameter_list "x" null) body 0 ∷ [];
}

-- let y = 2 in if y > 1 then (y, 7)[1] + y else 0
abbrev expression : Tree
expression = let_expr (create_id "y") (integer (pos 2)) (
    if_expr (operator ">" (create_id "y") (integer (pos 1)))
      (operator "+"
        (index (tuple (Trees.next (create_id "y") (Trees.next (integer (pos 7)) Trees.end)))
          (integer (pos 1)))
        (create_id "y"))
      (integer (pos 0)))

abbrev given : Tree
given = argument_list expression null

abbrev inner : EvalLayer Bool
inner = record {
  names = node (some ("y", Value.integer (pos 2))) no_child no_child;
  parent = some 0;
}

evaluate-expression :
    evaluate machine 6 expression 0 store
    ≡ value (some (Value.integer (pos 9)), record store { layers = inner ∷ store.layers })
unfolding evaluate add_map_name lex
evaluate-expression = refl

evaluate-denote_example :
    Agrees
      (denote machine expression (λ name. get_layer_name machine.strcmp 0 name store.layers))
      store
      (evaluate machine 20 expression 0 store)
evaluate-denote_example =
    evaluate-denote machine 20 expression 0 store (tt, ((tt, tt), (((tt, (tt, tt)), tt), tt), tt))
      (omega arith) (omega arith)

-- The name `y` of the caller is not the one that the code of `f` reads.
call_result :
    denote_call machine
      (parameter_list "x" null)
      given
      body
      (λ name. get_layer_name machine.strcmp 0 name store.layers)
      (λ name. get_layer_name machine.strcmp 0 name store.layers)
    ≡ value (some (Value.integer (pos 14)))
unfolding lex denote get_layer_name denote_arguments before variable add_map_name operate is_true
    get_item add_value
call_result = refl

-- With a strcmp whose results are of another size, a second parameter gets no name.
second_dropped :
    add_map_name {F = Bool}
      (lex 1)
      "y"
      (some (Value.integer (pos 2)))
      (node (some ("x", Value.integer (pos 1))) no_child no_child)
    ≡ ok (node (some ("x", Value.integer (pos 1))) no_child no_child)
unfolding add_map_name lex
second_dropped = refl

abbrev two_numbers : Trees
two_numbers = Trees.next (integer (pos 1)) (Trees.next (integer (pos 2)) Trees.end)

evaluate-sequence_example :
    evaluate machine 3 (sequence two_numbers) 0 store ≢ value (some (Value.integer (pos 2)), store)
evaluate-sequence_example =
    evaluate-sequence machine 3 two_numbers 0 store (some (Value.integer (pos 2)), store)

sequence_crashes : evaluate machine 3 (sequence two_numbers) 0 store ≡ crashed
unfolding evaluate
sequence_crashes = refl

-- A function that is defined is found by its name.
define_function :
    evaluate machine 2 (function_def "g" null (parameter_list "z" null) (integer (pos 1))) 0 store
    ≡ value (
      some (Value.function 1),
      record {
        layers =
            record {
              names =
                  node
                    (some ("f", Value.function 0))
                    (node
                      (some ("y", Value.integer (pos 5)))
                      no_child
                      (node (some ("g", Value.function 1)) no_child no_child))
                    no_child;
              parent = none;
            }
            ∷ [];
        things =
            function_at "g" (parameter_list "z" null) (integer (pos 1)) 0
            ∷ function_at "f" (parameter_list "x" null) body 0
            ∷ [];
      },
    )
unfolding evaluate lex
define_function = refl
