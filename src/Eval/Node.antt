-- ===== src/Eval/Node.antt =====
-- minimal/src/evaluate.c: `Minimal_evaluate` of one node, whose parts `rec` evaluates.
use pylinda.Base.{ℕ, zero, suc, String, Option, none, some, [], ◌∷◌, length}
use pylinda.SyntaxTree.{
  Tree, null, blank, nil, identifier, integer, string, sequence, type_spec, function_def,
  parameter_list, function_call, argument_list, operator, tuple, if_expr, bracket, index, let_expr,
  Trees,
}
use pylinda.Value.{Value, Values}
use pylinda.Eval.{Run, value, crashed, starved, ◌>>=◌, run, Store, Thing, function_at, built_in_at}
use pylinda.Eval.Layers.{
  Names, no_names, thing_at, get_layer_name, create_layer, add_map_name, add_tree,
}
use pylinda.Eval.Operate.{
  strlen, variable, choose, unless_null, Machine, Val, operate, is_true, test, get_item, add_value,
}

module _ (m : Machine) where
  abbrev pub Result : Type 0
  Result = Run (Option (Val m) × Store m.floats.F)

  module _ (rec : Tree → ℕ → Store m.floats.F → Result) where
    -- the loop of a sequence ends one node early, and the node that is read then is past the last
    unfoldable pub evaluate_sequence : Trees → ℕ → Store m.floats.F → Result
    evaluate_sequence Trees.end l s = crashed
    evaluate_sequence (Trees.next t Trees.end) l s = crashed
    evaluate_sequence (Trees.next t ts) l s = rec t l s >>= λ r. evaluate_sequence ts l r.1

    unfoldable pub evaluate_tuple : Trees → Values m.floats.F → ℕ → Store m.floats.F → Result
    unfolding add_value
    evaluate_tuple Trees.end done l s = value (some (Value.tuple done), s)
    evaluate_tuple (Trees.next t ts) done l s =
        rec t l s >>= λ r. evaluate_tuple ts (add_value m done r.0) l r.1

    -- the arguments of a call, with the names of the parameters; `none` is an error
    unfoldable pub bind_arguments :
        Tree
        → Tree
        → Names m.floats.F
        → ℕ
        → Store m.floats.F
        → Run (Option (Names m.floats.F) × Store m.floats.F)
    bind_arguments param null names l s = value (some names, s)
    bind_arguments param blank names l s = value (some names, s)
    bind_arguments (parameter_list name param) (argument_list arg args) names l s =
        rec arg l s >>= λ r. unless_null r.0 (value (none, r.1)) (λ v.
          run (add_map_name m.strcmp name (some v) names) >>= λ names'.
          bind_arguments param args names' l r.1)
    bind_arguments null (argument_list arg args) names l s = rec arg l s >>= λ r. value (none, r.1)
    bind_arguments param args names l s = crashed

    -- the code of a function in a new layer under its own, which C makes before it evaluates the
    -- arguments: nothing sees it until then
    unfoldable pub enter : ℕ → Tree → Option (Names m.floats.F) × Store m.floats.F → Result
    unfolding create_layer
    enter parent code (none, s) = value (none, s)
    enter parent code (some names, s) =
        rec code (length s.layers) (create_layer m.strcmp parent names s)

    -- the arguments of a built-in function; where C leaves the order open, the first is evaluated first
    unfoldable pub call_native : ℕ → ℕ → Tree → ℕ → Store m.floats.F → Result
    call_native a zero args l s = run (m.native a []) >>= λ v. value (v, s)
    call_native a (suc zero) (argument_list x args) l s =
        rec x l s >>= λ r. run (m.native a (r.0 ∷ [])) >>= λ v. value (v, r.1)
    call_native a (suc (suc zero)) (argument_list x (argument_list y args)) l s = rec x l s >>= λ r.
        rec y l r.1 >>= λ q. run (m.native a (r.0 ∷ q.0 ∷ [])) >>= λ v. value (v, q.1)
    call_native a (suc (suc (suc n))) args l s = value (none, s)
    call_native a n args l s = crashed

    unfoldable pub call_thing : ℕ → Option Thing → Tree → ℕ → Store m.floats.F → Result
    unfolding bind_arguments enter call_native
    call_thing a (some (function_at name null code parent)) args l s = value (none, s)
    call_thing a (some (function_at name params code parent)) args l s =
        bind_arguments params args no_names l s >>= enter parent code
    call_thing a (some (built_in_at n)) args l s = call_native a n args l s
    call_thing a t args l s = crashed

    unfoldable pub call_value : Option (Val m) → Tree → ℕ → Store m.floats.F → Result
    unfolding call_thing thing_at
    call_value (some (Value.function a)) args l s = call_thing a (thing_at a s.things) args l s
    call_value (some (Value.built_in a)) args l s = call_thing a (thing_at a s.things) args l s
    call_value v args l s = value (none, s)

    -- `Minimal_Layer_addTree`, and the name that it defines
    unfoldable pub evaluate_definition : String → Tree → ℕ → Store m.floats.F → Result
    unfolding add_tree get_layer_name
    evaluate_definition name t l s =
        run (add_tree m.strcmp l t s) >>= λ s'. value (get_layer_name m.strcmp l name s'.layers, s')

    unfoldable pub evaluate_node : Tree → ℕ → Store m.floats.F → Result
    unfolding get_layer_name evaluate_sequence evaluate_definition call_value variable create_layer
        operate evaluate_tuple is_true get_item
    evaluate_node null l s = crashed
    evaluate_node blank l s = value (some Value.nil, s)
    evaluate_node nil l s = value (some Value.nil, s)
    evaluate_node (identifier name d) l s = value (get_layer_name m.strcmp l name s.layers, s)
    evaluate_node (integer i) l s = value (some (Value.integer i), s)
    evaluate_node (string text) l s = value (some (Value.string text (suc (strlen text))), s)
    evaluate_node (sequence ts) l s = evaluate_sequence ts l s
    evaluate_node (type_spec name t) l s = evaluate_definition name (type_spec name t) l s
    evaluate_node (function_def name spec params body) l s =
        evaluate_definition name (function_def name spec params body) l s
    evaluate_node (function_call f args) l s = rec f l s >>= λ r. call_value r.0 args l r.1
    evaluate_node (let_expr var expr code) l s = rec expr l s >>= λ r.
        run (variable var) >>= λ name. run (add_map_name m.strcmp name r.0 no_names) >>= λ names.
        rec code (length r.1.layers) (create_layer m.strcmp l names r.1)
    evaluate_node (operator op a b) l s =
        rec a l s >>= λ r. rec b l r.1 >>= λ q. run (operate m op r.0 q.0) >>= λ v. value (v, q.1)
    evaluate_node (tuple ts) l s = evaluate_tuple ts Values.end l s
    evaluate_node (if_expr c t e) l s =
        rec c l s >>= λ r. run (test m r.0) >>= λ b. rec (choose b t e) l r.1
    evaluate_node (bracket t) l s = rec t l s
    evaluate_node (index v i) l s =
        rec v l s >>= λ r. rec i l r.1 >>= λ q. run (get_item m r.0 q.0) >>= λ u. value (u, q.1)
    evaluate_node t l s = value (none, s)

  -- `Minimal_evaluate`, as many calls deep as there is fuel
  unfoldable pub evaluate : ℕ → Tree → ℕ → Store m.floats.F → Result
  unfolding evaluate_node
  evaluate zero t l s = starved
  evaluate (suc fuel) t l s = evaluate_node (evaluate fuel) t l s
