-- ===== src/Eval/Call.antt =====
-- minimal/src/evaluate.c: calls of functions, whose code sees the parameters and the layer of the
-- definition and nothing of the caller, and sequences, which never give a value.
use pylinda.Base.{ℕ, zero, suc, ◌+◌, subst, ◌≢◌, Option, none, some}
use pylinda.SyntaxTree.{Tree, null, sequence, parameter_list, argument_list, Trees}
use pylinda.Value.{Value}
use pylinda.Eval.{Run, value, stopped, crashed, starved, ◌>>=◌, run, Store}
use pylinda.Eval.Layers.{Names, no_names, add_map_name}
use pylinda.Eval.Operate.{Machine, Val, unless_null}
use pylinda.Eval.Node.{Result, evaluate_sequence, evaluate}
use pylinda.Eval.Denote.{IsExpression, weight, Env, before, denote}

-- arguments that are expressions, up to the end of the chain
abbrev pub AreArguments : Tree → Type 0
AreArguments null = Unit
AreArguments (argument_list a n) = IsExpression a × AreArguments n
AreArguments t = ⊥

abbrev pub arguments_weight : Tree → ℕ
arguments_weight (argument_list a n) = weight a + arguments_weight n
arguments_weight t = 0

module _ (m : Machine) where
  -- the names of the parameters with the arguments' values; `none` where a value is NULL or a
  -- parameter is missing
  unfoldable pub denote_arguments :
      Tree → Tree → Names m.floats.F → Env m → Run (Option (Names m.floats.F))
  denote_arguments param null names env = value (some names)
  denote_arguments (parameter_list name param) (argument_list a n) names env =
      denote m a env >>= λ v. unless_null v (value none) (λ u.
        run (add_map_name m.strcmp name (some u) names) >>= λ names'.
        denote_arguments param n names' env)
  denote_arguments null (argument_list a n) names env = denote m a env >>= λ v. value none
  denote_arguments param args names env = crashed

  -- a call of a function over the environments of the caller and of the definition
  abbrev pub denote_call : Tree → Tree → Tree → Env m → Env m → Run (Option (Val m))
  denote_call params args code caller definition =
      denote_arguments params args no_names caller >>= λ o.
      unless_null o (value none) (λ names. denote m code (before m names definition))

  -- no value
  abbrev NoValue : {A : Type 0} → Run A → Type 0
  NoValue (value a) = ⊥
  NoValue r = Unit

  bind-NoValue :
      {A B : Type 0} (r : Run A) (f : A → Run B) → ((a : A) → NoValue (f a)) → NoValue (r >>= f)
  bind-NoValue (value a) f h = h a
  bind-NoValue stopped f h = tt
  bind-NoValue crashed f h = tt
  bind-NoValue starved f h = tt

  sequence-NoValue :
      (rec : Tree → ℕ → Store m.floats.F → Result m) (ts : Trees) (l : ℕ) (s : Store m.floats.F)
      → NoValue (evaluate_sequence m rec ts l s)
  unfolding evaluate_sequence
  sequence-NoValue rec Trees.end l s = tt
  sequence-NoValue rec (Trees.next t Trees.end) l s = tt
  sequence-NoValue rec (Trees.next t (Trees.next u ts)) l s =
      bind-NoValue (rec t l s) _ (λ r. sequence-NoValue rec (Trees.next u ts) l r.1)

  -- The evaluation of a sequence never gives a value, whatever its parts are.
  pub evaluate-sequence :
      (n : ℕ) (ts : Trees) (l : ℕ) (s : Store m.floats.F) (r : Option (Val m) × Store m.floats.F)
      → evaluate m n (sequence ts) l s ≢ value r
  unfolding evaluate
  evaluate-sequence zero ts l s r e = cc
  evaluate-sequence (suc n) ts l s r e = subst NoValue e (sequence-NoValue (evaluate m n) ts l s)
