-- ===== src/Eval/Fuel.antt =====
-- minimal/src/evaluate.c: fuel only bounds the depth of the calls of `Minimal_evaluate`.
use pylinda.Base.{
  ℕ, zero, suc, ◌+◌, ◌≡◌, ◌≢◌, refl, sym, subst, ◌⊎◌, inl, inr, Option, none, some, length, arith,
}
use pylinda.SyntaxTree.{
  Tree, null, blank, sequence, parameter_list, function_call, argument_list, operator, tuple,
  if_expr, bracket, index, let_expr, Trees,
}
use pylinda.Value.{Value, Values}
use pylinda.Eval.{
  Run, value, stopped, crashed, starved, ◌>>=◌, run, Store, Thing, function_at, built_in_at,
}
use pylinda.Eval.Layers.{Names, no_names, thing_at, create_layer, add_map_name}
use pylinda.Eval.Operate.{Machine, Val, variable, test, unless_null}
use pylinda.Eval.Node.{
  Result, evaluate_sequence, evaluate_tuple, bind_arguments, enter, call_native, call_thing,
  call_value, evaluate_node, evaluate,
}

-- The first run has no fuel left, or the second ends as it does.
abbrev pub Below {ℓ} : {A : Type ℓ} → Run A → Run A → Type ℓ
Below m n = (m ≡ starved) ⊎ (m ≡ n)

same-Below {ℓ κ} :
    {A : Type ℓ} {B : Type κ} (m : Run A) (f g : A → Run B)
    → ((a : A) → Below (f a) (g a))
    → Below (m >>= f) (m >>= g)
same-Below (value a) f g h = h a
same-Below stopped f g h = inr refl
same-Below crashed f g h = inr refl
same-Below starved f g h = inl refl

bind-Below {ℓ κ} :
    {A : Type ℓ} {B : Type κ} {m n : Run A} {f g : A → Run B}
    → Below m n
    → ((a : A) → Below (f a) (g a))
    → Below (m >>= f) (n >>= g)
bind-Below {f} {g} (inl e) h = inl (rw e)
bind-Below {m} {n} {f} {g} (inr e) h = subst (λ x. Below (m >>= f) (x >>= g)) e (same-Below m f g h)

suc_add : (n k : ℕ) → suc n + k ≡ suc (n + k)
suc_add n k = omega arith

unless_null-Below :
    {A B : Type 0} (o : Option A) (m : Run B) {f g : A → Run B}
    → ((a : A) → Below (f a) (g a))
    → Below (unless_null o m f) (unless_null o m g)
unless_null-Below none m h = inr refl
unless_null-Below (some a) m h = h a

module _ (m : Machine) where
  module _ (rec rec' : Tree → ℕ → Store m.floats.F → Result m)
      (h : (t : Tree) (l : ℕ) (s : Store m.floats.F) → Below (rec t l s) (rec' t l s)) where
    sequence-Below :
        (ts : Trees) (l : ℕ) (s : Store m.floats.F)
        → Below (evaluate_sequence m rec ts l s) (evaluate_sequence m rec' ts l s)
    unfolding evaluate_sequence
    sequence-Below Trees.end l s = inr refl
    sequence-Below (Trees.next t Trees.end) l s = inr refl
    sequence-Below (Trees.next t (Trees.next u ts)) l s =
        bind-Below (h t l s) (λ r. sequence-Below (Trees.next u ts) l r.1)

    tuple-Below :
        (ts : Trees) (done : Values m.floats.F) (l : ℕ) (s : Store m.floats.F)
        → Below (evaluate_tuple m rec ts done l s) (evaluate_tuple m rec' ts done l s)
    unfolding evaluate_tuple
    tuple-Below Trees.end done l s = inr refl
    tuple-Below (Trees.next t ts) done l s = bind-Below (h t l s) (λ r. tuple-Below ts _ l r.1)

    arguments-Below :
        (param args : Tree) (names : Names m.floats.F) (l : ℕ) (s : Store m.floats.F)
        → Below
            (bind_arguments m rec param args names l s)
            (bind_arguments m rec' param args names l s)
    unfolding bind_arguments
    arguments-Below param null names l s = inr refl
    arguments-Below param blank names l s = inr refl
    arguments-Below (parameter_list name param) (argument_list arg args) names l s =
        bind-Below (h arg l s) (λ r. unless_null-Below r.0 (value (none, r.1)) (λ v.
          same-Below (run (add_map_name m.strcmp name (some v) names)) _ _
            (λ names'. arguments-Below param args names' l r.1)))
    arguments-Below null (argument_list arg args) names l s = bind-Below (h arg l s) (λ r. inr refl)
    arguments-Below param args names l s = inr refl

    enter-Below :
        (parent : ℕ) (code : Tree) (r : Option (Names m.floats.F) × Store m.floats.F)
        → Below (enter m rec parent code r) (enter m rec' parent code r)
    unfolding enter
    enter-Below parent code (none, s) = inr refl
    enter-Below parent code (some names, s) =
        h code (length s.layers) (create_layer m.strcmp parent names s)

    native-Below :
        (a n : ℕ) (args : Tree) (l : ℕ) (s : Store m.floats.F)
        → Below (call_native m rec a n args l s) (call_native m rec' a n args l s)
    unfolding call_native
    native-Below a zero args l s = inr refl
    native-Below a (suc zero) (argument_list x args) l s = bind-Below (h x l s) (λ r. inr refl)
    native-Below a (suc (suc zero)) (argument_list x (argument_list y args)) l s =
        bind-Below (h x l s) (λ r. bind-Below (h y l r.1) (λ q. inr refl))
    native-Below a (suc (suc (suc n))) args l s = inr refl
    native-Below a n args l s = inr refl

    thing-Below :
        (a : ℕ) (t : Option Thing) (args : Tree) (l : ℕ) (s : Store m.floats.F)
        → Below (call_thing m rec a t args l s) (call_thing m rec' a t args l s)
    unfolding call_thing
    thing-Below a (some (function_at name null code parent)) args l s = inr refl
    thing-Below a (some (function_at name params code parent)) args l s =
        bind-Below (arguments-Below params args no_names l s) (λ r. enter-Below parent code r)
    thing-Below a (some (built_in_at n)) args l s = native-Below a n args l s
    thing-Below a t args l s = inr refl

    call_value-Below :
        (v : Option (Val m)) (args : Tree) (l : ℕ) (s : Store m.floats.F)
        → Below (call_value m rec v args l s) (call_value m rec' v args l s)
    unfolding call_value
    call_value-Below (some (Value.function a)) args l s =
        thing-Below a (thing_at a s.things) args l s
    call_value-Below (some (Value.built_in a)) args l s =
        thing-Below a (thing_at a s.things) args l s
    call_value-Below v args l s = inr refl

    node-Below :
        (t : Tree) (l : ℕ) (s : Store m.floats.F)
        → Below (evaluate_node m rec t l s) (evaluate_node m rec' t l s)
    unfolding evaluate_node
    node-Below (sequence ts) l s = sequence-Below ts l s
    node-Below (function_call f args) l s =
        bind-Below (h f l s) (λ r. call_value-Below r.0 args l r.1)
    node-Below (let_expr var expr code) l s = bind-Below (h expr l s) (λ r.
        same-Below (run (variable var)) _ _ (λ name.
          same-Below (run (add_map_name m.strcmp name r.0 no_names)) _ _
            (λ names. h code (length r.1.layers) (create_layer m.strcmp l names r.1))))
    node-Below (operator op a b) l s =
        bind-Below (h a l s) (λ r. bind-Below (h b l r.1) (λ q. inr refl))
    node-Below (tuple ts) l s = tuple-Below ts Values.end l s
    node-Below (if_expr c t e) l s =
        bind-Below (h c l s) (λ r. same-Below (run (test m r.0)) _ _ (λ b. h _ l r.1))
    node-Below (bracket t) l s = h t l s
    node-Below (index v i) l s = bind-Below (h v l s) (λ r. bind-Below (h i l r.1) (λ q. inr refl))
    node-Below t l s = inr refl

  evaluate-Below :
      (n k : ℕ) (t : Tree) (l : ℕ) (s : Store m.floats.F)
      → Below (evaluate m n t l s) (evaluate m (n + k) t l s)
  unfolding evaluate
  evaluate-Below zero k t l s = inl refl
  evaluate-Below (suc n) k t l s =
      rw (suc_add n k) (node-Below (evaluate m n) (evaluate m (n + k)) (evaluate-Below n k) t l s)

  -- More fuel gives the result that there was, a crash or a stop included.
  pub evaluate-more :
      (n k : ℕ) (t : Tree) (l : ℕ) (s : Store m.floats.F)
      → evaluate m n t l s ≢ starved
      → evaluate m (n + k) t l s ≡ evaluate m n t l s
  evaluate-more n k t l s h = elim (evaluate-Below n k t l s) [
    | inl e ↦ absurd (h e)
    | inr e ↦ sym e
  ]
