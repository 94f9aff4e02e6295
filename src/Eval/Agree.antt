-- ===== src/Eval/Agree.antt =====
-- minimal/src/evaluate.c against the reference of Eval/Denote: the layers that a let leaves behind are
-- never seen from outside it.
use pylinda.Base.{
  ℕ, zero, suc, ◌≤◌, ◌<◌, ◌≡◌, refl, sym, ap, ◌∙◌, String, Bool, true, false, Option, some, List,
  [], ◌∷◌, ◌++◌, append_assoc, length, length-append, Outcome, ok, exited, crash, ◌==◌,
  if◌then◌else◌, arith,
}
use pylinda.Base.Int.{ℤ}
use pylinda.SyntaxTree.{
  Tree, null, blank, nil, identifier, integer, string, operator, tuple, if_expr, bracket, index,
  let_expr, Trees,
}
use pylinda.Value.{Values}
use pylinda.Eval.{Run, value, stopped, crashed, starved, ◌>>=◌, run, EvalLayer, Store}
use pylinda.Eval.Layers.{
  Names, no_names, get_map_name, or_above, get_layer_name, create_layer, add_map_name,
}
use pylinda.Eval.Operate.{Machine, Val, operate, get_item, variable, test, choose}
use pylinda.Eval.Node.{evaluate_tuple, evaluate}
use pylinda.Eval.Denote.{
  IsExpression, AreExpressions, weight, weights, Env, before, denote, denote_tuple,
}

pub length_self : (n : ℕ) → (n == n) ≡ true
length_self n = ground arith

module _ {F : Type 0} where
  abbrev pub grow : List (EvalLayer F) → Store F → Store F
  grow added s = record s { layers = added ++ s.layers }

  -- Layers are added, and nothing else happens to the store.
  abbrev pub Agrees : {A : Type 0} → Run A → Store F → Run (A × Store F) → Type 0
  Agrees (value a) s r = (added : List (EvalLayer F)) × (r ≡ value (a, grow added s))
  Agrees stopped s r = r ≡ stopped
  Agrees crashed s r = r ≡ crashed
  Agrees starved s r = r ≡ starved

  pub grow-Agrees :
      {A : Type 0} (d : Run A) (added : List (EvalLayer F)) (s : Store F) (r : Run (A × Store F))
      → Agrees d (grow added s) r
      → Agrees d s r
  grow-Agrees (value a) added s r (more, e) = (
    more ++ added,
    e ∙ ap (λ ls. value (a, record s { layers = ls })) (sym (append_assoc more added s.layers)),
  )
  grow-Agrees stopped added s r h = h
  grow-Agrees crashed added s r h = h
  grow-Agrees starved added s r h = h

  pub bind-Agrees :
      {A B : Type 0} (d : Run A) (s : Store F) (r : Run (A × Store F)) (k : A → Run B)
      (f : A × Store F → Run (B × Store F))
      → Agrees d s r
      → ((a : A) (added : List (EvalLayer F)) → Agrees (k a) (grow added s) (f (a, grow added s)))
      → Agrees (d >>= k) s (r >>= f)
  bind-Agrees (value a) s r k f (added, e) h =
      rw e (grow-Agrees (k a) added s (f (a, grow added s)) (h a added))
  bind-Agrees stopped s r k f e h = rw e
  bind-Agrees crashed s r k f e h = rw e
  bind-Agrees starved s r k f e h = rw e

  pub run-Agrees :
      {A B : Type 0} (o : Outcome A) (s : Store F) (k : A → Run B) (f : A → Run (B × Store F))
      → ((a : A) → Agrees (k a) s (f a))
      → Agrees (run o >>= k) s (run o >>= f)
  run-Agrees (ok a) s k f h = h a
  run-Agrees exited s k f h = refl
  run-Agrees crash s k f h = refl

  last-Agrees :
      {A : Type 0} (o : Outcome A) (s : Store F) → Agrees (run o) s (run o >>= λ v. value (v, s))
  last-Agrees (ok a) s = ([], refl)
  last-Agrees exited s = refl
  last-Agrees crash s = refl

  not_length :
      (l : ℕ) (added ls : List (EvalLayer F)) → l < length ls → (l == length (added ++ ls)) ≡ false
  not_length l added ls h = ground (arith, length-append added ls)

  get_layer_name-append :
      (strcmp : String → String → ℤ) (l : ℕ) (name : String) (added ls : List (EvalLayer F))
      → l < length ls
      → get_layer_name strcmp l name (added ++ ls) ≡ get_layer_name strcmp l name ls
  unfolding get_layer_name
  get_layer_name-append strcmp l name [] ls h = refl
  get_layer_name-append strcmp l name (a ∷ added) ls h =
      rw (not_length l added ls h) (get_layer_name-append strcmp l name added ls h)

module _ (m : Machine) where
  -- What a layer of the store sees is the environment.
  abbrev pub Sees : ℕ → Store m.floats.F → Env m → Type 0
  Sees l s env = (name : String) → get_layer_name m.strcmp l name s.layers ≡ env name

  pub Sees-grow :
      (l : ℕ) (s : Store m.floats.F) (env : Env m) (added : List (EvalLayer m.floats.F))
      → l < length s.layers
      → Sees l s env
      → Sees l (grow added s) env
  Sees-grow l s env added h sees name =
      get_layer_name-append m.strcmp l name added s.layers h ∙ sees name

  pub below_grow :
      (l : ℕ) (s : Store m.floats.F) (added : List (EvalLayer m.floats.F))
      → l < length s.layers
      → l < length (grow added s).layers
  below_grow l s added h = omega (arith, length-append added s.layers)

  pub Sees-before :
      (names : Names m.floats.F) (l : ℕ) (s : Store m.floats.F) (env : Env m)
      → Sees l s env
      → Sees (length s.layers) (create_layer m.strcmp l names s) (before m names env)
  unfolding before create_layer get_layer_name
  Sees-before names l s env sees name =
      rw (length_self (length s.layers))
        (ap (or_above m.strcmp (get_map_name m.strcmp name names)) (sees name))

  choose-Agrees :
      (n : ℕ) (b : Bool) (t e : Tree) (l : ℕ) (s : Store m.floats.F) (d d' : Run (Option (Val m)))
      → Agrees d s (evaluate m n t l s)
      → Agrees d' s (evaluate m n e l s)
      → Agrees (if b then d else d') s (evaluate m n (choose b t e) l s)
  choose-Agrees n true t e l s d d' p q = p
  choose-Agrees n false t e l s d d' p q = q

  weight_pos : (t : Tree) → 1 ≤ weight t
  weight_pos null = omega arith
  weight_pos t = omega arith

  mutual
    unfolding evaluate denote

    pub agrees :
        (n : ℕ) (t : Tree) (l : ℕ) (s : Store m.floats.F) (env : Env m)
        → IsExpression t
        → weight t ≤ n
        → l < length s.layers
        → Sees l s env
        → Agrees (denote m t env) s (evaluate m n t l s)
    agrees zero t l s env h le lt sees = absurd (omega (arith, weight_pos t))
    agrees (suc n) blank l s env h le lt sees = ([], refl)
    agrees (suc n) nil l s env h le lt sees = ([], refl)
    agrees (suc n) (identifier name d) l s env h le lt sees =
        ([], ap (λ v. value (v, s)) (sees name))
    agrees (suc n) (integer i) l s env h le lt sees = ([], refl)
    agrees (suc n) (string text) l s env h le lt sees = ([], refl)
    agrees (suc n) (operator op a b) l s env h le lt sees =
        bind-Agrees (denote m a env) s _ _ _ (agrees n a l s env h.0 (omega arith) lt sees)
          (λ u added.
            bind-Agrees (denote m b env) (grow added s) _ _ _
              (agrees n b l (grow added s) env h.1 (omega arith) (below_grow l s added lt)
                (Sees-grow l s env added lt sees))
              (λ v more. last-Agrees (operate m op u v) (grow more (grow added s))))
    agrees (suc n) (tuple ts) l s env h le lt sees =
        all_agree n ts Values.end l s env h (omega arith) lt sees
    agrees (suc n) (if_expr c t e) l s env h le lt sees =
        bind-Agrees (denote m c env) s _ _ _ (agrees n c l s env h.0 (omega arith) lt sees)
          (λ u added. run-Agrees (test m u) (grow added s) _ _ (λ b.
            choose-Agrees n b t e l (grow added s) _ _
              (agrees n t l (grow added s) env h.1 (omega arith) (below_grow l s added lt)
                (Sees-grow l s env added lt sees))
              (agrees n e l (grow added s) env h.2 (omega arith) (below_grow l s added lt)
                (Sees-grow l s env added lt sees))))
    agrees (suc n) (bracket t) l s env h le lt sees = agrees n t l s env h (omega arith) lt sees
    agrees (suc n) (index a b) l s env h le lt sees =
        bind-Agrees (denote m a env) s _ _ _ (agrees n a l s env h.0 (omega arith) lt sees)
          (λ u added.
            bind-Agrees (denote m b env) (grow added s) _ _ _
              (agrees n b l (grow added s) env h.1 (omega arith) (below_grow l s added lt)
                (Sees-grow l s env added lt sees))
              (λ v more. last-Agrees (get_item m u v) (grow more (grow added s))))
    agrees (suc n) (let_expr var e c) l s env h le lt sees =
        bind-Agrees (denote m e env) s _ _ _ (agrees n e l s env h.0 (omega arith) lt sees)
          (λ u added. run-Agrees (variable var) (grow added s) _ _ (λ name.
            run-Agrees (add_map_name m.strcmp name u no_names) (grow added s) _ _ (λ names.
              grow-Agrees (denote m c (before m names env))
                (record { names = names; parent = some l } ∷ []) (grow added s) _
                (agrees n c (length (grow added s).layers) _ (before m names env) h.1 (omega arith)
                  (omega arith)
                  (Sees-before names l (grow added s) env (Sees-grow l s env added lt sees))))))
    agrees (suc n) t l s env h le lt sees = absurd h

    all_agree :
        (n : ℕ) (ts : Trees) (done : Values m.floats.F) (l : ℕ) (s : Store m.floats.F) (env : Env m)
        → AreExpressions ts
        → weights ts ≤ n
        → l < length s.layers
        → Sees l s env
        → Agrees (denote_tuple m ts done env) s (evaluate_tuple m (evaluate m n) ts done l s)
    all_agree n Trees.end done l s env h le lt sees = ([], refl)
    all_agree n (Trees.next t ts) done l s env h le lt sees =
        bind-Agrees (denote m t env) s _ _ _ (agrees n t l s env h.0 (omega arith) lt sees)
          (λ v added.
            all_agree n ts _ l (grow added s) env h.1 (omega arith) (below_grow l s added lt)
              (Sees-grow l s env added lt sees))

  -- An expression, evaluated in a layer of the store with as much fuel as it has nodes, ends as the
  -- reference does over the names that the layer sees: with its value, where layers are added and
  -- nothing else happens to the store, with its crash, or with its stop.
  pub evaluate-denote :
      (n : ℕ) (t : Tree) (l : ℕ) (s : Store m.floats.F)
      → IsExpression t
      → weight t ≤ n
      → l < length s.layers
      → Agrees (denote m t (λ name. get_layer_name m.strcmp l name s.layers)) s (evaluate m n t l s)
  evaluate-denote n t l s h le lt = agrees n t l s _ h le lt (λ name. refl)
