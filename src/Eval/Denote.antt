-- ===== src/Eval/Denote.antt =====
-- Expressions of the Minimal language over an environment, as a reader of the language would have
-- them: no layers, no store, no fuel. minimal/src/evaluate.c evaluates them so.
use pylinda.Base.{ℕ, suc, ◌+◌, String, Option, some, if◌then◌else◌}
use pylinda.SyntaxTree.{
  Tree, blank, nil, identifier, integer, string, operator, tuple, if_expr, bracket, index, let_expr,
  Trees,
}
use pylinda.Value.{Value, Values}
use pylinda.Eval.{Run, value, crashed, ◌>>=◌, run}
use pylinda.Eval.Layers.{Names, no_names, get_map_name, or_above, add_map_name}
use pylinda.Eval.Operate.{Machine, Val, operate, add_value, get_item, variable, strlen, test}

-- expressions: no definitions, no calls and no sequences
abbrev mutual
  pub IsExpression : Tree → Type 0
  IsExpression blank = Unit
  IsExpression nil = Unit
  IsExpression (identifier s d) = Unit
  IsExpression (integer i) = Unit
  IsExpression (string s) = Unit
  IsExpression (operator op a b) = IsExpression a × IsExpression b
  IsExpression (tuple ts) = AreExpressions ts
  IsExpression (if_expr c t e) = IsExpression c × IsExpression t × IsExpression e
  IsExpression (bracket t) = IsExpression t
  IsExpression (index a b) = IsExpression a × IsExpression b
  IsExpression (let_expr v e c) = IsExpression e × IsExpression c
  IsExpression t = ⊥

  pub AreExpressions : Trees → Type 0
  AreExpressions Trees.end = Unit
  AreExpressions (Trees.next t ts) = IsExpression t × AreExpressions ts

-- the fuel that the evaluation needs
abbrev mutual
  pub weight : Tree → ℕ
  weight (operator op a b) = suc (weight a + weight b)
  weight (tuple ts) = suc (weights ts)
  weight (if_expr c t e) = suc (weight c + (weight t + weight e))
  weight (bracket t) = suc (weight t)
  weight (index a b) = suc (weight a + weight b)
  weight (let_expr v e c) = suc (weight e + weight c)
  weight t = 1

  pub weights : Trees → ℕ
  weights Trees.end = 0
  weights (Trees.next t ts) = weight t + weights ts

module _ (m : Machine) where
  -- what a name stands for
  abbrev pub Env : Type 0
  Env = String → Option (Val m)

  -- names before those of an environment
  unfoldable pub before : Names m.floats.F → Env → Env
  before names env name = or_above m.strcmp (get_map_name m.strcmp name names) (env name)

  unfoldable mutual
    pub denote : Tree → Env → Run (Option (Val m))
    denote blank env = value (some Value.nil)
    denote nil env = value (some Value.nil)
    denote (identifier name d) env = value (env name)
    denote (integer i) env = value (some (Value.integer i))
    denote (string text) env = value (some (Value.string text (suc (strlen text))))
    denote (operator op a b) env =
        denote a env >>= λ u. denote b env >>= λ v. run (operate m op u v)
    denote (tuple ts) env = denote_tuple ts Values.end env
    denote (if_expr c t e) env =
        denote c env >>= λ u. run (test m u) >>= λ b. if b then denote t env else denote e env
    denote (bracket t) env = denote t env
    denote (index a b) env = denote a env >>= λ u. denote b env >>= λ v. run (get_item m u v)
    denote (let_expr var e c) env = denote e env >>= λ u. run (variable var) >>= λ name.
        run (add_map_name m.strcmp name u no_names) >>= λ names. denote c (before names env)
    denote t env = crashed

    pub denote_tuple : Trees → Values m.floats.F → Env → Run (Option (Val m))
    denote_tuple Trees.end done env = value (some (Value.tuple done))
    denote_tuple (Trees.next t ts) done env =
        denote t env >>= λ v. denote_tuple ts (add_value m done v) env
