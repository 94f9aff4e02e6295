-- ===== src/Eval.antt =====
-- minimal/src/evaluate.c and minimal/src/layer.c: the evaluator of the Minimal language and the layers
-- of names that it works on. Counts of references are left out.
pub mod Layers
pub mod Operate
pub mod Node
pub mod Fuel
pub mod Denote
pub mod Agree
pub mod Call
mod Examples
use pylinda.Base.{ℕ, String, List, Outcome, ok, exited, crash, Option}
use pylinda.NameMap.{NameMap}
use pylinda.SyntaxTree.{Tree}
use pylinda.Value.{Value}

-- a call that returns, or that ends the process, crashes or has no fuel left
pub data Run {ℓ} (A : Type ℓ) : Type ℓ where
  value : A → Run A
  stopped : Run A
  crashed : Run A
  starved : Run A

infixl 5 ◌>>=◌
abbrev pub ◌>>=◌ {ℓ κ} : {A : Type ℓ} {B : Type κ} → Run A → (A → Run B) → Run B
value a >>= f = f a
stopped >>= f = stopped
crashed >>= f = crashed
starved >>= f = starved

abbrev pub run {ℓ} : {A : Type ℓ} → Outcome A → Run A
run (ok a) = value a
run exited = stopped
run crash = crashed

-- `struct MinimalLayer_t`, with its names as the tree of minimal/src/syntax_map.c
pub record EvalLayer (F : Type 0) : Type 0 where
  pub names : NameMap (Value F)
  pub parent : Option ℕ

-- what stands at the addresses of functions, types and built-in functions
pub data Thing : Type 0 where
  function_at : (func_name : String) → (parameter_list code : Tree) → (layer : ℕ) → Thing
  type_at : (type_name : String) → (type_spec : Tree) → Thing
  built_in_at : (arg_count : ℕ) → Thing

-- The address of a layer, and of another object, is the number of those made before it; the newest
-- stands first.
pub record Store (F : Type 0) : Type 0 where
  pub layers : List (EvalLayer F)
  pub things : List Thing
