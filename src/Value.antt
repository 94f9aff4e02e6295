-- ===== src/Value.antt =====
-- minimal/src/values.c and value_funcs.c: the values of the Minimal language. A value of a type that
-- is compared by address carries its address. `F` stands for the machine's floats.
pub mod Compare
pub mod Order
pub mod Tuple
pub mod Text
pub mod Numbers
mod Examples
use pylinda.Base.{ℕ, zero, suc, String, Bool, true, false, Option, none, some}
use pylinda.Base.Int.{ℤ}

mutual
  -- `struct MinimalValue_t` by its tag
  pub data Value (F : Type 0) : Type 0 where
    nil : Value F
    boolean : Bool → Value F
    integer : ℤ → Value F
    uinteger : ℕ → Value F
    float : F → Value F
    double : F → Value F
    string : (chars : String) → (length : ℕ) → Value F
    type_ : (address : ℕ) → Value F
    tsref : String → Value F
    tuple : Values F → Value F
    sum : Value F → (sum_pos : ℤ) → Value F
    function : (address : ℕ) → Value F
    pointer : (address : ℕ) → Value F
    syntax_tree : (address : ℕ) → Value F
    built_in : (address : ℕ) → Value F

  -- the array of a tuple, whose slots may be NULL
  pub data Values (F : Type 0) : Type 0 where
    end : Values F
    empty_slot : Values F → Values F
    slot : Value F → Values F → Values F

-- the position of the tag in the enumeration
abbrev pub rank : {F : Type 0} → Value F → ℕ
rank nil = 0
rank (boolean b) = 1
rank (integer i) = 2
rank (uinteger n) = 3
rank (float f) = 4
rank (double f) = 5
rank (string s n) = 6
rank (type_ a) = 7
rank (tsref s) = 8
rank (tuple vs) = 9
rank (sum v i) = 10
rank (function a) = 11
rank (pointer a) = 12
rank (syntax_tree a) = 13
rank (built_in a) = 14

abbrev pub size : {F : Type 0} → Values F → ℕ
size end = 0
size (empty_slot vs) = suc (size vs)
size (slot v vs) = suc (size vs)
