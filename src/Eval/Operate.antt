-- ===== src/Eval/Operate.antt =====
-- The values that minimal/src/evaluate.c computes by minimal/src/value_funcs.c and minimal/src/values.c.
use pylinda.Base.{
  ℕ, zero, suc, ◌+◌, ◌/◌, ◌==◌, String, Bool, true, false, not, Option, none, some, List, Outcome,
  ok, exited, crash, if◌then◌else◌, str_eq,
}
use pylinda.Base.Int.{ℤ, pos, negsuc, ◌+ℤ◌, ◌-ℤ◌, ◌*ℤ◌, is_zero, eqb_ℤ}
use pylinda.SyntaxTree.{Tree, identifier, string}
use pylinda.Value
use pylinda.Value.{Value, Values, empty_slot, slot}
use pylinda.Value.Compare.{Floats, value_ge}
use pylinda.Value.Numbers.{Kind, signed, residue, modulus}
use pylinda.Eval.{Run}

abbrev pub strlen : String → ℕ
strlen String.[] = 0
strlen (String.◌∷◌ c s) = suc (strlen s)

-- the result of an operation on `int`, which wraps
abbrev pub as_int : ℤ → ℤ
as_int i = signed (modulus Kind.int) (residue (modulus Kind.int) i)

-- division of `int`, toward 0
unfoldable pub quotient : ℤ → ℤ → ℤ
quotient (pos a) b = elim b [ pos n ↦ pos (a / n) | negsuc n ↦ pos 0 -ℤ pos (a / suc n) ]
quotient (negsuc a) b = elim b [ pos n ↦ pos 0 -ℤ pos (suc a / n) | negsuc n ↦ pos (suc a / suc n) ]

-- the sums of the machine's floats
pub record Arithmetic (F : Type 0) : Type 0 where
  pub add : F → F → F
  pub sub : F → F → F
  pub mul : F → F → F
  pub div : F → F → F
  pub is_zero_float : F → Bool

-- the text of the variable of a let
unfoldable pub variable : Tree → Outcome String
variable (identifier s d) = ok s
variable (string s) = ok s
variable t = crash

abbrev pub choose : Bool → Tree → Tree → Tree
choose b t e = if b then t else e

-- the test for NULL
abbrev pub unless_null : {A B : Type 0} → Option A → Run B → (A → Run B) → Run B
unless_null none m f = m
unless_null (some a) m f = f a

-- what the evaluation needs of the machine: floats, `strcmp`, and the built-in functions that are
-- called through pointers
pub record Machine : Type 1 where
  pub floats : Floats
  pub arithmetic : Arithmetic floats.F
  pub strcmp : String → String → ℤ
  pub native : ℕ → List (Option (Value floats.F)) → Outcome (Option (Value floats.F))

module _ (m : Machine) where
  abbrev pub Val : Type 0
  Val = Value m.floats.F

  -- the test of two operands; NULL is read
  unfoldable pub add_values : Option Val → Option Val → Outcome (Option Val)
  unfolding ◌+ℤ◌
  add_values (some (Value.integer i)) (some (Value.integer j)) =
      ok (some (Value.integer (as_int (as_int i +ℤ as_int j))))
  add_values (some (Value.float f)) (some (Value.float g)) =
      ok (some (Value.float (m.arithmetic.add f g)))
  add_values (some (Value.string a m)) (some (Value.string b n)) =
      ok (some (Value.string a (m + n)))
  add_values (some a) (some b) = ok none
  add_values a b = crash

  unfoldable pub sub_values : Option Val → Option Val → Outcome (Option Val)
  unfolding ◌-ℤ◌
  sub_values (some (Value.integer i)) (some (Value.integer j)) =
      ok (some (Value.integer (as_int (as_int i -ℤ as_int j))))
  sub_values (some (Value.float f)) (some (Value.float g)) =
      ok (some (Value.float (m.arithmetic.sub f g)))
  sub_values (some a) (some b) = ok none
  sub_values a b = crash

  unfoldable pub mul_values : Option Val → Option Val → Outcome (Option Val)
  unfolding ◌*ℤ◌
  mul_values (some (Value.integer i)) (some (Value.integer j)) =
      ok (some (Value.integer (as_int (as_int i *ℤ as_int j))))
  mul_values (some (Value.float f)) (some (Value.float g)) =
      ok (some (Value.float (m.arithmetic.mul f g)))
  mul_values (some a) (some b) = ok none
  mul_values a b = crash

  -- a result that no `int` holds ends the process, as a division by 0 does
  abbrev in_int : ℤ → Outcome (Option Val)
  in_int q = if eqb_ℤ (as_int q) q then ok (some (Value.integer q)) else crash

  unfoldable pub div_values : Option Val → Option Val → Outcome (Option Val)
  unfolding quotient
  div_values (some (Value.integer i)) (some (Value.integer j)) =
      if is_zero (as_int j) then crash else in_int (quotient (as_int i) (as_int j))
  div_values (some (Value.float f)) (some (Value.float g)) =
      ok (some (Value.float (m.arithmetic.div f g)))
  div_values (some a) (some b) = ok none
  div_values a b = crash

  unfoldable pub greater : Option Val → Option Val → Outcome (Option Val)
  unfolding value_ge
  greater (some a) (some b) = elim (value_ge m.floats m.strcmp a b) [
    | ok g ↦ ok (some (Value.boolean g))
    | exited ↦ exited
    | crash ↦ crash
  ]
  greater a b = crash

  -- the chain of comparisons with the operator, and the references that are given up after it
  unfoldable pub operate : String → Option Val → Option Val → Outcome (Option Val)
  unfolding add_values sub_values mul_values div_values greater
  operate op a b =
      if str_eq op "+"
      then add_values a b
      else if str_eq op "-"
      then sub_values a b
      else if str_eq op "*"
      then mul_values a b
      else if str_eq op "/"
      then div_values a b
      else if str_eq op ">"
      then greater a b
      else exited

  -- `Minimal_isTrue`
  unfoldable pub is_true : Val → Bool
  is_true Value.nil = false
  is_true (Value.boolean b) = b
  is_true (Value.integer i) = not (is_zero i)
  is_true (Value.uinteger n) = not (n == 0)
  is_true (Value.float f) = not (m.arithmetic.is_zero_float f)
  is_true (Value.double f) = not (m.arithmetic.is_zero_float f)
  is_true (Value.string s n) = not (n == 0)
  is_true (Value.tuple vs) = not (Value.size vs == 0)
  is_true (Value.sum v i) = is_true v
  is_true (Value.pointer a) = not (a == 0)
  is_true v = true

  abbrev pub test : Option Val → Outcome Bool
  test none = crash
  test (some v) = ok (is_true v)

  -- `Minimal_tupleGet`, at a position in the tuple
  unfoldable pub get_slot : ℕ → Values m.floats.F → Outcome (Option Val)
  get_slot i Values.end = ok none
  get_slot zero (empty_slot vs) = crash
  get_slot zero (slot v vs) = ok (some v)
  get_slot (suc i) (empty_slot vs) = get_slot i vs
  get_slot (suc i) (slot v vs) = get_slot i vs

  -- a position that is not in the tuple gives NULL
  unfoldable pub item_at : Val → ℤ → Outcome (Option Val)
  unfolding get_slot
  item_at (Value.tuple vs) (pos i) = get_slot i vs
  item_at v i = ok none

  -- `Minimal_getItem` at `Minimal_getLong` of the index
  unfoldable pub get_item : Option Val → Option Val → Outcome (Option Val)
  unfolding item_at
  get_item (some v) (some (Value.integer i)) = item_at v (as_int i)
  get_item (some v) (some (Value.uinteger n)) = item_at v (as_int (pos n))
  get_item v i = crash

  -- `Minimal_tupleAdd`
  unfoldable pub add_value : Values m.floats.F → Option Val → Values m.floats.F
  add_value Values.end none = empty_slot Values.end
  add_value Values.end (some v) = slot v Values.end
  add_value (empty_slot vs) v = empty_slot (add_value vs v)
  add_value (slot u vs) v = slot u (add_value vs v)
