-- ===== src/Value/Compare.antt =====
-- `Minimal_Value_ge` and `Minimal_Value_eq` of minimal/src/value_funcs.c. The first is the test `>`.
use pylinda.Base.{
  String, Bool, true, false, not, Outcome, ok, crash, ◌>>=◌, ltb, ◌==◌, if◌then◌else◌,
}
use pylinda.Base.Int.{ℤ, is_one, is_zero, ltb_ℤ, eqb_ℤ}
use pylinda.Value.{
  Value, boolean, integer, uinteger, float, double, string, type_, tsref, tuple, sum, function,
  pointer, syntax_tree, built_in, Values, end, empty_slot, slot, rank, size,
}

-- The comparisons of the machine's floats.
pub record Floats : Type 1 where
  pub F : Type 0
  pub gt : F → F → Bool
  pub eq : F → F → Bool

abbrev pub bool_eq : Bool → Bool → Bool
bool_eq true b = b
bool_eq false b = not b

module _ (fl : Floats) (strcmp : String → String → ℤ) where
  open fl use {F, gt, eq}

  unfoldable mutual
    -- Values of different tags are never equal, and no two nils are.
    pub value_eq : Value F → Value F → Outcome Bool
    value_eq (boolean a) (boolean b) = ok (bool_eq a b)
    value_eq (integer a) (integer b) = ok (eqb_ℤ a b)
    value_eq (uinteger a) (uinteger b) = ok (a == b)
    value_eq (float a) (float b) = ok (eq a b)
    value_eq (double a) (double b) = ok (eq a b)
    value_eq (string a m) (string b n) = ok (is_zero (strcmp a b))
    value_eq (type_ a) (type_ b) = ok (a == b)
    value_eq (tsref a) (tsref b) = ok (is_zero (strcmp a b))
    value_eq (tuple xs) (tuple ys) =
        let items = items_eq xs ys in
        if ltb (size ys) (size xs)
        then ok false
        else if ltb (size xs) (size ys)
        then ok false
        else items
    value_eq (sum a i) (sum b j) = value_eq a b
    value_eq (function a) (function b) = ok (a == b)
    value_eq (pointer a) (pointer b) = ok (a == b)
    value_eq (syntax_tree a) (syntax_tree b) = ok (a == b)
    value_eq (built_in a) (built_in b) = ok (a == b)
    value_eq a b = ok false

    -- the loop over two arrays of one size: it returns 1 at the first pair that is equal
    pub items_eq : Values F → Values F → Outcome Bool
    items_eq (slot a xs) (slot b ys) =
        let rest = items_eq xs ys in
        let again = value_eq a b in
        value_eq a b >>= (λ first.
          if first then ok true else (again >>= (λ second. if not second then ok false else rest)))
    items_eq (slot a xs) (empty_slot ys) = crash
    items_eq (empty_slot xs) ys = crash
    items_eq end ys = ok false
    items_eq (slot a xs) end = ok false

  unfoldable mutual
    unfolding value_eq

    pub value_ge : Value F → Value F → Outcome Bool
    value_ge (boolean true) (boolean b) = ok (not b)
    value_ge (boolean false) (boolean b) = ok false
    value_ge (integer a) (integer b) = ok (ltb_ℤ b a)
    value_ge (uinteger a) (uinteger b) = ok (ltb b a)
    value_ge (float a) (float b) = ok (gt a b)
    value_ge (double a) (double b) = ok (gt a b)
    value_ge (string a m) (string b n) = ok (is_one (strcmp a b))
    value_ge (type_ a) (type_ b) = ok (ltb b a)
    value_ge (tsref a) (tsref b) = ok (is_one (strcmp a b))
    value_ge (tuple xs) (tuple ys) =
        let items = items_ge xs ys in
        if ltb (size ys) (size xs)
        then ok true
        else if ltb (size xs) (size ys)
        then ok false
        else items
    value_ge (sum a i) (sum b j) = value_ge a b
    value_ge (function a) (function b) = ok (ltb b a)
    value_ge (pointer a) (pointer b) = ok (ltb b a)
    value_ge (syntax_tree a) (syntax_tree b) = ok (ltb b a)
    value_ge (built_in a) (built_in b) = ok (ltb b a)
    value_ge a b = ok (ltb (rank b) (rank a))

    pub items_ge : Values F → Values F → Outcome Bool
    items_ge (slot a xs) (slot b ys) =
        let rest = items_ge xs ys in
        let equal = value_eq a b in
        value_ge a b >>= (λ greater.
          if greater then ok true else (equal >>= (λ same. if not same then ok false else rest)))
    items_ge (slot a xs) (empty_slot ys) = crash
    items_ge (empty_slot xs) ys = crash
    items_ge end ys = ok false
    items_ge (slot a xs) end = ok false
