-- ===== src/Value/Order.antt =====
-- What the comparisons of minimal/src/value_funcs.c decide.
use pylinda.Base.{
  zero, suc, String, ◌≡◌, refl, Bool, true, false, not, Outcome, ok, crash, exited, ap, ◌>>=◌, ◌==◌,
  if◌then◌else◌, arith,
}
use pylinda.Base.Int.{ℤ, pos, negsuc, is_one, is_zero, ltb_ℤ, eqb_ℤ}
use pylinda.Value.{
  Value, nil, boolean, integer, uinteger, float, double, string, type_, tsref, tuple, sum, function,
  pointer, syntax_tree, built_in, Values, end, empty_slot, slot, size,
}
use pylinda.Value.Compare.{Floats, bool_eq, value_eq, items_eq, value_ge, items_ge}

-- a second look at one comparison adds nothing
look_again :
    (o rest : Outcome Bool)
    → (o >>= (λ first.
        if first then ok true else (o >>= (λ second. if not second then ok false else rest))))
      ≡ o
look_again (ok true) rest = refl
look_again (ok false) rest = refl
look_again exited rest = refl
look_again crash rest = refl

no_greater :
    {g e rest : Outcome Bool}
    → g ≡ ok false
    → (r : Bool) × (e ≡ ok r)
    → rest ≡ ok false
    → (g >>= (λ greater.
        if greater then ok true else (e >>= (λ same. if not same then ok false else rest))))
      ≡ ok false
no_greater g (true, e) rest = rw (g, e) rest
no_greater g (false, e) rest = rw (g, e) refl

eqb_refl : (a : ℤ) → eqb_ℤ a a ≡ true
eqb_refl (pos n) = ground arith
eqb_refl (negsuc n) = ground arith

irrefl_ℤ : (a : ℤ) → ltb_ℤ a a ≡ false
irrefl_ℤ a = ground arith

lt_asym : (a b : ℤ) → ltb_ℤ a b ≡ true → ltb_ℤ b a ≡ false
lt_asym a b h = ground arith

lt_ne : (a b : ℤ) → ltb_ℤ a b ≡ true → eqb_ℤ a b ≡ false
lt_ne (pos a) (pos b) h = ground arith
lt_ne (pos a) (negsuc b) h = refl
lt_ne (negsuc a) (pos b) h = refl
lt_ne (negsuc a) (negsuc b) h = ground arith

zero_not_one : (c : ℤ) → is_zero c ≡ true → is_one c ≡ false
zero_not_one (pos zero) h = refl
zero_not_one (pos (suc n)) h = cc
zero_not_one (negsuc n) h = refl

module _ (fl : Floats) (strcmp : String → String → ℤ) where
  open fl use {F, gt, eq}

  abbrev pair : Value F → Value F → Value F
  pair a b = tuple (slot a (slot b end))

  abbrev pub nested : ℤ → ℤ → ℤ → Value F
  nested k i j = pair (pair (integer k) (integer i)) (integer j)

  -- the equality of the first elements of two arrays
  unfoldable pub first_eq : Values F → Values F → Outcome Bool
  first_eq (slot a xs) (slot b ys) = value_eq fl strcmp a b
  first_eq (slot a xs) (empty_slot ys) = crash
  first_eq (slot a xs) end = ok false
  first_eq (empty_slot xs) ys = crash
  first_eq end ys = ok false

  items_eq-first : (xs ys : Values F) → items_eq fl strcmp xs ys ≡ first_eq xs ys
  unfolding items_eq first_eq
  items_eq-first (slot a xs) (slot b ys) =
      look_again (value_eq fl strcmp a b) (items_eq fl strcmp xs ys)
  items_eq-first (slot a xs) (empty_slot ys) = refl
  items_eq-first (slot a xs) end = refl
  items_eq-first (empty_slot xs) ys = refl
  items_eq-first end ys = refl

  -- Two tuples of one size are equal when their first elements are, whatever the others are; two
  -- empty tuples are not equal.
  pub value_eq-tuple :
      (xs ys : Values F)
      → size xs ≡ size ys
      → value_eq fl strcmp (tuple xs) (tuple ys) ≡ first_eq xs ys
  unfolding value_eq
  value_eq-tuple xs ys h = ground (arith, items_eq-first xs ys)

  unfoldable mutual
    -- no slot of a tuple is NULL
    pub IsFull : Value F → Type 0
    IsFull (tuple xs) = AllFull xs
    IsFull (sum v i) = IsFull v
    IsFull _ = Unit

    pub AllFull : Values F → Type 0
    AllFull end = Unit
    AllFull (empty_slot xs) = ⊥
    AllFull (slot v xs) = IsFull v × AllFull xs

  mutual
    unfolding value_eq first_eq IsFull AllFull

    self_eq : (v : Value F) → IsFull v → (r : Bool) × (value_eq fl strcmp v v ≡ ok r)
    self_eq nil p = (false, refl)
    self_eq (boolean b) p = (bool_eq b b, refl)
    self_eq (integer i) p = (eqb_ℤ i i, refl)
    self_eq (uinteger n) p = (n == n, refl)
    self_eq (float f) p = (eq f f, refl)
    self_eq (double f) p = (eq f f, refl)
    self_eq (string s n) p = (is_zero (strcmp s s), refl)
    self_eq (type_ a) p = (a == a, refl)
    self_eq (tsref s) p = (is_zero (strcmp s s), refl)
    self_eq (tuple xs) p = rw (value_eq-tuple xs xs refl) (self_first xs p)
    self_eq (sum v i) p = self_eq v p
    self_eq (function a) p = (a == a, refl)
    self_eq (pointer a) p = (a == a, refl)
    self_eq (syntax_tree a) p = (a == a, refl)
    self_eq (built_in a) p = (a == a, refl)

    self_first : (xs : Values F) → AllFull xs → (r : Bool) × (first_eq xs xs ≡ ok r)
    self_first end p = (false, refl)
    self_first (empty_slot xs) p = absurd p
    self_first (slot v xs) (p, q) = self_eq v p

  module _ (gt_irrefl : (f : F) → gt f f ≡ false)
      (strcmp_same : (s : String) → is_zero (strcmp s s) ≡ true) where
    mutual
      unfolding value_ge IsFull AllFull

      ge_self : (v : Value F) → IsFull v → value_ge fl strcmp v v ≡ ok false
      ge_self nil p = refl
      ge_self (boolean true) p = refl
      ge_self (boolean false) p = refl
      ge_self (integer i) p = ground arith
      ge_self (uinteger n) p = ground arith
      ge_self (float f) p = ap ok (gt_irrefl f)
      ge_self (double f) p = ap ok (gt_irrefl f)
      ge_self (string s n) p = ap ok (zero_not_one (strcmp s s) (strcmp_same s))
      ge_self (type_ a) p = ground arith
      ge_self (tsref s) p = ap ok (zero_not_one (strcmp s s) (strcmp_same s))
      ge_self (tuple xs) p = ground (arith, items_irrefl xs p)
      ge_self (sum v i) p = ge_self v p
      ge_self (function a) p = ground arith
      ge_self (pointer a) p = ground arith
      ge_self (syntax_tree a) p = ground arith
      ge_self (built_in a) p = ground arith

      items_irrefl : (xs : Values F) → AllFull xs → items_ge fl strcmp xs xs ≡ ok false
      items_irrefl end p = refl
      items_irrefl (empty_slot xs) p = absurd p
      items_irrefl (slot v xs) (p, q) = no_greater (ge_self v p) (self_eq v p) (items_irrefl xs q)

    -- Minimal_Value_ge of a value and itself is 0, when no slot of the value is NULL, no float is
    -- greater than itself and strcmp of a string with itself is 0.
    pub value_ge_irrefl : (v : Value F) → IsFull v → value_ge fl strcmp v v ≡ ok false
    value_ge_irrefl v p = ge_self v p

  -- The test `>` holds both ways between (k, i), j and (k, j), i where i < j.
  pub value_ge-both :
      (k i j : ℤ)
      → ltb_ℤ i j ≡ true
      → (value_ge fl strcmp (nested k i j) (nested k j i) ≡ ok true)
        × (value_ge fl strcmp (nested k j i) (nested k i j) ≡ ok true)
  unfolding value_ge value_eq
  value_ge-both k i j h = rw (irrefl_ℤ k, eqb_refl k, h, lt_asym i j h, lt_ne i j h) (refl, refl)
