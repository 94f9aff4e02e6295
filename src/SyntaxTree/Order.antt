-- ===== src/SyntaxTree/Order.antt =====
-- The sign of `Minimal_SyntaxTree_cmp` of minimal/src/syntax_tree.c, and what its zero tells.
use pylinda.Base.{ℕ, zero, suc, String, ◌≡◌, refl, true, false, ltb, Bool-cases, inl, inr, arith}
use pylinda.Base.Int.{ℤ, pos, negsuc, is_zero, is_neg, is_pos}
use pylinda.NameMap.Strcmp.{IsStrcmp}
use pylinda.SyntaxTree.{
  Tree, null, blank, nil, identifier, integer, string, sequence, type_spec, type_function,
  function_def, parameter_list, function_call, argument_list, operator, product_type, sum_type,
  tuple, pointer, if_expr, bracket, index, let_expr, Trees, end, next, size,
}
use pylinda.SyntaxTree.Compare.{or_else, integer_cmp, chain_cmp, sized, let_cmp, cmp, branches_cmp}

-- `c` and `d` have opposite signs, or both are zero
pub record AreOpposite (c d : ℤ) : Type 0 where
  pub zero_zero : is_zero c ≡ is_zero d
  pub neg_pos : is_neg c ≡ is_pos d
  pub pos_neg : is_pos c ≡ is_neg d

both_zero : AreOpposite (pos 0) (pos 0)
both_zero = record { zero_zero = refl; neg_pos = refl; pos_neg = refl }

below : AreOpposite (negsuc 0) (pos 1)
below = record { zero_zero = refl; neg_pos = refl; pos_neg = refl }

above : AreOpposite (pos 1) (negsuc 0)
above = record { zero_zero = refl; neg_pos = refl; pos_neg = refl }

or_else-AreOpposite :
    {a b c d : ℤ} → AreOpposite a b → AreOpposite c d → AreOpposite (or_else a c) (or_else b d)
or_else-AreOpposite {a} {b} {c} {d} p q = elim (Bool-cases (is_zero b)) [
  | inl e ↦ rw (p.zero_zero, e) q
  | inr e ↦ rw (p.zero_zero, e) p
]

let_cmp-AreOpposite :
    {a b c d e f : ℤ}
    → AreOpposite a b
    → AreOpposite c d
    → AreOpposite e f
    → AreOpposite (let_cmp a c e) (let_cmp b d f)
let_cmp-AreOpposite {a} {b} {c} {d} p q r = elim (Bool-cases (is_zero b)) [
  | inl x ↦ rw (p.zero_zero, x) p
  | inr x ↦ elim (Bool-cases (is_zero d)) [
    | inl y ↦ rw (p.zero_zero, x, q.zero_zero, y) q
    | inr y ↦ rw (p.zero_zero, x, q.zero_zero, y) r
  ]
]

sized-AreOpposite : (m n : ℕ) {c d : ℤ} → AreOpposite c d → AreOpposite (sized m n c) (sized n m d)
sized-AreOpposite m n p = elim (Bool-cases (ltb m n)) [
  | inl x ↦ rw (x, not_both m n x) below
  | inr x ↦ elim (Bool-cases (ltb n m)) [ inl y ↦ rw (x, y) above | inr y ↦ rw (x, y) p ]
]
  where
    not_both : (m n : ℕ) → ltb m n ≡ true → ltb n m ≡ false
    not_both m n h = ground arith

integer-AreOpposite : (i j : ℤ) → AreOpposite (integer_cmp i j) (integer_cmp j i)
integer-AreOpposite (pos i) (pos j) = ground arith
integer-AreOpposite (pos i) (negsuc j) = ground arith
integer-AreOpposite (negsuc i) (pos j) = ground arith
integer-AreOpposite (negsuc i) (negsuc j) = ground arith

opposite_of :
    (c d : ℤ)
    → (is_zero c ≡ true → is_zero d ≡ true)
    → (is_neg c ≡ true → is_pos d ≡ true)
    → (is_pos c ≡ true → is_neg d ≡ true)
    → AreOpposite c d
opposite_of (pos zero) d z n p = only_zero d (z refl)
  where
    only_zero : (d : ℤ) → is_zero d ≡ true → AreOpposite (pos 0) d
    only_zero (pos zero) h = both_zero
    only_zero (pos (suc m)) h = cc
    only_zero (negsuc m) h = cc
opposite_of (negsuc k) d z n p = only_pos d (n refl)
  where
    only_pos : (d : ℤ) → is_pos d ≡ true → AreOpposite (negsuc k) d
    only_pos (pos zero) h = cc
    only_pos (pos (suc m)) h = record { zero_zero = refl; neg_pos = refl; pos_neg = refl }
    only_pos (negsuc m) h = cc
opposite_of (pos (suc k)) d z n p = only_neg d (p refl)
  where
    only_neg : (d : ℤ) → is_neg d ≡ true → AreOpposite (pos (suc k)) d
    only_neg (pos m) h = cc
    only_neg (negsuc m) h = record { zero_zero = refl; neg_pos = refl; pos_neg = refl }

module _ {strcmp : String → String → ℤ} (s : IsStrcmp strcmp) where
  text-AreOpposite : (a b : String) → AreOpposite (strcmp a b) (strcmp b a)
  text-AreOpposite a b =
      opposite_of (strcmp a b) (strcmp b a)
        (λ z. let same : a ≡ b = s.eq_of_zero a b z in rw same (s.same b)) (s.pos_of_neg a b)
        (s.neg_of_pos a b)

  pub chain_lem : (t u : Tree) → chain_cmp t u (cmp strcmp t u) ≡ cmp strcmp t u
  unfolding cmp
  chain_lem null null = refl
  chain_lem null u = refl
  chain_lem t u = refl

  mutual
    unfolding cmp

    opposite : (t u : Tree) → AreOpposite (cmp strcmp t u) (cmp strcmp u t)
    opposite null null = both_zero
    opposite blank blank = both_zero
    opposite nil nil = both_zero
    opposite (identifier a d) (identifier b e) = text-AreOpposite a b
    opposite (integer i) (integer j) = integer-AreOpposite i j
    opposite (string a) (string b) = text-AreOpposite a b
    opposite (sequence xs) (sequence ys) =
        sized-AreOpposite (size xs) (size ys) (branches_opposite xs ys)
    opposite (type_spec m t) (type_spec n u) =
        or_else-AreOpposite (text-AreOpposite m n) (opposite t u)
    opposite (type_function xs) (type_function ys) =
        sized-AreOpposite (size xs) (size ys) (branches_opposite xs ys)
    opposite (function_def m t p a) (function_def n u q b) =
        or_else-AreOpposite (text-AreOpposite m n)
          (or_else-AreOpposite (opposite p q) (opposite a b))
    opposite (parameter_list m t) (parameter_list n u) =
        rw (chain_lem t u, chain_lem u t)
          (or_else-AreOpposite (text-AreOpposite m n) (opposite t u))
    opposite (function_call f a) (function_call g b) =
        or_else-AreOpposite (opposite f g) (opposite a b)
    opposite (argument_list a t) (argument_list b u) =
        rw (chain_lem t u, chain_lem u t) (or_else-AreOpposite (opposite a b) (opposite t u))
    opposite (operator o a b) (operator p c d) =
        or_else-AreOpposite (text-AreOpposite o p)
          (or_else-AreOpposite (opposite a c) (opposite b d))
    opposite (product_type xs) (product_type ys) =
        sized-AreOpposite (size xs) (size ys) (branches_opposite xs ys)
    opposite (sum_type xs) (sum_type ys) =
        sized-AreOpposite (size xs) (size ys) (branches_opposite xs ys)
    opposite (tuple xs) (tuple ys) = sized-AreOpposite (size xs) (size ys) (branches_opposite xs ys)
    opposite (pointer a) (pointer b) = text-AreOpposite a b
    opposite (if_expr a b c) (if_expr d e f) =
        or_else-AreOpposite (opposite a d) (or_else-AreOpposite (opposite b e) (opposite c f))
    opposite (bracket t) (bracket u) = opposite t u
    opposite (index a b) (index c d) = or_else-AreOpposite (opposite a c) (opposite b d)
    opposite (let_expr a b c) (let_expr d e f) =
        let_cmp-AreOpposite (opposite a d) (opposite b e) (opposite c f)
    opposite t u = record { zero_zero = refl; neg_pos = refl; pos_neg = refl }

    branches_opposite :
        (xs ys : Trees) → AreOpposite (branches_cmp strcmp xs ys) (branches_cmp strcmp ys xs)
    branches_opposite (next t xs) (next u ys) =
        or_else-AreOpposite (opposite t u) (branches_opposite xs ys)
    branches_opposite end end = both_zero
    branches_opposite (next t xs) end = both_zero
    branches_opposite end (next u ys) = both_zero

  -- Swapping two trees turns the sign of their comparison, and keeps a zero.
  pub cmp_swap : (t u : Tree) → AreOpposite (cmp strcmp t u) (cmp strcmp u t)
  cmp_swap t u = opposite t u
