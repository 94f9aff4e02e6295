-- ===== src/SyntaxTree/Zero.antt =====
-- What a zero of `Minimal_SyntaxTree_cmp` of minimal/src/syntax_tree.c tells of two trees.
use pylinda.Base.{ℕ, zero, suc, String, ◌≡◌, refl, ap, true, arith}
use pylinda.Base.Int.{ℤ, pos, negsuc, is_zero}
use pylinda.NameMap.Strcmp.{IsStrcmp}
use pylinda.SyntaxTree.{
  Tree, null, blank, nil, identifier, create_id, integer, string, sequence, type_spec,
  type_function, function_def, parameter_list, function_call, argument_list, operator, product_type,
  sum_type, tuple, pointer, if_expr, bracket, index, let_expr, Trees, end, next, size,
}
use pylinda.SyntaxTree.Compare.{or_else, integer_cmp, sized, cmp, branches_cmp}
use pylinda.SyntaxTree.Order.{chain_lem}

-- no let stands in the tree
unfoldable mutual
  pub HasNoLet : Tree → Type 0
  HasNoLet (let_expr a b c) = ⊥
  HasNoLet (sequence ts) = AllNoLet ts
  HasNoLet (type_spec n t) = HasNoLet t
  HasNoLet (type_function ts) = AllNoLet ts
  HasNoLet (function_def n t p b) = HasNoLet p × HasNoLet b
  HasNoLet (parameter_list n t) = HasNoLet t
  HasNoLet (function_call f a) = HasNoLet f × HasNoLet a
  HasNoLet (argument_list a t) = HasNoLet a × HasNoLet t
  HasNoLet (operator o a b) = HasNoLet a × HasNoLet b
  HasNoLet (product_type ts) = AllNoLet ts
  HasNoLet (sum_type ts) = AllNoLet ts
  HasNoLet (tuple ts) = AllNoLet ts
  HasNoLet (if_expr a b c) = HasNoLet a × HasNoLet b × HasNoLet c
  HasNoLet (bracket t) = HasNoLet t
  HasNoLet (index a b) = HasNoLet a × HasNoLet b
  HasNoLet _ = Unit

  pub AllNoLet : Trees → Type 0
  AllNoLet end = Unit
  AllNoLet (next t ts) = HasNoLet t × AllNoLet ts

-- a tree with the type specs of its function definitions and the ids of types, which are not compared,
-- blotted out
unfoldable mutual
  pub without_specs : Tree → Tree
  without_specs (sequence ts) = sequence (all_without ts)
  without_specs (type_spec n t) = type_spec n (without_specs t)
  without_specs (type_function ts) = type_function (all_without ts)
  without_specs (function_def n t p b) = function_def n null (without_specs p) (without_specs b)
  without_specs (parameter_list n t) = parameter_list n (without_specs t)
  without_specs (function_call f a) = function_call (without_specs f) (without_specs a)
  without_specs (argument_list a t) = argument_list (without_specs a) (without_specs t)
  without_specs (operator o a b) = operator o (without_specs a) (without_specs b)
  without_specs (product_type ts) = product_type (all_without ts)
  without_specs (sum_type ts) = sum_type (all_without ts)
  without_specs (tuple ts) = tuple (all_without ts)
  without_specs (if_expr a b c) = if_expr (without_specs a) (without_specs b) (without_specs c)
  without_specs (bracket t) = bracket (without_specs t)
  without_specs (index a b) = index (without_specs a) (without_specs b)
  without_specs (let_expr a b c) = let_expr (without_specs a) (without_specs b) (without_specs c)
  without_specs (identifier s d) = create_id s
  without_specs t = t

  pub all_without : Trees → Trees
  all_without end = end
  all_without (next t ts) = next (without_specs t) (all_without ts)

both : (c d : ℤ) → is_zero (or_else c d) ≡ true → (is_zero c ≡ true) × (is_zero d ≡ true)
both (pos zero) d h = (refl, h)
both (pos (suc n)) d h = cc
both (negsuc n) d h = cc

of_sized : (m n : ℕ) (c : ℤ) → is_zero (sized m n c) ≡ true → (m ≡ n) × (is_zero c ≡ true)
of_sized m n c h = ground arith

integer_zero : (i j : ℤ) → is_zero (integer_cmp i j) ≡ true → i ≡ j
integer_zero (pos i) (pos j) h = ground arith
integer_zero (pos i) (negsuc j) h = ground arith
integer_zero (negsuc i) (pos j) h = ground arith
integer_zero (negsuc i) (negsuc j) h = ground arith

module _ {strcmp : String → String → ℤ} (s : IsStrcmp strcmp) where
  mutual
    unfolding cmp HasNoLet without_specs

    same :
        (t u : Tree)
        → HasNoLet t
        → is_zero (cmp strcmp t u) ≡ true
        → without_specs t ≡ without_specs u
    same null null l z = refl
    same blank blank l z = refl
    same nil nil l z = refl
    same (identifier a d) (identifier b e) l z = ap create_id (s.eq_of_zero a b z)
    same (integer i) (integer j) l z = ap integer (integer_zero i j z)
    same (string a) (string b) l z = ap string (s.eq_of_zero a b z)
    same (sequence xs) (sequence ys) l z =
        let (e, w) = of_sized (size xs) (size ys) _ z in ap sequence (all_same xs ys l e w)
    same (type_spec m t) (type_spec n u) l z =
        let (p, q) = both (strcmp m n) _ z in rw (s.eq_of_zero m n p, same t u l q) refl
    same (type_function xs) (type_function ys) l z =
        let (e, w) = of_sized (size xs) (size ys) _ z in ap type_function (all_same xs ys l e w)
    same (function_def m t p a) (function_def n u q b) (k, l) z =
        let (x, r) = both (strcmp m n) _ z in
        let (y, w) = both (cmp strcmp p q) _ r in
        rw (s.eq_of_zero m n x, same p q k y, same a b l w) refl
    same (parameter_list m t) (parameter_list n u) l z =
        let (p, q) = both (strcmp m n) _ z in
        rw (s.eq_of_zero m n p, same t u l (rw (chain_lem s t u) at q)) refl
    same (function_call f a) (function_call g b) (k, l) z =
        let (p, q) = both (cmp strcmp f g) _ z in rw (same f g k p, same a b l q) refl
    same (argument_list a t) (argument_list b u) (k, l) z =
        let (p, q) = both (cmp strcmp a b) _ z in
        rw (same a b k p, same t u l (rw (chain_lem s t u) at q)) refl
    same (operator o a b) (operator p c d) (k, l) z =
        let (x, r) = both (strcmp o p) _ z in
        let (y, w) = both (cmp strcmp a c) _ r in
        rw (s.eq_of_zero o p x, same a c k y, same b d l w) refl
    same (product_type xs) (product_type ys) l z =
        let (e, w) = of_sized (size xs) (size ys) _ z in ap product_type (all_same xs ys l e w)
    same (sum_type xs) (sum_type ys) l z =
        let (e, w) = of_sized (size xs) (size ys) _ z in ap sum_type (all_same xs ys l e w)
    same (tuple xs) (tuple ys) l z =
        let (e, w) = of_sized (size xs) (size ys) _ z in ap tuple (all_same xs ys l e w)
    same (pointer a) (pointer b) l z = ap pointer (s.eq_of_zero a b z)
    same (if_expr a b c) (if_expr d e f) (k, l, m) z =
        let (x, r) = both (cmp strcmp a d) _ z in
        let (y, w) = both (cmp strcmp b e) _ r in rw (same a d k x, same b e l y, same c f m w) refl
    same (bracket t) (bracket u) l z = ap bracket (same t u l z)
    same (index a b) (index c d) (k, l) z =
        let (p, q) = both (cmp strcmp a c) _ z in rw (same a c k p, same b d l q) refl
    same (let_expr a b c) u l z = absurd l
    same t u l z = cc

    all_same :
        (xs ys : Trees)
        → AllNoLet xs
        → size xs ≡ size ys
        → is_zero (branches_cmp strcmp xs ys) ≡ true
        → all_without xs ≡ all_without ys
    all_same end end l e z = refl
    all_same end (next u ys) l e z = ground arith
    all_same (next t xs) end l e z = ground arith
    all_same (next t xs) (next u ys) (k, l) e z =
        let (p, q) = both (cmp strcmp t u) _ z in
        rw (same t u k p, all_same xs ys l (omega arith) q) refl

  -- Trees without a let that compare equal are equal but for the type specs of function definitions
  -- and the ids of types that identifiers may have.
  pub cmp-eq_of_zero :
      (t u : Tree)
      → HasNoLet t
      → is_zero (cmp strcmp t u) ≡ true
      → without_specs t ≡ without_specs u
  cmp-eq_of_zero t u l z = same t u l z
