-- ===== src/SyntaxTree/Equal.antt =====
-- Which trees `Minimal_SyntaxTree_cmp` of minimal/src/syntax_tree.c calls equal.
use pylinda.Base.{ℕ, zero, suc, String, ◌≡◌, refl, ◌∙◌, true, arith}
use pylinda.Base.Int.{ℤ, pos, negsuc, is_zero}
use pylinda.NameMap.Strcmp.{IsStrcmp}
use pylinda.SyntaxTree.{
  Tree, null, blank, nil, identifier, integer, string, sequence, type_spec, type_function,
  function_def, parameter_list, function_call, argument_list, operator, product_type, sum_type,
  tuple, pointer, if_expr, bracket, index, let_expr, Trees, end, next, size,
}
use pylinda.SyntaxTree.Compare.{integer_cmp, chain_cmp, sized, cmp, branches_cmp}

zero_of : (c : ℤ) → is_zero c ≡ true → c ≡ pos 0
zero_of (pos zero) h = refl
zero_of (pos (suc n)) h = cc
zero_of (negsuc n) h = cc

sized_self : (n : ℕ) (c : ℤ) → sized n n c ≡ c
sized_self n c = ground arith

integer_self : (i : ℤ) → integer_cmp i i ≡ pos 0
integer_self (pos n) = ground arith
integer_self (negsuc n) = ground arith

chain_self : (t : Tree) → chain_cmp t t (pos 0) ≡ pos 0
chain_self null = refl
chain_self _ = refl

module _ {strcmp : String → String → ℤ} (s : IsStrcmp strcmp) where
  text_self : (a : String) → strcmp a a ≡ pos 0
  text_self a = zero_of (strcmp a a) (s.same a)

  mutual
    unfolding cmp

    self : (t : Tree) → cmp strcmp t t ≡ pos 0
    self null = refl
    self blank = refl
    self nil = refl
    self (identifier n d) = text_self n
    self (integer i) = integer_self i
    self (string n) = text_self n
    self (sequence ts) = sized_self (size ts) _ ∙ branches_self ts
    self (type_spec n t) = rw (text_self n, self t) refl
    self (type_function ts) = sized_self (size ts) _ ∙ branches_self ts
    self (function_def n t p b) = rw (text_self n, self p, self b) refl
    self (parameter_list n t) = rw (text_self n, self t) (chain_self t)
    self (function_call f a) = rw (self f, self a) refl
    self (argument_list a t) = rw (self a, self t) (chain_self t)
    self (operator o a b) = rw (text_self o, self a, self b) refl
    self (product_type ts) = sized_self (size ts) _ ∙ branches_self ts
    self (sum_type ts) = sized_self (size ts) _ ∙ branches_self ts
    self (tuple ts) = sized_self (size ts) _ ∙ branches_self ts
    self (pointer n) = text_self n
    self (if_expr a b c) = rw (self a, self b, self c) refl
    self (bracket t) = self t
    self (index a b) = rw (self a, self b) refl
    self (let_expr a b c) = rw (self a) refl

    branches_self : (ts : Trees) → branches_cmp strcmp ts ts ≡ pos 0
    branches_self end = refl
    branches_self (next t ts) = rw (self t, branches_self ts) refl

  -- A tree compares equal to itself.
  pub cmp_self : (t : Tree) → cmp strcmp t t ≡ pos 0
  cmp_self t = self t

  -- Two lets of one variable compare equal, whatever they bind it to and do with it.
  pub cmp-let_expr :
      (var expr1 code1 expr2 code2 : Tree)
      → cmp strcmp (let_expr var expr1 code1) (let_expr var expr2 code2) ≡ pos 0
  unfolding cmp
  cmp-let_expr var expr1 code1 expr2 code2 = rw (self var) refl
