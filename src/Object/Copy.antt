-- ===== src/Object/Copy.antt =====
-- `Minimal_SyntaxTree_copy` of minimal/src/syntax_tree.c, and what a copy holds. The id of a type, which
-- is copied as a text, is left out of nodes.
use pylinda.Base.{
  String, ℕ, zero, suc, ◌≡◌, refl, Option, none, some, List, [], ◌∷◌, Outcome, ok, crash, ◌>>=◌,
}
use pylinda.Base.Int.{ℤ}
use pylinda.Object.Node.{
  Node, blank, nil, identifier, integer, string, sequence, type_spec, type_function, function_def,
  parameter_list, function_call, argument_list, operator, product_type, sum_type, tuple, pointer,
  if_expr, bracket, index, let_expr, node_references,
}

-- `Minimal_addReference` of each in turn reads the objects
abbrev pub add_references : List ℕ → Outcome (List ℕ)
add_references [] = ok []
add_references (zero ∷ ps) = crash
add_references (suc p ∷ ps) = add_references ps >>= (λ qs. ok (suc p ∷ qs))

-- What memory holds that is read, or left, as it was found. Of the copy these are the count of
-- references, the kind of object that the collector tells it by, and the type spec; and, of a bracket
-- that is copied, the first word, which a bracket does not use.
pub record Memory : Type 0 where
  pub ref_count : ℤ
  pub value_type : ℕ
  pub type_spec : ℕ
  pub first_word : ℕ

-- what malloc and the switch make
pub record NewNode : Type 0 where
  pub ref_count : ℤ
  pub value_type : ℕ
  pub node : Node

abbrev pub raw : Memory → Node → NewNode
raw m n = record { ref_count = m.ref_count; value_type = m.value_type; node = n }

-- the copy and the references that it takes
abbrev pub Copied : Type 0
Copied = Outcome (Option NewNode × List ℕ)

abbrev pub take_all : Memory → Node → List ℕ → Copied
take_all m n ps = add_references ps >>= (λ qs. ok (some (raw m n), qs))

-- `return NULL`, with the references taken
abbrev pub returned : List ℕ → Copied
returned qs = ok (none, qs)

-- A type function has two branches, and those after them are not read. The case of a bracket goes on
-- into that of an index, which adds a reference to the object at the first word; both end in
-- `return NULL`.
unfoldable pub copy_node : Memory → Node → Copied
copy_node m blank = ok (some (raw m blank), [])
copy_node m nil = ok (some (raw m nil), [])
copy_node m (identifier s) = ok (some (raw m (identifier s)), [])
copy_node m (integer i) = ok (some (raw m (integer i)), [])
copy_node m (string s) = ok (some (raw m (string s)), [])
copy_node m (sequence ps) = take_all m (sequence ps) ps
copy_node m (type_spec n p) = take_all m (type_spec n p) (p ∷ [])
copy_node m (type_function (a ∷ b ∷ ps)) = take_all m (type_function (a ∷ b ∷ [])) (a ∷ b ∷ [])
copy_node m (type_function ps) = crash
copy_node m (function_def n t p b) = take_all m (function_def n m.type_spec p b) (p ∷ b ∷ [])
copy_node m (parameter_list n p) = take_all m (parameter_list n p) (p ∷ [])
copy_node m (function_call f a) = take_all m (function_call f a) (f ∷ a ∷ [])
copy_node m (let_expr v e c) = take_all m (let_expr v e c) (v ∷ e ∷ c ∷ [])
copy_node m (argument_list a n) = take_all m (argument_list a n) (a ∷ n ∷ [])
copy_node m (operator o a b) = take_all m (operator o a b) (a ∷ b ∷ [])
copy_node m (product_type ps) = take_all m (product_type ps) ps
copy_node m (sum_type ps) = take_all m (sum_type ps) ps
copy_node m (tuple ps) = take_all m (tuple ps) ps
copy_node m (pointer s) = ok (some (raw m (pointer s)), [])
copy_node m (if_expr a b c) = take_all m (if_expr a b c) (a ∷ b ∷ c ∷ [])
copy_node m (bracket p) = add_references (p ∷ m.first_word ∷ []) >>= returned
copy_node m (index a b) = add_references (a ∷ []) >>= returned

-- the node with another type spec, if it is a function definition
abbrev pub with_spec : ℕ → Node → Node
with_spec t (function_def n u p b) = function_def n t p b
with_spec t n = n

-- no pointer is null
unfoldable pub AreSet : List ℕ → Type 0
AreSet [] = Unit
AreSet (zero ∷ ps) = ⊥
AreSet (suc p ∷ ps) = AreSet ps

-- no bracket, no index, and both branches of a type function and no more
abbrev pub HasCopy : Node → Type 0
HasCopy (bracket p) = ⊥
HasCopy (index a b) = ⊥
HasCopy (type_function (a ∷ b ∷ [])) = Unit
HasCopy (type_function ps) = ⊥
HasCopy _ = Unit

add_references-null : (ps : List ℕ) → ¬ AreSet ps → add_references ps ≡ crash
unfolding AreSet
add_references-null [] h = absurd (h tt)
add_references-null (zero ∷ ps) h = refl
add_references-null (suc p ∷ ps) h = rw (add_references-null ps h) refl

take_all-null : (m : Memory) (n : Node) (ps : List ℕ) → ¬ AreSet ps → take_all m n ps ≡ crash
take_all-null m n ps h = rw (add_references-null ps h) refl

chain_end : (a : ℕ) → ¬ AreSet (a ∷ 0 ∷ [])
unfolding AreSet
chain_end zero h = h
chain_end (suc a) h = h

bracket_copy :
    (w p : ℕ)
    → (add_references (suc p ∷ w ∷ []) >>= returned)
      ≡ (add_references (w ∷ []) >>= λ qs. returned (suc p ∷ qs))
bracket_copy zero p = refl
bracket_copy (suc w) p = refl

null_crashes :
    (m : Memory) (n : Node)
    → HasCopy n
    → ¬ AreSet (node_references (with_spec 0 n))
    → copy_node m n ≡ crash
unfolding copy_node node_references AreSet
null_crashes m blank c h = absurd (h tt)
null_crashes m nil c h = absurd (h tt)
null_crashes m (identifier s) c h = absurd (h tt)
null_crashes m (integer i) c h = absurd (h tt)
null_crashes m (string s) c h = absurd (h tt)
null_crashes m (pointer s) c h = absurd (h tt)
null_crashes m (function_def n t p b) c h =
    take_all-null m (function_def n m.type_spec p b) (p ∷ b ∷ []) h
null_crashes m (bracket p) c h = absurd c
null_crashes m (index a b) c h = absurd c
null_crashes m (type_function (a ∷ b ∷ [])) c h =
    take_all-null m (type_function (a ∷ b ∷ [])) (a ∷ b ∷ []) h
null_crashes m (type_function (a ∷ b ∷ p ∷ ps)) c h = absurd c
null_crashes m (type_function []) c h = absurd c
null_crashes m (type_function (a ∷ [])) c h = absurd c
null_crashes m n c h = take_all-null m n (node_references n) h

-- When one of those pointers is null the copy crashes, so that the last node of a chain of parameters
-- or of arguments cannot be copied, whatever else it holds; nor can a type function with one branch.
-- Of a bracket or an index NULL is returned and references are taken, of a bracket also to what
-- memory held in its first word, where this is not null.
pub copy_node-null :
    (m : Memory) (n : Node) (p a b : ℕ)
    → (HasCopy n → ¬ AreSet (node_references (with_spec 0 n)) → copy_node m n ≡ crash)
      × ((name : String) → copy_node m (parameter_list name 0) ≡ crash)
      × (copy_node m (argument_list a 0) ≡ crash)
      × (copy_node m (type_function (p ∷ [])) ≡ crash)
      × (copy_node m (bracket (suc p))
          ≡ (add_references (m.first_word ∷ []) >>= λ qs. returned (suc p ∷ qs)))
      × (copy_node m (index (suc a) b) ≡ returned (suc a ∷ []))
unfolding copy_node node_references AreSet
copy_node-null m n p a b = (
  null_crashes m n,
  λ name. null_crashes m (parameter_list name 0) tt (λ h. h),
  null_crashes m (argument_list a 0) tt (chain_end a),
  refl,
  bracket_copy m.first_word p,
  refl,
)
