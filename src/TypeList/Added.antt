-- ===== src/TypeList/Added.antt =====
-- minimal/src/type_list.c: what an addition to the list leaves, before the code of the type is read.
use pylinda.Base.{
  String, ℕ, ◌≡◌, refl, sym, subst, Bool, true, false, Option, none, some, List, [], ◌∷◌, ◌++◌,
  get_elem?, Bool-cases, inl, inr,
}
use pylinda.Eval.{EvalLayer}
use pylinda.Base.Int.{ℤ}
use pylinda.TypeList.{TypeCell, typemap_of, mem}
use pylinda.TypeList.Missing.{Keeps, mem-snoc, snoc-Keeps, mem-snoc_cases}
use pylinda.TypeList.Closed.{Holds, IsCell, Walked, HoldsObject, Added, HasMap}

module _ {F : Type 0} (strcmp : String → String → ℤ) (layers : List (EvalLayer F))
    (cells : List TypeCell) where
  -- an addition whose code is still to be read, from what follows the new place
  pub extended :
      (a : ℕ) (c : TypeCell) (l : List ℕ) (r : Bool × List ℕ)
      → get_elem? cells a ≡ some c
      → mem a l ≡ false
      → r.0 ≡ true
      → Walked strcmp layers cells (l ++ a ∷ []) r.1
      → Holds strcmp layers cells r.1 c.typeobj
      → Added strcmp layers cells a l r
  extended a c l (false, m) e new b w k = let impossible : false ≡ true = b in absurd cc
  extended a c l (true, m) e new b (keeps, rest) k = (
    (λ x h. keeps x (snoc-Keeps a l x h)),
    new,
    keeps a (mem-snoc a l),
    subst (HoldsObject strcmp layers cells m) (sym e) k,
    (λ x h. elim (rest x h) [
      | inl old ↦ elim (Bool-cases (mem x l)) [
        | inl y ↦ inl y
        | inr none_yet ↦ inr (inl (mem-snoc_cases x a l old none_yet))
      ]
      | inr s ↦ inr (inr s)
    ]),
  )

  pub Added-Keeps :
      (a : ℕ) (l : List ℕ) (r : Bool × List ℕ) → Added strcmp layers cells a l r → Keeps l r.1
  Added-Keeps a l (false, m) h = h.0
  Added-Keeps a l (true, m) h = h.0

  pub own_map :
      (c : Option TypeCell)
      → IsCell strcmp layers cells c
      → HasMap strcmp layers cells (typemap_of c) c
  own_map none k = k
  own_map (some c) k = refl
