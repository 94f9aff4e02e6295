-- ===== src/TypeList/Ends.antt =====
-- minimal/src/type_list.c: what `Minimal_getTypeList` gives, by the depth of its calls.
use pylinda.Base.{ℕ, zero, suc, ◌<◌, refl, String, Option, List, get_elem?, length, arith}
use pylinda.Base.Int.{ℤ}
use pylinda.SyntaxTree.{Tree}
use pylinda.Eval.{EvalLayer}
use pylinda.TypeList.{TypeCell, named_type, add_type_to_list, get_type_list2}
use pylinda.TypeList.Missing.{missing}
use pylinda.TypeList.Closed.{Yields, IsSpec, Covers, IsCell, Walked, Added, IsFrom}
use pylinda.TypeList.Walk.{Resolves, tree-Walked, cell-Added}

module _ {F : Type 0} (strcmp : String → String → ℤ) (layers : List (EvalLayer F))
    (cells : List TypeCell)
    (known : (p : Option ℕ) (name : String)
      → Resolves (length cells) (named_type strcmp layers cells p name))
    (typed : (a : ℕ) → a < length cells → IsCell strcmp layers cells (get_elem? cells a)) where
  mutual
    unfolding add_type_to_list get_type_list2

    pub add_type_to_list-Added :
        (n a : ℕ) (l : List ℕ)
        → a < length cells
        → missing (length cells) l < n
        → Yields (Added strcmp layers cells a l) (add_type_to_list strcmp layers cells n a l)
    add_type_to_list-Added zero a l lt le = absurd (omega arith)
    add_type_to_list-Added (suc n) a l lt le =
        cell-Added strcmp layers cells known typed n (add_type_to_list strcmp layers cells n)
          (get_type_list2 strcmp layers cells n) (add_type_to_list-Added n)
          (get_type_list2-Walked n) a (get_elem? cells a) l refl (typed a lt) lt le

    pub get_type_list2-Walked :
        (n : ℕ) (t : Tree) (p : Option ℕ) (l : List ℕ)
        → IsSpec t
        → IsFrom strcmp layers cells l p
        → suc (missing (length cells) l) < n
        → Yields
            (λ m. Walked strcmp layers cells l m × Covers strcmp layers cells m p t)
            (get_type_list2 strcmp layers cells n t p l)
    get_type_list2-Walked zero t p l k f le = absurd (omega arith)
    get_type_list2-Walked (suc n) t p l k f le =
        tree-Walked strcmp layers cells known typed n (add_type_to_list strcmp layers cells n)
          (get_type_list2 strcmp layers cells n) (add_type_to_list-Added n)
          (get_type_list2-Walked n) t p l k (omega arith) f
