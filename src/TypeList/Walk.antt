-- ===== src/TypeList/Walk.antt =====
-- minimal/src/type_list.c: what the walk over the code of a type adds to the list, and what it keeps.
use pylinda.Base.{
  ℕ, suc, ◌<◌, ◌≡◌, refl, sym, ◌∙◌, subst, String, Bool, true, false, Option, none, some, List, [],
  ◌∷◌, ◌++◌, get_elem?, length, Outcome, ok, exited, crash, arith, Bool-cases, inl, inr,
}
use pylinda.Base.Int.{ℤ}
use pylinda.SyntaxTree.{
  Tree, null, identifier, type_spec, type_function, product_type, sum_type, pointer, bracket, Trees,
}
use pylinda.Eval.{Run, value, ◌>>=◌, run, EvalLayer}
use pylinda.TypeList.{
  TypeCell, mem, is_built_in, named_type, follow, add_found, add_named, walk_tree, walk_trees,
  add_typeobj, add_cell,
}
use pylinda.TypeList.Missing.{missing, missing-Keeps, missing-added, mem-snoc, snoc-Keeps}
use pylinda.TypeList.Closed.{
  Yields, bind-Yields, IsSpec, AreSpecs, IsKnown, Holds, HoldsName, Covers, CoversAll, IsSettled,
  IsCell, Holds-Keeps, Covers-Keeps, IsSettled-Keeps, Walked, Walked-refl, Walked-trans,
  HoldsObject, Added, IsFrom, IsFrom-Keeps,
}
use pylinda.TypeList.Added.{extended, Added-Keeps, own_map}

pub map-Yields :
    {A : Type 0} (P Q : A → Type 0) (r : Run A) → Yields P r → ((a : A) → P a → Q a) → Yields Q r
map-Yields P Q (value a) h k = k a h
map-Yields P Q (Run.stopped) h k = absurd h
map-Yields P Q (Run.crashed) h k = absurd h
map-Yields P Q (Run.starved) h k = absurd h

-- no wrong kind of value, and a type that is there
abbrev pub Resolves : ℕ → Outcome (Option ℕ) → Type 0
Resolves n (ok none) = Unit
Resolves n (ok (some a)) = a < n
Resolves n o = ⊥

module _ {F : Type 0} (strcmp : String → String → ℤ) (layers : List (EvalLayer F))
    (cells : List TypeCell)
    (known : (p : Option ℕ) (name : String)
      → Resolves (length cells) (named_type strcmp layers cells p name))
    (typed : (a : ℕ) → a < length cells → IsCell strcmp layers cells (get_elem? cells a)) where
  abbrev HoldsFound : List ℕ → Outcome (Option ℕ) → Type 0
  HoldsFound l (ok o) = Holds strcmp layers cells l o
  HoldsFound l o = Unit

  module _ (n : ℕ) (add : ℕ → List ℕ → Run (Bool × List ℕ))
      (walk : Tree → Option ℕ → List ℕ → Run (List ℕ))
      (adds : (a : ℕ) (l : List ℕ)
        → a < length cells
        → missing (length cells) l < n
        → Yields (Added strcmp layers cells a l) (add a l))
      (walks : (t : Tree) (p : Option ℕ) (l : List ℕ)
        → IsSpec t
        → IsFrom strcmp layers cells l p
        → suc (missing (length cells) l) < n
        → Yields
            (λ l'. Walked strcmp layers cells l l' × Covers strcmp layers cells l' p t)
            (walk t p l)) where
    pub read-Walked :
        (v : ℕ) (c : Option TypeCell) (p : Option ℕ) (l l' : List ℕ)
        → get_elem? cells v ≡ c
        → IsCell strcmp layers cells c
        → v < length cells
        → missing (length cells) l < n
        → IsFrom strcmp layers cells l' p
        → Added strcmp layers cells v l (true, l')
        → Yields
            (λ m. Walked strcmp layers cells l m × (mem v m ≡ true))
            (follow strcmp layers cells add walk c p (true, l'))
    unfolding follow
    read-Walked v none p l l' e k lt le f h = absurd k
    read-Walked v (some c) p l l' e k lt le f (keeps, new, here, object, rest) =
        let less = missing-added (length cells) v l l' lt keeps new here in
        map-Yields _ _ (walk c.type_spec p l') (walks c.type_spec p l' k.0 f (omega arith)) (λ m w.
          (
            (
              (λ x h. w.0.0 x (keeps x h)),
              (λ x h. elim (w.0.1 x h) [
                | inl old ↦ elim (rest x old) [
                  | inl older ↦ inl older
                  | inr (inl same) ↦ inr (
                      subst (λ y. IsSettled strcmp layers cells m (get_elem? cells y)) same
                        (subst (IsSettled strcmp layers cells m) (sym e) (
                          Holds-Keeps strcmp layers cells l' m c.typeobj w.0.0
                              (subst (HoldsObject strcmp layers cells l') e object),
                          (p, (IsFrom-Keeps strcmp layers cells l' m p w.0.0 f, w.1)),
                        )))
                  | inr (inr s) ↦
                      inr (IsSettled-Keeps strcmp layers cells l' m (get_elem? cells x) w.0.0 s)
                ]
                | inr s ↦ inr s
              ]),
            ),
            w.0.0 v here,
          ))

    follow-Walked :
        (v : ℕ) (p : Option ℕ) (l : List ℕ) (r : Bool × List ℕ)
        → v < length cells
        → missing (length cells) l < n
        → ((mem v r.1 ≡ true) → IsFrom strcmp layers cells r.1 p)
        → Added strcmp layers cells v l r
        → Yields
            (λ m. Walked strcmp layers cells l m × (mem v m ≡ true))
            (follow strcmp layers cells add walk (get_elem? cells v) p r)
    unfolding follow
    follow-Walked v p l (false, l') lt le f (keeps, back, here) =
        ((keeps, (λ x h. inl (back x h))), here)
    follow-Walked v p l (true, l') lt le f h =
        read-Walked v (get_elem? cells v) p l l' refl (typed v lt) lt le (f h.2) h

    found-Walked :
        (o p : Option ℕ) (l : List ℕ)
        → IsKnown strcmp layers cells o
        → missing (length cells) l < n
        → IsFrom strcmp layers cells l p
        → Yields
            (λ m. Walked strcmp layers cells l m × Holds strcmp layers cells m o)
            (add_found strcmp layers cells add walk o p l)
    unfolding add_found
    found-Walked none p l k le f = (Walked-refl strcmp layers cells l, tt)
    found-Walked (some v) p l k le f = bind-Yields _ _ (add v l) _ (adds v l k le) (λ r h.
        follow-Walked v p l r k le
          (λ here.
            IsFrom-Keeps strcmp layers cells l r.1 p (Added-Keeps strcmp layers cells v l r h) f)
          h)

    resolved-Walked :
        (name : String) (p : Option ℕ) (l : List ℕ) (o : Outcome (Option ℕ))
        → named_type strcmp layers cells p name ≡ o
        → Resolves (length cells) o
        → missing (length cells) l < n
        → IsFrom strcmp layers cells l p
        → Yields
            (λ m. Walked strcmp layers cells l m × HoldsName strcmp layers cells m p name)
            (run o >>= λ found. add_found strcmp layers cells add walk found p l)
    resolved-Walked name p l (ok none) e k le f =
        map-Yields _ _ (add_found strcmp layers cells add walk none p l)
          (found-Walked none p l tt le f)
          (λ m w. (w.0, (λ b o e'. subst (HoldsFound m) (sym e ∙ e') tt)))
    resolved-Walked name p l (ok (some a)) e k le f =
        map-Yields _ _ (add_found strcmp layers cells add walk (some a) p l)
          (found-Walked (some a) p l k le f)
          (λ m w. (w.0, (λ b o e'. subst (HoldsFound m) (sym e ∙ e') w.1)))
    resolved-Walked name p l exited e k le f = absurd k
    resolved-Walked name p l crash e k le f = absurd k

    named-Walked :
        (name : String) (p : Option ℕ) (l : List ℕ)
        → missing (length cells) l < n
        → IsFrom strcmp layers cells l p
        → Yields
            (λ m. Walked strcmp layers cells l m × HoldsName strcmp layers cells m p name)
            (add_named strcmp layers cells add walk name p l)
    unfolding add_named
    named-Walked name p l le f = elim (Bool-cases (is_built_in name)) [
      | inl b ↦
          rw b (
            Walked-refl strcmp layers cells l,
            (λ c. let impossible : true ≡ false = c in absurd cc),
          )
      | inr b ↦ rw b (
          map-Yields _ _
            (run (named_type strcmp layers cells p name) >>= λ found.
              add_found strcmp layers cells add walk found p l)
            (resolved-Walked name p l (named_type strcmp layers cells p name) refl (known p name) le
              f)
            (λ m w. (w.0, (λ c. w.1 b))))
    ]

    mutual
      unfolding walk_tree

      pub tree-Walked :
          (t : Tree) (p : Option ℕ) (l : List ℕ)
          → IsSpec t
          → missing (length cells) l < n
          → IsFrom strcmp layers cells l p
          → Yields
              (λ m. Walked strcmp layers cells l m × Covers strcmp layers cells m p t)
              (walk_tree strcmp layers cells add walk t p l)
      tree-Walked null p l k le f = absurd k
      tree-Walked (identifier name d) p l k le f = named-Walked name p l le f
      tree-Walked (type_spec c t) p l k le f = tree-Walked t p l k le f
      tree-Walked (type_function (Trees.next a (Trees.next b ts))) p l k le f =
          bind-Yields _ _ (walk_tree strcmp layers cells add walk a p l) _
            (tree-Walked a p l k.0 le f)
            (λ m w.
              map-Yields _ _ (walk_tree strcmp layers cells add walk b p m)
                (tree-Walked b p m k.1 (omega (arith, missing-Keeps (length cells) l m w.0.0))
                  (IsFrom-Keeps strcmp layers cells l m p w.0.0 f))
                (λ o v. (
                  Walked-trans strcmp layers cells l m o w.0 v.0,
                  (Covers-Keeps strcmp layers cells m o p a v.0.0 w.1, v.1),
                )))
      tree-Walked (type_function ts) p l k le f = absurd k
      tree-Walked (product_type ts) p l k le f = trees-Walked ts p l k le f
      tree-Walked (sum_type ts) p l k le f = trees-Walked ts p l k le f
      tree-Walked (pointer name) p l k le f = named-Walked name p l le f
      tree-Walked (bracket t) p l k le f = tree-Walked t p l k le f
      tree-Walked t p l k le f = (Walked-refl strcmp layers cells l, tt)

      trees-Walked :
          (ts : Trees) (p : Option ℕ) (l : List ℕ)
          → AreSpecs ts
          → missing (length cells) l < n
          → IsFrom strcmp layers cells l p
          → Yields
              (λ m. Walked strcmp layers cells l m × CoversAll strcmp layers cells m p ts)
              (walk_trees strcmp layers cells add walk ts p l)
      trees-Walked Trees.end p l k le f = (Walked-refl strcmp layers cells l, tt)
      trees-Walked (Trees.next t ts) p l k le f =
          bind-Yields _ _ (walk_tree strcmp layers cells add walk t p l) _
            (tree-Walked t p l k.0 le f)
            (λ m w.
              map-Yields _ _ (walk_trees strcmp layers cells add walk ts p m)
                (trees-Walked ts p m k.1 (omega (arith, missing-Keeps (length cells) l m w.0.0))
                  (IsFrom-Keeps strcmp layers cells l m p w.0.0 f))
                (λ o v. (
                  Walked-trans strcmp layers cells l m o w.0 v.0,
                  (Covers-Keeps strcmp layers cells m o p t v.0.0 w.1, v.1),
                )))

    typeobj-Walked :
        (o : Option ℕ) (l : List ℕ)
        → IsKnown strcmp layers cells o
        → missing (length cells) l < n
        → Yields
            (λ r. Walked strcmp layers cells l r.1 × Holds strcmp layers cells r.1 o × (r.0 ≡ true))
            (add_typeobj strcmp layers cells add walk o l)
    unfolding add_typeobj
    typeobj-Walked none l k le = (Walked-refl strcmp layers cells l, tt, refl)
    typeobj-Walked (some t) l k le = bind-Yields _ _ (add t l) _ (adds t l k le) (λ r h.
        bind-Yields _ _ (follow strcmp layers cells add walk (get_elem? cells t) _ r) _
          (follow-Walked t _ l r k le
            (λ here. (t, (here, own_map strcmp layers cells (get_elem? cells t) (typed t k)))) h)
          (λ m w. (w.0, w.1, refl)))

    pub cell-Added :
        (a : ℕ) (c : Option TypeCell) (l : List ℕ)
        → get_elem? cells a ≡ c
        → IsCell strcmp layers cells c
        → a < length cells
        → missing (length cells) l < suc n
        → Yields (Added strcmp layers cells a l) (add_cell strcmp layers cells add walk c a l)
    unfolding add_cell
    cell-Added a none l e k lt le = absurd k
    cell-Added a (some c) l e k lt le = elim (Bool-cases (mem a l)) [
      | inl old ↦ rw old ((λ x h. h), (λ x h. h), old)
      | inr new ↦
          let less =
            missing-added (length cells) a l (l ++ a ∷ []) lt (snoc-Keeps a l) new (mem-snoc a l) in
          rw new (
            map-Yields _ _ (add_typeobj strcmp layers cells add walk c.typeobj (l ++ a ∷ []))
              (typeobj-Walked c.typeobj (l ++ a ∷ []) k.1 (omega arith))
              (λ r w. extended strcmp layers cells a c l r e new w.2 w.0 w.1))
    ]
