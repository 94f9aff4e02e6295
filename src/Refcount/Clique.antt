-- ===== src/Refcount/Clique.antt =====
-- The objects that minimal/src/cyclic_garbage.c destroys together are distinct, and their counts are
-- above 0.
use pylinda.Base.{
  ℕ, zero, suc, ◌<◌, ◌≤◌, ◌≡◌, refl, ap, sym, ◌∙◌, inl, inr, Bool, true, false, subst, List, [],
  ◌∷◌, length, ◌==◌, if◌then◌else◌, Bool-cases, ==_iff, arith,
}
use pylinda.Base.Int.{ℤ, pos, is_pos}
use pylinda.Collector.{Item, Items, find, at}
use pylinda.Collector.Items.{occ, occ-append, clique_links}
use pylinda.Collector.Distinct.{ptrs}
use pylinda.Collector.Safe.{IsGarbage}
use pylinda.Refcount.{Cell, lookup, count_in, references_in, heap_of, clique}
use pylinda.Refcount.Clear.{IsLive, all_references}

occ-clique_le : (ys : Items) (q : ℕ) → occ q (clique ys) ≤ occ q (ptrs ys)
unfolding clique ptrs occ
occ-clique_le [] q = omega arith
occ-clique_le (y ∷ ys) q = elim (Bool-cases y.in_clique) [
  | inl e ↦ rw (e) (omega (arith, occ-clique_le ys q))
  | inr e ↦ rw (e) (omega (arith, occ-clique_le ys q))
]

head_passed :
    (b : Bool) (a q : ℕ) (ps : List ℕ)
    → b ≡ true
    → (a == q) ≡ false
    → 0 < occ q (if b then a ∷ ps else ps)
    → 0 < occ q ps
unfolding occ
head_passed b a q ps e w l =
    let l' = subst (λ x. 0 < occ q (if x then a ∷ ps else ps)) e l in ground arith

head_outside :
    (b : Bool) (a q : ℕ) (ps : List ℕ)
    → b ≡ false
    → 0 < occ q (if b then a ∷ ps else ps)
    → 0 < occ q ps
head_outside b a q ps e l = subst (λ x. 0 < occ q (if x then a ∷ ps else ps)) e l

clique-at :
    (ys : Items) (q : ℕ)
    → 0 < occ q (clique ys)
    → (j : ℕ) × ((at ys j).in_clique ≡ true) × ((at ys j).ptr ≡ q)
unfolding clique occ
clique-at [] q l = ground arith
clique-at (y ∷ ys) q l = elim (Bool-cases y.in_clique) [
  | inl e ↦ elim (Bool-cases (y.ptr == q)) [
    | inl w ↦ (0, e, (==_iff y.ptr q).0 w)
    | inr w ↦
        let (j, c, p) = clique-at ys q (head_passed y.in_clique y.ptr q (clique ys) e w l) in
        (suc j, c, p)
  ]
  | inr e ↦
      let (j, c, p) = clique-at ys q (head_outside y.in_clique y.ptr q (clique ys) e l) in
      (suc j, c, p)
]

is_pos-pos : (z : ℤ) (n : ℕ) → z ≡ pos n → 0 < n → is_pos z ≡ true
is_pos-pos z zero e l = ground arith
is_pos-pos z (suc n) e l = rw (e) refl

occ-at : (ys : Items) (j : ℕ) → j < length ys → 0 < occ (at ys j).ptr (ptrs ys)
unfolding ptrs occ
occ-at [] j l = ground arith
occ-at (y ∷ ys) zero l = ground arith
occ-at (y ∷ ys) (suc j) l = omega (arith, occ-at ys j (omega (arith, l)))

occ-rest : (y : Item) (ys : Items) (q : ℕ) → occ q (ptrs (y ∷ ys)) ≤ 1 → occ q (ptrs ys) ≤ 1
unfolding ptrs occ
occ-rest y ys q d = omega arith

occ-once :
    (y : Item) (ys : Items) (q : ℕ)
    → occ q (ptrs (y ∷ ys)) ≤ 1
    → 0 < occ q (ptrs ys)
    → (y.ptr == q) ≡ false
unfolding ptrs occ
occ-once y ys q d l = ground arith

find-at :
    (ys : Items) (j : ℕ)
    → ((q : ℕ) → occ q (ptrs ys) ≤ 1)
    → j < length ys
    → find ys (at ys j).ptr ≡ j
find-at [] j d l = ground arith
find-at (y ∷ ys) zero d l = ground arith
find-at (y ∷ ys) (suc j) d l =
    let r : j < length ys = omega (arith, l) in
    rw (occ-once y ys (at ys j).ptr (d (at ys j).ptr) (occ-at ys j r))
      (ap suc (find-at ys j (λ q. occ-rest y ys q (d q)) r))

-- the links of the clique count the pointers of its objects
clique-references :
    (cs : List Cell) (zs : Items) (k a : ℕ)
    → ((j : ℕ)
        → j < length zs
        → occ k (at zs j).ptrtos ≡ occ a (references_in (lookup cs (at zs j).ptr)))
    → clique_links zs k ≡ occ a (all_references cs (clique zs))
unfolding clique_links clique all_references occ
clique-references cs [] k a f = refl
clique-references cs (z ∷ zs) k a f =
    let rest = clique-references cs zs k a (λ j l. f (suc j) (omega (arith, l))) in
    elim (Bool-cases z.in_clique) [
      | inl e ↦ rw (e) (
          omega (
            arith,
            rest,
            f 0 (omega arith),
            occ-append a (references_in (lookup cs z.ptr)) (all_references cs (clique zs)),
          ))
      | inr e ↦ rw (e) (omega (arith, rest))
    ]

in_range : (ys : Items) (j : ℕ) → (at ys j).in_clique ≡ true → j < length ys
in_range [] j c = cc
in_range (y ∷ ys) zero c = omega arith
in_range (y ∷ ys) (suc j) c = omega (arith, in_range ys j c)

module _ (cs : List Cell) (p : ℕ) (ys : Items) (g : IsGarbage (heap_of cs) p ys) where
  pub occ-clique : (q : ℕ) → occ q (clique ys) ≤ 1
  occ-clique q = omega (arith, occ-clique_le ys q, g.distinct q)

  IsLive-at :
      (live : IsLive (lookup cs p)) (j : ℕ)
      → (at ys j).in_clique ≡ true
      → IsLive (lookup cs (at ys j).ptr)
  unfolding heap_of
  IsLive-at live zero c = rw (g.root.0) live
  IsLive-at live (suc j) c =
      is_pos-pos _ (clique_links ys (suc j)) (g.unreferenced (suc j) c)
        (g.referenced (suc j) c (omega arith))

  pub IsLive-clique : IsLive (lookup cs p) → (q : ℕ) → 0 < occ q (clique ys) → IsLive (lookup cs q)
  IsLive-clique live q l = let (j, c, e) = clique-at ys q l in rw (sym e) (IsLive-at live j c)

  -- the count of a destroyed object is the number of the references that destroyed objects hold to it
  pub count-clique :
      (q : ℕ)
      → 0 < occ (suc q) (clique ys)
      → count_in (lookup cs (suc q)) ≡ pos (occ (suc q) (all_references cs (clique ys)))
  unfolding heap_of
  count-clique q l =
      let (j, c, e) = clique-at ys (suc q) l in
      let r = in_range ys j c in
      ap (λ a. count_in (lookup cs a)) (sym e)
      ∙ g.unreferenced j c
      ∙ ap (λ k. pos (clique_links ys k)) (sym (find-at ys j g.distinct r) ∙ ap (find ys) e)
      ∙ ap pos (clique-references cs ys (find ys (suc q)) (suc q) (λ i m. g.resolved i m q))
