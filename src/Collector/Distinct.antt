-- ===== src/Collector/Distinct.antt =====
-- The scan of minimal/src/cyclic_garbage.c lists no object twice.
use pylinda.Base.{
  ℕ, zero, suc, ◌+◌, ◌<◌, ◌≤◌, ◌≡◌, refl, ap, inl, inr, false, List, [], ◌∷◌, ◌++◌, length,
  length-append, ltb, ◌==◌, if◌then◌else◌, Bool-cases, arith,
}
use pylinda.Collector.{
  Heap, Item, Items, find, modify, at, counted, linked, new_item, counted_at, add_to_list,
}
use pylinda.Collector.Items.{occ, length-modify, at-modify}
use pylinda.Collector.Scan.{find_new, count_at}

-- the addresses of the items
unfoldable pub ptrs : Items → List ℕ
ptrs [] = []
ptrs (x ∷ xs) = x.ptr ∷ ptrs xs

ptrs-modify :
    (f : Item → Item) (p : (x : Item) → (f x).ptr ≡ x.ptr) (i : ℕ) (xs : Items)
    → ptrs (modify f i xs) ≡ ptrs xs
unfolding ptrs
ptrs-modify f p i [] = refl
ptrs-modify f p zero (x ∷ xs) = ap (λ a. a ∷ ptrs xs) (p x)
ptrs-modify f p (suc i) (x ∷ xs) = ap (λ rest. x.ptr ∷ rest) (ptrs-modify f p i xs)

occ-snoc_ptrs :
    (xs : Items) (y : Item) (q : ℕ)
    → occ q (ptrs (xs ++ y ∷ [])) ≡ occ q (ptrs xs) + (if y.ptr == q then 1 else 0)
unfolding ptrs occ
occ-snoc_ptrs [] y q = omega arith
occ-snoc_ptrs (x ∷ xs) y q = omega (arith, occ-snoc_ptrs xs y q)

find_absent : (xs : Items) (p : ℕ) → find xs p ≡ length xs → occ p (ptrs xs) ≡ 0
unfolding ptrs occ
find_absent [] p e = refl
find_absent (x ∷ xs) p e = elim (Bool-cases (x.ptr == p)) [
  | inl h ↦ ground arith
  | inr h ↦ ground (arith, find_absent xs p)
]

pub ptrs-equal :
    (xs ys : Items)
    → length ys ≡ length xs
    → ((j : ℕ) → (at ys j).ptr ≡ (at xs j).ptr)
    → ptrs ys ≡ ptrs xs
unfolding ptrs
ptrs-equal [] [] l e = refl
ptrs-equal [] (y ∷ ys) l e = ground arith
ptrs-equal (x ∷ xs) [] l e = ground arith
ptrs-equal (x ∷ xs) (y ∷ ys) l e =
    let rest = ptrs-equal xs ys (omega (arith, l)) (λ j. e (suc j)) in let first = e 0 in cc

module _ (h : Heap) where
  pub add_to_list-distinct :
      (i : ℕ) (xs : Items) (q : ℕ)
      → ((p : ℕ) → occ p (ptrs xs) ≤ 1)
      → (p : ℕ) → occ p (ptrs (add_to_list h i xs q)) ≤ 1
  add_to_list-distinct i xs zero d p = d p
  add_to_list-distinct i xs (suc q) d p =
      let k = find xs (suc q) in
      rw (ptrs-modify (linked k) (λ x. refl) i (counted_at h xs (suc q) k))
        (elim (Bool-cases (ltb k (length xs))) [
          | inl e ↦ rw (e, ptrs-modify counted (λ x. refl) k xs) (d p)
          | inr e ↦ rw (e) (elim (Bool-cases (suc q == p)) [
            | inl w ↦ ground (
              arith,
              occ-snoc_ptrs xs (new_item h (suc q) 1 false) p,
              find_absent xs p,
              find_new xs (suc q) e,
            )
            | inr w ↦ ground (arith, occ-snoc_ptrs xs (new_item h (suc q) 1 false) p, d p)
          ])
        ])

  length-counted_at :
      (xs : Items) (q : ℕ)
      → length (counted_at h xs q (find xs q))
        ≡ length xs + (if ltb (find xs q) (length xs) then 0 else 1)
  length-counted_at xs q = elim (Bool-cases (ltb (find xs q) (length xs))) [
    | inl f ↦ rw (f) (omega (arith, length-modify counted (find xs q) xs))
    | inr f ↦ rw (f) (omega (arith, length-append xs (new_item h q 1 false ∷ [])))
  ]

  pub add_to_list-found :
      (i : ℕ) (xs : Items) (q : ℕ)
      → ((j : ℕ) → 0 < j → j < length xs → 0 < (at xs j).count)
      → (j : ℕ) → 0 < j
      → j < length (add_to_list h i xs q)
      → 0 < (at (add_to_list h i xs q) j).count
  add_to_list-found i xs zero f j z l = f j z l
  add_to_list-found i xs (suc q) f j z l =
      let k = find xs (suc q) in
      let ys = counted_at h xs (suc q) k in
      let m = at-modify (λ x. x.count) (linked k) (λ x. refl) i ys j in
      let c = count_at h xs (suc q) j in
      elim (Bool-cases (ltb j (length xs))) [
        | inl e ↦ ground (arith, f j z)
        | inr e ↦ ground (
          arith,
          find_new xs (suc q),
          length-counted_at xs (suc q),
          length-modify (linked k) i ys,
        )
      ]
