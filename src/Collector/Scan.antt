-- ===== src/Collector/Scan.antt =====
-- The scan of minimal/src/cyclic_garbage.c: what it counts.
use pylinda.Base.{
  ℕ, zero, suc, ◌+◌, ◌<◌, ◌≤◌, ◌≡◌, refl, ap, sym, ◌∙◌, ◌⊎◌, inl, inr, false, [], ◌∷◌, ◌++◌, length,
  length-append, ltb, ◌==◌, if◌then◌else◌, Bool-cases, ==_iff, ltb→lt, arith,
}
use pylinda.Collector.{
  Heap, Item, Items, find, modify, at, counted, linked, new_item, counted_at, add_to_list,
}
use pylinda.Collector.Items.{
  occ, links, links-append, links-modify, links-linked, length-modify, at-modify, count-counted,
  count-append,
}

pub find_le : (xs : Items) (p : ℕ) → find xs p ≤ length xs
find_le [] p = omega arith
find_le (x ∷ xs) p = ground (arith, find_le xs p)

pub find_new : (xs : Items) (p : ℕ) → ltb (find xs p) (length xs) ≡ false → find xs p ≡ length xs
find_new xs p l = ground (arith, find_le xs p)

-- a new object stands behind the others
pub at-append :
    {A : Type 0} (g : Item → A) (xs : Items) (y : Item) (j : ℕ)
    → g (at (xs ++ y ∷ []) j) ≡ (if length xs == j then g y else g (at xs j))
at-append g [] y zero = refl
at-append g [] y (suc j) = ground arith
at-append g (x ∷ xs) y zero = ground arith
at-append g (x ∷ xs) y (suc j) = ground (arith, at-append g xs y j)

module _ (h : Heap) where
  -- the object at `p` is counted once more, and so is no other
  pub count_at :
      (xs : Items) (p j : ℕ)
      → (at (counted_at h xs p (find xs p)) j).count
        ≡ (at xs j).count + (if find xs p == j then 1 else 0)
  count_at xs p j = elim (Bool-cases (ltb (find xs p) (length xs))) [
    | inl l ↦ rw (l) (count-counted (find xs p) xs j (ltb→lt (find xs p) (length xs) l))
    | inr l ↦ rw (l, find_new xs p l) (count-append xs (new_item h p 1 false) j refl)
  ]

  links_at : (xs : Items) (p j : ℕ) → links (counted_at h xs p (find xs p)) j ≡ links xs j
  unfolding links occ
  links_at xs p j = elim (Bool-cases (ltb (find xs p) (length xs))) [
    | inl l ↦ rw (l) (links-modify counted (λ x. refl) (find xs p) xs j)
    | inr l ↦ rw (l) (omega (arith, links-append xs (new_item h p 1 false ∷ []) j))
  ]

  pub length_at : (xs : Items) (p : ℕ) → length xs ≤ length (counted_at h xs p (find xs p))
  length_at xs p = elim (Bool-cases (ltb (find xs p) (length xs))) [
    | inl l ↦ rw (l) (omega (arith, length-modify counted (find xs p) xs))
    | inr l ↦ rw (l) (omega (arith, length-append xs (new_item h p 1 false ∷ [])))
  ]

  pub add_to_list-counts :
      (i : ℕ) (xs : Items) (q : ℕ)
      → i < length xs
      → ((j : ℕ) → (at xs j).count ≡ links xs j)
      → (j : ℕ) → (at (add_to_list h i xs q) j).count ≡ links (add_to_list h i xs q) j
  add_to_list-counts i xs zero l c j = c j
  add_to_list-counts i xs (suc q) l c j =
      let k = find xs (suc q) in
      let ys = counted_at h xs (suc q) k in
      at-modify (λ x. x.count) (linked k) (λ x. refl) i ys j
      ∙ count_at xs (suc q) j
      ∙ ap (λ n. n + (if k == j then 1 else 0)) (c j ∙ sym (links_at xs (suc q) j))
      ∙ sym (links-linked k i ys j (omega (arith, length_at xs (suc q), l)))

  pub add_to_list-length : (i : ℕ) (xs : Items) (q : ℕ) → length xs ≤ length (add_to_list h i xs q)
  add_to_list-length i xs zero = omega arith
  add_to_list-length i xs (suc q) =
      let k = find xs (suc q) in
      let ys = counted_at h xs (suc q) k in
      omega (arith, length-modify (linked k) i ys, length_at xs (suc q))

  within_modified :
      (f : Item → Item) (i k : ℕ) (xs : Items) {j : ℕ}
      → j < length (modify f i (modify counted k xs))
      → j < length xs
  within_modified f i k xs r =
      omega (arith, length-modify f i (modify counted k xs), length-modify counted k xs, r)

  within_longer :
      (f : Item → Item) (i : ℕ) (xs : Items) (y : Item) (j : ℕ)
      → (length xs == j) ≡ false
      → j < length (modify f i (xs ++ y ∷ []))
      → j < length xs
  within_longer f i xs y j e r =
      ground (arith, length-modify f i (xs ++ y ∷ []), length-append xs (y ∷ []))

  -- a field that only a new object sets
  pub add_to_list-field :
      {A : Type 0} (g : Item → A) (c : (x : Item) → g (counted x) ≡ g x)
      (l : (k : ℕ) (x : Item) → g (linked k x) ≡ g x) (i : ℕ) (xs : Items) (q j : ℕ)
      → ((g (at (add_to_list h i xs q) j) ≡ g (at xs j))
          × (j < length (add_to_list h i xs q) → j < length xs))
        ⊎ ((j ≡ length xs) × (g (at (add_to_list h i xs q) j) ≡ g (new_item h q 1 false)))
  add_to_list-field g c l i xs zero j = inl (refl, λ r. r)
  add_to_list-field g c l i xs (suc q) j =
      rw
        (at-modify g (linked (find xs (suc q))) (l (find xs (suc q))) i
          (counted_at h xs (suc q) (find xs (suc q))) j)
        (elim (Bool-cases (ltb (find xs (suc q)) (length xs))) [
          | inl e ↦ rw (e) (
              inl (
                at-modify g counted c (find xs (suc q)) xs j,
                λ r. within_modified (linked (find xs (suc q))) i (find xs (suc q)) xs r,
              ))
          | inr e ↦
              rw (e, at-append g xs (new_item h (suc q) 1 false) j)
                (elim (Bool-cases (length xs == j)) [
                  | inl f ↦ rw (f) (inr (sym ((==_iff (length xs) j).0 f), refl))
                  | inr f ↦
                      rw (f)
                        (inl (refl, λ r. within_longer (linked (find xs (suc q))) i xs _ j f r))
                ])
        ])
