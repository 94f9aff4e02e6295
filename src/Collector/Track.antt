-- ===== src/Collector/Track.antt =====
-- The scan of minimal/src/cyclic_garbage.c: which pointers the indices stand for, at each step.
use pylinda.Base.{
  ℕ, zero, suc, ◌<◌, ◌≤◌, ◌≡◌, refl, ap, sym, ◌∙◌, inl, inr, true, false, subst, List, [], ◌∷◌,
  ◌++◌, Option, none, some, length, length-append, append-nil, append_assoc, ltb, ltb→lt, ◌==◌,
  Bool-cases, ==_iff, arith,
}
use pylinda.Collector.{
  Heap, Items, find, modify, at, counted, linked, new_item, counted_at, add_to_list, add_references,
  scan,
}
use pylinda.Collector.Items.{length-modify, at-modify}
use pylinda.Collector.Scan.{find_new, at-append, add_to_list-length, add_to_list-field, length_at}
use pylinda.Collector.Resolve.{
  find-modify, find-snoc, AreLinked, AreLinked-nil, AreLinked-snoc, AreLinked-linked,
  AreLinked-null, AreLinked-same,
}
use pylinda.Collector.Seen.{
  ptrtos-linked, seen_of, seen_here, seen_other, seen_before, seen_late, seen_next,
}

module _ (h : Heap) where
  unfoldable pub IsTracked : ℕ → List ℕ → Items → Type 0
  IsTracked i ds xs =
      (j : ℕ) → j < length xs → AreLinked xs (at xs j).ptrtos (seen_of h i ds (at xs j).ptr j)

  counted-IsTracked :
      (i : ℕ) (ds : List ℕ) (xs : Items) (k : ℕ)
      → IsTracked i ds xs
      → IsTracked i ds (modify counted k xs)
  unfolding IsTracked
  counted-IsTracked i ds xs k t j l =
      rw
        (
          at-modify (λ x. x.ptrtos) counted (λ x. refl) k xs j,
          at-modify (λ x. x.ptr) counted (λ x. refl) k xs j,
        )
        (AreLinked-same xs (modify counted k xs) (at xs j).ptrtos (seen_of h i ds (at xs j).ptr j)
          (length-modify counted k xs) (find-modify counted (λ x. refl) k xs)
          (t j (omega (arith, l, length-modify counted k xs))))

  snoc-IsTracked :
      (i : ℕ) (ds : List ℕ) (xs : Items) (p : ℕ)
      → i < length xs
      → IsTracked i ds xs
      → IsTracked i ds (xs ++ new_item h p 1 false ∷ [])
  unfolding IsTracked
  snoc-IsTracked i ds xs p r t j l =
      let y = new_item h p 1 false in
      rw (at-append (λ x. x.ptrtos) xs y j, at-append (λ x. x.ptr) xs y j)
        (elim (Bool-cases (length xs == j)) [
          | inl e ↦ rw (e, seen_late h i ds p j (ground arith)) (AreLinked-nil (xs ++ y ∷ []))
          | inr e ↦ rw (e) (
              AreLinked-snoc xs y (at xs j).ptrtos (seen_of h i ds (at xs j).ptr j)
                (t j (ground (arith, l, length-append xs (y ∷ [])))))
        ])

  linked-IsTracked :
      (i : ℕ) (ds : List ℕ) (xs : Items) (p : ℕ)
      → i < length xs
      → find xs (suc p) < length xs
      → IsTracked i ds xs
      → IsTracked i (ds ++ suc p ∷ []) (modify (linked (find xs (suc p))) i xs)
  unfolding IsTracked
  linked-IsTracked i ds xs p r f t j l =
      let k = find xs (suc p) in
      let n = length-modify (linked k) i xs in
      AreLinked-same xs (modify (linked k) i xs) _ _ n (find-modify (linked k) (λ x. refl) i xs) (
        rw (ptrtos-linked k i xs j r, at-modify (λ x. x.ptr) (linked k) (λ x. refl) i xs j)
          (elim (Bool-cases (i == j)) [
            | inl e ↦
                rw (e, seen_here h i (ds ++ suc p ∷ []) (at xs j).ptr j e)
                  (AreLinked-linked xs (at xs j).ptrtos ds p f (
                    subst (AreLinked xs (at xs j).ptrtos) (seen_here h i ds (at xs j).ptr j e)
                      (t j (omega (arith, n, l)))))
            | inr e ↦
                rw (e, seen_other h i (ds ++ suc p ∷ []) ds (at xs j).ptr j e)
                  (t j (omega (arith, n, l)))
          ]))

  find-counted_at :
      (xs : Items) (p : ℕ)
      → find (counted_at h xs p (find xs p)) p < length (counted_at h xs p (find xs p))
  find-counted_at xs p = elim (Bool-cases (ltb (find xs p) (length xs))) [
    | inl e ↦
        rw
          (
            e,
            find-modify counted (λ x. refl) (find xs p) xs p,
            length-modify counted (find xs p) xs,
          )
          (ltb→lt (find xs p) (length xs) e)
    | inr e ↦ rw (e) (
        ground (
          arith,
          find-snoc xs (new_item h p 1 false) p,
          length-append xs (new_item h p 1 false ∷ []),
        ))
  ]

  find-counted_at_same : (xs : Items) (p : ℕ) → find (counted_at h xs p (find xs p)) p ≡ find xs p
  find-counted_at_same xs p = elim (Bool-cases (ltb (find xs p) (length xs))) [
    | inl e ↦ rw (e) (find-modify counted (λ x. refl) (find xs p) xs p)
    | inr e ↦ rw (e) (ground (arith, find-snoc xs (new_item h p 1 false) p, find_new xs p e))
  ]

  counted_at-IsTracked :
      (i : ℕ) (ds : List ℕ) (xs : Items) (p : ℕ)
      → i < length xs
      → IsTracked i ds xs
      → IsTracked i ds (counted_at h xs p (find xs p))
  counted_at-IsTracked i ds xs p r t = elim (Bool-cases (ltb (find xs p) (length xs))) [
    | inl e ↦ rw (e) (counted-IsTracked i ds xs (find xs p) t)
    | inr e ↦ rw (e) (snoc-IsTracked i ds xs p r t)
  ]

  null-IsTracked :
      (i : ℕ) (ds : List ℕ) (xs : Items) → IsTracked i ds xs → IsTracked i (ds ++ 0 ∷ []) xs
  unfolding IsTracked
  null-IsTracked i ds xs t j l = elim (Bool-cases (i == j)) [
    | inl e ↦ rw (seen_here h i (ds ++ 0 ∷ []) (at xs j).ptr j e) (
        AreLinked-null xs (at xs j).ptrtos ds
          (subst (AreLinked xs (at xs j).ptrtos) (seen_here h i ds (at xs j).ptr j e) (t j l)))
    | inr e ↦ rw (seen_other h i (ds ++ 0 ∷ []) ds (at xs j).ptr j e) (t j l)
  ]

  add_to_list-IsTracked :
      (i : ℕ) (ds : List ℕ) (xs : Items) (q : ℕ)
      → i < length xs
      → IsTracked i ds xs
      → IsTracked i (ds ++ q ∷ []) (add_to_list h i xs q)
  add_to_list-IsTracked i ds xs zero r t = null-IsTracked i ds xs t
  add_to_list-IsTracked i ds xs (suc q) r t =
      let ys = counted_at h xs (suc q) (find xs (suc q)) in
      subst (λ k. IsTracked i (ds ++ suc q ∷ []) (modify (linked k) i ys))
        (find-counted_at_same xs (suc q))
        (linked-IsTracked i ds ys q (omega (arith, r, length_at h xs (suc q)))
          (find-counted_at xs (suc q)) (counted_at-IsTracked i ds xs (suc q) r t))

  pub add_references-IsTracked :
      (i : ℕ) (ds : List ℕ) (xs : Items) (qs : List ℕ)
      → i < length xs
      → IsTracked i ds xs
      → IsTracked i (ds ++ qs) (add_references h i xs qs)
  add_references-IsTracked i ds xs [] r t = rw (append-nil ds) t
  add_references-IsTracked i ds xs (q ∷ qs) r t =
      subst (λ es. IsTracked i es (add_references h i (add_to_list h i xs q) qs))
        (append_assoc ds (q ∷ []) qs)
        (add_references-IsTracked i (ds ++ q ∷ []) (add_to_list h i xs q) qs
          (omega (arith, r, add_to_list-length h i xs q)) (add_to_list-IsTracked i ds xs q r t))

  -- the next object
  pub next-IsTracked :
      (i p : ℕ) (xs : Items)
      → (at xs i).ptr ≡ p
      → IsTracked i (h.references p) xs
      → IsTracked (suc i) [] xs
  unfolding IsTracked
  next-IsTracked i p xs e t j l = elim (Bool-cases (i == j)) [
    | inl f ↦
        rw
          (
            sym (seen_next h i (at xs j).ptr j),
            sym (ap (λ k. (at xs k).ptr) ((==_iff i j).0 f)),
            e,
            sym ((==_iff i j).0 f),
          )
          (subst (λ a. AreLinked xs (at xs i).ptrtos (seen_of h i (h.references p) a i)) e
            (t i (rw ((==_iff i j).0 f) l)))
    | inr f ↦
        rw
          (
            sym (seen_next h i (at xs j).ptr j),
            seen_other h i (h.references (at xs j).ptr) (h.references p) (at xs j).ptr j f,
          )
          (t j l)
  ]

  -- the indices of each object stand for its pointers
  unfoldable pub IsResolved : Items → Type 0
  IsResolved xs =
      (j : ℕ) → j < length xs → AreLinked xs (at xs j).ptrtos (h.references (at xs j).ptr)

  unfoldable pub OnResolved : Option Items → Type 0
  OnResolved none = Unit
  OnResolved (some xs) = IsResolved xs

  all_seen : (i : ℕ) (xs : Items) → length xs ≤ i → IsTracked i [] xs → IsResolved xs
  unfolding IsTracked IsResolved
  all_seen i xs m t j l =
      subst (AreLinked xs (at xs j).ptrtos) (seen_before h i (at xs j).ptr j (omega (arith, m, l)))
        (t j l)

  same_root :
      (i j : ℕ) (xs : Items) (qs : List ℕ)
      → j < length xs
      → (at (add_references h i xs qs) j).ptr ≡ (at xs j).ptr
  same_root i j xs [] l = refl
  same_root i j xs (q ∷ qs) l =
      same_root i j (add_to_list h i xs q) qs (omega (arith, l, add_to_list-length h i xs q))
      ∙ elim (add_to_list-field h (λ x. x.ptr) (λ x. refl) (λ k x. refl) i xs q j) [
        | inl (e, _) ↦ e
        | inr (e, _) ↦ ground arith
      ]

  pub scan-OnResolved :
      (fuel i : ℕ) (xs : Items) → IsTracked i [] xs → OnResolved (scan h fuel i xs)
  unfolding OnResolved
  scan-OnResolved zero i xs t = tt
  scan-OnResolved (suc fuel) i xs t = elim (Bool-cases (ltb i (length xs))) [
    | inl l ↦
        let r = ltb→lt i (length xs) l in
        let p = (at xs i).ptr in
        rw (l) (
          scan-OnResolved fuel (suc i) (add_references h i xs (h.references p)) (
            next-IsTracked i p (add_references h i xs (h.references p))
              (same_root i i xs (h.references p) r)
              (add_references-IsTracked i [] xs (h.references p) r t)))
    | inr l ↦ rw (l) (all_seen i xs (ground (arith, l)) t)
  ]

  pub alone-IsTracked : (p : ℕ) → IsTracked 0 [] (new_item h p 0 true ∷ [])
  unfolding IsTracked
  alone-IsTracked p zero l =
      subst (AreLinked _ []) (sym (seen_here h 0 [] p 0 refl)) (AreLinked-nil _)
  alone-IsTracked p (suc j) l = ground arith
