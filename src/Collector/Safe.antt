-- ===== src/Collector/Safe.antt =====
-- What a collection by minimal/src/cyclic_garbage.c shows of the objects that it destroys.
use pylinda.Base.{
  subst, ℕ, zero, suc, ◌<◌, ◌≤◌, ◌≡◌, refl, ap, sym, ◌∙◌, inl, inr, true, Option, none, some, List,
  [], ◌∷◌, length, ltb, Bool-cases, ltb→lt, arith,
}
use pylinda.Base.Int.{ℤ, pos, is_neg}
use pylinda.Collector.{
  Heap, Item, Items, find, at, new_item, add_to_list, add_references, scan, Decision, keep,
  bad_count, collect, running, next, verdict, grow, decide, perform_cyclic_collection,
}
use pylinda.Collector.Items.{occ, links, clique_links}
use pylinda.Collector.Decide.{IsExact, Extends, IsSafe, links-closed, verdict-IsSafe, grow-IsSafe}
use pylinda.Collector.Distinct.{ptrs, ptrs-equal, add_to_list-distinct, add_to_list-found}
use pylinda.Collector.Resolve.{AreLinked, find-equal}
use pylinda.Collector.Track.{IsResolved, OnResolved, scan-OnResolved, alone-IsTracked}
use pylinda.Collector.Scan.{add_to_list-counts, add_to_list-length, add_to_list-field}

-- What holds of the list between two references: the counters count the references recorded, the
-- counts are those of the objects, only the root, the object at `p`, is marked, no object is listed
-- twice, and each but the root is counted.
record IsScanned (h : Heap) (p : ℕ) (xs : Items) : Type 0 where
  counts : (j : ℕ) → (at xs j).count ≡ links xs j
  recorded : (j : ℕ) → j < length xs → (at xs j).refcount ≡ Heap.reference_count h (at xs j).ptr
  only_root : (j : ℕ) → (at xs j).in_clique ≡ true → j ≡ 0
  root : (at xs 0).ptr ≡ p
  marked_root : (at xs 0).in_clique ≡ true
  distinct : (q : ℕ) → occ q (ptrs xs) ≤ 1
  found : (j : ℕ) → 0 < j → j < length xs → 0 < (at xs j).count

abbrev pair : Item → ℤ × ℕ
pair x = (x.refcount, x.ptr)

abbrev first : ℤ × ℕ → ℤ
first (a, b) = a

abbrev second : ℤ × ℕ → ℕ
second (a, b) = b

module _ (h : Heap) (p : ℕ) where
  add_to_list-IsScanned :
      (i : ℕ) (xs : Items) (q : ℕ)
      → i < length xs
      → IsScanned h p xs
      → IsScanned h p (add_to_list h i xs q)
  add_to_list-IsScanned i xs q l s = record {
    counts = add_to_list-counts h i xs q l s.counts;
    recorded = λ j r. elim (add_to_list-field h pair (λ x. refl) (λ k x. refl) i xs q j) [
      | inl (e, w) ↦
          ap first e ∙ s.recorded j (w r) ∙ sym (ap (λ x. h.reference_count (second x)) e)
      | inr (_, e) ↦ ap first e ∙ sym (ap (λ x. h.reference_count (second x)) e)
    ];
    only_root = λ j c.
        elim (add_to_list-field h (λ x. x.in_clique) (λ x. refl) (λ k x. refl) i xs q j) [
          | inl (e, _) ↦ s.only_root j (sym e ∙ c)
          | inr (_, e) ↦ cc
        ];
    root = elim (add_to_list-field h (λ x. x.ptr) (λ x. refl) (λ k x. refl) i xs q 0) [
      | inl (e, _) ↦ e ∙ s.root
      | inr (e, _) ↦ ground arith
    ];
    marked_root = elim (add_to_list-field h (λ x. x.in_clique) (λ x. refl) (λ k x. refl) i xs q 0) [
      | inl (e, _) ↦ e ∙ s.marked_root
      | inr (e, _) ↦ ground arith
    ];
    distinct = add_to_list-distinct h i xs q s.distinct;
    found = add_to_list-found h i xs q s.found;
  }

  add_references-IsScanned :
      (i : ℕ) (xs : Items) (ps : List ℕ)
      → i < length xs
      → IsScanned h p xs
      → IsScanned h p (add_references h i xs ps)
  add_references-IsScanned i xs [] l s = s
  add_references-IsScanned i xs (q ∷ qs) l s =
      add_references-IsScanned i (add_to_list h i xs q) qs
        (omega (arith, add_to_list-length h i xs q, l)) (add_to_list-IsScanned i xs q l s)

  -- what a scan that ends shows
  OnSome : Option Items → Type 0
  OnSome none = Unit
  OnSome (some xs) = IsScanned h p xs

  scan-IsScanned : (fuel i : ℕ) (xs : Items) → IsScanned h p xs → OnSome (scan h fuel i xs)
  unfolding OnSome
  scan-IsScanned zero i xs s = tt
  scan-IsScanned (suc fuel) i xs s = elim (Bool-cases (ltb i (length xs))) [
    | inl l ↦ rw (l) (
        scan-IsScanned fuel (suc i) (add_references h i xs (h.references (at xs i).ptr))
          (add_references-IsScanned i xs (h.references (at xs i).ptr) (ltb→lt i (length xs) l) s))
    | inr l ↦ rw (l) s
  ]

  alone : Items
  alone = new_item h p 0 true ∷ []

  alone-counts : (j : ℕ) → (at alone j).count ≡ links alone j
  unfolding alone links occ
  alone-counts zero = refl
  alone-counts (suc j) = refl

  alone-recorded :
      (j : ℕ) → j < length alone → (at alone j).refcount ≡ h.reference_count (at alone j).ptr
  unfolding alone
  alone-recorded zero r = refl
  alone-recorded (suc j) r = ground arith

  alone-only_root : (j : ℕ) → (at alone j).in_clique ≡ true → j ≡ 0
  unfolding alone
  alone-only_root zero c = refl
  alone-only_root (suc j) c = cc

  alone-distinct : (q : ℕ) → occ q (ptrs alone) ≤ 1
  unfolding alone ptrs occ
  alone-distinct q = ground arith

  alone-found : (j : ℕ) → 0 < j → j < length alone → 0 < (at alone j).count
  unfolding alone
  alone-found j z l = ground arith

  alone-IsScanned : IsScanned h p alone
  unfolding alone
  alone-IsScanned = record {
    counts = alone-counts;
    recorded = alone-recorded;
    only_root = alone-only_root;
    root = refl;
    marked_root = refl;
    distinct = alone-distinct;
    found = alone-found;
  }

  within : (xs : Items) (j : ℕ) → (at xs j).in_clique ≡ true → j < length xs
  within [] j c = cc
  within (x ∷ xs) zero c = omega arith
  within (x ∷ xs) (suc j) c = omega (arith, within xs j c)

  -- The root is among the objects to destroy, and each of them has exactly as many references as
  -- those objects themselves hold to it. None is listed twice, each but the root has such a
  -- reference, and the references noted are those that the objects report.
  pub record IsGarbage (ys : Items) : Type 0 where
    pub root : ((at ys 0).ptr ≡ p) × ((at ys 0).in_clique ≡ true)
    pub unreferenced :
        (j : ℕ)
        → (at ys j).in_clique ≡ true
        → h.reference_count (at ys j).ptr ≡ pos (clique_links ys j)
    pub resolved :
        (j : ℕ)
        → j < length ys
        → (q : ℕ)
        → occ (find ys (suc q)) (at ys j).ptrtos ≡ occ (suc q) (h.references (at ys j).ptr)
    pub distinct : (q : ℕ) → occ q (ptrs ys) ≤ 1
    pub referenced : (j : ℕ) → (at ys j).in_clique ≡ true → 0 < j → 0 < clique_links ys j

  garbage :
      (xs ys : Items)
      → IsScanned h p xs
      → IsResolved h xs
      → Extends xs ys
      → IsExact ys
      → next ys ys ≡ none
      → IsGarbage ys
  unfolding IsExact IsResolved AreLinked
  garbage xs ys s v x e n =
      let total = λ (j : ℕ) (c : (at ys j).in_clique ≡ true).
        x.same_count j ∙ s.counts j ∙ sym (x.same_links j) ∙ links-closed ys ys j c n in
      record {
        root = (x.same_ptr 0 ∙ s.root, x.stays 0 s.marked_root);
        resolved = λ j l q.
            ap (λ ks. occ (find ys (suc q)) ks) (x.same_ptrtos j)
            ∙ ap (λ k. occ k (at xs j).ptrtos) (find-equal xs ys (suc q) x.same_length x.same_ptr)
            ∙ (v j (rw (sym x.same_length) l)).1 q
            ∙ ap (λ a. occ (suc q) (h.references a)) (sym (x.same_ptr j));
        distinct = λ q. rw (ptrs-equal xs ys x.same_length x.same_ptr) (s.distinct q);
        referenced = λ j c z.
            let m = s.found j z (rw (sym x.same_length) (within ys j c)) in
            let e1 = x.same_count j in omega (arith, total j c, m, e1);
        unreferenced = λ j c.
            ap h.reference_count (x.same_ptr j)
            ∙ sym (s.recorded j (rw (sym x.same_length) (within ys j c)))
            ∙ sym (x.same_refcount j)
            ∙ e j c
            ∙ ap pos (total j c);
      }

  OnCollect : Decision → Type 0
  OnCollect (collect ys) = IsGarbage ys
  OnCollect _ = Unit

  safe-OnCollect :
      (xs : Items) → IsScanned h p xs → IsResolved h xs → (d : Decision) → IsSafe xs d → OnCollect d
  unfolding IsSafe OnCollect
  safe-OnCollect xs s v keep q = tt
  safe-OnCollect xs s v bad_count q = tt
  safe-OnCollect xs s v (collect ys) (x, e, n) = garbage xs ys s v x e n
  safe-OnCollect xs s v running q = tt

  decide-OnCollect :
      (fuel : ℕ) (o : Option Items) → OnSome o → OnResolved h o → OnCollect (decide fuel o)
  unfolding OnSome OnResolved OnCollect IsExact
  decide-OnCollect fuel none s v = tt
  decide-OnCollect fuel (some xs) s v = safe-OnCollect xs s v (verdict (at xs 0) (grow fuel xs)) (
      verdict-IsSafe xs (at xs 0) (grow fuel xs)
        (λ exact. grow-IsSafe fuel xs (λ j c. let first_j = s.only_root j c in cc)))

  perform-OnCollect : (fuel : ℕ) → OnCollect (perform_cyclic_collection h fuel p)
  unfolding OnCollect alone
  perform-OnCollect fuel = elim (Bool-cases (is_neg (h.reference_count p))) [
    | inl e ↦ rw (e) tt
    | inr e ↦ rw (e) (
        decide-OnCollect fuel (scan h fuel 0 alone) (scan-IsScanned fuel 0 alone alone-IsScanned)
          (scan-OnResolved h fuel 0 alone (alone-IsTracked h p)))
  ]

  -- When Minimal_performCyclicCollection decides to collect, it destroys the object that it was
  -- called for, and the reference count in each object that it destroys is exactly the number of
  -- references to it from the objects that it destroys. No object is destroyed twice, and each but
  -- the first has such a reference.
  pub collect-IsGarbage :
      (fuel : ℕ) (ys : Items) → perform_cyclic_collection h fuel p ≡ collect ys → IsGarbage ys
  unfolding OnCollect
  collect-IsGarbage fuel ys e = subst OnCollect e (perform-OnCollect fuel)
