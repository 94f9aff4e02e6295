-- ===== src/Collector/Ends.antt =====
-- The loops of minimal/src/cyclic_garbage.c end when finitely many objects are referenced.
use pylinda.Base.{
  ℕ, zero, suc, ◌+◌, ◌<◌, ◌≤◌, ◌≡◌, refl, ap, sym, ◌∙◌, inl, inr, Bool, true, false, ◌||◌, some,
  List, [], ◌∷◌, ◌++◌, length, length-append, ltb, ◌==◌, if◌then◌else◌, Bool-cases, ==_iff, ltb→lt,
  arith,
}
use pylinda.Base.Int.{is_neg}
use pylinda.Collector.{
  Heap, Item, Items, find, modify, at, counted, linked, new_item, counted_at, add_to_list,
  add_references, scan, grow, perform_cyclic_collection,
}
use pylinda.Collector.Items.{length-modify}
use pylinda.Collector.Scan.{add_to_list-length}
use pylinda.Collector.Enough.{is_running, verdict_ends, grow_enough}

abbrev pub elem : ℕ → List ℕ → Bool
elem p [] = false
elem p (q ∷ qs) = (q == p) || elem p qs

-- every pointer is null or one of `us`
unfoldable pub AreAmong : List ℕ → List ℕ → Type 0
AreAmong us [] = Unit
AreAmong us (zero ∷ qs) = AreAmong us qs
AreAmong us (suc q ∷ qs) = (elem (suc q) us ≡ true) × AreAmong us qs

-- the object is in the list
unfoldable seen : Items → ℕ → Bool
seen [] p = false
seen (x ∷ xs) p = (x.ptr == p) || seen xs p

find_le : (xs : Items) (p : ℕ) → find xs p ≤ length xs
find_le [] p = omega arith
find_le (x ∷ xs) p = ground (arith, find_le xs p)

find-seen : (xs : Items) (p : ℕ) → ltb (find xs p) (length xs) ≡ seen xs p
unfolding seen
find-seen [] p = ground arith
find-seen (x ∷ xs) p = ground (arith, find-seen xs p, find_le xs p)

seen-modify :
    (f : Item → Item) (e : (x : Item) → (f x).ptr ≡ x.ptr) (i : ℕ) (xs : Items) (p : ℕ)
    → seen (modify f i xs) p ≡ seen xs p
unfolding seen
seen-modify f e i [] p = refl
seen-modify f e zero (x ∷ xs) p = ap (λ q. (q == p) || seen xs p) (e x)
seen-modify f e (suc i) (x ∷ xs) p = ap (◌||◌ (x.ptr == p)) (seen-modify f e i xs p)

seen-append : (xs : Items) (y : Item) (p : ℕ) → seen (xs ++ y ∷ []) p ≡ (seen xs p || (y.ptr == p))
unfolding seen
seen-append [] y p = ground arith
seen-append (x ∷ xs) y p = ground (arith, seen-append xs y p)

-- the objects of `us` that are not in the list
unfoldable unseen : List ℕ → Items → ℕ
unseen [] xs = 0
unseen (u ∷ us) xs = (if seen xs u then 0 else 1) + unseen us xs

unseen_le : (us : List ℕ) (xs : Items) → unseen us xs ≤ length us
unfolding unseen
unseen_le [] xs = omega arith
unseen_le (u ∷ us) xs = ground (arith, unseen_le us xs)

unseen-same :
    (us : List ℕ) (xs ys : Items) → ((p : ℕ) → seen ys p ≡ seen xs p) → unseen us ys ≡ unseen us xs
unfolding unseen
unseen-same [] xs ys e = refl
unseen-same (u ∷ us) xs ys e = rw (e u, unseen-same us xs ys e) refl

unseen-append : (us : List ℕ) (xs : Items) (y : Item) → unseen us (xs ++ y ∷ []) ≤ unseen us xs
unfolding unseen
unseen-append [] xs y = omega arith
unseen-append (u ∷ us) xs y = ground (arith, unseen-append us xs y, seen-append xs y u)

unseen-new :
    (us : List ℕ) (xs : Items) (y : Item)
    → elem y.ptr us ≡ true
    → seen xs y.ptr ≡ false
    → unseen us (xs ++ y ∷ []) < unseen us xs
unfolding unseen
unseen-new [] xs y m s = cc
unseen-new (u ∷ us) xs y m s = elim (Bool-cases (u == y.ptr)) [
  | inl e ↦
      let same : u ≡ y.ptr = (==_iff u y.ptr).0 e in
      let fresh : seen xs u ≡ false = cc in
      let back : (y.ptr == u) ≡ true = (==_iff y.ptr u).1 (sym same) in
      rw (seen-append xs y u, fresh, back) (omega (arith, unseen-append us xs y))
  | inr e ↦
      let rest : elem y.ptr us ≡ true = rw e at m in
      ground (arith, unseen-new us xs y rest s, seen-append xs y u)
]

-- the objects found and those that can be found
abbrev budget : List ℕ → Items → ℕ
budget us xs = length xs + unseen us xs

module _ (h : Heap) (us : List ℕ) (closed : (q : ℕ) → AreAmong us (h.references q)) where
  budget-counted :
      (xs : Items) (q : ℕ)
      → elem q us ≡ true
      → budget us (counted_at h xs q (find xs q)) ≤ budget us xs
  budget-counted xs q m = elim (Bool-cases (seen xs q)) [
    | inl s ↦ rw (find-seen xs q ∙ s) (
        omega (
          arith,
          length-modify counted (find xs q) xs,
          unseen-same us xs (modify counted (find xs q) xs)
              (seen-modify counted (λ x. refl) (find xs q) xs),
        ))
    | inr s ↦ rw (find-seen xs q ∙ s) (
        omega (
          arith,
          length-append xs (new_item h q 1 false ∷ []),
          unseen-new us xs (new_item h q 1 false) m s,
        ))
  ]

  budget-references :
      (i : ℕ) (xs : Items) (qs : List ℕ)
      → AreAmong us qs
      → budget us (add_references h i xs qs) ≤ budget us xs
  unfolding AreAmong
  budget-references i xs [] m = omega arith
  budget-references i xs (zero ∷ qs) m = budget-references i xs qs m
  budget-references i xs (suc q ∷ qs) (m, ms) =
      let k = find xs (suc q) in
      let ys = counted_at h xs (suc q) k in
      omega (
        arith,
        budget-references i (modify (linked k) i ys) qs ms,
        length-modify (linked k) i ys,
        unseen-same us ys (modify (linked k) i ys) (seen-modify (linked k) (λ x. refl) i ys),
        budget-counted xs (suc q) m,
      )

  references_length :
      (i : ℕ) (xs : Items) (qs : List ℕ) → length xs ≤ length (add_references h i xs qs)
  references_length i xs [] = omega arith
  references_length i xs (q ∷ qs) =
      omega (arith, add_to_list-length h i xs q, references_length i (add_to_list h i xs q) qs)

  scan_ends :
      (fuel i : ℕ) (xs : Items)
      → i ≤ length xs
      → budget us xs < fuel + i
      → (zs : Items) × (scan h fuel i xs ≡ some zs) × (length zs ≤ budget us xs)
  scan_ends zero i xs l b = ground arith
  scan_ends (suc fuel) i xs l b = elim (Bool-cases (ltb i (length xs))) [
    | inl e ↦
        let qs = h.references (at xs i).ptr in
        let ys = add_references h i xs qs in
        let less = budget-references i xs qs (closed (at xs i).ptr) in
        let more = references_length i xs qs in
        let (zs, p, q) =
          scan_ends fuel (suc i) ys (omega (arith, ltb→lt i (length xs) e, more))
            (omega (arith, less, b)) in
        rw (e) (zs, p, omega (arith, q, less))
    | inr e ↦ rw (e) (xs, refl, omega arith)
  ]

  -- When every pointer of every object is null or among `us`, fuel of their number plus two is
  -- enough: Minimal_performCyclicCollection comes to a decision, for any object.
  pub perform_ends :
      (p fuel : ℕ) → length us + 1 < fuel → is_running (perform_cyclic_collection h fuel p) ≡ false
  unfolding is_running
  perform_ends p fuel l =
      let alone = new_item h p 0 true ∷ [] in
      let (zs, e, b) =
        scan_ends fuel 0 alone (omega arith) (omega (arith, unseen_le us alone, l)) in
      elim (Bool-cases (is_neg (h.reference_count p))) [
        | inl n ↦ rw (n) refl
        | inr n ↦
            rw (n, e)
              (verdict_ends (at zs 0) (grow fuel zs)
                (grow_enough fuel zs (omega (arith, unseen_le us alone, b, l))))
      ]
