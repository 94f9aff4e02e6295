-- ===== src/Collector/Resolve.antt =====
-- The scan of minimal/src/cyclic_garbage.c: the indices that it notes for an object stand for the
-- object's pointers.
use pylinda.Base.{
  ℕ, suc, ◌<◌, ◌≤◌, ◌≡◌, refl, ap, sym, ◌∙◌, inl, inr, false, subst, List, [], ◌∷◌, ◌++◌, length,
  length-append, ltb, ◌==◌, if◌then◌else◌, Bool-cases, ==_iff, arith,
}
use pylinda.Collector.{Item, Items, find, modify, at}
use pylinda.Collector.Items.{occ, occ-snoc, length-modify, at-modify}

pub find-equal :
    (xs ys : Items) (p : ℕ)
    → length ys ≡ length xs
    → ((j : ℕ) → (at ys j).ptr ≡ (at xs j).ptr)
    → find ys p ≡ find xs p
find-equal [] [] p l e = refl
find-equal [] (y ∷ ys) p l e = ground arith
find-equal (x ∷ xs) [] p l e = ground arith
find-equal (x ∷ xs) (y ∷ ys) p l e =
    rw (e 0, find-equal xs ys p (omega (arith, l)) (λ j. e (suc j))) refl

pub find-modify :
    (f : Item → Item) (k : (x : Item) → (f x).ptr ≡ x.ptr) (i : ℕ) (xs : Items) (p : ℕ)
    → find (modify f i xs) p ≡ find xs p
find-modify f k i xs p =
    find-equal xs (modify f i xs) p (length-modify f i xs) (at-modify (λ x. x.ptr) f k i xs)

pub find-snoc :
    (xs : Items) (y : Item) (p : ℕ)
    → find (xs ++ y ∷ []) p ≡ (
        if ltb (find xs p) (length xs)
        then find xs p
        else if y.ptr == p
        then length xs
        else suc (length xs))
find-snoc [] y p = ground arith
find-snoc (x ∷ xs) y p = ground (arith, find-snoc xs y p)

find-there :
    (x : Item) (xs : Items) (p : ℕ) → (x.ptr == p) ≡ false → find (x ∷ xs) p ≡ suc (find xs p)
find-there x xs p e = rw (e) refl

find-at : (xs : Items) (p : ℕ) → find xs p < length xs → (at xs (find xs p)).ptr ≡ p
find-at [] p l = ground arith
find-at (x ∷ xs) p l = elim (Bool-cases (x.ptr == p)) [
  | inl e ↦ rw (e) ((==_iff x.ptr p).0 e)
  | inr e ↦ let there = find-there x xs p e in rw (e) (find-at xs p (omega (arith, there, l)))
]

apart :
    (xs : Items) (p q : ℕ)
    → find xs p < length xs
    → (p == q) ≡ false
    → (find xs p == find xs q) ≡ false
apart xs p q l e = elim (Bool-cases (find xs p == find xs q)) [
  | inr h ↦ h
  | inl h ↦
      let same = (==_iff (find xs p) (find xs q)).0 h in
      let at_p = find-at xs p l in
      let at_q = find-at xs q (subst (λ n. n < length xs) same l) in
      let equal = sym at_p ∙ ap (λ n. (at xs n).ptr) same ∙ at_q in ground (arith, equal)
]

-- The indices `ks` into `xs` stand for the addresses `ds`; null pointers are left aside.
unfoldable pub AreLinked : Items → List ℕ → List ℕ → Type 0
AreLinked xs ks ds =
    ((k : ℕ) → length xs ≤ k → occ k ks ≡ 0) × ((q : ℕ) → occ (find xs (suc q)) ks ≡ occ (suc q) ds)

pub AreLinked-nil : (xs : Items) → AreLinked xs [] []
unfolding AreLinked occ
AreLinked-nil xs = (λ k l. refl, λ q. refl)

-- another object at the end
pub AreLinked-snoc :
    (xs : Items) (y : Item) (ks ds : List ℕ) → AreLinked xs ks ds → AreLinked (xs ++ y ∷ []) ks ds
unfolding AreLinked
AreLinked-snoc xs y ks ds (b, e) = (
  λ k l. b k (omega (arith, l, length-append xs (y ∷ []))),
  λ q. rw (find-snoc xs y (suc q)) (elim (Bool-cases (ltb (find xs (suc q)) (length xs))) [
    | inl h ↦ rw (h) (e q)
    | inr h ↦
        let absent = sym (b (find xs (suc q)) (ground (arith, h))) ∙ e q in
        rw (h) (elim (Bool-cases (y.ptr == suc q)) [
          | inl w ↦ rw (w) (b (length xs) (omega arith) ∙ absent)
          | inr w ↦ rw (w) (b (suc (length xs)) (omega arith) ∙ absent)
        ])
  ]),
)

-- one more pointer, to an object in the list
pub AreLinked-linked :
    (xs : Items) (ks ds : List ℕ) (p : ℕ)
    → find xs (suc p) < length xs
    → AreLinked xs ks ds
    → AreLinked xs (ks ++ find xs (suc p) ∷ []) (ds ++ suc p ∷ [])
unfolding AreLinked
AreLinked-linked xs ks ds p l (b, e) = (
  λ k m. ground (arith, occ-snoc k (find xs (suc p)) ks, b k m),
  λ q. elim (Bool-cases (suc p == suc q)) [
    | inl w ↦
        let same = (==_iff (suc p) (suc q)).0 w in
        ground (
          arith,
          occ-snoc (find xs (suc q)) (find xs (suc p)) ks,
          occ-snoc (suc q) (suc p) ds,
          e q,
          ap (find xs) same,
        )
    | inr w ↦ ground (
      arith,
      occ-snoc (find xs (suc q)) (find xs (suc p)) ks,
      occ-snoc (suc q) (suc p) ds,
      e q,
      apart xs (suc p) (suc q) l w,
    )
  ],
)

-- a null pointer
pub AreLinked-null :
    (xs : Items) (ks ds : List ℕ) → AreLinked xs ks ds → AreLinked xs ks (ds ++ 0 ∷ [])
unfolding AreLinked
AreLinked-null xs ks ds (b, e) = (b, λ q. ground (arith, occ-snoc (suc q) 0 ds, e q))

-- the same addresses
pub AreLinked-same :
    (xs ys : Items) (ks ds : List ℕ)
    → length ys ≡ length xs
    → ((p : ℕ) → find ys p ≡ find xs p)
    → AreLinked xs ks ds
    → AreLinked ys ks ds
unfolding AreLinked
AreLinked-same xs ys ks ds l f (b, e) =
    (λ k m. b k (omega (arith, l, m)), λ q. ap (λ i. occ i ks) (f (suc q)) ∙ e q)
