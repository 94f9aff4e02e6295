-- ===== src/Collector/Seen.antt =====
-- The scan of minimal/src/cyclic_garbage.c: what it has seen of each object, at each step.
use pylinda.Base.{
  ℕ, zero, suc, ◌<◌, ◌≡◌, refl, inl, inr, Bool, true, false, List, [], ◌∷◌, ◌++◌, length, ltb, ◌==◌,
  if◌then◌else◌, Bool-cases, arith,
}
use pylinda.Collector.{Heap, Items, modify, at, linked}

pub ptrtos-linked :
    (k i : ℕ) (xs : Items) (j : ℕ)
    → i < length xs
    → (at (modify (linked k) i xs) j).ptrtos
      ≡ (if i == j then (at xs j).ptrtos ++ k ∷ [] else (at xs j).ptrtos)
ptrtos-linked k i [] j l = ground arith
ptrtos-linked k zero (x ∷ xs) zero l = refl
ptrtos-linked k zero (x ∷ xs) (suc j) l = ground arith
ptrtos-linked k (suc i) (x ∷ xs) zero l = ground arith
ptrtos-linked k (suc i) (x ∷ xs) (suc j) l = ground (arith, ptrtos-linked k i xs j (omega arith))

not_less : (i j : ℕ) → (i == j) ≡ true → ltb j i ≡ false
not_less i j e = ground arith

same_index : (i j : ℕ) → (i == j) ≡ true → (j == i) ≡ true
same_index i j e = ground arith

other_index : (i j : ℕ) → (i == j) ≡ false → (j == i) ≡ false
other_index i j e = ground arith

late : (i j : ℕ) → i < j → ltb j i ≡ false
late i j l = ground arith

later : (i j : ℕ) → i < j → (j == i) ≡ false
later i j l = ground arith

before : (i j : ℕ) → j < i → ltb j i ≡ true
before i j l = ground arith

at_last : (i j : ℕ) → ltb j (suc i) ≡ true → ltb j i ≡ false → (j == i) ≡ true
at_last i j e f = ground arith

passed : (i j : ℕ) → ltb j (suc i) ≡ false → i < j
passed i j e = ground arith

nothing : (b : Bool) → ◌≡◌ {A = List ℕ} [] (if b then [] else [])
nothing true = refl
nothing false = refl

module _ (h : Heap) where
  -- the pointers of the object `p` at index `j` that the scan has seen, while it is at index `i` and has
  -- seen `ds` there
  unfoldable pub seen_of : ℕ → List ℕ → ℕ → ℕ → List ℕ
  seen_of i ds p j = if ltb j i then h.references p else if j == i then ds else []

  pub seen_here : (i : ℕ) (ds : List ℕ) (p j : ℕ) → (i == j) ≡ true → seen_of i ds p j ≡ ds
  unfolding seen_of
  seen_here i ds p j e = rw (not_less i j e, same_index i j e) refl

  pub seen_other :
      (i : ℕ) (ds es : List ℕ) (p j : ℕ) → (i == j) ≡ false → seen_of i ds p j ≡ seen_of i es p j
  unfolding seen_of
  seen_other i ds es p j e = rw (other_index i j e) refl

  pub seen_before : (i p j : ℕ) → j < i → seen_of i [] p j ≡ h.references p
  unfolding seen_of
  seen_before i p j l = rw (before i j l) refl

  pub seen_late : (i : ℕ) (ds : List ℕ) (p j : ℕ) → i < j → seen_of i ds p j ≡ []
  unfolding seen_of
  seen_late i ds p j l = rw (late i j l, later i j l) refl

  pub seen_next : (i p j : ℕ) → seen_of i (h.references p) p j ≡ seen_of (suc i) [] p j
  unfolding seen_of
  seen_next i p j = elim (Bool-cases (ltb j (suc i))) [
    | inl e ↦ elim (Bool-cases (ltb j i)) [
      | inl f ↦ rw (e, f) refl
      | inr f ↦ rw (e, f, at_last i j e f) refl
    ]
    | inr e ↦ rw (e, late i j (passed i j e), later i j (passed i j e)) (nothing (j == suc i))
  ]
