-- ===== src/Collector/Items.antt =====
-- The items of minimal/src/cyclic_garbage.c under the updates of its loops.
use pylinda.Base.{
  ℕ, zero, suc, ◌+◌, ◌<◌, ◌≡◌, refl, ap, ◌⊎◌, inl, inr, true, List, [], ◌∷◌, ◌++◌, length, ◌==◌,
  if◌then◌else◌, arith,
}
use pylinda.Collector.{Item, Items, modify, at, counted, linked, marked}

-- how often an index stands in a list
unfoldable pub occ : ℕ → List ℕ → ℕ
occ j [] = 0
occ j (k ∷ ks) = (if k == j then 1 else 0) + occ j ks

pub occ-snoc : (j k : ℕ) (ks : List ℕ) → occ j (ks ++ k ∷ []) ≡ occ j ks + (if k == j then 1 else 0)
unfolding occ
occ-snoc j k [] = omega arith
occ-snoc j k (l ∷ ks) = ground (arith, occ-snoc j k ks)

pub occ-append : (p : ℕ) (xs ys : List ℕ) → occ p (xs ++ ys) ≡ occ p xs + occ p ys
unfolding occ
occ-append p [] ys = omega arith
occ-append p (x ∷ xs) ys = ground (arith, occ-append p xs ys)

-- the references to `j` from the items
unfoldable pub links : Items → ℕ → ℕ
links [] j = 0
links (x ∷ xs) j = occ j x.ptrtos + links xs j

-- those from the items of the clique
unfoldable pub clique_links : Items → ℕ → ℕ
clique_links [] j = 0
clique_links (x ∷ xs) j = (if x.in_clique then occ j x.ptrtos else 0) + clique_links xs j

pub links-append : (xs ys : Items) (j : ℕ) → links (xs ++ ys) j ≡ links xs j + links ys j
unfolding links
links-append [] ys j = omega arith
links-append (x ∷ xs) ys j = omega (arith, links-append xs ys j)

pub links-modify :
    (f : Item → Item) (p : (x : Item) → (f x).ptrtos ≡ x.ptrtos) (i : ℕ) (xs : Items) (j : ℕ)
    → links (modify f i xs) j ≡ links xs j
unfolding links
links-modify f p i [] j = refl
links-modify f p zero (x ∷ xs) j = ap (λ l. occ j l + links xs j) (p x)
links-modify f p (suc i) (x ∷ xs) j = omega (arith, links-modify f p i xs j)

pub links-linked :
    (k i : ℕ) (xs : Items) (j : ℕ)
    → i < length xs
    → links (modify (linked k) i xs) j ≡ links xs j + (if k == j then 1 else 0)
unfolding links
links-linked k i [] j h = ground arith
links-linked k zero (x ∷ xs) j h = omega (arith, occ-snoc j k x.ptrtos)
links-linked k (suc i) (x ∷ xs) j h = omega (arith, links-linked k i xs j (omega arith))

pub length-modify : (f : Item → Item) (i : ℕ) (xs : Items) → length (modify f i xs) ≡ length xs
length-modify f i [] = refl
length-modify f zero (x ∷ xs) = refl
length-modify f (suc i) (x ∷ xs) = omega (arith, length-modify f i xs)

-- an update that keeps a field keeps it everywhere
pub at-modify :
    {A : Type 0} (g : Item → A) (f : Item → Item) (p : (x : Item) → g (f x) ≡ g x) (i : ℕ)
    (xs : Items) (j : ℕ)
    → g (at (modify f i xs) j) ≡ g (at xs j)
at-modify g f p i [] j = refl
at-modify g f p zero (x ∷ xs) zero = p x
at-modify g f p zero (x ∷ xs) (suc j) = refl
at-modify g f p (suc i) (x ∷ xs) zero = refl
at-modify g f p (suc i) (x ∷ xs) (suc j) = at-modify g f p i xs j

pub count-counted :
    (k : ℕ) (xs : Items) (j : ℕ)
    → k < length xs
    → (at (modify counted k xs) j).count ≡ (at xs j).count + (if k == j then 1 else 0)
count-counted k [] j h = ground arith
count-counted zero (x ∷ xs) zero h = omega arith
count-counted zero (x ∷ xs) (suc j) h = ground arith
count-counted (suc k) (x ∷ xs) zero h = ground arith
count-counted (suc k) (x ∷ xs) (suc j) h = ground (arith, count-counted k xs j)

pub count-append :
    (xs : Items) (y : Item) (j : ℕ)
    → y.count ≡ 1
    → (at (xs ++ y ∷ []) j).count ≡ (at xs j).count + (if length xs == j then 1 else 0)
count-append [] y zero h = omega (arith, h)
count-append [] y (suc j) h = ground arith
count-append (x ∷ xs) y zero h = ground arith
count-append (x ∷ xs) y (suc j) h = ground (arith, count-append xs y j h)

-- marking an item adds no other to the clique
pub clique-marked :
    (i : ℕ) (xs : Items) (j : ℕ)
    → (at (modify marked i xs) j).in_clique ≡ true
    → (i ≡ j) ⊎ ((at xs j).in_clique ≡ true)
clique-marked i [] j h = inr h
clique-marked zero (x ∷ xs) zero h = inl refl
clique-marked zero (x ∷ xs) (suc j) h = inr h
clique-marked (suc i) (x ∷ xs) zero h = inr h
clique-marked (suc i) (x ∷ xs) (suc j) h = elim (clique-marked i xs j h) [
  | inl e ↦ inl (ap suc e)
  | inr e ↦ inr e
]

pub clique-stays :
    (i : ℕ) (xs : Items) (j : ℕ)
    → (at xs j).in_clique ≡ true
    → (at (modify marked i xs) j).in_clique ≡ true
clique-stays i [] j h = h
clique-stays zero (x ∷ xs) zero h = refl
clique-stays zero (x ∷ xs) (suc j) h = h
clique-stays (suc i) (x ∷ xs) zero h = h
clique-stays (suc i) (x ∷ xs) (suc j) h = clique-stays i xs j h
