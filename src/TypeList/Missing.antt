-- ===== src/TypeList/Missing.antt =====
-- minimal/src/type_list.c: the types that are not yet on the list, which become fewer.
use pylinda.Base.{
  ℕ, zero, suc, ◌+◌, ◌≤◌, ◌<◌, ◌≡◌, refl, subst, Bool, true, false, List, [], ◌∷◌, ◌++◌, ◌==◌,
  if◌then◌else◌, arith, Bool-cases, inl, inr,
}
use pylinda.TypeList.{mem}

-- nothing leaves the list
abbrev pub Keeps : List ℕ → List ℕ → Type 0
Keeps l l' = (x : ℕ) → mem x l ≡ true → mem x l' ≡ true

unfoldable pub missing : ℕ → List ℕ → ℕ
missing zero l = 0
missing (suc k) l = (if mem k l then 0 else 1) + missing k l

pub missing-Keeps : (n : ℕ) (l l' : List ℕ) → Keeps l l' → missing n l' ≤ missing n l
unfolding missing
missing-Keeps zero l l' h = omega arith
missing-Keeps (suc k) l l' h = elim (Bool-cases (mem k l)) [
  | inl e ↦ rw (e, h k e) (omega (arith, missing-Keeps k l l' h))
  | inr e ↦ rw e (ground (arith, missing-Keeps k l l' h))
]

pub missing-bound : (n : ℕ) (l : List ℕ) → missing n l ≤ n
unfolding missing
missing-bound zero l = omega arith
missing-bound (suc k) l = ground (arith, missing-bound k l)

pub missing-added :
    (n a : ℕ) (l l' : List ℕ)
    → a < n
    → Keeps l l'
    → mem a l ≡ false
    → mem a l' ≡ true
    → missing n l' < missing n l
unfolding missing
missing-added zero a l l' lt h e e' = absurd (omega arith)
missing-added (suc k) a l l' lt h e e' = elim (Bool-cases (a == k)) [
  | inl same ↦
      let eq : a ≡ k = ground arith in
      let e1 : mem k l ≡ false = rw⁻¹ eq e in
      let e2 : mem k l' ≡ true = rw⁻¹ eq e' in rw (e1, e2) (omega (arith, missing-Keeps k l l' h))
  | inr other ↦
      let below : a < k = ground arith in
      let less = missing-added k a l l' below h e e' in
      elim (Bool-cases (mem k l)) [
        | inl p ↦ rw (p, h k p) (omega (arith, less))
        | inr p ↦ rw p (ground (arith, less))
      ]
]

pub mem-snoc : (a : ℕ) (l : List ℕ) → mem a (l ++ a ∷ []) ≡ true
mem-snoc a [] = ground arith
mem-snoc a (x ∷ xs) = ground (arith, mem-snoc a xs)

skip : (x y : ℕ) (ys : List ℕ) (b : Bool) → (y == x) ≡ false → mem x (y ∷ ys) ≡ b → mem x ys ≡ b
skip x y ys b e h = subst (λ c. (if c then true else mem x ys) ≡ b) e h

taken : (x y : ℕ) (ys : List ℕ) → (y == x) ≡ true → mem x (y ∷ ys) ≡ false → ⊥
taken x y ys e h = let impossible = subst (λ c. (if c then true else mem x ys) ≡ false) e h in cc

pub snoc-Keeps : (a : ℕ) (l : List ℕ) → Keeps l (l ++ a ∷ [])
snoc-Keeps a [] x h = absurd cc
snoc-Keeps a (y ∷ ys) x h = elim (Bool-cases (y == x)) [
  | inl e ↦ rw e refl
  | inr e ↦ rw e (snoc-Keeps a ys x (skip x y ys true e h))
]

-- the last place holds what was added
pub mem-snoc_cases : (x a : ℕ) (l : List ℕ) → mem x (l ++ a ∷ []) ≡ true → mem x l ≡ false → a ≡ x
mem-snoc_cases x a [] h k = ground arith
mem-snoc_cases x a (y ∷ ys) h k = elim (Bool-cases (y == x)) [
  | inl e ↦ absurd (taken x y ys e k)
  | inr e ↦ mem-snoc_cases x a ys (skip x y (ys ++ a ∷ []) true e h) (skip x y ys false e k)
]
