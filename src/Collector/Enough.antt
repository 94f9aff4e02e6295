-- ===== src/Collector/Enough.antt =====
-- The clique loop of minimal/src/cyclic_garbage.c ends: each turn marks an object.
use pylinda.Base.{
  ℕ, zero, suc, ◌+◌, ◌<◌, ◌≤◌, ◌≡◌, refl, ◌⊎◌, inl, inr, Bool, true, false, Option, none, some, [],
  ◌∷◌, length, if◌then◌else◌, Bool-cases, arith,
}
use pylinda.Base.Int.{pos, ltb_ℤ}
use pylinda.Collector.{
  Item, Items, modify, at, marked, Decision, collect, running, touches, opt_suc, next, verdict,
  grow,
}

stops :
    (b t : Bool) (r : Option ℕ) (j : ℕ)
    → (if b then opt_suc r else if t then some 0 else opt_suc r) ≡ some j
    → ((b ≡ false) × (j ≡ 0)) ⊎ ((i : ℕ) × (r ≡ some i) × (j ≡ suc i))
stops true t none j h = cc
stops true t (some i) j h = inr (i, refl, cc)
stops false true r j h = inl (refl, cc)
stops false false none j h = cc
stops false false (some i) j h = inr (i, refl, cc)

-- the objects outside the clique
unfoldable pub outside : Items → ℕ
outside [] = 0
outside (x ∷ xs) = (if x.in_clique then 0 else 1) + outside xs

outside-marked :
    (whole xs : Items) (j : ℕ)
    → next whole xs ≡ some j
    → outside xs ≡ suc (outside (modify marked j xs))
unfolding outside
outside-marked whole [] j e = cc
outside-marked whole (x ∷ xs) j e =
    elim (stops x.in_clique (touches whole x.ptrtos) (next whole xs) j e) [
      | inl (p, q) ↦ rw (q, p) (omega arith)
      | inr (i, p, q) ↦ rw (q, outside-marked whole xs i p) (omega arith)
    ]

outside-length : (xs : Items) → outside xs ≤ length xs
unfolding outside
outside-length [] = omega arith
outside-length (x ∷ xs) = ground (arith, outside-length xs)

unfoldable pub is_running : Decision → Bool
is_running running = true
is_running _ = false

pub verdict_ends :
    (x : Item) (go : Decision) → is_running go ≡ false → is_running (verdict x go) ≡ false
unfolding is_running
verdict_ends x go h = elim (Bool-cases (ltb_ℤ (pos x.count) x.refcount)) [
  | inl p ↦ rw (p) refl
  | inr p ↦ elim (Bool-cases (ltb_ℤ x.refcount (pos x.count))) [
    | inl q ↦ rw (p, q) refl
    | inr q ↦ rw (p, q) h
  ]
]

module _ (fuel : ℕ)
    (ih : (ys : Items) → outside ys < fuel → is_running (grow fuel ys) ≡ false) where
  after_ends :
      (xs : Items)
      → outside xs < suc fuel
      → (o : Option ℕ) → next xs xs ≡ o
      → is_running (elim o [
        | none ↦ collect xs
        | some j ↦ verdict (at xs j) (grow fuel (modify marked j xs))
      ])
        ≡ false
  unfolding is_running
  after_ends xs h none e = refl
  after_ends xs h (some j) e =
      verdict_ends (at xs j) (grow fuel (modify marked j xs))
        (ih (modify marked j xs) (omega (arith, outside-marked xs xs j e)))

grow_ends : (fuel : ℕ) (xs : Items) → outside xs < fuel → is_running (grow fuel xs) ≡ false
unfolding is_running
grow_ends zero xs h = ground arith
grow_ends (suc fuel) xs h = after_ends fuel (λ ys l. grow_ends fuel ys l) xs h (next xs xs) refl

-- Fuel beyond the number of found objects is enough for the clique loop.
pub grow_enough : (fuel : ℕ) (xs : Items) → length xs < fuel → is_running (grow fuel xs) ≡ false
grow_enough fuel xs h = grow_ends fuel xs (omega (arith, outside-length xs))
