-- ===== src/Collector/Decide.antt =====
-- The search for the clique in minimal/src/cyclic_garbage.c, from a scanned list on.
use pylinda.Base.{
  ℕ, zero, suc, ◌≡◌, refl, ap, ◌∙◌, inl, inr, Bool, true, false, ◌||◌, Option, none, some, List, [],
  ◌∷◌, length, ◌==◌, if◌then◌else◌, Bool-cases, ==_iff, arith,
}
use pylinda.Base.Int.{ℤ, pos, negsuc, ltb_ℤ}
use pylinda.Collector.{
  Item, Items, modify, at, marked, Decision, keep, bad_count, collect, running, touches, opt_suc,
  next, verdict, grow,
}
use pylinda.Collector.Items.{
  occ, links, clique_links, links-modify, length-modify, at-modify, clique-marked, clique-stays,
}

-- every object of the clique has as many references as the scan counted
unfoldable pub IsExact : Items → Type 0
IsExact xs = (j : ℕ) → (at xs j).in_clique ≡ true → (at xs j).refcount ≡ pos (at xs j).count

-- The clique of `ys` holds that of `xs`, and the lists do not differ otherwise.
pub record Extends (xs ys : Items) : Type 0 where
  pub stays : (j : ℕ) → (at xs j).in_clique ≡ true → (at ys j).in_clique ≡ true
  pub same_ptr : (j : ℕ) → (at ys j).ptr ≡ (at xs j).ptr
  pub same_count : (j : ℕ) → (at ys j).count ≡ (at xs j).count
  pub same_refcount : (j : ℕ) → (at ys j).refcount ≡ (at xs j).refcount
  pub same_length : length ys ≡ length xs
  pub same_links : (j : ℕ) → links ys j ≡ links xs j
  pub same_ptrtos : (j : ℕ) → (at ys j).ptrtos ≡ (at xs j).ptrtos

Extends-refl : (xs : Items) → Extends xs xs
Extends-refl xs = record {
  stays = λ j h. h;
  same_ptr = λ j. refl;
  same_count = λ j. refl;
  same_refcount = λ j. refl;
  same_length = refl;
  same_links = λ j. refl;
  same_ptrtos = λ j. refl;
}

Extends-marked : (i : ℕ) (xs : Items) → Extends xs (modify marked i xs)
Extends-marked i xs = record {
  stays = clique-stays i xs;
  same_ptr = at-modify (λ x. x.ptr) marked (λ x. refl) i xs;
  same_count = at-modify (λ x. x.count) marked (λ x. refl) i xs;
  same_refcount = at-modify (λ x. x.refcount) marked (λ x. refl) i xs;
  same_length = length-modify marked i xs;
  same_links = links-modify marked (λ x. refl) i xs;
  same_ptrtos = at-modify (λ x. x.ptrtos) marked (λ x. refl) i xs;
}

Extends-trans : {xs ys zs : Items} → Extends xs ys → Extends ys zs → Extends xs zs
Extends-trans p q = record {
  stays = λ j h. q.stays j (p.stays j h);
  same_ptr = λ j. q.same_ptr j ∙ p.same_ptr j;
  same_count = λ j. q.same_count j ∙ p.same_count j;
  same_refcount = λ j. q.same_refcount j ∙ p.same_refcount j;
  same_length = q.same_length ∙ p.same_length;
  same_links = λ j. q.same_links j ∙ p.same_links j;
  same_ptrtos = λ j. q.same_ptrtos j ∙ p.same_ptrtos j;
}

neither : (a b : Bool) → (a || b) ≡ false → (a ≡ false) × (b ≡ false)
neither true b h = cc
neither false b h = (refl, h)

apart :
    (whole : Items) (j k : ℕ)
    → (at whole j).in_clique ≡ true
    → (at whole k).in_clique ≡ false
    → (k == j) ≡ false
apart whole j k h t = elim (Bool-cases (k == j)) [
  | inl e ↦ let same : k ≡ j = (==_iff k j).0 e in cc
  | inr e ↦ e
]

occ-outside :
    (whole : Items) (ks : List ℕ) (j : ℕ)
    → (at whole j).in_clique ≡ true
    → touches whole ks ≡ false
    → occ j ks ≡ 0
unfolding occ
occ-outside whole [] j h t = refl
occ-outside whole (k ∷ ks) j h t =
    let (p, q) = neither (at whole k).in_clique (touches whole ks) t in
    rw (apart whole j k h p, occ-outside whole ks j h q) refl

passed :
    (b t : Bool) (r : Option ℕ)
    → (if b then opt_suc r else if t then some 0 else opt_suc r) ≡ none
    → (b ≡ false → t ≡ false) × (r ≡ none)
passed true t none h = (λ e. cc, refl)
passed true t (some n) h = cc
passed false true r h = cc
passed false false none h = (λ e. refl, refl)
passed false false (some n) h = cc

pub links-closed :
    (whole xs : Items) (j : ℕ)
    → (at whole j).in_clique ≡ true
    → next whole xs ≡ none
    → links xs j ≡ clique_links xs j
unfolding links clique_links
links-closed whole [] j h e = refl
links-closed whole (x ∷ xs) j h e =
    let (p, q) = passed x.in_clique (touches whole x.ptrtos) (next whole xs) e in
    let rest = links-closed whole xs j h q in
    elim (Bool-cases x.in_clique) [
      | inl c ↦ rw (c, rest) refl
      | inr c ↦ rw (c, occ-outside whole x.ptrtos j h (p c), rest) refl
    ]

-- What a decision to collect shows, when it comes from the list `xs`.
unfoldable pub IsSafe : Items → Decision → Type 0
IsSafe xs (collect ys) = Extends xs ys × IsExact ys × (next ys ys ≡ none)
IsSafe xs _ = Unit

ltb_pos : (z : ℤ) (n : ℕ) → ltb_ℤ (pos n) z ≡ false → ltb_ℤ z (pos n) ≡ false → z ≡ pos n
ltb_pos (pos m) n p q = ap pos (ground arith)
ltb_pos (negsuc m) n p q = ground arith

pub verdict-IsSafe :
    (xs : Items) (x : Item) (go : Decision)
    → (x.refcount ≡ pos x.count → IsSafe xs go)
    → IsSafe xs (verdict x go)
unfolding IsSafe
verdict-IsSafe xs x go k = elim (Bool-cases (ltb_ℤ (pos x.count) x.refcount)) [
  | inl p ↦ rw (p) tt
  | inr p ↦ elim (Bool-cases (ltb_ℤ x.refcount (pos x.count))) [
    | inl q ↦ rw (p, q) tt
    | inr q ↦ rw (p, q) (k (ltb_pos x.refcount x.count p q))
  ]
]

IsExact-marked :
    (i : ℕ) (xs : Items)
    → IsExact xs
    → (at xs i).refcount ≡ pos (at xs i).count
    → IsExact (modify marked i xs)
unfolding IsExact
IsExact-marked i xs s e j h =
    let m = Extends-marked i xs in
    rw (m.same_refcount j, m.same_count j)
      (elim (clique-marked i xs j h) [ inl p ↦ cc | inr p ↦ s j p ])

IsSafe-earlier : {xs ys : Items} → Extends xs ys → (d : Decision) → IsSafe ys d → IsSafe xs d
unfolding IsSafe
IsSafe-earlier p keep s = tt
IsSafe-earlier p bad_count s = tt
IsSafe-earlier p (collect zs) (q, s, n) = (Extends-trans p q, s, n)
IsSafe-earlier p running s = tt

module _ (fuel : ℕ) (ih : (ys : Items) → IsExact ys → IsSafe ys (grow fuel ys)) where
  after-IsSafe :
      (xs : Items)
      → IsExact xs
      → (o : Option ℕ) → next xs xs ≡ o
      → IsSafe xs (elim o [
        | none ↦ collect xs
        | some j ↦ verdict (at xs j) (grow fuel (modify marked j xs))
      ])
  unfolding IsSafe
  after-IsSafe xs s none e = (Extends-refl xs, s, e)
  after-IsSafe xs s (some j) e =
      verdict-IsSafe xs (at xs j) (grow fuel (modify marked j xs)) (λ exact.
        IsSafe-earlier (Extends-marked j xs) (grow fuel (modify marked j xs))
          (ih (modify marked j xs) (IsExact-marked j xs s exact)))

pub grow-IsSafe : (fuel : ℕ) (xs : Items) → IsExact xs → IsSafe xs (grow fuel xs)
unfolding IsSafe
grow-IsSafe zero xs s = tt
grow-IsSafe (suc fuel) xs s =
    after-IsSafe fuel (λ ys t. grow-IsSafe fuel ys t) xs s (next xs xs) refl
