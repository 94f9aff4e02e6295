-- ===== src/Refcount/Cells.antt =====
-- The list of objects of minimal/src/refcount.c under updates, and the references that its objects
-- hold.
use pylinda.Base.{
  ℕ, ◌+◌, ◌≡◌, refl, ap, sym, ◌∙◌, inl, inr, true, false, Option, none, some, List, [], ◌∷◌, ◌==◌,
  if◌then◌else◌, Bool-cases, ==_iff, arith,
}
use pylinda.Base.Int.{is_pos}
use pylinda.Collector.Items.{occ}
use pylinda.Object.Field.{references}
use pylinda.Refcount.{Cell, lookup, update}

-- the pointers to `q` that an object holds, as long as it is not being destroyed
unfoldable pub weight : Cell → ℕ → ℕ
weight c q = if is_pos c.reference_count then occ q (references c.object) else 0

unfoldable pub holds : List Cell → ℕ → ℕ
holds [] q = 0
holds (c ∷ cs) q = weight c q + holds cs q

pub some_inj : {c d : Cell} → ◌≡◌ {A = Option Cell} (some c) (some d) → c ≡ d
some_inj {c} {d} e = ap (λ o. elim o [ none ↦ c | some x ↦ x ]) e

pub lookup_here :
    (d : Cell) (cs : List Cell) (p : ℕ) → (d.address == p) ≡ true → lookup (d ∷ cs) p ≡ some d
unfolding lookup
lookup_here d cs p h = rw (h) refl

pub lookup_there :
    (d : Cell) (cs : List Cell) (p : ℕ) → (d.address == p) ≡ false → lookup (d ∷ cs) p ≡ lookup cs p
unfolding lookup
lookup_there d cs p h = rw (h) refl

no_cell : {A : Type 0} (p : ℕ) (c : Cell) → lookup [] p ≡ some c → A
unfolding lookup
no_cell p c e = cc

no_none : {A : Type 0} {c : Cell} → ◌≡◌ {A = Option Cell} (some c) none → A
no_none e = cc

not_same : (a p q : ℕ) → (a == p) ≡ true → (p == q) ≡ false → (a == q) ≡ false
not_same a p q h e = ground arith

module _ (f : Cell → Cell) where
  update_here :
      (d : Cell) (cs : List Cell) (p : ℕ) → (d.address == p) ≡ true → update f p (d ∷ cs) ≡ f d ∷ cs
  unfolding update
  update_here d cs p h = rw (h) refl

  update_there :
      (d : Cell) (cs : List Cell) (p : ℕ)
      → (d.address == p) ≡ false
      → update f p (d ∷ cs) ≡ d ∷ update f p cs
  unfolding update
  update_there d cs p h = rw (h) refl

module _ (f : Cell → Cell) (keeps : (c : Cell) → (f c).address ≡ c.address) where
  pub lookup-update :
      (p : ℕ) (cs : List Cell) (c : Cell)
      → lookup cs p ≡ some c
      → lookup (update f p cs) p ≡ some (f c)
  lookup-update p [] c e = no_cell p c e
  lookup-update p (d ∷ cs) c e = elim (Bool-cases (d.address == p)) [
    | inl h ↦
        rw (update_here f d cs p h, lookup_here (f d) cs p (ap (λ a. a == p) (keeps d) ∙ h))
          (ap (λ x. some (f x)) (some_inj (sym (lookup_here d cs p h) ∙ e)))
    | inr h ↦
        rw (update_there f d cs p h, lookup_there d (update f p cs) p h)
          (lookup-update p cs c (sym (lookup_there d cs p h) ∙ e))
  ]

  pub lookup-update-none :
      (p : ℕ) (cs : List Cell) → lookup cs p ≡ none → lookup (update f p cs) p ≡ none
  unfolding lookup update
  lookup-update-none p [] e = refl
  lookup-update-none p (d ∷ cs) e = elim (Bool-cases (d.address == p)) [
    | inl h ↦ no_none (sym (lookup_here d cs p h) ∙ e)
    | inr h ↦
        rw (update_there f d cs p h, lookup_there d (update f p cs) p h)
          (lookup-update-none p cs (sym (lookup_there d cs p h) ∙ e))
  ]

  same_other :
      (d : Cell) (cs ds : List Cell) (q : ℕ)
      → lookup cs q ≡ lookup ds q
      → lookup (d ∷ cs) q ≡ lookup (d ∷ ds) q
  same_other d cs ds q e = elim (Bool-cases (d.address == q)) [
    | inl h ↦ lookup_here d cs q h ∙ sym (lookup_here d ds q h)
    | inr h ↦ lookup_there d cs q h ∙ e ∙ sym (lookup_there d ds q h)
  ]

  pub lookup-update_other :
      (p q : ℕ) (cs : List Cell) → (p == q) ≡ false → lookup (update f p cs) q ≡ lookup cs q
  unfolding lookup update
  lookup-update_other p q [] e = refl
  lookup-update_other p q (d ∷ cs) e = elim (Bool-cases (d.address == p)) [
    | inl h ↦
        let g = not_same d.address p q h e in
        rw (update_here f d cs p h)
          (lookup_there (f d) cs q (ap (λ a. a == q) (keeps d) ∙ g) ∙ sym (lookup_there d cs q g))
    | inr h ↦
        rw (update_there f d cs p h)
          (same_other d (update f p cs) cs q (lookup-update_other p q cs e))
  ]

  pub holds-update :
      (p : ℕ) (cs : List Cell) (c : Cell) (q : ℕ)
      → lookup cs p ≡ some c
      → holds (update f p cs) q + weight c q ≡ holds cs q + weight (f c) q
  unfolding holds
  holds-update p [] c q e = no_cell p c e
  holds-update p (d ∷ cs) c q e = elim (Bool-cases (d.address == p)) [
    | inl h ↦
        let same = some_inj (sym (lookup_here d cs p h) ∙ e) in
        rw (update_here f d cs p h, sym same) (omega arith)
    | inr h ↦
        let rest = holds-update p cs c q (sym (lookup_there d cs p h) ∙ e) in
        rw (update_there f d cs p h) (omega (arith, rest))
  ]

  -- an update that keeps the pointers, and whether they count
  pub holds-update_same :
      (q : ℕ)
      → ((c : Cell) → weight (f c) q ≡ weight c q)
      → (p : ℕ) (cs : List Cell) → holds (update f p cs) q ≡ holds cs q
  unfolding holds update
  holds-update_same q w p [] = refl
  holds-update_same q w p (d ∷ cs) = elim (Bool-cases (d.address == p)) [
    | inl h ↦ rw (update_here f d cs p h) (omega (arith, w d))
    | inr h ↦ rw (update_there f d cs p h) (omega (arith, holds-update_same q w p cs))
  ]

  same_field :
      {A : Type 0} (g : Option Cell → A)
      → ((c : Cell) → g (some (f c)) ≡ g (some c))
      → (p : ℕ) (cs : List Cell) (o : Option Cell) → lookup cs p ≡ o
      → g (lookup (update f p cs) p) ≡ g (lookup cs p)
  same_field g w p cs none e = ap g (lookup-update-none p cs e ∙ sym e)
  same_field g w p cs (some c) e = ap g (lookup-update p cs c e) ∙ w c ∙ sym (ap g e)

  -- an update that keeps a field keeps it everywhere
  pub field-update_same :
      {A : Type 0} (g : Option Cell → A)
      → ((c : Cell) → g (some (f c)) ≡ g (some c))
      → (p q : ℕ) (cs : List Cell) → g (lookup (update f p cs) q) ≡ g (lookup cs q)
  field-update_same g w p q cs = elim (Bool-cases (p == q)) [
    | inl h ↦ rw (sym ((==_iff p q).0 h)) (same_field g w p cs (lookup cs p) refl)
    | inr h ↦ ap g (lookup-update_other p q cs h)
  ]
