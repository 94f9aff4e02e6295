-- ===== src/Refcount/Clear.antt =====
-- Minimal_setReferenceCount and Minimal_delObject of all the objects that
-- minimal/src/cyclic_garbage.c destroys together.
use pylinda.Base.{
  ℕ, ◌+◌, ◌<◌, ◌≤◌, String, ◌≡◌, refl, sym, ◌∙◌, inl, inr, true, false, Option, none, some, List,
  [], ◌∷◌, ◌++◌, ◌==◌, Bool-cases, ==_iff, arith,
}
use pylinda.Base.Int.{ℤ, negsuc, is_pos}
use pylinda.NameMap.Strcmp.{IsStrcmp}
use pylinda.Collector.Items.{occ, occ-append}
use pylinda.Object.Field.{references}
use pylinda.Object.Release.{Releases, Releases-ok, Releases-then, crash-Releases, object-Releases}
use pylinda.Refcount.{
  Cell, lookup, with_count, set_reference_count, count_in, references_in, clear, del_in,
  del_objects,
}
use pylinda.Refcount.Cells.{
  weight, holds, lookup-update, lookup-update_other, lookup-update-none, holds-update,
}

-- the object's count is above 0
abbrev pub IsLive : Option Cell → Type 0
IsLive o = is_pos (count_in o) ≡ true

-- the pointers of all the objects at some addresses
unfoldable pub all_references : List Cell → List ℕ → List ℕ
all_references cs [] = []
all_references cs (p ∷ ps) = references_in (lookup cs p) ++ all_references cs ps

module _ (n : ℤ) (p : ℕ) (cs : List Cell) where
  pub set-lookup :
      (c : Cell)
      → lookup cs p ≡ some c
      → lookup (set_reference_count p n cs) p ≡ some (with_count n c)
  set-lookup c e = lookup-update (with_count n) (λ c. refl) p cs c e

  pub set-lookup_other :
      (q : ℕ) → (p == q) ≡ false → lookup (set_reference_count p n cs) q ≡ lookup cs q
  set-lookup_other q e = lookup-update_other (with_count n) (λ c. refl) p q cs e

occ-apart : (p q : ℕ) (ps : List ℕ) → occ q (p ∷ ps) ≤ 1 → 0 < occ q ps → (p == q) ≡ false
unfolding occ
occ-apart p q ps d l = ground arith

occ-tail : (p q : ℕ) (ps : List ℕ) → 0 < occ q ps → 0 < occ q (p ∷ ps)
unfolding occ
occ-tail p q ps l = omega arith

occ-tail_le : (p q : ℕ) (ps : List ℕ) → occ q (p ∷ ps) ≤ 1 → occ q ps ≤ 1
unfolding occ
occ-tail_le p q ps d = omega arith

occ-head : (p : ℕ) (ps : List ℕ) → 0 < occ p (p ∷ ps)
unfolding occ
occ-head p ps = ground arith

pub weight_live :
    (c : Cell) (q : ℕ) → is_pos c.reference_count ≡ true → weight c q ≡ occ q (references c.object)
unfolding weight
weight_live c q l = rw (l) refl

pub live_weight :
    (o : Option Cell) (cs : List Cell) (p q : ℕ)
    → lookup cs p ≡ o
    → IsLive o
    → holds (set_reference_count p (negsuc 0) cs) q + occ q (references_in o) ≡ holds cs q
unfolding weight
live_weight none cs p q e l = cc
live_weight (some c) cs p q e l =
    let h = holds-update (with_count (negsuc 0)) (λ c. refl) p cs c q e in
    omega (arith, h, weight_live c q l)

-- Clearing distinct live objects takes away what they hold.
pub holds-clear :
    (ps : List ℕ) (cs cs₀ : List Cell) (q : ℕ)
    → ((r : ℕ) → occ r ps ≤ 1)
    → ((r : ℕ) → 0 < occ r ps → lookup cs r ≡ lookup cs₀ r)
    → ((r : ℕ) → 0 < occ r ps → IsLive (lookup cs₀ r))
    → holds (clear ps cs) q + occ q (all_references cs₀ ps) ≡ holds cs q
unfolding clear all_references occ
holds-clear [] cs cs₀ q d s l = omega arith
holds-clear (p ∷ ps) cs cs₀ q d s l =
    let cs' = set_reference_count p (negsuc 0) cs in
    let rest =
      holds-clear ps cs' cs₀ q (λ r. occ-tail_le p r ps (d r))
        (λ r w.
          set-lookup_other (negsuc 0) p cs r (occ-apart p r ps (d r) w) ∙ s r (occ-tail p r ps w))
        (λ r w. l r (occ-tail p r ps w)) in
    let head = live_weight (lookup cs₀ p) cs p q (s p (occ-head p ps)) (l p (occ-head p ps)) in
    omega (arith, rest, head, occ-append q (references_in (lookup cs₀ p)) (all_references cs₀ ps))

pub lookup-clear_other :
    (ps : List ℕ) (cs : List Cell) (q : ℕ) → occ q ps ≡ 0 → lookup (clear ps cs) q ≡ lookup cs q
unfolding clear occ
lookup-clear_other [] cs q e = refl
lookup-clear_other (p ∷ ps) cs q e =
    lookup-clear_other ps (set_reference_count p (negsuc 0) cs) q (omega arith)
    ∙ set-lookup_other (negsuc 0) p cs q (ground arith)

set-none :
    (o : Option Cell) (cs : List Cell) (p : ℕ)
    → lookup cs p ≡ o
    → is_pos (count_in (lookup (set_reference_count p (negsuc 0) cs) p)) ≡ false
set-none none cs p e = rw (lookup-update-none (with_count (negsuc 0)) (λ c. refl) p cs e) refl
set-none (some c) cs p e = rw (set-lookup (negsuc 0) p cs c e) refl

set-down :
    (o : Option Cell) (cs : List Cell) (p q : ℕ)
    → lookup cs p ≡ o
    → is_pos (count_in (lookup cs q)) ≡ false
    → is_pos (count_in (lookup (set_reference_count p (negsuc 0) cs) q)) ≡ false
set-down o cs p q e d = elim (Bool-cases (p == q)) [
  | inl w ↦ rw (sym ((==_iff p q).0 w)) (set-none o cs p e)
  | inr w ↦ rw (set-lookup_other (negsuc 0) p cs q w) d
]

-- a count that is not above 0 stays so
pub clear-down :
    (ps : List ℕ) (cs : List Cell) (q : ℕ)
    → is_pos (count_in (lookup cs q)) ≡ false
    → is_pos (count_in (lookup (clear ps cs) q)) ≡ false
unfolding clear
clear-down [] cs q e = e
clear-down (p ∷ ps) cs q e =
    clear-down ps (set_reference_count p (negsuc 0) cs) q (set-down (lookup cs p) cs p q refl e)

pub lookup-clear :
    (ps : List ℕ) (cs : List Cell) (q : ℕ)
    → 0 < occ q ps
    → is_pos (count_in (lookup (clear ps cs) q)) ≡ false
unfolding clear occ
lookup-clear [] cs q l = ground arith
lookup-clear (p ∷ ps) cs q l =
    let cs' = set_reference_count p (negsuc 0) cs in
    elim (Bool-cases (p == q)) [
      | inl e ↦ clear-down ps cs' q (rw (sym ((==_iff p q).0 e)) (set-none (lookup cs p) cs p refl))
      | inr e ↦ lookup-clear ps cs' q (ground arith)
    ]

module _ {strcmp : String → String → ℤ} (s : IsStrcmp strcmp) where
  del_in-Releases : (o : Option Cell) → Releases (del_in strcmp o) (references_in o)
  del_in-Releases none = crash-Releases []
  del_in-Releases (some c) = object-Releases s c.object

  pub del_objects-Releases :
      (cs : List Cell) (ps : List ℕ) → Releases (del_objects strcmp cs ps) (all_references cs ps)
  unfolding del_objects all_references
  del_objects-Releases cs [] = Releases-ok []
  del_objects-Releases cs (p ∷ ps) =
      Releases-then (del_in strcmp (lookup cs p)) (del_objects strcmp cs ps)
        (references_in (lookup cs p)) (all_references cs ps) (del_in-Releases (lookup cs p))
        (del_objects-Releases cs ps)
