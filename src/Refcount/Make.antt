-- ===== src/Refcount/Make.antt =====
-- Minimal_newReference of minimal/src/refcount.c: an object is made, which takes over references of
-- the program.
use pylinda.Base.{
  ℕ, suc, ◌+◌, ◌-◌, ◌≤◌, ◌≡◌, refl, ap, sym, ◌∙◌, inl, inr, true, false, subst, is_some, some, List,
  [], ◌==◌, if◌then◌else◌, Bool-cases, ==_iff, arith,
}
use pylinda.Base.Int.{pos, is_pos}
use pylinda.Collector.Items.{occ}
use pylinda.Object.Field.{Object, references}
use pylinda.Refcount.{Cell, lookup, new_cell, new_reference, count_in, freed_in}
use pylinda.Refcount.Cells.{weight, holds, lookup_here, lookup_there}
use pylinda.Refcount.Counts.{pending, IsCounted, dead}
use pylinda.Refcount.Closed.{IsClosed}
use pylinda.Refcount.Settled.{IsDead, AreUnused}
use pylinda.Refcount.Finished.{AreFinished}
use pylinda.Refcount.Sound.{IsSound}
use pylinda.Refcount.Program.{no_calls}

-- the references of a program that gives those in `ps` to a new object at `p`
abbrev pub handed : (ℕ → ℕ) → ℕ → List ℕ → ℕ → ℕ
handed external p ps q = (if p == q then 1 else 0) + (external q - occ q ps)

module _ (external : ℕ → ℕ) (cs : List Cell) (p : ℕ) (o : Object) (fresh : IsDead cs (suc p))
    (has : (q : ℕ) → occ (suc q) (references o) ≤ external (suc q))
    (s : IsSound external cs []) where
  made : List Cell
  made = new_reference (suc p) o cs

  own : ℕ → ℕ
  own = handed external (suc p) (references o)

  first : (q : ℕ) → (suc p == suc q) ≡ true → lookup made (suc q) ≡ some (new_cell (suc p) o)
  unfolding made
  first q g = lookup_here _ cs (suc q) g

  other : (q : ℕ) → (suc p == suc q) ≡ false → lookup made (suc q) ≡ lookup cs (suc q)
  unfolding made
  other q g = lookup_there _ cs (suc q) g

  made-holds : (q : ℕ) → holds made q ≡ occ q (references o) + holds cs q
  unfolding made holds weight
  made-holds q = refl

  nobody : (q : ℕ) → (suc p == suc q) ≡ true → (holds cs (suc q) ≡ 0) × (external (suc q) ≡ 0)
  unfolding IsClosed
  nobody q g = s.closed q (subst (IsDead cs) ((==_iff (suc p) (suc q)).0 g) fresh)

  own_here :
      (q : ℕ)
      → (suc p == suc q) ≡ true
      → own (suc q) ≡ suc (external (suc q) - occ (suc q) (references o))
  unfolding own
  own_here q g = rw (g) (omega arith)

  own_other :
      (q : ℕ)
      → (suc p == suc q) ≡ false
      → own (suc q) ≡ external (suc q) - occ (suc q) (references o)
  unfolding own
  own_other q g = rw (g) (omega arith)

  made-counts : IsCounted own made []
  unfolding IsCounted pending
  made-counts q l = elim (Bool-cases (suc p == suc q)) [
    | inl g ↦
        let (a, b) = nobody q g in
        ap count_in (first q g)
        ∙ ap pos (omega (arith, made-holds (suc q), a, b, has q, own_here q g))
    | inr g ↦
        ap count_in (other q g)
        ∙ s.counted q (sym (ap (λ x. is_pos (count_in x)) (other q g)) ∙ l)
        ∙ ap pos (omega (arith, made-holds (suc q), has q, own_other q g))
  ]

  made-IsClosed : IsClosed own made
  unfolding IsClosed
  made-IsClosed q d = elim (Bool-cases (suc p == suc q)) [
    | inl g ↦ dead (ap (λ x. is_pos (count_in x)) (first q g)) d
    | inr g ↦
        let (a, b) = s.closed q (sym (ap (λ x. is_pos (count_in x)) (other q g)) ∙ d) in
        (omega (arith, made-holds (suc q), a, b, has q), omega (arith, b, own_other q g))
  ]

  made-unused : AreUnused made []
  unfolding AreUnused
  made-unused q h = elim (Bool-cases (suc p == suc q)) [
    | inl g ↦ dead h (ap freed_in (first q g))
    | inr g ↦
        let (d, n) = s.unused q (sym (ap freed_in (other q g)) ∙ h) in
        (ap (λ x. is_pos (count_in x)) (other q g) ∙ d, n)
  ]

  made-finished : AreFinished made []
  unfolding AreFinished
  made-finished q x y z = elim (Bool-cases (suc p == suc q)) [
    | inl g ↦ dead (ap (λ o. is_pos (count_in o)) (first q g)) y
    | inr g ↦
        let e = other q g in
        s.finished q (sym (ap is_some e) ∙ x) (sym (ap (λ o. is_pos (count_in o)) e) ∙ y)
          (sym (ap freed_in e) ∙ z)
  ]

  pub made-IsSound :
      IsSound (handed external (suc p) (references o)) (new_reference (suc p) o cs) []
  unfolding made own
  made-IsSound = record {
    counted = made-counts;
    closed = made-IsClosed;
    settled = no_calls made;
    unused = made-unused;
    finished = made-finished;
  }
