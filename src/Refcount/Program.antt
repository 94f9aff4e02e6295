-- ===== src/Refcount/Program.antt =====
-- What a program does with its references, by minimal/src/refcount.c.
use pylinda.Base.{
  ℕ, suc, ◌+◌, ◌-◌, ◌<◌, ◌≡◌, refl, ap, sym, ◌∙◌, inl, inr, true, false, subst, some, List, [], ◌∷◌,
  Outcome, ok, exited, crash, ◌==◌, if◌then◌else◌, Bool-cases, ==_iff, arith,
}
use pylinda.Base.Int.{pos, ◌+ℤ◌, is_pos}
use pylinda.Refcount.{
  Cell, del_reference, lookup, with_count, set_reference_count, add_reference, added_to, count_in,
}
use pylinda.Refcount.Cells.{weight, holds, holds-update}
use pylinda.Refcount.Clear.{set-lookup, set-lookup_other}
use pylinda.Refcount.Counts.{pending, IsCounted, pos_inj, dead}
use pylinda.Refcount.Closed.{IsClosed}
use pylinda.Refcount.Settled.{AreSettled, AreUnused, set-IsDead, freed-set}
use pylinda.Refcount.Sound.{IsSound}
use pylinda.Refcount.Steps.{sub_le}
use pylinda.Refcount.Finished.{down-AreFinished, given-AreFinished}

-- the references of a program that gives one up
abbrev pub lowered : (ℕ → ℕ) → ℕ → ℕ → ℕ
lowered external p q = if p == q then external q - 1 else external q

module _ (external : ℕ → ℕ) (cs : List Cell) (p : ℕ) (held : 0 < external (suc p)) where
  given_counts :
      IsCounted external cs []
      → IsCounted (lowered external (suc p)) cs (del_reference (suc p) ∷ [])
  unfolding IsCounted pending
  given_counts k q l = k q l ∙ ap pos (ground arith)

  given-IsClosed : IsClosed external cs → IsClosed (lowered external (suc p)) cs
  unfolding IsClosed
  given-IsClosed k q d = let (a, b) = k q d in (a, ground arith)

  given_unused : IsClosed external cs → AreUnused cs [] → AreUnused cs (del_reference (suc p) ∷ [])
  unfolding AreUnused pending IsClosed
  given_unused k u q e = let (d, n) = u q e in let (a, b) = k q d in (d, ground arith)

  given_settled : AreSettled cs (del_reference (suc p) ∷ [])
  unfolding AreSettled
  given_settled = tt

  pub given-IsSound :
      IsSound external cs [] → IsSound (lowered external (suc p)) cs (del_reference (suc p) ∷ [])
  given-IsSound s = record {
    counted = given_counts s.counted;
    closed = given-IsClosed s.closed;
    settled = given_settled;
    unused = given_unused s.closed s.unused;
    finished = given-AreFinished cs (suc p) [] s.finished;
  }

-- the references of a program that takes another one
abbrev pub raised : (ℕ → ℕ) → ℕ → ℕ → ℕ
raised external p q = if p == q then suc (external q) else external q

raised_same :
    (external : ℕ → ℕ) (p q : ℕ) → (p == q) ≡ true → raised external p q ≡ suc (external q)
raised_same external p q g = rw (g) refl

raised_other : (external : ℕ → ℕ) (p q : ℕ) → (p == q) ≡ false → raised external p q ≡ external q
raised_other external p q g = rw (g) refl

pub no_calls : (cs : List Cell) → AreSettled cs []
unfolding AreSettled
no_calls cs = tt

ok_cells : {cs ds : List Cell} → ◌≡◌ {A = Outcome (List Cell)} (ok cs) (ok ds) → cs ≡ ds
ok_cells {cs} e = ap (λ o. elim o [ ok xs ↦ xs | exited ↦ cs | crash ↦ cs ]) e

pub plus_one : (m : ℕ) → pos m +ℤ pos 1 ≡ pos (suc m)
unfolding ◌+ℤ◌
plus_one m = sub_le (m + 1) 0 (ground arith) ∙ ap pos (omega arith)

not_freed :
    (p : ℕ) (cs : List Cell) (c : Cell)
    → c.freed ≡ false
    → added_to p cs (some c) ≡ ok (set_reference_count p (c.reference_count +ℤ pos 1) cs)
not_freed p cs c g = rw (g) refl

-- an added reference of an object
pub added :
    (cs ds : List Cell) (p : ℕ) (c : Cell)
    → lookup cs p ≡ some c
    → c.freed ≡ false
    → add_reference p cs ≡ ok ds
    → set_reference_count p (c.reference_count +ℤ pos 1) cs ≡ ds
unfolding add_reference
added cs ds p c e g f = ok_cells (sym (ap (added_to p cs) e ∙ not_freed p cs c g) ∙ f)

-- the object that gets another reference
module _ (external : ℕ → ℕ) (cs : List Cell) (p m : ℕ) (c : Cell) (e : lookup cs (suc p) ≡ some c)
    (live : c.reference_count ≡ pos (suc m)) (s : IsSound external cs []) where
  more : List Cell
  more = set_reference_count (suc p) (pos (suc (suc m))) cs

  same_weight : (q : ℕ) → weight (with_count (pos (suc (suc m))) c) q ≡ weight c q
  unfolding weight
  same_weight q = rw (live) refl

  same_holds : (q : ℕ) → holds more q ≡ holds cs q
  unfolding more
  same_holds q =
      let h = holds-update (with_count (pos (suc (suc m)))) (λ c. refl) (suc p) cs c q e in
      omega (arith, h, same_weight q)

  found :
      (q : ℕ)
      → (suc p == suc q) ≡ true
      → lookup more (suc q) ≡ some (with_count (pos (suc (suc m))) c)
  unfolding more
  found q g =
      subst (λ r. lookup more r ≡ some (with_count (pos (suc (suc m))) c))
        ((==_iff (suc p) (suc q)).0 g) (set-lookup (pos (suc (suc m))) (suc p) cs c e)

  before : (q : ℕ) → (suc p == suc q) ≡ true → lookup cs (suc q) ≡ some c
  before q g = subst (λ r. lookup cs r ≡ some c) ((==_iff (suc p) (suc q)).0 g) e

  other : (q : ℕ) → (suc p == suc q) ≡ false → lookup more (suc q) ≡ lookup cs (suc q)
  unfolding more
  other q g = set-lookup_other (pos (suc (suc m))) (suc p) cs (suc q) g

  more-counts : IsCounted (raised external (suc p)) more []
  unfolding IsCounted
  more-counts q l = elim (Bool-cases (suc p == suc q)) [
    | inl g ↦
        let was = before q g in
        let number = pos_inj (
          sym live
          ∙ sym (ap count_in was)
          ∙ s.counted q (ap (λ o. is_pos (count_in o)) was ∙ ap is_pos live)) in
        ap count_in (found q g)
        ∙ ap pos (omega (arith, number, same_holds (suc q), raised_same external (suc p) (suc q) g))
    | inr g ↦
        ap count_in (other q g)
        ∙ s.counted q (sym (ap (λ o. is_pos (count_in o)) (other q g)) ∙ l)
        ∙ ap pos (omega (arith, same_holds (suc q), raised_other external (suc p) (suc q) g))
  ]

  more-IsClosed : IsClosed (raised external (suc p)) more
  unfolding IsClosed
  more-IsClosed q d = elim (Bool-cases (suc p == suc q)) [
    | inl g ↦ dead (ap (λ o. is_pos (count_in o)) (found q g)) d
    | inr g ↦
        let (a, b) = s.closed q (sym (ap (λ o. is_pos (count_in o)) (other q g)) ∙ d) in
        (
          omega (arith, same_holds (suc q), a),
          omega (arith, raised_other external (suc p) (suc q) g, b),
        )
  ]

  more-unused : AreUnused more []
  unfolding AreUnused more
  more-unused q h =
      let (d, n) = s.unused q (sym (freed-set cs (suc p) (pos (suc (suc m))) (suc q)) ∙ h) in
      (set-IsDead cs (suc p) c (pos (suc (suc m))) e (λ w. dead (ap is_pos live) w) (suc q) d, n)

  pub more-IsSound :
      IsSound (raised external (suc p)) (set_reference_count (suc p) (pos (suc (suc m))) cs) []
  unfolding more
  more-IsSound = record {
    counted = more-counts;
    closed = more-IsClosed;
    settled = no_calls more;
    unused = more-unused;
    finished =
        down-AreFinished cs (suc p) [] c (pos (suc (suc m))) e (sym (ap is_pos live)) s.finished;
  }
