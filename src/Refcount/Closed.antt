-- ===== src/Refcount/Closed.antt =====
-- The objects of minimal/src/refcount.c that are live hold no pointer to one that is not.
use pylinda.Base.{
  ℕ, suc, ltb, ltb→lt, ◌≡◌, refl, ap, sym, ◌∙◌, inl, inr, false, subst, some, List, ◌∷◌, ◌==◌,
  Bool-cases, ==_iff, arith,
}
use pylinda.Base.Int.{ℤ, pos, is_pos}
use pylinda.Collector.{Items}
use pylinda.Collector.Items.{occ}
use pylinda.Collector.Safe.{IsGarbage}
use pylinda.Refcount.{
  Cell, Call, del_reference, lookup, update, with_count, set_reference_count, as_freed, count_in,
  heap_of, clique, clear,
}
use pylinda.Refcount.Cells.{weight, holds, holds-update, holds-update_same, field-update_same}
use pylinda.Refcount.Clear.{IsLive, set-lookup, set-lookup_other, holds-clear, lookup-clear_other}
use pylinda.Refcount.Clique.{occ-clique, IsLive-clique, count-clique}
use pylinda.Refcount.Counts.{pending_here, IsCounted, pos_inj}

unfoldable pub IsClosed : (external : ℕ → ℕ) → List Cell → Type 0
IsClosed external cs =
    (q : ℕ)
    → is_pos (count_in (lookup cs (suc q))) ≡ false
    → (holds cs (suc q) ≡ 0) × (external (suc q) ≡ 0)

pub none_left : (c : Cell) (q : ℕ) → weight (with_count (pos 0) c) q ≡ 0
unfolding weight
none_left c q = refl

module _ (external : ℕ → ℕ) where
  -- an object that is live as before
  pub count-IsClosed :
      (cs : List Cell) (p : ℕ) (c : Cell) (n : ℤ)
      → lookup cs p ≡ some c
      → ((q : ℕ) → weight (with_count n c) q ≡ weight c q)
      → is_pos n ≡ is_pos c.reference_count
      → IsClosed external cs
      → IsClosed external (set_reference_count p n cs)
  unfolding IsClosed
  count-IsClosed cs p c n e w l k q d =
      let h = holds-update (with_count n) (λ c. refl) p cs c (suc q) e in
      let same = w (suc q) in
      let (a, b) = k q (elim (Bool-cases (p == suc q)) [
        | inl g ↦
            let at_p = (==_iff p (suc q)).0 g in
            let found =
              subst (λ r. lookup (set_reference_count p n cs) r ≡ some (with_count n c)) at_p
                (set-lookup n p cs c e) in
            let before = subst (λ r. lookup cs r ≡ some c) at_p e in
            ap (λ o. is_pos (count_in o)) before
            ∙ sym l
            ∙ sym (ap (λ o. is_pos (count_in o)) found)
            ∙ d
        | inr g ↦ sym (ap (λ o. is_pos (count_in o)) (set-lookup_other n p cs (suc q) g)) ∙ d
      ]) in
      (omega (arith, h, same, a), b)

  -- the object whose last reference goes
  pub last-IsClosed :
      (cs : List Cell) (p : ℕ) (todo : List Call) (c : Cell)
      → lookup cs p ≡ some c
      → c.reference_count ≡ pos 1
      → IsCounted external cs (del_reference p ∷ todo)
      → IsClosed external cs
      → IsClosed external (set_reference_count p (pos 0) cs)
  unfolding IsClosed IsCounted
  last-IsClosed cs p todo c e f k o q d =
      let h = holds-update (with_count (pos 0)) (λ c. refl) p cs c (suc q) e in
      elim (Bool-cases (p == suc q)) [
        | inl g ↦
            let before = subst (λ r. lookup cs r ≡ some c) ((==_iff p (suc q)).0 g) e in
            let number = pos_inj (
              sym f
              ∙ sym (ap count_in before)
              ∙ k q (ap (λ o. is_pos (count_in o)) before ∙ ap is_pos f)) in
            (
              omega (arith, number, pending_here p (suc q) todo g, h, none_left c (suc q)),
              omega (arith, number, pending_here p (suc q) todo g),
            )
        | inr g ↦
            let (a, b) =
              o q (
                sym (ap (λ o. is_pos (count_in o)) (set-lookup_other (pos 0) p cs (suc q) g))
                ∙ d) in
            (omega (arith, h, a, none_left c (suc q)), b)
      ]

  -- the objects that the collector destroys
  pub clear-IsClosed :
      (cs : List Cell) (p : ℕ) (ys : Items) (todo : List Call)
      → IsGarbage (heap_of cs) p ys
      → IsLive (lookup cs p)
      → IsCounted external cs todo
      → IsClosed external cs
      → IsClosed external (clear (clique ys) cs)
  unfolding IsClosed IsCounted
  clear-IsClosed cs p ys todo g live k o q d =
      let less =
        holds-clear (clique ys) cs cs (suc q) (occ-clique cs p ys g) (λ r w. refl)
          (IsLive-clique cs p ys g live) in
      elim (Bool-cases (ltb 0 (occ (suc q) (clique ys)))) [
        | inl h ↦
            let l = ltb→lt 0 (occ (suc q) (clique ys)) h in
            let number =
              pos_inj
                (sym (count-clique cs p ys g q l) ∙ k q (IsLive-clique cs p ys g live (suc q) l)) in
            (omega (arith, number, less), omega (arith, number, less))
        | inr h ↦
            let other = lookup-clear_other (clique ys) cs (suc q) (ground arith) in
            let (a, b) = o q (sym (ap (λ o. is_pos (count_in o)) other) ∙ d) in
            (omega (arith, less, a), b)
      ]

  pub free-IsClosed :
      (cs : List Cell) (p : ℕ) → IsClosed external cs → IsClosed external (update as_freed p cs)
  unfolding IsClosed weight
  free-IsClosed cs p o q d =
      let same = field-update_same as_freed (λ c. refl) count_in (λ c. refl) p (suc q) cs in
      let h = holds-update_same as_freed (λ c. refl) (suc q) (λ c. refl) p cs in
      let (a, b) = o q (sym (ap is_pos same) ∙ d) in (omega (arith, h, a), b)
