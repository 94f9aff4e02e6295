-- ===== src/Refcount/Destroyed.antt =====
-- The destruction of objects by minimal/src/refcount.c and minimal/src/cyclic_garbage.c keeps the
-- invariant.
use pylinda.Base.{
  false, ℕ, suc, ◌<◌, String, ◌≡◌, refl, ap, sym, ◌∙◌, true, subst, some, List, [], ◌∷◌, ◌++◌, map,
  ok, ◌==◌, ==_iff, arith,
}
use pylinda.Base.Int.{ℤ, pos, is_pos}
use pylinda.NameMap.Strcmp.{IsStrcmp}
use pylinda.Collector.{Items}
use pylinda.Collector.Items.{occ}
use pylinda.Collector.Safe.{IsGarbage}
use pylinda.Object.Field.{del_object}
use pylinda.Object.Release.{Releases, object-Releases}
use pylinda.Refcount.{
  Cell, Call, del_reference, free, lookup, with_count, set_reference_count, count_in, heap_of,
  clique, clear, del_objects,
}
use pylinda.Refcount.Cells.{holds-update}
use pylinda.Refcount.Clear.{
  IsLive, set-lookup, set-lookup_other, lookup-clear_other, weight_live, holds-clear, lookup-clear,
  clear-down, del_objects-Releases,
}
use pylinda.Refcount.Clique.{occ-clique, IsLive-clique, count-clique}
use pylinda.Refcount.Counts.{pending, pending_here, IsCounted, pos_inj, last_counts, clear_counts}
use pylinda.Refcount.Closed.{IsClosed, none_left, last-IsClosed, clear-IsClosed}
use pylinda.Refcount.Settled.{
  IsDead, later-AreSettled, calls-AreSettled, set-IsDead, freed-set, freed-clear, later-AreUnused,
  drop-AreUnused,
}
use pylinda.Refcount.Finished.{drop-AreFinished, destroy-AreFinished}
use pylinda.Refcount.Sound.{IsSound, settled_call}

module _ (external : ℕ → ℕ) where
  not_here : (p q : ℕ) → occ q (p ∷ []) ≡ 0 → (p == q) ≡ false
  unfolding occ
  not_here p q l = ground arith

  only_here : (p q : ℕ) → 0 < occ q (p ∷ []) → (p == q) ≡ true
  unfolding occ
  only_here p q l = ground arith

  last_pending :
      (cs : List Cell) (p q : ℕ) (todo : List Call) (c : Cell)
      → lookup cs p ≡ some c
      → c.reference_count ≡ pos 1
      → (p == suc q) ≡ true
      → IsCounted external cs (del_reference p ∷ todo)
      → pending todo (suc q) ≡ 0
  unfolding IsCounted
  last_pending cs p q todo c e f g k =
      let before = subst (λ r. lookup cs r ≡ some c) ((==_iff p (suc q)).0 g) e in
      let number = pos_inj (
        sym f
        ∙ sym (ap count_in before)
        ∙ k q (ap (λ o. is_pos (count_in o)) before ∙ ap is_pos f)) in
      omega (arith, number, pending_here p (suc q) todo g)

  module _ {strcmp : String → String → ℤ} (i : IsStrcmp strcmp) where
    last_unused :
        (cs : List Cell) (p : ℕ) (rs : List ℕ) (c : Cell)
        → lookup cs p ≡ some c
        → is_pos c.reference_count ≡ true
        → del_object strcmp c.object ≡ ok rs
        → IsClosed external cs
        → (q : ℕ) → IsDead cs (suc q)
        → occ (suc q) rs ≡ 0
    unfolding IsClosed Releases
    last_unused cs p rs c e v f k q d =
        let (a, b) = k q d in
        let h = holds-update (with_count (pos 0)) (λ c. refl) p cs c (suc q) e in
        omega (
          arith,
          a,
          h,
          none_left c (suc q),
          weight_live c (suc q) v,
          object-Releases i c.object rs f q,
        )

    pub last-IsSound :
        (cs : List Cell) (p : ℕ) (rs : List ℕ) (todo : List Call) (c : Cell)
        → lookup cs p ≡ some c
        → c.reference_count ≡ pos 1
        → del_object strcmp c.object ≡ ok rs
        → IsSound external cs (del_reference p ∷ todo)
        → IsSound external
            (set_reference_count p (pos 0) cs)
            (map del_reference rs ++ map free (p ∷ []) ++ todo)
    last-IsSound cs p rs todo c e f g s =
        let v = ap is_pos f in
        let cs' = set_reference_count p (pos 0) cs in
        let dead = set-IsDead cs p c (pos 0) e (λ h. refl) in
        record {
          counted = last_counts external i cs p rs todo c e v g s.counted;
          closed = last-IsClosed external cs p todo c e f s.counted s.closed;
          settled =
              calls-AreSettled cs' rs (p ∷ []) todo
                (λ q l.
                  let h = only_here p (suc q) l in
                  (
                    subst (IsDead cs') ((==_iff p (suc q)).0 h)
                        (ap (λ o. is_pos (count_in o)) (set-lookup (pos 0) p cs c e)),
                    last_pending cs p q todo c e f h s.counted,
                  ))
                (later-AreSettled cs cs' todo dead (settled_call cs p todo s.settled));
          unused =
              later-AreUnused cs cs' rs (p ∷ []) todo (freed-set cs p (pos 0)) dead
                (last_unused cs p rs c e v g s.closed) (drop-AreUnused cs p todo s.unused);
          finished =
              destroy-AreFinished cs cs' rs (p ∷ []) todo
                (λ q h. set-lookup_other (pos 0) p cs q (not_here p q h))
                (drop-AreFinished cs p todo s.finished);
        }

    clear_unused :
        (cs : List Cell) (p : ℕ) (ys : Items) (rs : List ℕ)
        → IsGarbage (heap_of cs) p ys
        → IsLive (lookup cs p)
        → del_objects strcmp cs (clique ys) ≡ ok rs
        → IsClosed external cs
        → (q : ℕ) → IsDead cs (suc q)
        → occ (suc q) rs ≡ 0
    unfolding IsClosed Releases
    clear_unused cs p ys rs g live e k q d =
        let (a, b) = k q d in
        omega (
          arith,
          a,
          holds-clear (clique ys) cs cs (suc q) (occ-clique cs p ys g) (λ r w. refl)
              (IsLive-clique cs p ys g live),
          del_objects-Releases i cs (clique ys) rs e q,
        )

    clear_pending :
        (cs : List Cell) (p : ℕ) (ys : Items) (todo : List Call)
        → IsGarbage (heap_of cs) p ys
        → IsLive (lookup cs p)
        → IsCounted external cs todo
        → (q : ℕ) → 0 < occ (suc q) (clique ys)
        → pending todo (suc q) ≡ 0
    unfolding IsCounted
    clear_pending cs p ys todo g live k q l =
        let number =
          pos_inj
            (sym (count-clique cs p ys g q l) ∙ k q (IsLive-clique cs p ys g live (suc q) l)) in
        omega (
          arith,
          number,
          holds-clear (clique ys) cs cs (suc q) (occ-clique cs p ys g) (λ r w. refl)
              (IsLive-clique cs p ys g live),
        )

    pub clear-IsSound :
        (cs : List Cell) (p : ℕ) (ys : Items) (rs : List ℕ) (todo : List Call)
        → IsGarbage (heap_of cs) p ys
        → IsLive (lookup cs p)
        → del_objects strcmp cs (clique ys) ≡ ok rs
        → IsSound external cs todo
        → IsSound external
            (clear (clique ys) cs)
            (map del_reference rs ++ map free (clique ys) ++ todo)
    clear-IsSound cs p ys rs todo g live e s =
        let ds = clear (clique ys) cs in
        let dead = clear-down (clique ys) cs in
        record {
          counted =
              clear_counts external i cs (clique ys) rs todo (occ-clique cs p ys g)
                (IsLive-clique cs p ys g live) e s.counted;
          closed = clear-IsClosed external cs p ys todo g live s.counted s.closed;
          settled =
              calls-AreSettled ds rs (clique ys) todo
                (λ q l. (
                  lookup-clear (clique ys) cs (suc q) l,
                  clear_pending cs p ys todo g live s.counted q l,
                ))
                (later-AreSettled cs ds todo dead s.settled);
          unused =
              later-AreUnused cs ds rs (clique ys) todo (freed-clear (clique ys) cs) dead
                (clear_unused cs p ys rs g live e s.closed) s.unused;
          finished =
              destroy-AreFinished cs ds rs (clique ys) todo
                (λ q h. lookup-clear_other (clique ys) cs q h) s.finished;
        }
