-- ===== src/Refcount/Sound.antt =====
-- The invariant of minimal/src/refcount.c, and its preservation by each way that a call can go.
use pylinda.Base.{ℕ, suc, ◌≡◌, refl, ap, sym, ◌∙◌, true, some, List, [], ◌∷◌, arith}
use pylinda.Base.Int.{ℤ, pos, is_pos}
use pylinda.Collector.Items.{occ}
use pylinda.Refcount.{
  Cell, Call, del_reference, free, lookup, update, with_count, set_reference_count, as_freed,
  count_in,
}
use pylinda.Refcount.Cells.{weight, holds-update_same, field-update_same}
use pylinda.Refcount.Counts.{pending, IsCounted, drop_call, count_down}
use pylinda.Refcount.Closed.{IsClosed, count-IsClosed, free-IsClosed}
use pylinda.Refcount.Settled.{
  IsDead, AreSettled, AreUnused, later-AreSettled, set-IsDead, freed-set, later-AreUnused,
  drop-AreUnused, free-AreSettled_rest, freed-AreUnused,
}
use pylinda.Refcount.Finished.{AreFinished, drop-AreFinished, down-AreFinished, free-AreFinished}

-- Each live object has as many references as its count says, from live objects, from calls that are
-- still to be made and from the program; no live object and no part of the program refers to an object
-- that is not live; an object that is freed is released no more; and one that is not live is freed, or
-- is about to be.
pub record IsSound (external : ℕ → ℕ) (cs : List Cell) (todo : List Call) : Type 0 where
  pub counted : IsCounted external cs todo
  pub closed : IsClosed external cs
  pub settled : AreSettled cs todo
  pub unused : AreUnused cs todo
  pub finished : AreFinished cs todo

pub settled_call :
    (cs : List Cell) (p : ℕ) (todo : List Call)
    → AreSettled cs (del_reference p ∷ todo)
    → AreSettled cs todo
unfolding AreSettled
settled_call cs p todo s = s

nothing_in : (q : ℕ) → occ q [] ≡ 0
unfolding occ
nothing_in q = refl

module _ (external : ℕ → ℕ) where
  pub drop-IsSound :
      (cs : List Cell) (p : ℕ) (todo : List Call)
      → IsDead cs p
      → IsSound external cs (del_reference p ∷ todo)
      → IsSound external cs todo
  drop-IsSound cs p todo d s = record {
    counted = drop_call external cs p todo d s.counted;
    closed = s.closed;
    settled = settled_call cs p todo s.settled;
    unused = drop-AreUnused cs p todo s.unused;
    finished = drop-AreFinished cs p todo s.finished;
  }

  pub down-IsSound :
      (cs : List Cell) (p : ℕ) (todo : List Call) (c : Cell) (n : ℤ)
      → lookup cs p ≡ some c
      → ((q : ℕ) → weight (with_count n c) q ≡ weight c q)
      → is_pos n ≡ is_pos c.reference_count
      → (is_pos n ≡ true → (m : ℕ) × (c.reference_count ≡ pos (suc m)) × (n ≡ pos m))
      → IsSound external cs (del_reference p ∷ todo)
      → IsSound external (set_reference_count p n cs) todo
  down-IsSound cs p todo c n e w l d s =
      let dead = set-IsDead cs p c n e (λ h. l ∙ h) in
      record {
        counted = count_down external cs p todo c n e w d s.counted;
        closed = count-IsClosed external cs p c n e w l s.closed;
        settled =
            later-AreSettled cs (set_reference_count p n cs) todo dead
              (settled_call cs p todo s.settled);
        unused =
            later-AreUnused cs (set_reference_count p n cs) [] [] todo (freed-set cs p n) dead
              (λ q h. nothing_in (suc q)) (drop-AreUnused cs p todo s.unused);
        finished = down-AreFinished cs p todo c n e l (drop-AreFinished cs p todo s.finished);
      }

  free-counts :
      (cs : List Cell) (p : ℕ) (todo : List Call)
      → IsCounted external cs (free p ∷ todo)
      → IsCounted external (update as_freed p cs) todo
  unfolding IsCounted pending weight
  free-counts cs p todo k q l =
      let same = field-update_same as_freed (λ c. refl) count_in (λ c. refl) p (suc q) cs in
      let h = holds-update_same as_freed (λ c. refl) (suc q) (λ c. refl) p cs in
      same ∙ k q (sym (ap is_pos same) ∙ l) ∙ ap pos (omega (arith, h))

  pub free-IsSound :
      (cs : List Cell) (p : ℕ) (todo : List Call)
      → IsSound external cs (free p ∷ todo)
      → IsSound external (update as_freed p cs) todo
  free-IsSound cs p todo s = record {
    counted = free-counts cs p todo s.counted;
    closed = free-IsClosed external cs p s.closed;
    settled = free-AreSettled_rest cs p todo s.settled;
    unused = freed-AreUnused cs p todo s.settled s.unused;
    finished = free-AreFinished cs p todo s.finished;
  }
