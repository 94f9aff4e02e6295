-- ===== src/Refcount/Trade.antt =====
-- A program changes the pointers of an object, in the sense of minimal/src/refcount.c: it gives
-- references of its own to the object and takes those that the object gives up.
use pylinda.Base.{
  is_some, ℕ, suc, ◌+◌, ◌-◌, ◌≤◌, ◌≡◌, refl, ap, sym, ◌∙◌, true, some, List, [], arith,
}
use pylinda.Base.Int.{pos, is_pos}
use pylinda.Collector.Items.{occ}
use pylinda.Object.Field.{Object, references}
use pylinda.Refcount.{Cell, lookup, update, with_object, count_in, freed_in}
use pylinda.Refcount.Cells.{holds, holds-update, field-update_same}
use pylinda.Refcount.Clear.{weight_live}
use pylinda.Refcount.Counts.{pending, IsCounted}
use pylinda.Refcount.Closed.{IsClosed}
use pylinda.Refcount.Settled.{AreUnused}
use pylinda.Refcount.Finished.{same-AreFinished}
use pylinda.Refcount.Sound.{IsSound}
use pylinda.Refcount.Program.{no_calls}

abbrev pub traded : (ℕ → ℕ) → (old new : List ℕ) → ℕ → ℕ
traded external old new q = external q + occ q old - occ q new

module _ (external : ℕ → ℕ) (cs : List Cell) (p : ℕ) (c : Cell) (o : Object)
    (e : lookup cs (suc p) ≡ some c) (live : is_pos c.reference_count ≡ true)
    (has : (q : ℕ)
      → occ (suc q) (references o) ≤ external (suc q) + occ (suc q) (references c.object))
    (s : IsSound external cs []) where
  changed : List Cell
  changed = update (with_object o) (suc p) cs

  changed-holds :
      (q : ℕ) → holds changed q + occ q (references c.object) ≡ holds cs q + occ q (references o)
  unfolding changed
  changed-holds q =
      let h = holds-update (with_object o) (λ c. refl) (suc p) cs c q e in
      omega (arith, h, weight_live c q live, weight_live (with_object o c) q live)

  same_count : (q : ℕ) → count_in (lookup changed q) ≡ count_in (lookup cs q)
  unfolding changed
  same_count q = field-update_same (with_object o) (λ c. refl) count_in (λ c. refl) (suc p) q cs

  same_freed : (q : ℕ) → freed_in (lookup changed q) ≡ freed_in (lookup cs q)
  unfolding changed
  same_freed q = field-update_same (with_object o) (λ c. refl) freed_in (λ c. refl) (suc p) q cs

  same_some : (q : ℕ) → is_some (lookup changed q) ≡ is_some (lookup cs q)
  unfolding changed
  same_some q = field-update_same (with_object o) (λ c. refl) is_some (λ c. refl) (suc p) q cs

  changed-counts : IsCounted (traded external (references c.object) (references o)) changed []
  unfolding IsCounted pending
  changed-counts q l =
      same_count (suc q)
      ∙ s.counted q (sym (ap is_pos (same_count (suc q))) ∙ l)
      ∙ ap pos (omega (arith, changed-holds (suc q), has q))

  changed-IsClosed : IsClosed (traded external (references c.object) (references o)) changed
  unfolding IsClosed
  changed-IsClosed q d =
      let (a, b) = s.closed q (sym (ap is_pos (same_count (suc q))) ∙ d) in
      (
        omega (arith, changed-holds (suc q), has q, a, b),
        omega (arith, changed-holds (suc q), has q, a, b),
      )

  changed-unused : AreUnused changed []
  unfolding AreUnused
  changed-unused q h =
      let (d, n) = s.unused q (sym (same_freed (suc q)) ∙ h) in
      (ap is_pos (same_count (suc q)) ∙ d, n)

  pub traded-IsSound :
      IsSound
        (traded external (references c.object) (references o))
        (update (with_object o) (suc p) cs)
        []
  unfolding changed
  traded-IsSound = record {
    counted = changed-counts;
    closed = changed-IsClosed;
    settled = no_calls changed;
    unused = changed-unused;
    finished =
        same-AreFinished cs changed [] same_some (λ q. ap is_pos (same_count q)) same_freed
          s.finished;
  }
