-- ===== src/Refcount/Reach.antt =====
-- A program that makes objects, adds references and gives them up, by minimal/src/refcount.c and
-- minimal/src/cyclic_garbage.c.
use pylinda.Base.{
  ℕ, is_some, inl, inr, Bool-cases, zero, suc, ◌+◌, ◌<◌, ◌≤◌, String, ◌≡◌, refl, ap, sym, ◌∙◌, true,
  false, subst, Option, none, some, List, [], ◌∷◌, ok, arith,
}
use pylinda.Base.Int.{ℤ, pos, negsuc, ◌+ℤ◌, is_pos}
use pylinda.NameMap.Strcmp.{IsStrcmp}
use pylinda.Collector.Items.{occ}
use pylinda.Object.Field.{Object, references}
use pylinda.Refcount.{
  Cell, Call, del_reference, State, goes_on, lookup, new_reference, add_reference, freed_in, run,
  update, with_object, set_reference_count, count_in,
}
use pylinda.Refcount.Cells.{holds}
use pylinda.Refcount.Clear.{IsLive}
use pylinda.Refcount.Counts.{pending, IsCounted, dead}
use pylinda.Refcount.Closed.{IsClosed}
use pylinda.Refcount.Settled.{IsDead, AreUnused}
use pylinda.Refcount.Finished.{AreFinished, awaiting}
use pylinda.Refcount.Sound.{IsSound}
use pylinda.Refcount.Steps.{run-IsSound, run-unfreed, held-IsLive, unfreed}
use pylinda.Refcount.Program.{
  lowered, raised, given-IsSound, more-IsSound, plus_one, added, no_calls,
}
use pylinda.Refcount.Make.{handed, made-IsSound}
use pylinda.Refcount.Trade.{traded, traded-IsSound}

module _ (strcmp : String → String → ℤ) (fuel : ℕ) where
  -- What a program can come to: the references that it holds, by their number, and the objects. It
  -- gives to a new object references of its own, adds references to live objects, changes the
  -- pointers of live objects, which takes references from it and hands others to it, and gives up
  -- references that it holds; each of these ends before the next.
  pub data Reaches : (ℕ → ℕ) → List Cell → Type 0 where
    start : Reaches (λ q. 0) []
    make :
        {external : ℕ → ℕ} {cs : List Cell} (p : ℕ) (o : Object)
        → IsDead cs (suc p)
        → ((q : ℕ) → occ (suc q) (references o) ≤ external (suc q))
        → Reaches external cs
        → Reaches (handed external (suc p) (references o)) (new_reference (suc p) o cs)
    add :
        {external : ℕ → ℕ} {cs ds : List Cell} (p : ℕ)
        → IsLive (lookup cs (suc p))
        → add_reference (suc p) cs ≡ ok ds
        → Reaches external cs
        → Reaches (raised external (suc p)) ds
    trade :
        {external : ℕ → ℕ} {cs : List Cell} (p : ℕ) (c : Cell) (o : Object)
        → lookup cs (suc p) ≡ some c
        → is_pos c.reference_count ≡ true
        → ((q : ℕ)
            → occ (suc q) (references o) ≤ external (suc q) + occ (suc q) (references c.object))
        → Reaches external cs
        → Reaches
            (traded external (references c.object) (references o))
            (update (with_object o) (suc p) cs)
    give :
        {external : ℕ → ℕ} {cs ds : List Cell} (p n : ℕ)
        → 0 < external (suc p)
        → run strcmp fuel n (record { cells = cs; calls = del_reference (suc p) ∷ [] })
          ≡ goes_on (record { cells = ds; calls = [] })
        → Reaches external cs
        → Reaches (lowered external (suc p)) ds

zero_dead : (z : ℤ) (n : ℕ) → z ≡ pos n → n ≡ 0 → is_pos z ≡ false
zero_dead z zero e h = rw (e) refl
zero_dead z (suc n) e h = ground arith

live_value : (z : ℤ) → is_pos z ≡ true → (m : ℕ) × (z ≡ pos (suc m))
live_value (pos zero) l = cc
live_value (pos (suc m)) l = (m, refl)
live_value (negsuc n) l = cc

added-IsSound :
    (external : ℕ → ℕ) (cs ds : List Cell) (p : ℕ) (o : Option Cell)
    → lookup cs (suc p) ≡ o
    → IsLive o
    → add_reference (suc p) cs ≡ ok ds
    → IsSound external cs []
    → IsSound (raised external (suc p)) ds []
added-IsSound external cs ds p none e l f s = cc
added-IsSound external cs ds p (some c) e l f s =
    let (m, h) = live_value c.reference_count l in
    let kept =
      sym (ap freed_in e) ∙ unfreed external cs [] p s (ap (λ o. is_pos (count_in o)) e ∙ l) in
    let same = added cs ds (suc p) c e kept f in
    let next =
      ap (λ z. set_reference_count (suc p) z cs) (ap (λ z. z +ℤ pos 1) h ∙ plus_one (suc m)) in
    subst (λ xs. IsSound (raised external (suc p)) xs []) (sym next ∙ same)
      (more-IsSound external cs p m c e h s)

start-IsSound : IsSound (λ q. 0) [] []
unfolding IsCounted IsClosed AreUnused AreFinished lookup holds
start-IsSound = record {
  counted = λ q l. cc;
  closed = λ q d. (refl, refl);
  settled = no_calls [];
  unused = λ q e. cc;
  finished = λ q x y z. cc;
}

module _ {strcmp : String → String → ℤ} (i : IsStrcmp strcmp) (fuel : ℕ) where
  reaches-IsSound :
      {external : ℕ → ℕ} {cs : List Cell} → Reaches strcmp fuel external cs → IsSound external cs []
  reaches-IsSound start = start-IsSound
  reaches-IsSound (make p o d h r) = made-IsSound _ _ p o d h (reaches-IsSound r)
  reaches-IsSound (add p l f r) = added-IsSound _ _ _ p _ refl l f (reaches-IsSound r)
  reaches-IsSound (trade p c o e l h r) = traded-IsSound _ _ p c o e l h (reaches-IsSound r)
  reaches-IsSound (give p n l e r) =
      run-IsSound _ i fuel n _ _ (given-IsSound _ _ p l (reaches-IsSound r)) e

  -- An object that a program holds a reference to has a count above 0 and is not freed, whatever
  -- objects the program has made, and whatever references it has added, traded with objects and given
  -- up.
  pub reaches-held :
      {external : ℕ → ℕ} {cs : List Cell} (p : ℕ)
      → Reaches strcmp fuel external cs
      → 0 < external (suc p)
      → IsLive (lookup cs (suc p)) × (freed_in (lookup cs (suc p)) ≡ false)
  reaches-held p r l =
      let s = reaches-IsSound r in
      let live = held-IsLive _ _ [] p s l in (live, unfreed _ _ [] p s live)

  -- The count of a live object is the number of pointers to it in the live objects and of references
  -- that the program holds, whatever the program has done.
  pub reaches-counted :
      {external : ℕ → ℕ} {cs : List Cell} (p : ℕ)
      → Reaches strcmp fuel external cs
      → IsLive (lookup cs (suc p))
      → count_in (lookup cs (suc p)) ≡ pos (holds cs (suc p) + external (suc p))
  unfolding IsCounted pending
  reaches-counted p r l = (reaches-IsSound r).counted p l ∙ ap pos (omega arith)

  -- While a program gives up a reference that it holds, no call that comes up releases a freed object.
  pub reaches-unfreed :
      {external : ℕ → ℕ} {cs : List Cell} (p q n : ℕ) (t : State) (todo : List Call)
      → Reaches strcmp fuel external cs
      → 0 < external (suc p)
      → run strcmp fuel n (record { cells = cs; calls = del_reference (suc p) ∷ [] }) ≡ goes_on t
      → t.calls ≡ del_reference (suc q) ∷ todo
      → freed_in (lookup t.cells (suc q)) ≡ false
  reaches-unfreed p q n t todo r l e f =
      run-unfreed _ i fuel n _ t q todo (given-IsSound _ _ p l (reaches-IsSound r)) e f

  -- An object to which no live object and no part of the program refers is freed, whatever the program
  -- has done.
  pub reaches-freed :
      {external : ℕ → ℕ} {cs : List Cell} (p : ℕ)
      → Reaches strcmp fuel external cs
      → is_some (lookup cs (suc p)) ≡ true
      → holds cs (suc p) ≡ 0
      → external (suc p) ≡ 0
      → freed_in (lookup cs (suc p)) ≡ true
  unfolding AreFinished awaiting
  reaches-freed {external} {cs} p r x a b = elim (Bool-cases (freed_in (lookup cs (suc p)))) [
    | inl g ↦ g
    | inr g ↦ elim (Bool-cases (is_pos (count_in (lookup cs (suc p))))) [
      | inl h ↦ dead h (zero_dead _ _ (reaches-counted p r h) (omega (arith, a, b)))
      | inr h ↦ let never = (reaches-IsSound r).finished p x h g in ground arith
    ]
  ]
