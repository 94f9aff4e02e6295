-- ===== src/Refcount/Steps.antt =====
-- The calls of minimal/src/refcount.c keep its invariant.
use pylinda.Base.{
  ℕ, zero, suc, ◌+◌, ◌-◌, ◌<◌, String, leb, ◌≡◌, refl, ap, ◌∙◌, inl, inr, ◌⊎◌, true, false, subst,
  map, Option, none, some, List, [], ◌∷◌, ◌++◌, Outcome, ok, exited, crash, Bool-cases, arith,
}
use pylinda.Base.Int.{ℤ, pos, negsuc, sub_ℕ, ◌-ℤ◌, is_pos, is_neg}
use pylinda.NameMap.Strcmp.{IsStrcmp}
use pylinda.Collector.{Items, Decision, keep, bad_count, collect, perform_cyclic_collection}
use pylinda.Collector.Safe.{IsGarbage, collect-IsGarbage}
use pylinda.Object.Field.{del_object}
use pylinda.Refcount.{
  Cell, Call, del_reference, free, State, Progress, goes_on, stuck, out_of_fuel, lookup, with_count,
  set_reference_count, count_in, freed_in, heap_of, clique, clear, del_objects, destroy, collected,
  counted_down, released, step, run,
}
use pylinda.Refcount.Cells.{weight}
use pylinda.Refcount.Clear.{IsLive, set-lookup}
use pylinda.Refcount.Counts.{pending_here}
use pylinda.Refcount.Closed.{IsClosed}
use pylinda.Refcount.Settled.{AreUnused}
use pylinda.Refcount.Sound.{IsSound, drop-IsSound, down-IsSound, free-IsSound}
use pylinda.Refcount.Destroyed.{last-IsSound, clear-IsSound}

pub sub_le : (a b : ℕ) → leb b a ≡ true → sub_ℕ a b ≡ pos (a - b)
sub_le a b h = rw (h) refl

minus_one : (m : ℕ) → pos (suc m) -ℤ pos 1 ≡ pos m
unfolding ◌-ℤ◌
minus_one m = sub_le (suc m + 0) 1 (ground arith) ∙ ap pos (omega arith)

below_zero : pos 0 -ℤ pos 1 ≡ negsuc 0
unfolding ◌-ℤ◌
below_zero = refl

not_pos : (z w : ℤ) → z ≡ w → is_neg w ≡ true → is_pos z ≡ false
not_pos z (pos n) e h = cc
not_pos z (negsuc n) e h = rw (e) refl

no_collect : {A : Type 0} (d : Decision) (ys : Items) → d ≡ keep → d ≡ collect ys → A
no_collect d ys e f = cc

perform_dead :
    (cs : List Cell) (fuel p : ℕ)
    → is_neg (count_in (lookup cs p)) ≡ true
    → perform_cyclic_collection (heap_of cs) fuel p ≡ keep
unfolding heap_of
perform_dead cs fuel p e = rw (e) refl

module _ (external : ℕ → ℕ) (cs : List Cell) where
  pub held-IsLive :
      (todo : List Call) (p : ℕ)
      → IsSound external cs todo
      → 0 < external (suc p)
      → IsLive (lookup cs (suc p))
  unfolding IsClosed
  held-IsLive todo p s l = elim (Bool-cases (is_pos (count_in (lookup cs (suc p))))) [
    | inl h ↦ h
    | inr h ↦ let (a, b) = s.closed p h in ground arith
  ]

  pub unfreed :
      (todo : List Call) (p : ℕ)
      → IsSound external cs todo
      → IsLive (lookup cs (suc p))
      → freed_in (lookup cs (suc p)) ≡ false
  unfolding AreUnused
  unfreed todo p s l = elim (Bool-cases (freed_in (lookup cs (suc p)))) [
    | inl h ↦ let (d, n) = s.unused p h in cc
    | inr h ↦ h
  ]

  called_unfreed :
      (p : ℕ) (todo : List Call)
      → IsSound external cs (del_reference (suc p) ∷ todo)
      → freed_in (lookup cs (suc p)) ≡ false
  unfolding AreUnused
  called_unfreed p todo s = elim (Bool-cases (freed_in (lookup cs (suc p)))) [
    | inl h ↦
        let (d, n) = s.unused p h in
        let here = pending_here (suc p) (suc p) todo (ground arith) in ground arith
    | inr h ↦ h
  ]

module _ (external : ℕ → ℕ) {strcmp : String → String → ℤ} (s : IsStrcmp strcmp) where
  -- the state after a call that returns
  OnGoing : Progress → Type 0
  OnGoing (goes_on t) = IsSound external t.cells t.calls
  OnGoing stuck = Unit
  OnGoing out_of_fuel = Unit

  destroy-OnGoing :
      (cs : List Cell) (ps : List ℕ) (todo : List Call) (r : Outcome (List ℕ))
      → ((rs : List ℕ)
          → r ≡ ok rs
          → IsSound external cs (map del_reference rs ++ map free ps ++ todo))
      → OnGoing (destroy strcmp cs ps todo r)
  unfolding OnGoing
  destroy-OnGoing cs ps todo (ok rs) f = f rs refl
  destroy-OnGoing cs ps todo exited f = tt
  destroy-OnGoing cs ps todo crash f = tt

  collected-OnGoing :
      (cs : List Cell) (p : ℕ) (todo : List Call) (d : Decision)
      → ((ys : Items) → d ≡ collect ys → IsGarbage (heap_of cs) p ys × IsLive (lookup cs p))
      → IsSound external cs todo
      → OnGoing (collected strcmp cs todo d)
  unfolding OnGoing
  collected-OnGoing cs p todo keep g k = k
  collected-OnGoing cs p todo bad_count g k = tt
  collected-OnGoing cs p todo (collect ys) g k =
      let (garbage, live) = g ys refl in
      destroy-OnGoing (clear (clique ys) cs) (clique ys) todo (del_objects strcmp cs (clique ys))
        (λ rs e. clear-IsSound external s cs p ys rs todo garbage live e k)
  collected-OnGoing cs p todo Decision.running g k = tt

  module _ (fuel : ℕ) where
    module _ (cs : List Cell) (p : ℕ) (todo : List Call) (c : Cell) (e : lookup cs p ≡ some c)
        (k : IsSound external cs (del_reference p ∷ todo)) where
      -- the new count is not 0
      not_last :
          (n : ℤ)
          → ((q : ℕ) → weight (with_count n c) q ≡ weight c q)
          → (is_pos n ≡ true → (m : ℕ) × (c.reference_count ≡ pos (suc m)) × (n ≡ pos m))
          → is_pos n ≡ is_pos c.reference_count
          → (is_neg n ≡ true) ⊎ (is_pos n ≡ true)
          → OnGoing (
              collected strcmp
                (set_reference_count p n cs)
                todo
                (perform_cyclic_collection (heap_of (set_reference_count p n cs)) fuel p))
      not_last n w d l o =
          let cs' = set_reference_count p n cs in
          let now = ap count_in (set-lookup n p cs c e) in
          collected-OnGoing cs' p todo (perform_cyclic_collection (heap_of cs') fuel p)
            (λ ys f. elim o [
              | inl h ↦ no_collect _ ys (perform_dead cs' fuel p (ap is_neg now ∙ h)) f
              | inr h ↦ (collect-IsGarbage (heap_of cs') p fuel ys f, ap is_pos now ∙ h)
            ])
            (down-IsSound external cs p todo c n e w l d k)

      down :
          (z : ℤ)
          → c.reference_count ≡ z
          → is_neg z ≡ false
          → OnGoing (counted_down strcmp fuel cs p todo c (z -ℤ pos 1))
      unfolding weight
      down (negsuc n) f d = cc
      down (pos zero) f d =
          rw (below_zero)
            (not_last (negsuc 0) (λ q. rw (f) refl) (λ h. cc) (rw (f) refl) (inl refl))
      down (pos (suc zero)) f d = rw (minus_one 0) (
          destroy-OnGoing (set_reference_count p (pos 0) cs) (p ∷ []) todo
            (del_object strcmp c.object) (λ rs g. last-IsSound external s cs p rs todo c e f g k))
      down (pos (suc (suc m))) f d = rw (minus_one (suc m)) (
          not_last (pos (suc m)) (λ q. rw (f) refl) (λ h. (suc m, f, refl)) (rw (f) refl)
            (inr refl))

      some-OnGoing : OnGoing (released strcmp fuel cs p todo (some c))
      unfolding OnGoing
      some-OnGoing = elim (Bool-cases c.freed) [
        | inl g ↦ rw (g) tt
        | inr g ↦ elim (Bool-cases (is_neg c.reference_count)) [
          | inl h ↦ rw (g, h) (drop-IsSound external cs p todo (not_pos _ _ (ap count_in e) h) k)
          | inr h ↦ rw (g, h) (down c.reference_count refl h)
        ]
      ]

    call-OnGoing :
        (cs : List Cell) (p : ℕ) (todo : List Call) (o : Option Cell)
        → lookup cs p ≡ o
        → IsSound external cs (del_reference p ∷ todo)
        → OnGoing (released strcmp fuel cs p todo o)
    unfolding OnGoing
    call-OnGoing cs p todo none e k = tt
    call-OnGoing cs p todo (some c) e k = some-OnGoing cs p todo c e k

    calls-OnGoing :
        (cs : List Cell) (todo : List Call)
        → IsSound external cs todo
        → OnGoing (step strcmp fuel (record { cells = cs; calls = todo }))
    unfolding OnGoing step
    calls-OnGoing cs [] k = k
    calls-OnGoing cs (del_reference p ∷ todo) k = call-OnGoing cs p todo (lookup cs p) refl k
    calls-OnGoing cs (free p ∷ todo) k = free-IsSound external cs p todo k

    on_going :
        (g : Progress) (t : State) → g ≡ goes_on t → OnGoing g → IsSound external t.cells t.calls
    unfolding OnGoing
    on_going g t e o = subst (OnGoing) e o

    after-OnGoing :
        (n : ℕ)
        → ((u : State) → IsSound external u.cells u.calls → OnGoing (run strcmp fuel n u))
        → (g : Progress) → OnGoing g
        → OnGoing
            (elim g [ goes_on t ↦ run strcmp fuel n t | stuck ↦ stuck | out_of_fuel ↦ out_of_fuel ])
    unfolding OnGoing
    after-OnGoing n f (goes_on t) o = f t o
    after-OnGoing n f stuck o = tt
    after-OnGoing n f out_of_fuel o = tt

    run-OnGoing :
        (n : ℕ) (u : State) → IsSound external u.cells u.calls → OnGoing (run strcmp fuel n u)
    unfolding OnGoing run
    run-OnGoing zero u k = k
    run-OnGoing (suc n) u k =
        after-OnGoing n (run-OnGoing n) (step strcmp fuel u) (calls-OnGoing u.cells u.calls k)

    -- Calls of Minimal_delReference and free, made one after the other, keep the invariant: from a
    -- state in which each object with a count above 0 has as many references as its count says (from
    -- such objects, from calls that are still to be made and from the program), no such object and no
    -- part of the program refers to another object, no freed object is still to be released, and each
    -- other object is freed or about to be, any number of calls that returns leads to such a state.
    pub run-IsSound :
        (n : ℕ) (u t : State)
        → IsSound external u.cells u.calls
        → run strcmp fuel n u ≡ goes_on t
        → IsSound external t.cells t.calls
    run-IsSound n u t k e = on_going _ t e (run-OnGoing n u k)

    -- From such a state, no call that comes up after any number of calls that returns releases a
    -- freed object.
    pub run-unfreed :
        (n : ℕ) (u t : State) (p : ℕ) (todo : List Call)
        → IsSound external u.cells u.calls
        → run strcmp fuel n u ≡ goes_on t
        → t.calls ≡ del_reference (suc p) ∷ todo
        → freed_in (lookup t.cells (suc p)) ≡ false
    run-unfreed n u t p todo k e f =
        called_unfreed external t.cells p todo
          (subst (IsSound external t.cells) f (run-IsSound n u t k e))
