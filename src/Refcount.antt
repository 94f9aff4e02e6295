-- ===== src/Refcount.antt =====
-- minimal/src/refcount.c with minimal/src/cyclic_garbage.c: the release of references, which destroys
-- objects, whose pointers are released in turn. The calls that are still to be made are a list, the
-- innermost first. A freed object stays in the list of objects, marked as freed; a call for an
-- address where no object is, or was, crashes.
pub mod Cells
pub mod Clear
pub mod Clique
pub mod Counts
pub mod Closed
pub mod Settled
pub mod Finished
pub mod Sound
pub mod Destroyed
pub mod Steps
pub mod Program
pub mod Make
pub mod Trade
pub mod Reach
mod Examples
use pylinda.Base.{
  ℕ, zero, suc, String, Bool, true, false, Option, none, some, List, [], ◌∷◌, ◌++◌, map, Outcome,
  ok, exited, crash, ◌==◌, if◌then◌else◌,
}
use pylinda.Base.Int.{ℤ, pos, negsuc, ◌+ℤ◌, ◌-ℤ◌, is_neg, is_zero}
use pylinda.Collector.{Heap, Items, Decision, keep, bad_count, collect, perform_cyclic_collection}
use pylinda.Object.{◌then◌}
use pylinda.Object.Field.{Object, references, del_object}

-- `MinimalRefCount`, with the object that it heads
pub record Cell : Type 0 where
  pub address : ℕ
  pub reference_count : ℤ
  pub object : Object
  pub freed : Bool

-- a call of `Minimal_delReference`, or of `free`
pub data Call : Type 0 where
  del_reference : ℕ → Call
  free : ℕ → Call

pub record State : Type 0 where
  pub cells : List Cell
  pub calls : List Call

pub data Progress : Type 0 where
  goes_on : State → Progress
  stuck : Progress
  out_of_fuel : Progress

unfoldable pub lookup : List Cell → ℕ → Option Cell
lookup [] p = none
lookup (c ∷ cs) p = let rest = lookup cs p in if c.address == p then some c else rest

unfoldable pub update : (Cell → Cell) → ℕ → List Cell → List Cell
update f p [] = []
update f p (c ∷ cs) = let rest = update f p cs in if c.address == p then f c ∷ cs else c ∷ rest

abbrev pub new_cell : ℕ → Object → Cell
new_cell p o = record { address = p; reference_count = pos 1; object = o; freed = false }

-- `Minimal_newReference` of a new object
abbrev pub new_reference : ℕ → Object → List Cell → List Cell
new_reference p o cs = new_cell p o ∷ cs

abbrev pub with_count : ℤ → Cell → Cell
with_count n c = record c { reference_count = n }

abbrev pub set_reference_count : ℕ → ℤ → List Cell → List Cell
set_reference_count p n cs = update (with_count n) p cs

-- an object whose pointers the program changes
abbrev pub with_object : Object → Cell → Cell
with_object o c = record c { object = o }

abbrev pub as_freed : Cell → Cell
as_freed c = record c { freed = true }

abbrev pub added_to : ℕ → List Cell → Option Cell → Outcome (List Cell)
added_to p cs none = crash
added_to p cs (some c) =
    if c.freed then crash else ok (set_reference_count p (c.reference_count +ℤ pos 1) cs)

-- `Minimal_addReference`
unfoldable pub add_reference : ℕ → List Cell → Outcome (List Cell)
add_reference p cs = added_to p cs (lookup cs p)

abbrev pub count_in : Option Cell → ℤ
count_in none = pos 0
count_in (some c) = c.reference_count

abbrev pub references_in : Option Cell → List ℕ
references_in none = []
references_in (some c) = references c.object

abbrev pub freed_in : Option Cell → Bool
freed_in none = false
freed_in (some c) = c.freed

-- what the collector reads
unfoldable pub heap_of : List Cell → Heap
heap_of cs = record {
  reference_count = λ p. count_in (lookup cs p);
  references = λ p. references_in (lookup cs p);
}

-- the addresses of the objects that are destroyed together
unfoldable pub clique : Items → List ℕ
clique [] = []
clique (x ∷ xs) = let rest = clique xs in if x.in_clique then x.ptr ∷ rest else rest

-- `Minimal_setReferenceCount` of each to -1
unfoldable pub clear : List ℕ → List Cell → List Cell
clear [] cs = cs
clear (p ∷ ps) cs = clear ps (set_reference_count p (negsuc 0) cs)

module _ (strcmp : String → String → ℤ) where
  abbrev pub del_in : Option Cell → Outcome (List ℕ)
  del_in none = crash
  del_in (some c) = del_object strcmp c.object

  -- `Minimal_delObject` of each
  unfoldable pub del_objects : List Cell → List ℕ → Outcome (List ℕ)
  del_objects cs [] = ok []
  del_objects cs (p ∷ ps) = del_in (lookup cs p) then del_objects cs ps

  -- the objects at `ps` release `rs`, and are freed
  abbrev pub destroy : List Cell → List ℕ → List Call → Outcome (List ℕ) → Progress
  destroy cs ps todo (ok rs) =
      goes_on (record { cells = cs; calls = map del_reference rs ++ map free ps ++ todo })
  destroy cs ps todo exited = stuck
  destroy cs ps todo crash = stuck

  -- the end of `Minimal_performCyclicCollection`
  abbrev pub collected : List Cell → List Call → Decision → Progress
  collected cs todo keep = goes_on (record { cells = cs; calls = todo })
  collected cs todo bad_count = stuck
  collected cs todo (collect ys) =
      destroy (clear (clique ys) cs) (clique ys) todo (del_objects cs (clique ys))
  collected cs todo Decision.running = out_of_fuel

  module _ (fuel : ℕ) where
    -- `Minimal_delReference` after the first test; `n` is the new count
    abbrev pub counted_down : List Cell → ℕ → List Call → Cell → ℤ → Progress
    counted_down cs p todo c n =
        let cs' = set_reference_count p n cs in
        if is_zero n
        then destroy cs' (p ∷ []) todo (del_object strcmp c.object)
        else collected cs' todo (perform_cyclic_collection (heap_of cs') fuel p)

    -- `Minimal_delReference`
    abbrev pub released : List Cell → ℕ → List Call → Option Cell → Progress
    released cs p todo none = stuck
    released cs p todo (some c) =
        if c.freed
        then stuck
        else if is_neg c.reference_count
        then goes_on (record { cells = cs; calls = todo })
        else counted_down cs p todo c (c.reference_count -ℤ pos 1)

    unfoldable pub step : State → Progress
    step s = elim s.calls [
      | [] ↦ goes_on s
      | del_reference p ∷ todo ↦ released s.cells p todo (lookup s.cells p)
      | free p ∷ todo ↦ goes_on (record { cells = update as_freed p s.cells; calls = todo })
    ]

    -- the calls made one after the other, until none is left
    unfoldable pub run : ℕ → State → Progress
    run zero s = goes_on s
    run (suc n) s = elim (step s) [
      | goes_on t ↦ run n t
      | stuck ↦ stuck
      | out_of_fuel ↦ out_of_fuel
    ]
