-- ===== src/Refcount/Examples.antt =====
-- Tests of minimal/src/refcount.c, and its theorems for a program with two objects.
use pylinda.Base.{ℕ, ◌+◌, ◌≡◌, refl, Bool, true, false, ◌&&◌, List, [], ◌∷◌, arith}
use pylinda.Base.Int.{ℤ, pos, ◌+ℤ◌, ◌-ℤ◌}
use pylinda.NameMap.Lex.{lex, lex-IsStrcmp}
use pylinda.Object.Field.{Object, value, Body, references, del_object}
use pylinda.Refcount.{
  Cell, del_reference, free, State, Progress, goes_on, heap_of, clique, clear, del_objects, lookup,
  add_reference, update, run, step, freed_in, count_in,
}
use pylinda.Collector.Items.{occ}
use pylinda.Refcount.Cells.{holds, weight}
use pylinda.Refcount.Program.{raised}
use pylinda.Refcount.Make.{handed}
use pylinda.Refcount.Clear.{IsLive}
use pylinda.Refcount.Reach.{
  Reaches, start, make, add, give, reaches-held, reaches-counted, reaches-unfreed, reaches-freed,
}

abbrev leaf : Object
leaf = value (record { typeobj = 0; body = Body.scalar })

abbrev single : Object
single = value (record { typeobj = 0; body = Body.tuple (1 ∷ []) })

abbrev cell : ℕ → ℤ → Object → Cell
cell p n o = record { address = p; reference_count = n; object = o; freed = false }

-- the tuple 2 holds 1, which the program holds too
abbrev two_cells : List Cell
two_cells = cell 2 (pos 1) single ∷ cell 1 (pos 2) leaf ∷ []

abbrev after : List Cell
after =
    record { address = 2; reference_count = pos 0; object = single; freed = true }
    ∷ cell 1 (pos 1) leaf
    ∷ []

gives :
    run (lex 0) 5 4 (record { cells = two_cells; calls = del_reference 2 ∷ [] })
    ≡ goes_on (record { cells = after; calls = [] })
unfolding run step lookup update ◌-ℤ◌ del_object heap_of references
gives = refl

-- two objects that point to each other, of which the program gives up its last reference
abbrev ring : List Cell
ring =
    cell 2 (pos 1) single
    ∷ cell 1 (pos 2) (value (record { typeobj = 0; body = Body.tuple (2 ∷ []) }))
    ∷ []

abbrev all_freed : State → Bool
all_freed s = freed_in (lookup s.cells 1) && freed_in (lookup s.cells 2)

abbrev ends_freed : Progress → Bool
ends_freed (goes_on s) = all_freed s
ends_freed _ = false

collects :
    ends_freed (run (lex 0) 5 5 (record { cells = ring; calls = del_reference 1 ∷ [] })) ≡ true
unfolding run step lookup update ◌-ℤ◌ del_object heap_of references clique clear del_objects
collects = refl

-- what the program holds: the object 1 once, and the tuple
abbrev mine : ℕ → ℕ
mine = handed (raised (handed (λ q. 0) 1 []) 1) 2 (1 ∷ [])

makes : Reaches (lex 0) 5 mine two_cells
unfolding references lookup add_reference update ◌+ℤ◌ occ
makes =
    make 1 single refl (λ q. ground arith)
      (add 0 refl refl (make 0 leaf refl (λ q. omega arith) start))

reaches-held_example : IsLive (lookup after 1) × (freed_in (lookup after 1) ≡ false)
unfolding occ
reaches-held_example =
    reaches-held (lex-IsStrcmp 0) 5 0 (give 1 4 (omega arith) gives makes) (omega arith)

reaches-counted_example : count_in (lookup after 1) ≡ pos (holds after 1 + 1)
unfolding lookup occ
reaches-counted_example =
    reaches-counted (lex-IsStrcmp 0) 5 0 (give 1 4 (omega arith) gives makes) refl

-- after the first two calls the release of the object 1 comes up
abbrev midway : State
midway = record {
  cells = cell 2 (pos 0) single ∷ cell 1 (pos 2) leaf ∷ [];
  calls = del_reference 1 ∷ free 2 ∷ [];
}

gets_there :
    run (lex 0) 5 1 (record { cells = two_cells; calls = del_reference 2 ∷ [] }) ≡ goes_on midway
unfolding run step lookup update ◌-ℤ◌ del_object heap_of references
gets_there = refl

reaches-unfreed_example : freed_in (lookup midway.cells 1) ≡ false
reaches-unfreed_example =
    reaches-unfreed (lex-IsStrcmp 0) 5 1 0 1 midway (free 2 ∷ []) makes (omega arith) gets_there
      refl

-- the tuple is freed when the program gives it up
reaches-freed_example : freed_in (lookup after 2) ≡ true
unfolding lookup holds weight occ references
reaches-freed_example =
    reaches-freed (lex-IsStrcmp 0) 5 1 (give 1 4 (omega arith) gives makes) refl refl (omega arith)
