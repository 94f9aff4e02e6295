-- ===== src/Collector/Examples.antt =====
-- Tests of minimal/src/cyclic_garbage.c, and its theorems on a heap of three objects.
use pylinda.Base.{ℕ, zero, suc, ◌==◌, if◌then◌else◌, ◌≡◌, refl, true, false, List, [], ◌∷◌, arith}
use pylinda.Base.Int.{pos}
use pylinda.Collector.{Heap, Items, keep, collect, perform_cyclic_collection}
use pylinda.Collector.Safe.{IsGarbage, collect-IsGarbage}
use pylinda.Collector.Enough.{is_running}
use pylinda.Collector.Ends.{AreAmong, perform_ends}

-- 1 and 2 point to each other, and 1 twice to 3, which points to nothing
abbrev pointers : ℕ → List ℕ
pointers zero = []
pointers (suc zero) = 2 ∷ 3 ∷ 0 ∷ 3 ∷ []
pointers (suc (suc zero)) = 1 ∷ []
pointers (suc (suc (suc _))) = []

-- 3 is also referenced from outside
abbrev cycle : Heap
cycle = record { reference_count = λ p. if p == 3 then pos 3 else pos 1; references = pointers }

-- so is 2
abbrev held : Heap
held = record { reference_count = λ p. if p == 1 then pos 1 else pos 2; references = pointers }

-- the objects 1 and 2 go, 3 stays
abbrev found : Items
found =
    record { ptr = 1; count = 1; refcount = pos 1; ptrtos = 1 ∷ 2 ∷ 2 ∷ []; in_clique = true }
    ∷ record { ptr = 2; count = 1; refcount = pos 1; ptrtos = 0 ∷ []; in_clique = true }
    ∷ record { ptr = 3; count = 2; refcount = pos 3; ptrtos = []; in_clique = false }
    ∷ []

collects : perform_cyclic_collection cycle 6 1 ≡ collect found
collects = refl

keeps : perform_cyclic_collection held 6 1 ≡ keep
keeps = refl

collect-IsGarbage_example : IsGarbage cycle 1 found
collect-IsGarbage_example = collect-IsGarbage cycle 1 6 found refl

pointers_closed : (q : ℕ) → AreAmong (1 ∷ 2 ∷ 3 ∷ []) (pointers q)
unfolding AreAmong
pointers_closed zero = tt
pointers_closed (suc zero) = (refl, (refl, (refl, tt)))
pointers_closed (suc (suc zero)) = (refl, tt)
pointers_closed (suc (suc (suc q))) = tt

perform_ends_example : is_running (perform_cyclic_collection cycle 6 1) ≡ false
perform_ends_example =
    perform_ends cycle (1 ∷ 2 ∷ 3 ∷ []) pointers_closed (suc zero) 6 (omega arith)
