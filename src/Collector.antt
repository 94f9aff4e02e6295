-- ===== src/Collector.antt =====
-- minimal/src/cyclic_garbage.c: one call of Minimal_performCyclicCollection up to its decision. An
-- object is its address, 0 the null pointer. The array of found objects is a list, so its growth by
-- `malloc` and `memcpy` is left out.
pub mod Items
pub mod Decide
pub mod Enough
pub mod Scan
pub mod Distinct
pub mod Resolve
pub mod Seen
pub mod Track
pub mod Safe
pub mod Ends
mod Examples
use pylinda.Base.{
  ℕ, zero, suc, ◌+◌, Bool, true, false, not, ◌||◌, Option, none, some, List, [], ◌∷◌, ◌++◌, length,
  ltb, ◌==◌, if◌then◌else◌,
}
use pylinda.Base.Int.{ℤ, pos, is_neg, ltb_ℤ}

-- What the collector reads of the objects: the reference count in each, and what
-- Minimal_getReferences adds for it, in order.
pub record Heap : Type 0 where
  pub reference_count : ℕ → ℤ
  pub references : ℕ → List ℕ

-- `struct CyclicGarbage`; `ptrtos` are indices into the list
pub record Item : Type 0 where
  pub ptr : ℕ
  pub count : ℕ
  pub refcount : ℤ
  pub ptrtos : List ℕ
  pub in_clique : Bool

abbrev pub Items : Type 0
Items = List Item

-- the index of an object, or the length when it is not in the list
abbrev pub find : Items → ℕ → ℕ
find [] p = 0
find (x ∷ xs) p = let rest = find xs p in if x.ptr == p then 0 else suc rest

abbrev pub modify : (Item → Item) → ℕ → Items → Items
modify f i [] = []
modify f zero (x ∷ xs) = f x ∷ xs
modify f (suc i) (x ∷ xs) = x ∷ modify f i xs

abbrev pub null_item : Item
null_item = record { ptr = 0; count = 0; refcount = pos 0; ptrtos = []; in_clique = false }

abbrev pub at : Items → ℕ → Item
at [] i = null_item
at (x ∷ xs) zero = x
at (x ∷ xs) (suc i) = at xs i

abbrev pub counted : Item → Item
counted x = record x { count = suc (x.count) }

abbrev pub linked : ℕ → Item → Item
linked k x = record x { ptrtos = x.ptrtos ++ k ∷ [] }

abbrev pub marked : Item → Item
marked x = record x { in_clique = true }

-- What `Minimal_performCyclicCollection` comes to: it leaves the objects, writes to the null
-- pointer, or destroys the marked objects; `running` is a search out of fuel.
pub data Decision : Type 0 where
  keep : Decision
  bad_count : Decision
  collect : Items → Decision
  running : Decision

module _ (h : Heap) where
  open h use {reference_count, references}

  abbrev pub new_item : ℕ → ℕ → Bool → Item
  new_item p n root = record {
    ptr = p;
    count = n;
    refcount = reference_count p;
    ptrtos = [];
    in_clique = root;
  }

  abbrev pub counted_at : Items → ℕ → ℕ → Items
  counted_at xs p k =
      if ltb k (length xs) then modify counted k xs else xs ++ new_item p 1 false ∷ []

  -- `current` is the index of the object whose references are being added
  abbrev pub add_to_list : ℕ → Items → ℕ → Items
  add_to_list current xs zero = xs
  add_to_list current xs (suc q) =
      let k = find xs (suc q) in modify (linked k) current (counted_at xs (suc q) k)

  abbrev pub add_references : ℕ → Items → List ℕ → Items
  add_references current xs [] = xs
  add_references current xs (p ∷ ps) = add_references current (add_to_list current xs p) ps

  abbrev pub scan : ℕ → ℕ → Items → Option Items
  scan zero i xs = none
  scan (suc fuel) i xs =
      let rest = scan fuel (suc i) (add_references i xs (references ((at xs i).ptr))) in
      if ltb i (length xs) then rest else some xs

abbrev pub touches : Items → List ℕ → Bool
touches whole [] = false
touches whole (k ∷ ks) = (at whole k).in_clique || touches whole ks

abbrev pub opt_suc : Option ℕ → Option ℕ
opt_suc none = none
opt_suc (some n) = some (suc n)

-- the first object outside the clique that points into it
abbrev pub next : Items → Items → Option ℕ
next whole [] = none
next whole (x ∷ xs) =
    let rest = opt_suc (next whole xs) in
    if x.in_clique then rest else if touches whole (x.ptrtos) then some 0 else rest

-- the comparison of the two counts, before the search goes on
abbrev pub verdict : Item → Decision → Decision
verdict x go =
    if ltb_ℤ (pos (x.count)) (x.refcount)
    then keep
    else if ltb_ℤ (x.refcount) (pos (x.count))
    then bad_count
    else go

abbrev pub grow : ℕ → Items → Decision
grow zero xs = running
grow (suc fuel) xs = elim (next xs xs) [
  | none ↦ collect xs
  | some j ↦ verdict (at xs j) (grow fuel (modify marked j xs))
]

abbrev pub decide : ℕ → Option Items → Decision
decide fuel none = running
decide fuel (some xs) = verdict (at xs 0) (grow fuel xs)

abbrev pub perform_cyclic_collection : Heap → ℕ → ℕ → Decision
perform_cyclic_collection h fuel p =
    if is_neg (Heap.reference_count h p)
    then keep
    else decide fuel (scan h fuel 0 (new_item h p 0 true ∷ []))
