-- ===== src/Object.antt =====
-- The reference counted objects of minimal/src and their pointers: what Minimal_getReferences reports
-- for an object, what Minimal_delObject releases, and what a copy holds. A pointer is an address, 0
-- the null pointer.
pub mod Node
pub mod Copy
pub mod Field
pub mod Release
pub mod Total
pub mod Build
mod Examples
use pylinda.Base.{
  ℕ, zero, suc, Bool, true, false, List, [], ◌∷◌, ◌++◌, Outcome, ok, exited, crash, ◌>>=◌,
}

-- `Minimal_delReference` of a pointer reads the object; the release itself is listed
abbrev pub del_reference : ℕ → Outcome (List ℕ)
del_reference zero = crash
del_reference (suc p) = ok (suc p ∷ [])

-- `if(p != NULL) { Minimal_delReference(p); }`
abbrev pub del_if : ℕ → Outcome (List ℕ)
del_if zero = ok []
del_if (suc p) = ok (suc p ∷ [])

infixr 6 ◌then◌
abbrev pub ◌then◌ : Outcome (List ℕ) → Outcome (List ℕ) → Outcome (List ℕ)
ok xs then ok ys = ok (xs ++ ys)
ok xs then exited = exited
ok xs then crash = crash
exited then r = exited
crash then r = crash

abbrev pub del_all : List ℕ → Outcome (List ℕ)
del_all [] = ok []
del_all (p ∷ ps) = del_reference p then del_all ps

abbrev pub del_all_if : List ℕ → Outcome (List ℕ)
del_all_if [] = ok []
del_all_if (p ∷ ps) = del_if p then del_all_if ps

-- `if(p != NULL) { Minimal_addToCyclicGarbageList(list, p); }`
abbrev pub add_if : ℕ → List ℕ
add_if zero = []
add_if (suc p) = suc p ∷ []
