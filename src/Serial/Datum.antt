-- ===== src/Serial/Datum.antt =====
-- The values that minimal/src/serialise.c writes and minimal/src/parsexml.c reads, with the parts of
-- them that are written: not the layer of a function, nor that of a type, for which the receiver takes
-- its own. Values have no types here, as under the servers' `Minimal_use_types = 0`.
pub mod Tag
pub mod Write
pub mod Read
pub mod Received
pub mod Steps
pub mod Trip
pub mod Transport
use pylinda.Base.{ℕ, String, Bool, Option, none, some}
use pylinda.Base.Int.{ℤ}
use pylinda.SyntaxTree.{Tree}

mutual
  -- `struct MinimalValue_t` by its tag; `F` stands for the machine's floats. A type made from an id
  -- has no name, the value of an empty sum is NULL, and a pointer stands by the id of its target.
  pub data Datum (F : Type 0) : Type 0 where
    nil : Datum F
    boolean : Bool → Datum F
    integer : ℤ → Datum F
    uinteger : ℕ → Datum F
    float : F → Datum F
    double : F → Datum F
    string : String → Datum F
    type_ : (type_name type_id : Option String) → (type_spec : Tree) → Datum F
    tsref : String → Datum F
    tuple : Slots F → Datum F
    sum : (value : Datum F) → (sum_pos : ℤ) → Datum F
    empty_sum : (sum_pos : ℤ) → Datum F
    function : (func_name : String) → (parameter_list code : Tree) → Datum F
    pointer : (target : ℤ) → Datum F
    built_in : (built_in_name : String) → Datum F

  -- the array of a tuple, whose slots may be NULL
  pub data Slots (F : Type 0) : Type 0 where
    end : Slots F
    empty_slot : Slots F → Slots F
    slot : Datum F → Slots F → Slots F
