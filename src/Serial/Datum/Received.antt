-- ===== src/Serial/Datum/Received.antt =====
-- What the receiver of a value makes of it: the values that minimal/src/serialise.c has a node for, and
-- what minimal/src/parsexml.c reads.
use pylinda.Base.{◌≡◌, false, str_eq, ◌^◌, ◌<◌, String, Option, none, some}
use pylinda.Base.Int.{ℤ, pos}
use pylinda.SyntaxTree.{Tree, null}
use pylinda.SyntaxTree.Chain.{IsParameters}
use pylinda.Serial.Trees.{IsCode, as_read}
use pylinda.Serial.Specs.{IsSpec, plain}
use pylinda.Serial.Datum.{
  Datum, boolean, integer, uinteger, float, double, type_, tuple, sum, empty_sum, function, pointer,
  built_in, Slots,
}
use pylinda.Serial.Datum.Write.{Writer}

module _ {F : Type 0} where
  abbrev pub put_slot : Option (Datum F) → Slots F → Slots F
  put_slot none vs = Slots.empty_slot vs
  put_slot (some v) vs = Slots.slot v vs

module _ {F : Type 0} (w : Writer F) (scan_float : String → F) where
  -- A type with an id arrives as one that has the id alone.
  unfoldable pub received_type : Option String → Option String → Tree → Option (Datum F)
  received_type name none spec = some (type_ name none (plain w.type_id spec))
  received_type name (some id) spec = some (type_ none (some id) null)

  -- A function without parameters is lost.
  unfoldable pub received_function : String → Tree → Tree → Option (Datum F)
  received_function name null code = none
  received_function name params code = some (function name params (as_read code))

  -- What arrives. A boolean and a built-in function are lost, a double is a float of the text that
  -- was written, and a tuple ends at its first NULL.
  unfoldable mutual
    unfolding received_type received_function

    pub received : Datum F → Option (Datum F)
    received (boolean b) = none
    received (float f) = some (float (scan_float (w.show_float f)))
    received (double f) = some (float (scan_float (w.show_float f)))
    received (type_ name id spec) = received_type name id spec
    received (tuple vs) = some (tuple (received_slots vs))
    received (function name params code) = received_function name params code
    received (built_in name) = none
    received v = some v

    pub received_slots : Slots F → Slots F
    received_slots Slots.end = Slots.end
    received_slots (Slots.empty_slot vs) = Slots.end
    received_slots (Slots.slot v vs) = put_slot (received v) (received_slots vs)

module _ {F : Type 0} (InRange : ℤ → Type 0) where
  -- the values that the writing has a node for, with numbers in range and types with names
  abbrev mutual
    pub IsSent : Datum F → Type 0
    IsSent (integer i) = InRange i
    IsSent (uinteger n) = (n < 2 ^ 31) × InRange (pos n)
    IsSent (type_ name (some id) spec) = Unit
    IsSent (type_ (some name) none spec) = (str_eq name "" ≡ false) × IsSpec spec
    IsSent (type_ none none spec) = ⊥
    IsSent (tuple vs) = AreSent vs
    IsSent (sum v i) = ⊥
    IsSent (empty_sum i) = ⊥
    IsSent (function name params code) = IsParameters params × IsCode InRange code
    IsSent (pointer target) = ⊥
    IsSent v = Unit

    pub AreSent : Slots F → Type 0
    AreSent Slots.end = Unit
    AreSent (Slots.empty_slot vs) = Unit
    AreSent (Slots.slot v vs) = IsSent v × AreSent vs
