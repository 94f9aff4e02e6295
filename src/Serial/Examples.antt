-- ===== src/Serial/Examples.antt =====
-- Tests of minimal/src/serialise.c and parsexml.c, and their theorems at numerals of one digit.
use pylinda.Base.{
  zero, suc, String, ◌≡◌, refl, Bool, true, false, Option, none, some, [], ◌∷◌, ok, if◌then◌else◌,
  str_eq,
}
use pylinda.Base.Int.{ℤ, pos, negsuc}
use pylinda.Message.Codec.{IsCodec}
use pylinda.Message.Xml.{Xml, element, next, single, leaf}
use pylinda.SyntaxTree.{
  Tree, null, create_id, integer, parameter_list, function_call, argument_list, operator,
  product_type, tuple, pointer, bracket, type_function, index, Trees,
}
use pylinda.Serial.{Numerals, IsNumerals}
use pylinda.Serial.Write.{serialise_code, serialise_type_spec}
use pylinda.Serial.Read.{xml_to_tree}
use pylinda.Serial.Trees.{as_read, serialise_code-read}
use pylinda.Serial.Specs.{plain, serialise_type_spec-read}
use pylinda.Serial.Datum.{Datum, Slots, boolean, double}
use pylinda.Serial.Datum.Write.{Writer, serialise_xml}
use pylinda.Serial.Datum.Read.{parse_value}
use pylinda.Serial.Datum.Received.{received_slots}
use pylinda.Serial.Datum.Trip.{parse_value-serialise_xml}
use pylinda.Serial.Datum.Transport.{parse_value-whole, codec, IsCarried, codec-IsCodec}

abbrev show_bit : ℤ → String
show_bit (pos zero) = "0"
show_bit _ = "1"

abbrev read_bit : String → ℤ
read_bit s = if str_eq s "0" then pos 0 else pos 1

abbrev IsBit : ℤ → Type 0
IsBit (pos zero) = Unit
IsBit (pos (suc zero)) = Unit
IsBit _ = ⊥

abbrev bits : Numerals
bits = record { show = show_bit; atoi = read_bit; scan = read_bit }

read_bit-show_bit : (i : ℤ) → IsBit i → read_bit (show_bit i) ≡ i
read_bit-show_bit (pos zero) h = refl
read_bit-show_bit (pos (suc zero)) h = refl
read_bit-show_bit (pos (suc (suc n))) h = absurd h
read_bit-show_bit (negsuc n) h = absurd h

bits-IsNumerals : IsNumerals bits IsBit
bits-IsNumerals = record { atoi-show = read_bit-show_bit; scan-show = read_bit-show_bit }

abbrev call : Tree
call = operator "+" (create_id "x") (
    function_call (create_id "f") (
      argument_list (integer (pos 1)) (
        argument_list (tuple (Trees.next (index (create_id "y") (integer (pos 0))) Trees.end))
          null)))

serialise_code-read_example :
    (x : Xml) × (serialise_code bits call ≡ ok (single x))
    × (xml_to_tree bits x ≡ ok (as_read call))
serialise_code-read_example =
    serialise_code-read bits IsBit bits-IsNumerals call
      (tt, (tt, (tt, tt, (tt, (tt, ((tt, tt), tt)), tt))))

abbrev pair_type : Tree
pair_type = bracket (
    type_function (
      Trees.next
        (product_type (Trees.next (create_id "int") (Trees.next (bracket (pointer "p")) Trees.end)))
        (Trees.next (create_id "int") Trees.end)))

abbrev type_id : String → Option String
type_id s = if str_eq s "int" then some "7" else none

serialise_type_spec-read_example :
    (x : Xml) × (serialise_type_spec type_id pair_type ≡ ok (single x))
    × (xml_to_tree bits x ≡ ok (plain type_id pair_type))
serialise_type_spec-read_example =
    serialise_type_spec-read type_id bits pair_type ((tt, (tt, tt)), tt)

abbrev params : Tree
params = parameter_list "x" (parameter_list "y" null)

abbrev writer : Writer Bool
writer = record {
  numerals = bits;
  show_float = λ f. if f then "1.5" else "0.5";
  type_id = type_id;
  address = λ place. "1";
}

abbrev scan_float : String → Bool
scan_float s = str_eq s "1.5"

abbrev identity : Datum Bool
identity = Datum.function "f" params call

abbrev values : Slots Bool
values = Slots.slot (Datum.string "a") (
    Slots.slot (boolean true) (
      Slots.slot (double true) (
        Slots.slot identity
          (Slots.slot (Datum.tuple (Slots.slot (Datum.integer (pos 1)) Slots.end)) Slots.end))))

parse_value-serialise_xml_example :
    (x : Xml) × (serialise_xml writer true (Datum.tuple values) ≡ ok x)
    × (parse_value (record { numerals = bits; scan_float = scan_float }) x
        ≡ ok (some (Datum.tuple (received_slots writer scan_float values))))
parse_value-serialise_xml_example =
    parse_value-serialise_xml writer scan_float IsBit bits-IsNumerals true values
      (tt, (tt, (tt, ((tt, (tt, (tt, (tt, tt, (tt, (tt, ((tt, tt), tt)), tt))))), ((tt, tt), tt)))))

abbrev whole_values : Slots Bool
whole_values = Slots.slot (Datum.string "a") (
    Slots.slot (Datum.tuple (Slots.slot (Datum.integer (pos 1)) Slots.end))
      (Slots.slot (Datum.function "f" params (create_id "y")) Slots.end))

identifier_read : as_read (create_id "y") ≡ create_id "y"
unfolding as_read
identifier_read = refl

parse_value-whole_example :
    (x : Xml) × (serialise_xml writer false (Datum.tuple whole_values) ≡ ok x)
    × (parse_value (record { numerals = bits; scan_float = scan_float }) x
        ≡ ok (some (Datum.tuple whole_values)))
parse_value-whole_example =
    parse_value-whole writer scan_float IsBit bits-IsNumerals false whole_values
      (tt, ((tt, tt), ((tt, tt, identifier_read), tt)))

codec-IsCodec_example :
    IsCodec
      (codec writer scan_float IsBit bits-IsNumerals)
      (IsCarried writer scan_float IsBit bits-IsNumerals)
      IsBit
codec-IsCodec_example = codec-IsCodec writer scan_float IsBit bits-IsNumerals

-- what arrives of the tuple
values_received :
    received_slots writer scan_float values
    ≡ Slots.slot (Datum.string "a") (
        Slots.empty_slot (
          Slots.slot (Datum.float true) (
            Slots.slot
              (Datum.function "f" params (as_read call))
              (Slots.slot (Datum.tuple (Slots.slot (Datum.integer (pos 1)) Slots.end)) Slots.end))))
unfolding received_slots
values_received = refl

-- A tuple of code is read as a product type.
read_tuple :
    xml_to_tree bits
      (element "tuple" (("size", "1") ∷ []) (single (leaf "id" (("name", "x") ∷ []))))
    ≡ ok (product_type (Trees.next (create_id "x") Trees.end))
unfolding xml_to_tree
read_tuple = refl

-- Two values under the root are none.
read_two :
    parse_value {F = Bool}
      (record { numerals = bits; scan_float = scan_float })
      (element "minimal" [] (next (leaf "nil" []) (single (leaf "true" []))))
    ≡ ok none
unfolding parse_value
read_two = refl
