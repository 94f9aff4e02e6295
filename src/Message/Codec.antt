-- ===== src/Message/Codec.antt =====
-- What the messages need of values: their serialisation (minimal/src/serialise.c), its reading
-- (minimal/src/parsexml.c), and C's decimal numerals.
use pylinda.Base.{String, ◌≡◌, Bool, false}
use pylinda.Base.Int.{ℤ}
use pylinda.Message.Xml.{Xml, element, Attrs, Nodes, single}

pub record Codec : Type 1 where
  pub V : Type 0
  -- `Minimal_serialiseXML` with its flags `include_type` and `include_type_spec`: the nodes that
  -- it adds to its parent
  pub serialise : Bool → Bool → V → Nodes
  -- `Minimal_xmlToValue`
  pub xml_to_value : Xml → V
  -- `Minimal_string` and `v->string`
  pub string : String → V
  pub get_string : V → String
  -- `Minimal_int` and `Minimal_getInt`
  pub int : ℤ → V
  pub get_int : V → ℤ
  -- `Minimal_isTuple`
  pub is_tuple : V → Bool
  -- `sprintf` of "%i", and `atoi`
  pub show : ℤ → String
  pub atoi : String → ℤ

-- The value `v` is one node with the given tag, and is read back by `read`.
pub record IsNode (c : Codec) {R : Type 0} (types : Bool) (tag : String) (read : c.V → R) (v : c.V)
    (r : R) : Type 0 where
  pub attrs : Attrs
  pub children : Nodes
  pub written : c.serialise types false v ≡ single (element tag attrs children)
  pub read_back : read (c.xml_to_value (element tag attrs children)) ≡ r

-- Strings, integers and tuples of the wire survive the trip. `Wire` says which tuples and `InRange`
-- which integers.
pub record IsCodec (c : Codec) (Wire : c.V → Type 0) (InRange : ℤ → Type 0) : Type 0 where
  pub string_node : (s : String) → IsNode c false "string" c.get_string (c.string s) s
  pub int_node : (i : ℤ) → InRange i → IsNode c false "integer" c.get_int (c.int i) i
  pub tuple_node : (types : Bool) (v : c.V) → Wire v → IsNode c types "tuple" (λ w. w) v v
  pub atoi-show : (i : ℤ) → InRange i → c.atoi (c.show i) ≡ i
