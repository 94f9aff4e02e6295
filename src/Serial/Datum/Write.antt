-- ===== src/Serial/Datum/Write.antt =====
-- minimal/src/serialise.c: the nodes that the writing of a value adds to its parent. The nodes
-- of a pointer's target, which go to the root of the document, are left out.
use pylinda.Base.{
  ℕ, suc, ◌-◌, ◌^◌, ltb, String, Bool, false, Option, none, some, List, [], ◌∷◌, ◌++◌, Outcome, ok,
  crash, ◌>>=◌, if◌then◌else◌,
}
use pylinda.Base.Int.{ℤ, pos, negsuc}
use pylinda.Message.Xml.{Xml, element, text, Attrs, Nodes, single, leaf, next, ◌+++◌}
use pylinda.SyntaxTree.{Tree}
use pylinda.Serial.{Numerals}
use pylinda.Serial.Write.{serialise_parameter_list, serialise_code, serialise_type_spec}
use pylinda.Serial.Datum.{
  Datum, nil, boolean, integer, uinteger, float, double, string, type_, tsref, tuple, sum,
  empty_sum, function, pointer, built_in, Slots,
}

-- the bits of an `unsigned long` as a `long`
abbrev pub as_long : ℕ → ℤ
as_long n = if ltb n (2 ^ 63) then pos n else negsuc (2 ^ 64 - n - 1)

-- an attribute whose text is NULL is read as the empty text
abbrev pub or_empty : Option String → String
or_empty none = ""
or_empty (some s) = s

-- what the writing needs: the numerals, `sprintf` of "%f", the id of the type that a name has, and
-- the address of the value at each place of the value that is written, as "%li" prints it
pub record Writer (F : Type 0) : Type 0 where
  pub numerals : Numerals
  pub show_float : F → String
  pub type_id : String → Option String
  pub address : List ℕ → String

module _ {F : Type 0} (w : Writer F) where
  -- `AddId`
  abbrev pub with_id : List ℕ → Attrs → Attrs
  with_id place attrs = ("id", w.address place) ∷ attrs

  -- `Minimal_serialiseFunction`. The type's field stands where the parameters do.
  unfoldable pub serialise_function : List ℕ → String → Tree → Tree → Outcome Nodes
  unfolding serialise_parameter_list serialise_code serialise_type_spec
  serialise_function place name params code = do
    spec ← serialise_type_spec w.type_id params
    ps ← serialise_parameter_list params
    cs ← serialise_code w.numerals code
    ok (
        single (
          element "function" (("name", name) ∷ with_id place []) (
            next (element "type" (("name", name) ∷ []) spec)
              (ps +++ single (element "code" [] cs)))))

  -- the case of `M_TYPE`
  unfoldable pub serialise_type :
      Bool → List ℕ → Option String → Option String → Tree → Outcome Nodes
  unfolding serialise_type_spec
  serialise_type false place name (some id) spec =
      ok (single (leaf "typeobj" (with_id place (("name", or_empty name) ∷ ("typeid", id) ∷ []))))
  serialise_type include place name id spec = do
    ns ← serialise_type_spec w.type_id spec
    ok (single (element "typeobj" (with_id place (("name", or_empty name) ∷ [])) ns))

  unfoldable mutual
    unfolding serialise_function serialise_type

    -- `Minimal_serialiseValue`. The node of a boolean is never added, the writing of a sum reads its
    -- value as text, and a tuple ends at its first NULL.
    pub serialise_value : Bool → List ℕ → Datum F → Outcome Nodes
    serialise_value include place nil = ok (single (leaf "nil" (with_id place [])))
    serialise_value include place (boolean b) = ok Nodes.end
    serialise_value include place (integer i) =
        ok (single (leaf "integer" (with_id place (("val", w.numerals.show i) ∷ []))))
    serialise_value include place (uinteger n) =
        ok (single (leaf "uinteger" (with_id place (("val", w.numerals.show (as_long n)) ∷ []))))
    serialise_value include place (float f) =
        ok (single (leaf "float" (with_id place (("val", w.show_float f) ∷ []))))
    serialise_value include place (double f) =
        ok (single (leaf "float" (with_id place (("val", w.show_float f) ∷ []))))
    serialise_value include place (string s) =
        ok (single (element "string" (with_id place []) (single (text s))))
    serialise_value include place (type_ name id spec) = serialise_type include place name id spec
    serialise_value include place (tsref s) =
        ok (single (element "tsid" (with_id place []) (single (text s))))
    serialise_value include place (tuple vs) = do
      es ← serialise_slots place 0 vs
      ok (single (element "tuple" (with_id place []) es))
    serialise_value include place (sum v i) = crash
    serialise_value include place (empty_sum i) = crash
    serialise_value include place (function name params code) =
        serialise_function place name params code
    serialise_value include place (pointer target) =
        ok (single (leaf "ptr" (with_id place (("val", w.numerals.show target) ∷ []))))
    serialise_value include place (built_in name) =
        ok (single (element "builtin" (with_id place []) (single (text name))))

    -- the loop over a tuple
    pub serialise_slots : List ℕ → ℕ → Slots F → Outcome Nodes
    serialise_slots place i Slots.end = ok Nodes.end
    serialise_slots place i (Slots.empty_slot vs) = ok Nodes.end
    serialise_slots place i (Slots.slot v vs) = do
      ns ← serialise_value false (place ++ i ∷ []) v
      es ← serialise_slots place (suc i) vs
      ok (next (element "element" [] ns) es)

  -- `Minimal_serialiseXML` with no document: the root
  unfoldable pub serialise_xml : Bool → Datum F → Outcome Xml
  unfolding serialise_value
  serialise_xml include v = do ns ← serialise_value include [] v; ok (element "minimal" [] ns)
