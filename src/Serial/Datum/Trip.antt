-- ===== src/Serial/Datum/Trip.antt =====
-- The trip of a value from `Minimal_serialiseValue` of minimal/src/serialise.c to
-- `Minimal_xmlToValue2` of minimal/src/parsexml.c, inside the node `element` of a tuple.
use pylinda.Base.{
  str_eq, false, ℕ, suc, String, Bool, Option, none, some, List, [], ◌∷◌, ◌++◌, ok, ◌≡◌, refl, ap,
  sym, ◌∙◌,
}
use pylinda.Base.Int.{ℤ, pos}
use pylinda.Message.Xml.{Xml, element, text, Nodes, single, leaf, next, ◌+++◌}
use pylinda.SyntaxTree.{Tree, null, parameter_list}
use pylinda.SyntaxTree.Chain.{IsParameters}
use pylinda.Serial.{IsNumerals}
use pylinda.Serial.Write.{serialise_type_spec}
use pylinda.Serial.Read.{each, xml_to_tree, kids}
use pylinda.Serial.Slots.{each-first_slot}
use pylinda.Serial.Trees
use pylinda.Serial.Trees.{IsCode, as_read}
use pylinda.Serial.Specs
use pylinda.Serial.Specs.{IsSpec, plain}
use pylinda.Serial.Params.{nodes, chain_read}
use pylinda.Serial.Datum.{
  Datum, nil, boolean, integer, uinteger, float, double, string, type_, tsref, tuple, sum,
  empty_sum, function, pointer, built_in, Slots,
}
use pylinda.Serial.Datum.Write.{
  Writer, or_empty, with_id, serialise_value, serialise_slots, serialise_xml, serialise_function,
}
use pylinda.Serial.Datum.Read.{
  Reader, add_slot, tuple_values, series, read_typeobj, xml_to_value2, parts, parse_value,
}
use pylinda.Serial.Datum.Received.{
  put_slot, received, received_slots, received_function, IsSent, AreSent,
}
use pylinda.Serial.Datum.Steps.{
  as_long-pos, to_unsigned-pos, append, append-end, append-add_slot, set_type-present,
  make_type-plain, params_written, function_parts_three, make_function-present,
}

module _ {F : Type 0} (w : Writer F) (scan_float : String → F) (InRange : ℤ → Type 0)
    (law : IsNumerals w.numerals InRange) where
  abbrev reader : Reader F
  reader = record { numerals = w.numerals; scan_float = scan_float }

  -- The nodes that are written as the content of an `element`, and what the reading makes of them.
  record Arrives (place : List ℕ) (v : Datum F) : Type 0 where
    children : Nodes
    written : serialise_value w false place v ≡ ok children
    read : series none (parts reader children) ≡ ok (received w scan_float v)

  record AllArrive (place : List ℕ) (i : ℕ) (vs : Slots F) : Type 0 where
    children : Nodes
    written : serialise_slots w place i vs ≡ ok children
    read :
        (done : Slots F)
        → tuple_values done (parts reader children)
          ≡ ok (append done (received_slots w scan_float vs))

  received_slots-slot :
      (v : Datum F) (vs : Slots F)
      → received_slots w scan_float (Slots.slot v vs)
        ≡ put_slot (received w scan_float v) (received_slots w scan_float vs)
  unfolding received
  received_slots-slot v vs = refl

  slot-Arrives :
      (place : List ℕ) (i : ℕ) (v : Datum F) (vs : Slots F)
      → Arrives (place ++ i ∷ []) v
      → AllArrive place (suc i) vs
      → AllArrive place i (Slots.slot v vs)
  unfolding serialise_value xml_to_value2
  slot-Arrives place i v vs first later = record {
    children = next (element "element" [] first.children) later.children;
    written = rw first.written (rw later.written);
    read = λ done. rw first.read (
        rw (set_type-present [] (received w scan_float v) refl) (
          later.read (add_slot done (received w scan_float v))
          ∙ ap ok (
              append-add_slot done (received w scan_float v) (received_slots w scan_float vs)
              ∙ ap (append done) (sym (received_slots-slot v vs)))));
  }

  spec_read :
      (address name : String) (spec : Tree)
      → IsSpec spec
      → str_eq name "" ≡ false
      → read_typeobj reader
          (("id", address) ∷ ("name", name) ∷ [])
          (single (Specs.node_of w.type_id spec))
        ≡ ok (some (type_ (some name) none (plain w.type_id spec)))
  unfolding read_typeobj each plain kids
  spec_read address name spec h e =
      rw
        (each-first_slot (Specs.kid w.type_id w.numerals spec) (plain w.type_id spec)
          (Specs.read_back w.type_id w.numerals spec h))
        (make_type-plain w.type_id name spec h e)

  type-Arrives :
      (place : List ℕ) (name id : Option String) (spec : Tree)
      → IsSent {F = F} InRange (type_ name id spec)
      → Arrives place (type_ name id spec)
  unfolding serialise_value xml_to_value2 received each kids
  type-Arrives place name (some id) spec h = record {
    children =
        single (leaf "typeobj" (with_id w place (("name", or_empty name) ∷ ("typeid", id) ∷ [])));
    written = refl;
    read = refl;
  }
  type-Arrives place (some name) none spec h = record {
    children = single (
        element "typeobj" (with_id w place (("name", name) ∷ []))
          (single (Specs.node_of w.type_id spec)));
    written = rw (Specs.written w.type_id spec h.1);
    read = rw (spec_read (w.address place) name spec h.1 h.0);
  }
  type-Arrives place none none spec h = absurd h

  code_read :
      (code : Tree)
      → IsCode InRange code
      → xml_to_tree w.numerals (element "code" [] (single (Trees.node_of w.numerals code)))
        ≡ ok (as_read code)
  unfolding xml_to_tree
  code_read code k = rw (
      each-first_slot (Trees.kid w.numerals InRange law code) (as_read code)
        (Trees.read_back w.numerals InRange law code k))

  abbrev function_node : List ℕ → String → Tree → Nodes → Tree → Nodes
  function_node place name params spec code = single (
      element "function" (("name", name) ∷ with_id w place []) (
        next (element "type" (("name", name) ∷ []) spec) (
          next (element "parameter_list" [] (nodes params))
            (single (element "code" [] (single (Trees.node_of w.numerals code)))))))

  function_node_read :
      (place : List ℕ) (name : String) (params code : Tree) (spec : Nodes)
      → IsParameters params
      → IsCode InRange code
      → series none (parts reader (function_node place name params spec code))
        ≡ ok (received_function w scan_float name params code)
  unfolding xml_to_value2 received_function
  function_node_read place name null code spec h k = rw (
      function_parts_three w.numerals (("name", name) ∷ []) spec (nodes null)
        (single (Trees.node_of w.numerals code)) (null) (as_read code) _ _ _
        (chain_read w.numerals (null) h) (code_read code k))
  function_node_read place name (parameter_list v n) code spec h k =
      rw
        (function_parts_three w.numerals (("name", name) ∷ []) spec (nodes (parameter_list v n))
          (single (Trees.node_of w.numerals code)) (parameter_list v n) (as_read code) _ _ _
          (chain_read w.numerals (parameter_list v n) h) (code_read code k))
        (rw (
          make_function-present (with_id w place []) name v n (as_read code)
            (Trees.as_read-present w.numerals InRange law code k)))
  function_node_read place name params code spec h k = absurd h

  type_written :
      (params : Tree)
      → IsParameters params
      → (spec : Nodes) × (serialise_type_spec w.type_id params ≡ ok spec)
  unfolding serialise_type_spec
  type_written null h = (Nodes.end, refl)
  type_written (parameter_list v n) h = (
    single (element "parameter_list" [] (nodes (parameter_list v n))),
    params_written (parameter_list v n) h,
  )
  type_written params h = absurd h

  function-Arrives :
      (place : List ℕ) (name : String) (params code : Tree)
      → IsParameters params
      → IsCode InRange code
      → Arrives place (function name params code)
  unfolding serialise_value serialise_function received ◌+++◌
  function-Arrives place name params code h k =
      let (spec, e) = type_written params h in
      record {
        children = function_node place name params spec code;
        written =
            rw e (rw (params_written params h) (rw (Trees.written w.numerals InRange law code k)));
        read = function_node_read place name params code spec h k;
      }

  mutual
    unfolding serialise_value xml_to_value2 received append

    arrives : (place : List ℕ) (v : Datum F) → IsSent InRange v → Arrives place v
    arrives place nil h = record {
      children = single (leaf "nil" (with_id w place []));
      written = refl;
      read = refl;
    }
    arrives place (boolean b) h = record { children = Nodes.end; written = refl; read = refl }
    arrives place (integer i) h = record {
      children = single (leaf "integer" (with_id w place (("val", w.numerals.show i) ∷ [])));
      written = refl;
      read = rw (law.scan-show i h);
    }
    arrives place (uinteger n) h = record {
      children = single (leaf "uinteger" (with_id w place (("val", w.numerals.show (pos n)) ∷ [])));
      written = rw (as_long-pos n h.0);
      read = rw (law.scan-show (pos n) h.1) (rw (to_unsigned-pos n h.0));
    }
    arrives place (float f) h = record {
      children = single (leaf "float" (with_id w place (("val", w.show_float f) ∷ [])));
      written = refl;
      read = refl;
    }
    arrives place (double f) h = record {
      children = single (leaf "float" (with_id w place (("val", w.show_float f) ∷ [])));
      written = refl;
      read = refl;
    }
    arrives place (string s) h = record {
      children = single (element "string" (with_id w place []) (single (text s)));
      written = refl;
      read = refl;
    }
    arrives place (type_ name id spec) h = type-Arrives place name id spec h
    arrives place (tsref s) h = record {
      children = single (element "tsid" (with_id w place []) (single (text s)));
      written = refl;
      read = refl;
    }
    arrives place (tuple vs) h =
        let inner = all_arrive place 0 vs h in
        record {
          children = single (element "tuple" (with_id w place []) inner.children);
          written = rw inner.written;
          read = rw (inner.read Slots.end);
        }
    arrives place (function name params code) h = function-Arrives place name params code h.0 h.1
    arrives place (built_in name) h = record {
      children = single (element "builtin" (with_id w place []) (single (text name)));
      written = refl;
      read = refl;
    }
    arrives place (sum v i) h = absurd h
    arrives place (empty_sum i) h = absurd h
    arrives place (pointer target) h = absurd h

    all_arrive : (place : List ℕ) (i : ℕ) (vs : Slots F) → AreSent InRange vs → AllArrive place i vs
    all_arrive place i Slots.end h = record {
      children = Nodes.end;
      written = refl;
      read = λ done. ap ok (sym (append-end done));
    }
    all_arrive place i (Slots.empty_slot vs) h = record {
      children = Nodes.end;
      written = refl;
      read = λ done. ap ok (sym (append-end done));
    }
    all_arrive place i (Slots.slot v vs) h =
        slot-Arrives place i v vs (arrives (place ++ i ∷ []) v h.0)
          (all_arrive place (suc i) vs h.1)

  pub tuple_arrives :
      (include : Bool) (vs : Slots F)
      → AreSent InRange vs
      → (children : Nodes) × (serialise_value w include [] (tuple vs)
          ≡ ok (single (element "tuple" (with_id w [] []) children)))
        × (xml_to_value2 reader (element "tuple" (with_id w [] []) children)
            ≡ ok (some (tuple (received_slots w scan_float vs))))
  unfolding serialise_value xml_to_value2 append
  tuple_arrives include vs h =
      let inner = all_arrive [] 0 vs h in
      (inner.children, rw inner.written, rw (inner.read Slots.end))

  -- A tuple of values that can be sent, written as a document and read: what is read is the tuple of
  -- what arrives of each value, up to the first NULL. No value is a sum or a pointer, numbers are in
  -- range, a type has an id or a name that is not empty, and types and the code of functions are made of
  -- nodes that the writing has a tag for.
  pub parse_value-serialise_xml :
      (include : Bool) (vs : Slots F)
      → AreSent InRange vs
      → (x : Xml) × (serialise_xml w include (tuple vs) ≡ ok x)
        × (parse_value reader x ≡ ok (some (tuple (received_slots w scan_float vs))))
  unfolding serialise_xml parse_value append
  parse_value-serialise_xml include vs h =
      let (children, written, read) = tuple_arrives include vs h in
      (
        element "minimal" [] (single (element "tuple" (with_id w [] []) children)),
        rw written,
        rw read,
      )
