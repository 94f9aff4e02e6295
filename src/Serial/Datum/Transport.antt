-- ===== src/Serial/Datum/Transport.antt =====
-- The values that arrive as they were sent, and the serialisation of minimal/src/serialise.c and
-- minimal/src/parsexml.c as what the messages of liblinda/src need of it.
use pylinda.Base.{
  str_eq, ◌^◌, ◌<◌, String, Bool, true, false, Option, none, some, [], ◌∷◌, Outcome, ok, ◌≡◌, refl,
  ap, ◌∙◌,
}
use pylinda.Base.Int.{ℤ, pos}
use pylinda.Message.Codec.{Codec, IsNode, IsCodec}
use pylinda.Message.Xml.{Xml, text, Nodes, single}
use pylinda.SyntaxTree.{parameter_list}
use pylinda.SyntaxTree.Chain.{IsParameters}
use pylinda.Serial.{IsNumerals}
use pylinda.Serial.Trees.{IsCode, as_read}
use pylinda.Serial.Specs.{IsSpec, plain}
use pylinda.Serial.Datum.{
  Datum, nil, integer, uinteger, string, type_, tsref, tuple, function, Slots,
}
use pylinda.Serial.Datum.Write.{Writer, serialise_value, serialise_xml, with_id}
use pylinda.Serial.Datum.Read.{Reader, xml_to_value2, parse_value}
use pylinda.Serial.Datum.Received.{received, received_slots, IsSent, AreSent}
use pylinda.Serial.Datum.Trip.{parse_value-serialise_xml, tuple_arrives}

module _ {F : Type 0} (InRange : ℤ → Type 0) (type_id : String → Option String) where
  -- the values that lose nothing: no boolean, float, built-in function or NULL, types with a name and
  -- without an id, and functions with parameters
  abbrev mutual
    pub IsWhole : Datum F → Type 0
    IsWhole nil = Unit
    IsWhole (integer i) = InRange i
    IsWhole (uinteger n) = (n < 2 ^ 31) × InRange (pos n)
    IsWhole (string s) = Unit
    IsWhole (tsref s) = Unit
    IsWhole (type_ (some name) none spec) =
        ((str_eq name "" ≡ false) × IsSpec spec) × (plain type_id spec ≡ spec)
    IsWhole (tuple vs) = AllWhole vs
    IsWhole (function name (parameter_list v n) code) =
        IsParameters n × IsCode InRange code × (as_read code ≡ code)
    IsWhole v = ⊥

    pub AllWhole : Slots F → Type 0
    AllWhole Slots.end = Unit
    AllWhole (Slots.empty_slot vs) = ⊥
    AllWhole (Slots.slot v vs) = IsWhole v × AllWhole vs

  mutual
    sent : (v : Datum F) → IsWhole v → IsSent InRange v
    sent nil h = tt
    sent (integer i) h = h
    sent (uinteger n) h = h
    sent (string s) h = tt
    sent (tsref s) h = tt
    sent (type_ (some name) none spec) h = h.0
    sent (tuple vs) h = all_sent vs h
    sent (function name (parameter_list v n) code) h = (h.0, h.1)
    sent v h = absurd h

    all_sent : (vs : Slots F) → AllWhole vs → AreSent InRange vs
    all_sent Slots.end h = tt
    all_sent (Slots.empty_slot vs) h = absurd h
    all_sent (Slots.slot v vs) h = (sent v h.0, all_sent vs h.1)

module _ {F : Type 0} (InRange : ℤ → Type 0) (w : Writer F) (scan_float : String → F) where
  mutual
    unfolding received

    whole : (v : Datum F) → IsWhole InRange w.type_id v → received w scan_float v ≡ some v
    whole nil h = refl
    whole (integer i) h = refl
    whole (uinteger n) h = refl
    whole (string s) h = refl
    whole (tsref s) h = refl
    whole (type_ (some name) none spec) h = ap (λ t. some (type_ (some name) none t)) h.1
    whole (tuple vs) h = ap (λ us. some (tuple us)) (all_whole vs h)
    whole (function name (parameter_list v n) code) h =
        ap (λ c. some (function name (parameter_list v n) c)) h.2
    whole v h = absurd h

    all_whole : (vs : Slots F) → AllWhole InRange w.type_id vs → received_slots w scan_float vs ≡ vs
    all_whole Slots.end h = refl
    all_whole (Slots.empty_slot vs) h = absurd h
    all_whole (Slots.slot v vs) h = rw (whole v h.0) (ap (Slots.slot v) (all_whole vs h.1))

module _ {F : Type 0} (w : Writer F) (scan_float : String → F) (InRange : ℤ → Type 0)
    (law : IsNumerals w.numerals InRange) where
  abbrev reader : Reader F
  reader = record { numerals = w.numerals; scan_float = scan_float }

  -- A tuple of such values, written as a document and read, is the tuple that was written, in all that
  -- a `Datum` has: the layers of functions and of types are not written.
  pub parse_value-whole :
      (include : Bool) (vs : Slots F)
      → AllWhole InRange w.type_id vs
      → (x : Xml) × (serialise_xml w include (tuple vs) ≡ ok x)
        × (parse_value reader x ≡ ok (some (tuple vs)))
  parse_value-whole include vs h =
      let (x, p, q) =
        parse_value-serialise_xml w scan_float InRange law include vs
          (all_sent InRange w.type_id vs h) in
      (x, p, q ∙ ap (λ us. ok (some (tuple us))) (all_whole InRange w scan_float vs h))

  abbrev pub or_end : Outcome Nodes → Nodes
  or_end (ok ns) = ns
  or_end o = Nodes.end

  abbrev pub or_null : Outcome (Option (Datum F)) → Option (Datum F)
  or_null (ok v) = v
  or_null o = none

  abbrev pub text_of : Option (Datum F) → String
  text_of (some (string s)) = s
  text_of v = ""

  abbrev pub int_of : Option (Datum F) → ℤ
  int_of (some (integer i)) = i
  int_of v = pos 0

  abbrev pub is_tuple : Option (Datum F) → Bool
  is_tuple (some (tuple vs)) = true
  is_tuple v = false

  -- The serialisation, with NULL and no nodes where a call does not return.
  abbrev pub codec : Codec
  codec = record {
    V = Option (Datum F);
    serialise = λ types include v. elim v [
      | none ↦ Nodes.end
      | some d ↦ or_end (serialise_value w include [] d)
    ];
    xml_to_value = λ x. or_null (xml_to_value2 reader x);
    string = λ s. some (string s);
    get_string = text_of;
    int = λ i. some (integer i);
    get_int = int_of;
    is_tuple = is_tuple;
    show = w.numerals.show;
    atoi = w.numerals.atoi;
  }

  -- the values that the messages carry
  abbrev pub IsCarried : Option (Datum F) → Type 0
  IsCarried (some (tuple vs)) = AllWhole InRange w.type_id vs
  IsCarried v = ⊥

  carried-IsNode :
      (types : Bool) (v : Option (Datum F)) → IsCarried v → IsNode codec types "tuple" (λ u. u) v v
  carried-IsNode types (some (tuple vs)) h =
      let (children, written, read) =
        tuple_arrives w scan_float InRange law false vs (all_sent InRange w.type_id vs h) in
      record {
        attrs = with_id w [] [];
        children = children;
        written = ap or_end written;
        read_back =
            ap or_null read ∙ ap (λ us. some (tuple us)) (all_whole InRange w scan_float vs h);
      }
  carried-IsNode types v h = absurd h

  -- What the messages ask of the serialisation holds: strings, numbers in range and tuples of values
  -- that lose nothing are each one node with their tag, and are read back as they were.
  pub codec-IsCodec : IsCodec codec IsCarried InRange
  unfolding serialise_value xml_to_value2
  codec-IsCodec = record {
    string_node = λ s. record {
      attrs = with_id w [] [];
      children = single (text s);
      written = refl;
      read_back = refl;
    };
    int_node = λ i h. record {
      attrs = with_id w [] (("val", w.numerals.show i) ∷ []);
      children = Nodes.end;
      written = refl;
      read_back = rw (law.scan-show i h);
    };
    tuple_node = carried-IsNode;
    atoi-show = law.atoi-show;
  }
