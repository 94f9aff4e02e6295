-- ===== src/Serial/Datum/Read.antt =====
-- minimal/src/parsexml.c: `Minimal_xmlToValue2`, the reading of a value. The types that the attributes
-- `typename` and `typeid` give to a value are left out, as values have none here. A pointer stands for
-- the value with its id.
use pylinda.Base.{
  ℕ, ◌-◌, ◌^◌, ◌%◌, ltb, String, Bool, true, false, Option, none, some, List, [], ◌∷◌, Outcome,
  ◌&&◌, ok, crash, ◌>>=◌, if◌then◌else◌, str_eq, is_some,
}
use pylinda.Base.Int.{ℤ, pos, negsuc}
use pylinda.Message.Read.{last_text, copied}
use pylinda.Message.Xml.{Xml, element, text, Attrs, Nodes, get_prop}
use pylinda.SyntaxTree.{Tree, null, type_spec}
use pylinda.Serial.{Numerals}
use pylinda.Serial.Read.{is_null, each, first_slot, xml_to_tree, kids}
use pylinda.Serial.Datum.{
  Datum, nil, boolean, integer, uinteger, float, string, type_, tsref, tuple, sum, empty_sum,
  function, pointer, Slots,
}
use pylinda.Serial.Datum.Tag.{ValueTag, value_tag_of}

-- the conversion of an `int` to an unsigned type of `w` bits
unfoldable pub to_unsigned : ℕ → ℤ → ℕ
to_unsigned w (pos n) = n % 2 ^ w
to_unsigned w (negsuc n) = 2 ^ w - 1 - n % 2 ^ w

-- and to a signed one
unfoldable pub to_signed : ℕ → ℤ → ℤ
unfolding to_unsigned
to_signed w i =
    let n = to_unsigned w i in if ltb n (2 ^ (w - 1)) then pos n else negsuc (2 ^ w - 1 - n)

-- what the reading needs: the numerals, and `sscanf` of "%f"
pub record Reader (F : Type 0) : Type 0 where
  pub numerals : Numerals
  pub scan_float : String → F

-- a child, and what its reading gives; NULL is `none`
pub record Part (F : Type 0) : Type 0 where
  pub node : Xml
  pub value : Outcome (Option (Datum F))

abbrev pub node_name : Xml → String
node_name (element name attrs children) = name
node_name (text s) = "text"

abbrev pub node_attrs : Xml → Attrs
node_attrs (element name attrs children) = attrs
node_attrs (text s) = []

abbrev pub is_element : Xml → Bool
is_element (element name attrs children) = true
is_element (text s) = false

module _ {F : Type 0} where
  -- `Minimal_setType` of a value with a node's type
  unfoldable pub set_type : Attrs → Option (Datum F) → Outcome (Option (Datum F))
  unfolding get_prop
  set_type attrs (some v) = ok (some v)
  set_type attrs none = if is_some (get_prop "typeid" attrs) then crash else ok none

  -- a value that is used at once
  unfoldable pub used : Outcome (Option (Datum F)) → Outcome (Datum F)
  used (ok (some v)) = ok v
  used o = crash

  -- the root: a second value is an error
  unfoldable pub only_value : Option (Datum F) → List (Part F) → Outcome (Option (Datum F))
  only_value v [] = ok v
  only_value (some v) (p ∷ ps) =
      let rest = only_value (some v) ps in if is_element p.node then ok none else rest
  only_value none (p ∷ ps) =
      let rest = only_value none ps in
      if is_element p.node
      then (if str_eq (node_name p.node) "type" then rest else p.value >>= (λ v. only_value v ps))
      else rest

  -- `Minimal_tupleAdd`
  unfoldable pub add_slot : Slots F → Option (Datum F) → Slots F
  add_slot Slots.end none = Slots.empty_slot Slots.end
  add_slot Slots.end (some v) = Slots.slot v Slots.end
  add_slot (Slots.empty_slot vs) v = Slots.empty_slot (add_slot vs v)
  add_slot (Slots.slot u vs) v = Slots.slot u (add_slot vs v)

  -- the loop over the elements of a tuple
  unfoldable pub tuple_values : Slots F → List (Part F) → Outcome (Slots F)
  unfolding add_slot used
  tuple_values vs [] = ok vs
  tuple_values vs (p ∷ ps) =
      let rest = tuple_values vs ps in
      if is_element p.node
      then (if str_eq (node_name p.node) "type"
          then used p.value >>= (λ _. rest)
          else if str_eq (node_name p.node) "element"
          then p.value >>= (λ v. tuple_values (add_slot vs v) ps)
          else rest)
      else rest

  -- the loop of a sum, over text as well: the first value
  unfoldable pub sum_value : Option (Datum F) → List (Part F) → Outcome (Option (Datum F))
  sum_value v [] = ok v
  sum_value none (p ∷ ps) = p.value >>= λ v. sum_value v ps
  sum_value (some v) (p ∷ ps) = sum_value (some v) ps

  -- `Minimal_xmlSeriesToValue`: the first value; a later one is read and dropped
  unfoldable pub series : Option (Datum F) → List (Part F) → Outcome (Option (Datum F))
  unfolding used set_type
  series root [] = ok root
  series none (p ∷ ps) =
      let rest = series none ps in
      if is_element p.node
      then (if str_eq (node_name p.node) "type"
          then used p.value >>= (λ _. rest)
          else p.value >>= (λ v. set_type (node_attrs p.node) v >>= (λ root. series root ps)))
      else rest
  series (some root) (p ∷ ps) =
      let rest = series (some root) ps in
      if is_element p.node then used p.value >>= (λ _. rest) else rest

  -- `Minimal_sum`
  unfoldable pub make_sum : Option (Datum F) → ℤ → Datum F
  make_sum none i = empty_sum i
  make_sum (some v) i = sum v i

  -- `Minimal_typeSpec` with the name of a node, where a definition gives its type, and `Minimal_addName`
  -- of the type, which writes through NULL for an empty name; `Minimal_override_type_func` is set only
  -- by a build that registers types
  unfoldable pub make_type : Option String → Tree → Outcome (Option (Datum F))
  make_type none t = crash
  make_type (some name) null = crash
  make_type (some name) (type_spec n t) =
      if str_eq name "" then crash else ok (some (type_ (some name) none t))
  make_type (some name) t = if str_eq name "" then crash else ok (some (type_ (some name) none t))

  -- the loop of a function
  unfoldable pub function_parts : Numerals → Tree × Tree → List (Part F) → Outcome (Tree × Tree)
  function_parts numerals found [] = ok found
  function_parts numerals (params, code) (p ∷ ps) =
      let rest = function_parts numerals (params, code) ps in
      let read = xml_to_tree numerals p.node in
      let name = node_name p.node in
      if is_element p.node && is_null params && str_eq name "parameter_list"
      then read >>= (λ t. function_parts numerals (t, code) ps)
      else if is_element p.node && is_null code && str_eq name "code"
      then read >>= (λ t. function_parts numerals (params, t) ps)
      else rest

  -- `Minimal_function2`, unless a part is missing
  unfoldable pub make_function : Attrs → Tree → Tree → Outcome (Option (Datum F))
  unfolding copied set_type
  make_function attrs null code = ok none
  make_function attrs params null = ok none
  make_function attrs params code = do
    name ← copied "name" attrs
    set_type attrs (some (function name params code))

  -- a number, and what is made of it
  unfoldable pub read_number : Numerals → (ℤ → Datum F) → Attrs → Outcome (Option (Datum F))
  unfolding copied set_type
  read_number numerals make attrs = do
    v ← copied "val" attrs
    set_type attrs (some (make (numerals.scan v)))

  abbrev pub text_or : (String → Datum F) → Datum F → Option String → Datum F
  text_or make other none = other
  text_or make other (some s) = make s

module _ {F : Type 0} (r : Reader F) where
  unfoldable pub read_type : Attrs → Nodes → Outcome (Option (Datum F))
  unfolding first_slot make_type get_prop
  read_type attrs cs = do
    t ← each first_slot null (kids r.numerals cs)
    make_type (get_prop "name" attrs) t

  -- the tag `typeobj`, where `Minimal_typeFromId` makes a type of an id
  unfoldable pub read_typeobj : Attrs → Nodes → Outcome (Option (Datum F))
  unfolding first_slot make_type get_prop
  read_typeobj attrs cs = do
    t ← each first_slot null (kids r.numerals cs)
    elim (get_prop "typeid" attrs) [
      | none ↦ make_type (get_prop "name" attrs) t
      | some id ↦ ok (some (type_ none (some id) null))
    ]

  -- the body of each comparison
  unfoldable pub read_value : ValueTag → Attrs → Nodes → List (Part F) → Outcome (Option (Datum F))
  unfolding only_value set_type last_text tuple_values sum_value make_sum series read_type
      read_typeobj read_number to_signed make_function copied
  read_value ValueTag.minimal attrs cs ps = only_value none ps
  read_value ValueTag.nil attrs cs ps = set_type attrs (some nil)
  read_value ValueTag.string attrs cs ps =
      set_type attrs (some (text_or string (string "") (last_text cs)))
  read_value ValueTag.tuple attrs cs ps = do
    vs ← tuple_values Slots.end ps
    set_type attrs (some (tuple vs))
  read_value ValueTag.sum attrs cs ps = do
    v ← sum_value none ps
    i ← copied "sum_pos" attrs
    set_type attrs (some (make_sum v (r.numerals.atoi i)))
  read_value ValueTag.element attrs cs ps = series none ps >>= set_type attrs
  read_value ValueTag.type attrs cs ps = read_type attrs cs >>= set_type attrs
  read_value ValueTag.typeobj attrs cs ps = read_typeobj attrs cs >>= set_type attrs
  read_value ValueTag.false_ attrs cs ps = set_type attrs (some (boolean false))
  read_value ValueTag.true_ attrs cs ps = set_type attrs (some (boolean true))
  read_value ValueTag.byte attrs cs ps = read_number r.numerals (λ i. integer (to_signed 8 i)) attrs
  read_value ValueTag.short attrs cs ps =
      read_number r.numerals (λ i. integer (to_signed 16 i)) attrs
  read_value ValueTag.integer attrs cs ps = read_number r.numerals integer attrs
  read_value ValueTag.long attrs cs ps = read_number r.numerals integer attrs
  read_value ValueTag.ubyte attrs cs ps =
      read_number r.numerals (λ i. uinteger (to_unsigned 8 i)) attrs
  read_value ValueTag.ushort attrs cs ps =
      read_number r.numerals (λ i. uinteger (to_unsigned 16 i)) attrs
  read_value ValueTag.uinteger attrs cs ps =
      read_number r.numerals (λ i. uinteger (to_unsigned 32 i)) attrs
  read_value ValueTag.ulong attrs cs ps =
      read_number r.numerals (λ i. uinteger (to_unsigned 64 i)) attrs
  read_value ValueTag.float attrs cs ps = do
    v ← copied "val" attrs
    set_type attrs (some (float (r.scan_float v)))
  read_value ValueTag.ptr attrs cs ps = read_number r.numerals pointer attrs
  read_value ValueTag.function attrs cs ps = do
    (params, code) ← function_parts r.numerals (null, null) ps
    make_function attrs params code
  read_value ValueTag.tsid attrs cs ps = set_type attrs (some (text_or tsref nil (last_text cs)))
  read_value ValueTag.other attrs cs ps = ok none

  unfoldable mutual
    unfolding read_value value_tag_of

    -- `Minimal_xmlToValue2`
    pub xml_to_value2 : Xml → Outcome (Option (Datum F))
    xml_to_value2 (element name attrs children) =
        read_value (value_tag_of name) attrs children (parts children)
    xml_to_value2 (text s) = ok none

    pub parts : Nodes → List (Part F)
    parts Nodes.end = []
    parts (Nodes.next x rest) = record { node = x; value = xml_to_value2 x } ∷ parts rest

  -- `Minimal_parseXMLValue`, once libxml has the document
  unfoldable pub parse_value : Xml → Outcome (Option (Datum F))
  unfolding xml_to_value2
  parse_value x = if str_eq (node_name x) "minimal" then xml_to_value2 x else ok none
