-- ===== src/Serial/Read.antt =====
-- minimal/src/parsexml.c: `Minimal_xmlToSyntaxTree`, the reading of a syntax tree. A tree that a loop
-- does not look at is not read.
use pylinda.Base.{
  String, Bool, true, false, none, some, List, [], ◌∷◌, Outcome, ok, crash, ◌>>=◌, if◌then◌else◌,
  str_eq,
}
use pylinda.Base.Int.{ℤ, pos, ltb_ℤ}
use pylinda.Message.Read.{copied}
use pylinda.Message.Xml.{Xml, element, text, Attrs, Nodes, get_prop}
use pylinda.SyntaxTree.{
  Tree, null, nil, identifier, create_id, integer, string, sequence, type_spec, type_function,
  function_def, function_call, operator, product_type, sum_type, pointer, index, let_expr, Trees,
  size,
}
use pylinda.SyntaxTree.Chain.{argument_list1, argument_list2, parameter_list1, parameter_list2}
use pylinda.Serial.{Numerals}
use pylinda.Serial.Tag.{Tag, tag_of}

-- a child that is an element, and the tree that its reading gives
pub record Kid : Type 0 where
  pub name : String
  pub attrs : Attrs
  pub tree : Outcome Tree

-- the test `tree == NULL`
abbrev pub is_null : Tree → Bool
is_null null = true
is_null t = false

-- a loop over the children that are elements
unfoldable pub each : {S : Type 0} → (S → Kid → Outcome S) → S → List Kid → Outcome S
each body s [] = ok s
each body s (k ∷ ks) = body s k >>= λ s'. each body s' ks

-- `Minimal_SyntaxTree_addToSequence`, `addToProductType` and `addToSumType`
unfoldable pub add_branch : Trees → Tree → Trees
add_branch Trees.end t = Trees.next t Trees.end
add_branch (Trees.next u us) t = Trees.next u (add_branch us t)

unfoldable pub add_kid : Trees → Kid → Outcome Trees
unfolding add_branch
add_kid ts k = do t ← k.tree; ok (add_branch ts t)

-- `function`: the last list of parameters and the last code
unfoldable pub function_slots : Tree × Tree → Kid → Outcome (Tree × Tree)
function_slots (params, code) k =
    if str_eq k.name "parameter_list"
    then (do t ← k.tree; ok (t, code))
    else if str_eq k.name "code"
    then (do t ← k.tree; ok (params, t))
    else ok (params, code)

-- `type_function`: the first two
unfoldable pub type_slots : Tree × Tree → Kid → Outcome (Tree × Tree)
type_slots (arg, value) k =
    if is_null arg
    then (do t ← k.tree; ok (t, value))
    else if is_null value
    then (do t ← k.tree; ok (arg, t))
    else ok (arg, value)

-- `operator`, `index`, `funccall` and `argument_list`: the first and the last
unfoldable pub two_slots : Tree × Tree → Kid → Outcome (Tree × Tree)
two_slots (a, b) k = if is_null a then (do t ← k.tree; ok (t, b)) else (do t ← k.tree; ok (a, t))

-- `let`
unfoldable pub three_slots : Tree × Tree × Tree → Kid → Outcome (Tree × Tree × Tree)
three_slots (a, b, c) k =
    if is_null a
    then (do t ← k.tree; ok (t, b, c))
    else if is_null b
    then (do t ← k.tree; ok (a, t, c))
    else (do t ← k.tree; ok (a, b, t))

-- `code`, and a type among the values: the first
unfoldable pub first_slot : Tree → Kid → Outcome Tree
first_slot t k = if is_null t then k.tree else ok t

-- `type` and `type_spec`: the last
unfoldable pub last_slot : Tree → Kid → Outcome Tree
last_slot t k = k.tree

-- `parameter_list`: a parameter without a name is passed over
unfoldable pub add_param : Tree → String → Outcome Tree
unfolding parameter_list1 parameter_list2
add_param null name = parameter_list1 (create_id name)
add_param t name = parameter_list2 t (create_id name)

unfoldable pub param_slot : Tree → Kid → Outcome Tree
unfolding add_param get_prop
param_slot t k =
    if str_eq k.name "param"
    then elim (get_prop "name" k.attrs) [ none ↦ ok t | some name ↦ add_param t name ]
    else ok t

-- `tuple`: as many as its size says
unfoldable pub sized_slot : ℤ → Trees → Kid → Outcome Trees
unfolding add_kid
sized_slot n ts k = if ltb_ℤ (pos (size ts)) n then add_kid ts k else ok ts

-- the last test of `argument_list`; the type of the first argument is read
unfoldable pub make_arguments : Tree → Tree → Outcome Tree
unfolding argument_list1 argument_list2
make_arguments null n = crash
make_arguments a null = ok (argument_list1 a)
make_arguments a n = ok (argument_list2 a n)

unfoldable pub kid_of : Xml → Outcome Tree → List Kid → List Kid
kid_of (element name attrs children) t ks = record { name = name; attrs = attrs; tree = t } ∷ ks
kid_of (text s) t ks = ks

module _ (numerals : Numerals) where
  -- the body of each comparison
  unfoldable pub read_tree : Tag → Attrs → List Kid → Outcome Tree
  unfolding each add_kid function_slots type_slots two_slots three_slots first_slot last_slot
      param_slot sized_slot make_arguments copied get_prop
  read_tree Tag.minimal attrs ks = do ts ← each add_kid Trees.end ks; ok (sequence ts)
  read_tree Tag.function attrs ks = do
    (params, code) ← each function_slots (null, null) ks
    name ← copied "name" attrs
    ok (function_def name null params code)
  read_tree Tag.product_type attrs ks = do ts ← each add_kid Trees.end ks; ok (product_type ts)
  read_tree Tag.sum_type attrs ks = do ts ← each add_kid Trees.end ks; ok (sum_type ts)
  read_tree Tag.type_function attrs ks = do
    (arg, value) ← each type_slots (null, null) ks
    ok (type_function (Trees.next arg (Trees.next value Trees.end)))
  read_tree Tag.nil attrs ks = ok nil
  read_tree Tag.id attrs ks = do
    name ← copied "name" attrs
    ok (identifier name (get_prop "typeid" attrs))
  read_tree Tag.integer attrs ks = do v ← copied "val" attrs; ok (integer (numerals.atoi v))
  read_tree Tag.string attrs ks = do v ← copied "val" attrs; ok (string v)
  read_tree Tag.type attrs ks = do
    t ← each last_slot null ks
    name ← copied "name" attrs
    ok (type_spec name t)
  read_tree Tag.type_spec attrs ks = each last_slot null ks
  read_tree Tag.ptr attrs ks = do name ← copied "name" attrs; ok (pointer name)
  read_tree Tag.parameter_list attrs ks = each param_slot null ks
  read_tree Tag.code attrs ks = each first_slot null ks
  read_tree Tag.operator attrs ks = do
    (a, b) ← each two_slots (null, null) ks
    op ← copied "op" attrs
    ok (operator op a b)
  read_tree Tag.index attrs ks = do (a, b) ← each two_slots (null, null) ks; ok (index a b)
  read_tree Tag.let_ attrs ks = do
    (a, b, c) ← each three_slots (null, null, null) ks
    ok (let_expr a b c)
  read_tree Tag.funccall attrs ks = do
    (a, b) ← each two_slots (null, null) ks
    ok (function_call a b)
  read_tree Tag.argument_list attrs ks = do
    (a, n) ← each two_slots (null, null) ks
    make_arguments a n
  read_tree Tag.tuple attrs ks = do
    n ← copied "size" attrs
    ts ← each (sized_slot (numerals.atoi n)) Trees.end ks
    ok (product_type ts)
  read_tree Tag.other attrs ks = ok null

  -- `Minimal_xmlToSyntaxTree`
  unfoldable mutual
    unfolding read_tree tag_of kid_of

    pub xml_to_tree : Xml → Outcome Tree
    xml_to_tree (element name attrs children) = read_tree (tag_of name) attrs (kids children)
    xml_to_tree (text s) = ok null

    pub kids : Nodes → List Kid
    kids Nodes.end = []
    kids (Nodes.next x rest) = kid_of x (xml_to_tree x) (kids rest)

  -- `Minimal_parseXMLCode`, once libxml has the document
  unfoldable pub parse_code : String → Attrs → Nodes → Outcome Tree
  unfolding xml_to_tree
  parse_code name attrs children =
      let tree = xml_to_tree (element name attrs children) in
      if str_eq name "minimal" then tree else ok null
