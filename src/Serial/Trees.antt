-- ===== src/Serial/Trees.antt =====
-- The trip of code from `Minimal_serialiseCode` of minimal/src/serialise.c to
-- `Minimal_xmlToSyntaxTree` of minimal/src/parsexml.c.
use pylinda.Base.{suc, String, [], ◌∷◌, ok, ◌≡◌, refl, ap, false}
use pylinda.Base.Int.{ℤ, pos}
use pylinda.Message.Xml.{Xml, element, Attrs, Nodes, single, ◌+++◌}
use pylinda.SyntaxTree.{
  Tree, null, identifier, create_id, integer, string, function_call, argument_list, operator,
  product_type, tuple, index, let_expr, Trees, size,
}
use pylinda.SyntaxTree.Chain.{argument_list1, argument_list2}
use pylinda.Serial.{Numerals, IsNumerals}
use pylinda.Serial.Write.{serialise_code, serialise_codes}
use pylinda.Serial.Read.{Kid, is_null, make_arguments, xml_to_tree, kids}
use pylinda.Serial.Slots.{
  each-two_slots, each-two_slots_one, each-three_slots, AreRead, each-sized_slot,
}

-- What the reading makes of a tree: a tuple comes back as a product type, and an identifier without
-- the id of a type.
unfoldable mutual
  pub as_read : Tree → Tree
  as_read (function_call f a) = function_call (as_read f) (as_read a)
  as_read (argument_list a n) = argument_list (as_read a) (as_read n)
  as_read (operator o a b) = operator o (as_read a) (as_read b)
  as_read (tuple ts) = product_type (as_reads ts)
  as_read (index a b) = index (as_read a) (as_read b)
  as_read (let_expr v e c) = let_expr (as_read v) (as_read e) (as_read c)
  as_read (identifier s d) = create_id s
  as_read t = t

  pub as_reads : Trees → Trees
  as_reads Trees.end = Trees.end
  as_reads (Trees.next t ts) = Trees.next (as_read t) (as_reads ts)

-- a tree that is not a chain of arguments
abbrev pub IsItem : Tree → Type 0
IsItem null = ⊥
IsItem (argument_list a n) = ⊥
IsItem t = Unit

module _ (InRange : ℤ → Type 0) where
  -- the trees that the writing has a tag for, with numbers in range
  abbrev mutual
    pub IsCode : Tree → Type 0
    IsCode (identifier s d) = Unit
    IsCode (integer i) = InRange i
    IsCode (string s) = Unit
    IsCode (function_call f a) = IsCode f × IsCode a
    IsCode (argument_list a n) = IsItem a × IsCode a × IsTail n
    IsCode (operator o a b) = IsCode a × IsCode b
    IsCode (tuple ts) = InRange (pos (size ts)) × AreCode ts
    IsCode (index a b) = IsCode a × IsCode b
    IsCode (let_expr v e c) = IsCode v × IsCode e × IsCode c
    IsCode t = ⊥

    pub IsTail : Tree → Type 0
    IsTail null = Unit
    IsTail (argument_list a n) = IsItem a × IsCode a × IsTail n
    IsTail t = ⊥

    pub AreCode : Trees → Type 0
    AreCode Trees.end = Unit
    AreCode (Trees.next t ts) = IsCode t × AreCode ts

-- The node that the writing adds for a tree with a tag.
pub node_tag : Tree → String
node_tag (identifier s d) = "id"
node_tag (integer i) = "integer"
node_tag (string s) = "string"
node_tag (function_call f a) = "funccall"
node_tag (argument_list a n) = "argument_list"
node_tag (operator o a b) = "operator"
node_tag (tuple ts) = "tuple"
node_tag (index a b) = "index"
node_tag (let_expr v e c) = "let"
node_tag t = ""

module _ (numerals : Numerals) where
  pub node_attrs : Tree → Attrs
  node_attrs (identifier s d) = ("name", s) ∷ []
  node_attrs (integer i) = ("val", numerals.show i) ∷ []
  node_attrs (string s) = ("val", s) ∷ []
  node_attrs (operator o a b) = ("op", o) ∷ []
  node_attrs (tuple ts) = ("size", numerals.show (pos (size ts))) ∷ []
  node_attrs t = []

  abbrev pub tagged : Tree → Nodes → Xml
  tagged t cs = element (node_tag t) (node_attrs t) cs

  mutual
    pub children_of : Tree → Nodes
    children_of (function_call f a) =
        Nodes.next (tagged f (children_of f)) (single (tagged a (children_of a)))
    children_of (operator o a b) =
        Nodes.next (tagged a (children_of a)) (single (tagged b (children_of b)))
    children_of (index a b) =
        Nodes.next (tagged a (children_of a)) (single (tagged b (children_of b)))
    children_of (let_expr v e c) =
        Nodes.next (tagged v (children_of v))
          (Nodes.next (tagged e (children_of e)) (single (tagged c (children_of c))))
    children_of (argument_list a null) = single (tagged a (children_of a))
    children_of (argument_list a n) =
        Nodes.next (tagged a (children_of a)) (single (tagged n (children_of n)))
    children_of (tuple ts) = nodes_of ts
    children_of t = Nodes.end

    pub nodes_of : Trees → Nodes
    nodes_of Trees.end = Nodes.end
    nodes_of (Trees.next t ts) = Nodes.next (tagged t (children_of t)) (nodes_of ts)

  abbrev pub node_of : Tree → Xml
  node_of t = tagged t (children_of t)

module _ (numerals : Numerals) (InRange : ℤ → Type 0) (law : IsNumerals numerals InRange) where
  mutual
    unfolding serialise_code children_of node_tag node_attrs ◌+++◌

    pub written :
        (t : Tree) → IsCode InRange t → serialise_code numerals t ≡ ok (single (node_of numerals t))
    written (identifier s d) h = refl
    written (integer i) h = refl
    written (string s) h = refl
    written (function_call f a) h = rw (written f h.0) (rw (written a h.1))
    written (argument_list a null) h = rw (written a h.1)
    written (argument_list a (argument_list b n)) h =
        rw (written a h.1) (rw (written (argument_list b n) h.2))
    written (operator o a b) h = rw (written a h.0) (rw (written b h.1))
    written (tuple ts) h = rw (all_written ts h.1)
    written (index a b) h = rw (written a h.0) (rw (written b h.1))
    written (let_expr v e c) h = rw (written v h.0) (rw (written e h.1) (rw (written c h.2)))
    written (argument_list a n) h = absurd h.2
    written t h = absurd h

    all_written :
        (ts : Trees) → AreCode InRange ts → serialise_codes numerals ts ≡ ok (nodes_of numerals ts)
    all_written Trees.end h = refl
    all_written (Trees.next t ts) h = rw (written t h.0) (rw (all_written ts h.1))

  size-as_reads : (ts : Trees) → size (as_reads ts) ≡ size ts
  unfolding as_read
  size-as_reads Trees.end = refl
  size-as_reads (Trees.next t ts) = ap suc (size-as_reads ts)

  pub as_read-present : (t : Tree) → IsCode InRange t → is_null (as_read t) ≡ false
  unfolding as_read
  as_read-present null h = absurd h
  as_read-present t h = refl

  as_read-tail :
      (a n : Tree)
      → IsItem a
      → IsTail InRange n
      → make_arguments (as_read a) (as_read n) ≡ ok (argument_list (as_read a) (as_read n))
  unfolding as_read make_arguments argument_list1 argument_list2
  as_read-tail null n h k = absurd h
  as_read-tail (argument_list _ _) n h k = absurd h
  as_read-tail a null h k = refl
  as_read-tail a (argument_list b n) h k = refl
  as_read-tail a n h k = absurd k

  abbrev pub kid : Tree → Kid
  kid t = record {
    name = node_tag t;
    attrs = node_attrs numerals t;
    tree = xml_to_tree numerals (node_of numerals t);
  }

  mutual
    unfolding xml_to_tree children_of as_read node_tag node_attrs

    pub read_back :
        (t : Tree) → IsCode InRange t → xml_to_tree numerals (node_of numerals t) ≡ ok (as_read t)
    read_back (identifier s d) h = refl
    read_back (integer i) h = rw (law.atoi-show i h)
    read_back (string s) h = refl
    read_back (function_call f a) h = rw (
        each-two_slots (kid f) (kid a) (as_read f) (as_read a) (read_back f h.0)
          (as_read-present f h.0) (read_back a h.1))
    read_back (argument_list a null) h =
        rw (each-two_slots_one (kid a) (as_read a) (read_back a h.1)) ((as_read-tail a null h.0 tt))
    read_back (argument_list a (argument_list b n)) h =
        let rest = argument_list b n in
        rw
          (each-two_slots (kid a) (kid rest) (as_read a) (as_read rest) (read_back a h.1)
            (as_read-present a h.1) (read_back (argument_list b n) h.2))
          ((as_read-tail a rest h.0 h.2))
    read_back (operator o a b) h = rw (
        each-two_slots (kid a) (kid b) (as_read a) (as_read b) (read_back a h.0)
          (as_read-present a h.0) (read_back b h.1))
    read_back (tuple ts) h = rw (law.atoi-show (pos (size ts)) h.0) (
        rw (← size-as_reads ts) (
          rw (
            each-sized_slot (kids numerals (nodes_of numerals ts)) (as_reads ts)
              (all_read_back ts h.1))))
    read_back (index a b) h = rw (
        each-two_slots (kid a) (kid b) (as_read a) (as_read b) (read_back a h.0)
          (as_read-present a h.0) (read_back b h.1))
    read_back (let_expr v e c) h = rw (
        each-three_slots (kid v) (kid e) (as_read v) (as_read e) (read_back v h.0)
          (as_read-present v h.0) (read_back e h.1) (kid c) (as_read c) (as_read-present e h.1)
          (read_back c h.2))
    read_back (argument_list a n) h = absurd h.2
    read_back t h = absurd h

    all_read_back :
        (ts : Trees)
        → AreCode InRange ts
        → AreRead (kids numerals (nodes_of numerals ts)) (as_reads ts)
    all_read_back Trees.end h = tt
    all_read_back (Trees.next t ts) h = (read_back t h.0, all_read_back ts h.1)

  -- Code of identifiers, numbers and sizes in range, strings, operators, tuples, elements, lets, and
  -- calls with arguments, written and read: the writing adds one node, and the reading of that node is
  -- the tree with its tuples as product types and its identifiers without the ids of types.
  pub serialise_code-read :
      (t : Tree)
      → IsCode InRange t
      → (x : Xml) × (serialise_code numerals t ≡ ok (single x))
        × (xml_to_tree numerals x ≡ ok (as_read t))
  serialise_code-read t h = (node_of numerals t, written t h, read_back t h)
