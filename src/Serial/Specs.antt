-- ===== src/Serial/Specs.antt =====
-- The trip of a type from `Minimal_serialiseTypeSpec` of minimal/src/serialise.c to
-- `Minimal_xmlToSyntaxTree` of minimal/src/parsexml.c.
use pylinda.Base.{String, Option, none, some, [], ◌∷◌, ok, ◌≡◌, refl, false}
use pylinda.Message.Xml.{Xml, element, get_prop, Attrs, Nodes, single, ◌+++◌}
use pylinda.Message.Read.{copied}
use pylinda.SyntaxTree.{
  Tree, null, nil, identifier, type_spec, type_function, product_type, sum_type, pointer, bracket,
  Trees,
}
use pylinda.Serial.{Numerals}
use pylinda.Serial.Write.{own_or, id_attrs, serialise_type_spec, serialise_type_specs}
use pylinda.Serial.Read.{Kid, is_null, xml_to_tree, kids}
use pylinda.Serial.Slots.{each-type_slots, AreRead, each-add_kid}

-- The types that the writing has a tag for.
abbrev mutual
  pub IsSpec : Tree → Type 0
  IsSpec nil = Unit
  IsSpec (identifier s d) = Unit
  IsSpec (type_spec n t) = IsSpec t
  IsSpec (type_function (Trees.next a (Trees.next b Trees.end))) = IsSpec a × IsSpec b
  IsSpec (product_type ts) = AreSpecs ts
  IsSpec (sum_type ts) = AreSpecs ts
  IsSpec (pointer s) = Unit
  IsSpec (bracket t) = IsSpec t
  IsSpec t = ⊥

  pub AreSpecs : Trees → Type 0
  AreSpecs Trees.end = Unit
  AreSpecs (Trees.next t ts) = IsSpec t × AreSpecs ts

-- The type without the brackets and the names of definitions inside it; an identifier without an id has
-- that of the type that it names.
module _ (type_id : String → Option String) where
  unfoldable mutual
    pub plain : Tree → Tree
    plain (identifier s d) = identifier s (own_or (type_id s) d)
    plain (type_spec n t) = plain t
    plain (type_function ts) = type_function (plains ts)
    plain (product_type ts) = product_type (plains ts)
    plain (sum_type ts) = sum_type (plains ts)
    plain (bracket t) = plain t
    plain t = t

    pub plains : Trees → Trees
    plains Trees.end = Trees.end
    plains (Trees.next t ts) = Trees.next (plain t) (plains ts)

-- The node that the writing adds.
pub node_tag : Tree → String
node_tag nil = "nil"
node_tag (identifier s d) = "id"
node_tag (type_spec n t) = node_tag t
node_tag (type_function ts) = "type_function"
node_tag (product_type ts) = "product_type"
node_tag (sum_type ts) = "sum_type"
node_tag (pointer s) = "ptr"
node_tag (bracket t) = node_tag t
node_tag t = ""

module _ (type_id : String → Option String) where
  pub node_attrs : Tree → Attrs
  node_attrs (identifier s d) = id_attrs s (own_or (type_id s) d)
  node_attrs (pointer s) = ("name", s) ∷ []
  node_attrs (type_spec n t) = node_attrs t
  node_attrs (bracket t) = node_attrs t
  node_attrs t = []

  abbrev pub tagged : Tree → Nodes → Xml
  tagged t cs = element (node_tag t) (node_attrs t) cs

  mutual
    pub children_of : Tree → Nodes
    children_of (type_spec n t) = children_of t
    children_of (type_function ts) = nodes_of ts
    children_of (product_type ts) = nodes_of ts
    children_of (sum_type ts) = nodes_of ts
    children_of (bracket t) = children_of t
    children_of t = Nodes.end

    pub nodes_of : Trees → Nodes
    nodes_of Trees.end = Nodes.end
    nodes_of (Trees.next t ts) = Nodes.next (tagged t (children_of t)) (nodes_of ts)

  abbrev pub node_of : Tree → Xml
  node_of t = tagged t (children_of t)

  mutual
    unfolding serialise_type_spec children_of node_tag node_attrs ◌+++◌

    pub written : (t : Tree) → IsSpec t → serialise_type_spec type_id t ≡ ok (single (node_of t))
    written nil h = refl
    written (identifier s d) h = refl
    written (type_spec n t) h = written t h
    written (type_function (Trees.next a (Trees.next b Trees.end))) h =
        rw (written a h.0) (rw (written b h.1))
    written (product_type ts) h = rw (all_written ts h)
    written (sum_type ts) h = rw (all_written ts h)
    written (pointer s) h = refl
    written (bracket t) h = written t h
    written (type_function ts) h = absurd h
    written t h = absurd h

    all_written : (ts : Trees) → AreSpecs ts → serialise_type_specs type_id ts ≡ ok (nodes_of ts)
    all_written Trees.end h = refl
    all_written (Trees.next t ts) h = rw (written t h.0) (rw (all_written ts h.1))

  pub plain-present : (t : Tree) → IsSpec t → is_null (plain type_id t) ≡ false
  unfolding plain
  plain-present (type_spec n t) h = plain-present t h
  plain-present (bracket t) h = plain-present t h
  plain-present null h = absurd h
  plain-present t h = refl

  module _ (numerals : Numerals) where
    abbrev pub kid : Tree → Kid
    kid t = record {
      name = node_tag t;
      attrs = node_attrs t;
      tree = xml_to_tree numerals (node_of t);
    }

    id_read :
        (s : String) (id : Option String)
        → xml_to_tree numerals (element "id" (id_attrs s id) Nodes.end) ≡ ok (identifier s id)
    unfolding xml_to_tree copied get_prop
    id_read s none = refl
    id_read s (some id) = refl

    mutual
      unfolding xml_to_tree children_of plain node_tag node_attrs

      pub read_back :
          (t : Tree) → IsSpec t → xml_to_tree numerals (node_of t) ≡ ok (plain type_id t)
      read_back nil h = refl
      read_back (identifier s d) h = id_read s (own_or (type_id s) d)
      read_back (type_spec n t) h = read_back t h
      read_back (type_function (Trees.next a (Trees.next b Trees.end))) h = rw (
          each-type_slots (kid a) (kid b) (plain type_id a) (plain type_id b) (read_back a h.0)
            (plain-present a h.0) (read_back b h.1))
      read_back (product_type ts) h =
          rw (each-add_kid (kids numerals (nodes_of ts)) (plains type_id ts) (all_read_back ts h))
      read_back (sum_type ts) h =
          rw (each-add_kid (kids numerals (nodes_of ts)) (plains type_id ts) (all_read_back ts h))
      read_back (pointer s) h = refl
      read_back (bracket t) h = read_back t h
      read_back (type_function ts) h = absurd h
      read_back t h = absurd h

      all_read_back :
          (ts : Trees) → AreSpecs ts → AreRead (kids numerals (nodes_of ts)) (plains type_id ts)
      all_read_back Trees.end h = tt
      all_read_back (Trees.next t ts) h = (read_back t h.0, all_read_back ts h.1)

    -- A type written and read: the writing adds one node, and the reading of that node is the type
    -- without the brackets and the names of definitions inside it, where an identifier without an id
    -- has that of the type that it names.
    pub serialise_type_spec-read :
        (t : Tree)
        → IsSpec t
        → (x : Xml) × (serialise_type_spec type_id t ≡ ok (single x))
          × (xml_to_tree numerals x ≡ ok (plain type_id t))
    serialise_type_spec-read t h = (node_of t, written t h, read_back t h)
