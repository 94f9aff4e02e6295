-- ===== src/Message/Xml.antt =====
-- The part of a libxml document that the code reads and writes.
use pylinda.Base.{String, Option, none, some, List, [], ◌∷◌, if◌then◌else◌, str_eq}

abbrev pub Attrs : Type 0
Attrs = List (String × String)

mutual
  pub data Xml : Type 0 where
    element : String → Attrs → Nodes → Xml
    text : String → Xml

  pub data Nodes : Type 0 where
    end : Nodes
    next : Xml → Nodes → Nodes

infixr 65 ◌+++◌
-- `xmlAddChild` of each in turn
unfoldable pub ◌+++◌ : Nodes → Nodes → Nodes
end +++ ys = ys
next x xs +++ ys = next x (xs +++ ys)

abbrev pub leaf : String → Attrs → Xml
leaf name attrs = element name attrs end

-- `xmlNewTextChild`
abbrev pub text_child : String → String → Xml
text_child name content = element name [] (next (text content) end)

abbrev pub single : Xml → Nodes
single x = next x end

-- `xmlGetProp`
unfoldable pub get_prop : String → Attrs → Option String
get_prop name [] = none
get_prop name ((key, value) ∷ attrs) =
    let rest = get_prop name attrs in if str_eq key name then some value else rest
