-- ===== src/Serial/Params.antt =====
-- The trip of a list of parameters from `Minimal_serialiseParameterList` of minimal/src/serialise.c to
-- `Minimal_xmlToSyntaxTree` of minimal/src/parsexml.c.
use pylinda.Base.{String, [], ◌∷◌, ok, ◌≡◌, refl, ap, ◌∙◌}
use pylinda.Message.Xml.{element, Nodes, end, next, leaf}
use pylinda.SyntaxTree.{Tree, null, parameter_list}
use pylinda.SyntaxTree.Chain.{link_parameter, IsParameters}
use pylinda.Serial.{Numerals}
use pylinda.Serial.Write.{param_nodes}
use pylinda.Serial.Read.{each, param_slot, kids, xml_to_tree}

-- one chain after the other
joined : Tree → Tree → Tree
joined (parameter_list v m) n = parameter_list v (joined m n)
joined null n = n
joined t n = t

joined-null : (m : Tree) → IsParameters m → joined m null ≡ m
unfolding joined
joined-null null h = refl
joined-null (parameter_list v m) h = ap (parameter_list v) (joined-null m h)
joined-null m h = absurd h

joined_assoc : (m n o : Tree) → IsParameters m → joined (joined m n) o ≡ joined m (joined n o)
unfolding joined
joined_assoc null n o h = refl
joined_assoc (parameter_list v m) n o h = ap (parameter_list v) (joined_assoc m n o h)
joined_assoc m n o h = absurd h

joined-IsParameters :
    (m : Tree) (w : String) → IsParameters m → IsParameters (joined m (parameter_list w null))
unfolding joined
joined-IsParameters null w h = tt
joined-IsParameters (parameter_list v m) w h = joined-IsParameters m w h
joined-IsParameters m w h = absurd h

link-joined :
    (v : String) (m n : Tree)
    → IsParameters m
    → link_parameter (parameter_list v m) n ≡ parameter_list v (joined m n)
unfolding joined
link-joined v null n h = refl
link-joined v (parameter_list w m) n h = ap (parameter_list v) (link-joined w m n h)
link-joined v m n h = absurd h

pub nodes : Tree → Nodes
nodes (parameter_list v n) = next (leaf "param" (("name", v) ∷ [])) (nodes n)
nodes t = end

pub param_nodes-ok : (t : Tree) → IsParameters t → param_nodes t ≡ ok (nodes t)
unfolding param_nodes nodes
param_nodes-ok null h = refl
param_nodes-ok (parameter_list v n) h = rw (param_nodes-ok n h)
param_nodes-ok t h = absurd h

module _ (numerals : Numerals) where
  each-nodes :
      (v : String) (m n : Tree)
      → IsParameters m
      → IsParameters n
      → each param_slot (parameter_list v m) (kids numerals (nodes n))
        ≡ ok (parameter_list v (joined m n))
  unfolding each param_slot xml_to_tree nodes joined
  each-nodes v m null h k = rw (joined-null m h)
  each-nodes v m (parameter_list w n) h k =
      let more = joined m (parameter_list w null) in
      rw (link-joined v m (parameter_list w null) h) (
        each-nodes v more n (joined-IsParameters m w h) k
        ∙ ap (λ t. ok (parameter_list v t)) (joined_assoc m (parameter_list w null) n h))
  each-nodes v m n h k = absurd k

  pub chain_read :
      (t : Tree)
      → IsParameters t
      → xml_to_tree numerals (element "parameter_list" [] (nodes t)) ≡ ok t
  unfolding xml_to_tree nodes joined
  chain_read null h = refl
  chain_read (parameter_list v n) h = each-nodes v null n tt h
  chain_read t h = absurd h
