-- ===== src/Serial/Datum/Steps.antt =====
-- Parts of minimal/src/serialise.c and minimal/src/parsexml.c on the way of a value.
use pylinda.Base.{
  str_eq, false, ℕ, ◌^◌, ◌<◌, arith, String, false, Option, none, some, [], ◌∷◌, Outcome, ok, ◌≡◌,
  refl, ap,
}
use pylinda.Base.Int.{pos}
use pylinda.Message.Xml.{element, Attrs, Nodes, single, get_prop}
use pylinda.SyntaxTree.{Tree, null, parameter_list, type_spec, bracket}
use pylinda.SyntaxTree.Chain.{IsParameters}
use pylinda.Serial.{Numerals}
use pylinda.Serial.Write.{serialise_parameter_list}
use pylinda.Serial.Read.{is_null, xml_to_tree}
use pylinda.Serial.Specs.{IsSpec, plain}
use pylinda.Serial.Params.{nodes, param_nodes-ok}
use pylinda.Serial.Datum.{Datum, type_, function, Slots}
use pylinda.Serial.Datum.Write.{as_long}
use pylinda.Serial.Datum.Read.{
  to_unsigned, set_type, add_slot, make_type, make_function, function_parts,
}
use pylinda.Serial.Datum.Received.{put_slot}

pub as_long-pos : (n : ℕ) → n < 2 ^ 31 → as_long n ≡ pos n
as_long-pos n h = ground arith

pub to_unsigned-pos : (n : ℕ) → n < 2 ^ 31 → to_unsigned 32 (pos n) ≡ n
unfolding to_unsigned
to_unsigned-pos n h = omega arith

module _ {F : Type 0} where
  unfoldable pub append : Slots F → Slots F → Slots F
  append Slots.end us = us
  append (Slots.empty_slot vs) us = Slots.empty_slot (append vs us)
  append (Slots.slot v vs) us = Slots.slot v (append vs us)

  pub append-end : (vs : Slots F) → append vs Slots.end ≡ vs
  unfolding append
  append-end Slots.end = refl
  append-end (Slots.empty_slot vs) = ap Slots.empty_slot (append-end vs)
  append-end (Slots.slot v vs) = ap (Slots.slot v) (append-end vs)

  pub append-add_slot :
      (vs : Slots F) (v : Option (Datum F)) (us : Slots F)
      → append (add_slot vs v) us ≡ append vs (put_slot v us)
  unfolding append add_slot
  append-add_slot Slots.end none us = refl
  append-add_slot Slots.end (some v) us = refl
  append-add_slot (Slots.empty_slot vs) v us = ap Slots.empty_slot (append-add_slot vs v us)
  append-add_slot (Slots.slot u vs) v us = ap (Slots.slot u) (append-add_slot vs v us)

  pub set_type-present :
      (attrs : Attrs) (v : Option (Datum F))
      → get_prop "typeid" attrs ≡ none
      → set_type attrs v ≡ ok v
  unfolding set_type
  set_type-present attrs none h = rw h
  set_type-present attrs (some v) h = refl

  pub make_type-plain :
      (type_id : String → Option String) (name : String) (t : Tree)
      → IsSpec t
      → str_eq name "" ≡ false
      → make_type {F = F} (some name) (plain type_id t)
        ≡ ok (some (type_ (some name) none (plain type_id t)))
  unfolding make_type plain
  make_type-plain type_id name (type_spec n t) h e = make_type-plain type_id name t h e
  make_type-plain type_id name (bracket t) h e = make_type-plain type_id name t h e
  make_type-plain type_id name null h e = absurd h
  make_type-plain type_id name t h e = rw e

pub params_written :
    (t : Tree)
    → IsParameters t
    → serialise_parameter_list t ≡ ok (single (element "parameter_list" [] (nodes t)))
unfolding serialise_parameter_list
params_written t h = rw (param_nodes-ok t h)

module _ {F : Type 0} where
  pub function_parts_three :
      (numerals : Numerals) (attrs : Attrs) (spec ns cs : Nodes) (params code : Tree)
      (x y z : Outcome (Option (Datum F)))
      → xml_to_tree numerals (element "parameter_list" [] ns) ≡ ok params
      → xml_to_tree numerals (element "code" [] cs) ≡ ok code
      → function_parts numerals
          (null, null)
          (record { node = element "type" attrs spec; value = x }
            ∷ record { node = element "parameter_list" [] ns; value = y }
            ∷ record { node = element "code" [] cs; value = z }
            ∷ [])
        ≡ ok (params, code)
  unfolding function_parts
  function_parts_three numerals attrs spec ns cs null code x y z h k = rw h (rw k)
  function_parts_three numerals attrs spec ns cs params code x y z h k = rw h (rw k)

  pub make_function-present :
      (attrs : Attrs) (name v : String) (n code : Tree)
      → is_null code ≡ false
      → make_function {F = F} (("name", name) ∷ attrs) (parameter_list v n) code
        ≡ ok (some (function name (parameter_list v n) code))
  unfolding make_function
  make_function-present attrs name v n null h = cc
  make_function-present attrs name v n code h = refl
