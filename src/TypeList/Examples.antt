-- ===== src/TypeList/Examples.antt =====
-- Tests of minimal/src/type_list.c, and its theorem at a list type over another.
use pylinda.Base.{◌≡◌, refl, Bool, none, some, List, [], ◌∷◌}
use pylinda.NameMap.{null as no_child, node}
use pylinda.NameMap.Lex.{lex}
use pylinda.SyntaxTree.{Tree, nil, create_id, type_spec, product_type, sum_type, pointer, Trees}
use pylinda.Value.{Value}
use pylinda.Eval.{EvalLayer, value}
use pylinda.TypeList.{TypeCell, get_type_list}

abbrev layers : List (EvalLayer Bool)
layers =
    record {
      names =
          node (some ("list", Value.type_ 0)) no_child
            (node (some ("item", Value.type_ 2)) no_child no_child);
      parent = none;
    }
    ∷ []

-- list :: Nil + item * ^list; the type of types is its own type
abbrev list_spec : Tree
list_spec = type_spec "list" (
    sum_type (
      Trees.next nil (
        Trees.next
          (product_type (Trees.next (create_id "item") (Trees.next (pointer "list") Trees.end)))
          Trees.end)))

abbrev cells : List TypeCell
cells =
    record { typeobj = some 1; type_spec = list_spec; typemap = some 0 }
    ∷ record {
      typeobj = some 1;
      type_spec = type_spec "typetype" (create_id "type");
      typemap = some 0;
    }
    ∷ record {
      typeobj = some 1;
      type_spec = type_spec "item" (create_id "int64");
      typemap = some 0;
    }
    ∷ []

list_types : get_type_list (lex 0) layers cells 5 0 ≡ value (0 ∷ 1 ∷ 2 ∷ [])
unfolding get_type_list lex
list_types = refl
