-- ===== src/Serial/Tag.antt =====
-- minimal/src/parsexml.c: the names of nodes that `Minimal_xmlToSyntaxTree` compares with.
use pylinda.Base.{String, if◌then◌else◌, str_eq}

-- the chain of comparisons with the name of a node
pub data Tag : Type 0 where
  minimal function product_type sum_type type_function nil id integer string type type_spec ptr
        parameter_list code operator index let_ funccall argument_list tuple other :
      Tag

unfoldable pub code_tag : String → Tag
code_tag name =
    if str_eq name "code"
    then Tag.code
    else if str_eq name "operator"
    then Tag.operator
    else if str_eq name "index"
    then Tag.index
    else if str_eq name "let"
    then Tag.let_
    else if str_eq name "funccall"
    then Tag.funccall
    else if str_eq name "argument_list"
    then Tag.argument_list
    else if str_eq name "tuple"
    then Tag.tuple
    else Tag.other

unfoldable pub tag_of : String → Tag
unfolding code_tag
tag_of name =
    if str_eq name "minimal"
    then Tag.minimal
    else if str_eq name "function"
    then Tag.function
    else if str_eq name "product_type"
    then Tag.product_type
    else if str_eq name "sum_type"
    then Tag.sum_type
    else if str_eq name "type_function"
    then Tag.type_function
    else if str_eq name "nil"
    then Tag.nil
    else if str_eq name "id"
    then Tag.id
    else if str_eq name "integer"
    then Tag.integer
    else if str_eq name "string"
    then Tag.string
    else if str_eq name "type"
    then Tag.type
    else if str_eq name "type_spec"
    then Tag.type_spec
    else if str_eq name "ptr"
    then Tag.ptr
    else if str_eq name "parameter_list"
    then Tag.parameter_list
    else code_tag name
