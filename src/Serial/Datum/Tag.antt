-- ===== src/Serial/Datum/Tag.antt =====
-- minimal/src/parsexml.c: the names of nodes that `Minimal_xmlToValue2` compares with.
use pylinda.Base.{String, if◌then◌else◌, str_eq}

pub data ValueTag : Type 0 where
  minimal nil string tuple sum element type typeobj false_ true_ byte short integer long ubyte
        ushort uinteger ulong float ptr function tsid other :
      ValueTag

unfoldable pub number_tag : String → ValueTag
number_tag name =
    if str_eq name "byte"
    then ValueTag.byte
    else if str_eq name "short"
    then ValueTag.short
    else if str_eq name "integer"
    then ValueTag.integer
    else if str_eq name "long"
    then ValueTag.long
    else if str_eq name "ubyte"
    then ValueTag.ubyte
    else if str_eq name "ushort"
    then ValueTag.ushort
    else if str_eq name "uinteger"
    then ValueTag.uinteger
    else if str_eq name "ulong"
    then ValueTag.ulong
    else if str_eq name "float"
    then ValueTag.float
    else if str_eq name "ptr"
    then ValueTag.ptr
    else if str_eq name "function"
    then ValueTag.function
    else if str_eq name "tsid"
    then ValueTag.tsid
    else ValueTag.other

unfoldable pub value_tag_of : String → ValueTag
unfolding number_tag
value_tag_of name =
    if str_eq name "minimal"
    then ValueTag.minimal
    else if str_eq name "nil"
    then ValueTag.nil
    else if str_eq name "string"
    then ValueTag.string
    else if str_eq name "tuple"
    then ValueTag.tuple
    else if str_eq name "sum"
    then ValueTag.sum
    else if str_eq name "element"
    then ValueTag.element
    else if str_eq name "type"
    then ValueTag.type
    else if str_eq name "typeobj"
    then ValueTag.typeobj
    else if str_eq name "false"
    then ValueTag.false_
    else if str_eq name "true"
    then ValueTag.true_
    else number_tag name
