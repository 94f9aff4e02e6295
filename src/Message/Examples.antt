-- ===== src/Message/Examples.antt =====
-- Tests of liblinda/src/message.c and messageread.c, and their theorems at a small codec.
use mathlib.Core.List.{Perm}
use pylinda.Base.{
  zero, suc, String, ◌≡◌, refl, Bool, true, false, Option, none, some, List, [], ◌∷◌, ◌++◌, ok,
  ◌>>=◌, if◌then◌else◌, str_eq,
}
use pylinda.Base.Int.{ℤ, pos, negsuc}
use pylinda.Message.{MsgId}
use pylinda.Message.Codec.{Codec, IsCodec, IsNode}
use pylinda.Message.Xml.{Xml, element, text, Nodes, end, next, single, text_child, leaf, get_prop}
use pylinda.Message.Write.{get_string, with_msgid}
use pylinda.Message.Read.{read_message, last_text}
use pylinda.Message.RoundTrip.{Call, make, settle, read_message-get_string}
use pylinda.Message.Free.{Release, owned, free_msgid, message_free, message_free-owned}

-- values that are strings, numbers or the empty tuple
data Small : Type 0 where
  text_value : String → Small
  number : ℤ → Small
  unit : Small

show_bit : ℤ → String
show_bit (pos zero) = "0"
show_bit _ = "1"

read_bit : String → ℤ
read_bit s = if str_eq s "0" then pos 0 else pos 1

abbrev IsBit : ℤ → Type 0
IsBit (pos zero) = Unit
IsBit (pos (suc zero)) = Unit
IsBit _ = ⊥

small_nodes : Bool → Bool → Small → Nodes
unfolding show_bit
small_nodes t u (text_value s) = single (text_child "string" s)
small_nodes t u (number i) = single (leaf "integer" (("val", show_bit i) ∷ []))
small_nodes t u unit = single (leaf "tuple" [])

or_blank : Option String → String
or_blank none = ""
or_blank (some s) = s

small_value : Xml → Small
unfolding or_blank last_text get_prop read_bit
small_value (text s) = unit
small_value (element name attrs children) =
    if str_eq name "string"
    then text_value (or_blank (last_text children))
    else if str_eq name "integer"
    then number (read_bit (or_blank (get_prop "val" attrs)))
    else unit

small_string : Small → String
small_string (text_value s) = s
small_string _ = ""

small_int : Small → ℤ
small_int (number i) = i
small_int _ = pos 0

small_is_tuple : Small → Bool
small_is_tuple unit = true
small_is_tuple _ = false

abbrev small : Codec
small = record {
  V = Small;
  serialise = small_nodes;
  xml_to_value = small_value;
  string = text_value;
  get_string = small_string;
  int = number;
  get_int = small_int;
  is_tuple = small_is_tuple;
  show = show_bit;
  atoi = read_bit;
}

abbrev IsUnitValue : Small → Type 0
IsUnitValue unit = Unit
IsUnitValue _ = ⊥

bit_back : (i : ℤ) → IsBit i → read_bit (show_bit i) ≡ i
unfolding read_bit show_bit
bit_back (pos zero) h = refl
bit_back (pos (suc zero)) h = refl
bit_back (pos (suc (suc n))) h = absurd h
bit_back (negsuc n) h = absurd h

small_int-IsNode : (i : ℤ) → IsBit i → IsNode small false "integer" small_int (number i) i
unfolding small_nodes small_value small_int show_bit read_bit
small_int-IsNode i h = record {
  attrs = ("val", show_bit i) ∷ [];
  children = end;
  written = refl;
  read_back = bit_back i h;
}

small_tuple-IsNode :
    (types : Bool) (v : Small) → IsUnitValue v → IsNode small types "tuple" (λ w. w) v v
unfolding small_nodes small_value
small_tuple-IsNode types unit h = record {
  attrs = [];
  children = end;
  written = refl;
  read_back = refl;
}
small_tuple-IsNode types (text_value s) h = absurd h
small_tuple-IsNode types (number i) h = absurd h

small-IsCodec : IsCodec small IsUnitValue IsBit
unfolding small_nodes small_value small_string
small-IsCodec = record {
  string_node =
      λ s. record { attrs = []; children = next (text s) end; written = refl; read_back = refl };
  int_node = small_int-IsNode;
  tuple_node = small_tuple-IsNode;
  atoi-show = bit_back;
}

abbrev id : Option MsgId
id = some (record { dest = "n2"; source = "n1"; count = pos 1 })

abbrev call : Call Small
call = Call.in_ "t1" "UTS" unit

read_message-get_string_example :
    (get_string small true (some "p1") (with_msgid id (make call)) >>= read_message small)
    ≡ ok (settle (with_msgid id (make call)))
read_message-get_string_example =
    read_message-get_string small IsUnitValue IsBit (some "p1") small-IsCodec true call id tt tt

message_free-owned_example :
    (rs : List (Release Small)) × (message_free (with_msgid id (make call))
      ≡ ok (free_msgid id ++ rs))
    × (message_free (settle (with_msgid id (make call))) ≡ ok (free_msgid id ++ rs))
    × Perm rs (owned (make call))
message_free-owned_example = message_free-owned call id
