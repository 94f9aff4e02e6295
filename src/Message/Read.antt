-- ===== src/Message/Read.antt =====
-- `BuildMessage` of liblinda/src/messageread.c: the walk over a document that fills in a message.
use pylinda.Base.{
  String, Bool, true, false, Option, none, some, Outcome, ok, exited, crash, ◌>>=◌, if◌then◌else◌,
  str_eq,
}
use pylinda.Message.{MessageType, Message, Word, nul, str, tsref, val, int}
use pylinda.Message.Codec.{Codec}
use pylinda.Message.Xml.{Xml, element, text, Attrs, Nodes, end, next, get_prop}

-- `initbuildmessage`: `memset` makes the type the first of the enumeration
abbrev pub blank : {V : Type 0} → Message V
blank = record { type = MessageType.done; msgid = none; first = nul; second = nul; third = nul }

-- the content of the last text child
unfoldable pub last_text : Nodes → Option String
last_text end = none
last_text (next (text s) rest) =
    let later = last_text rest in elim later [ none ↦ some s | some t ↦ some t ]
last_text (next (element n a cs) rest) = last_text rest

-- the second half of the chain of comparisons with the text of `action`
unfoldable pub server_action : {V : Type 0} → String → Message V → Outcome (Message V)
server_action name m =
    if str_eq name "list_ts"
    then ok (record m { type = MessageType.list_ts })
    else if str_eq name "inspect"
    then ok (record m { type = MessageType.inspect })
    else if str_eq name "get_routes"
    then ok (record m { type = MessageType.get_routes })
    else if str_eq name "register_process"
    then ok (record m { type = MessageType.register_process })
    else if str_eq name "register_thread"
    then ok (record m { type = MessageType.register_thread })
    else if str_eq name "register_type"
    then ok (record m { type = MessageType.register_type; first = nul })
    else if str_eq name "update_type"
    then ok (record m { type = MessageType.update_type; first = nul })
    else if str_eq name "my_name_is"
    then ok (record m { type = MessageType.my_name_is })
    else if str_eq name "get_node_id"
    then ok (record m { type = MessageType.get_node_id })
    else if str_eq name "register_partition"
    then ok (record m { type = MessageType.register_partition })
    else if str_eq name "get_partitions"
    then ok (record m { type = MessageType.get_partitions })
    else if str_eq name "deleted_partition"
    then ok (record m { type = MessageType.deleted_partition })
    else if str_eq name "get_neighbours"
    then ok (record m { type = MessageType.get_neighbours })
    else if str_eq name "get_connection_details"
    then ok (record m { type = MessageType.get_connection_details })
    else if str_eq name "get_requests"
    then ok (record m { type = MessageType.get_requests })
    else if str_eq name "tuple_request"
    then ok (record m { type = MessageType.tuple_request })
    else if str_eq name "cancel_request"
    then ok (record m { type = MessageType.cancel_request })
    else if str_eq name "multiple_in"
    then ok (record m { type = MessageType.multiple_in })
    else exited

-- the first half
unfoldable pub client_action : {V : Type 0} → String → Message V → Outcome (Message V)
unfolding server_action
client_action name m =
    if str_eq name "done"
    then ok (record m { type = MessageType.done })
    else if str_eq name "dont_know"
    then ok (record m { type = MessageType.dont_know })
    else if str_eq name "result_string"
    then ok (record m { type = MessageType.result_string })
    else if str_eq name "result_int"
    then ok (record m { type = MessageType.result_int })
    else if str_eq name "result_tuple"
    then ok (record m { type = MessageType.result_tuple })
    else if str_eq name "out"
    then ok (record m { type = MessageType.out; first = nul; second = nul })
    else if str_eq name "in"
    then ok (record m { type = MessageType.in_; first = nul; second = nul })
    else if str_eq name "rd"
    then ok (record m { type = MessageType.rd; first = nul; second = nul })
    else if str_eq name "inp"
    then ok (record m { type = MessageType.inp; first = nul; second = nul })
    else if str_eq name "rdp"
    then ok (record m { type = MessageType.rdp; first = nul; second = nul })
    else if str_eq name "collect"
    then ok (record m { type = MessageType.collect; first = nul; second = nul; third = nul })
    else if str_eq name "copy_collect"
    then ok (record m { type = MessageType.copy_collect; first = nul; second = nul; third = nul })
    else if str_eq name "unblock"
    then ok (record m { type = MessageType.unblock })
    else if str_eq name "create_tuplespace"
    then ok (record m { type = MessageType.create_tuplespace })
    else if str_eq name "add_reference"
    then ok (record m { type = MessageType.add_reference })
    else if str_eq name "delete_reference"
    then ok (record m { type = MessageType.delete_reference })
    else if str_eq name "monitor"
    then ok (record m { type = MessageType.monitor })
    else server_action name m

-- the tag `action`
unfoldable pub on_action : {V : Type 0} → Nodes → Message V → Outcome (Message V)
unfolding last_text client_action
on_action children m = elim (last_text children) [ none ↦ exited | some s ↦ client_action s m ]

-- the case of `collect` in the tag `ts`
unfoldable pub on_collect_ts : {V : Type 0} → Word V → String → Message V → Message V
on_collect_ts nul id m = record m { first = tsref id }
on_collect_ts _ id m = record m { second = tsref id }

-- where `ts` goes
unfoldable pub put_ts : {V : Type 0} → MessageType → String → Message V → Message V
unfolding on_collect_ts
put_ts MessageType.out id m = record m { first = tsref id }
put_ts MessageType.in_ id m = record m { first = tsref id }
put_ts MessageType.inp id m = record m { first = tsref id }
put_ts MessageType.rd id m = record m { first = tsref id }
put_ts MessageType.rdp id m = record m { first = tsref id }
put_ts MessageType.collect id m = on_collect_ts m.first id m
put_ts MessageType.copy_collect id m = on_collect_ts m.first id m
put_ts MessageType.add_reference id m = record m { first = str id }
put_ts MessageType.delete_reference id m = record m { first = str id }
put_ts MessageType.register_partition id m = record m { first = str id }
put_ts MessageType.deleted_partition id m = record m { first = str id }
put_ts MessageType.inspect id m = record m { first = tsref id }
put_ts MessageType.register_thread id m = record m { first = tsref id }
put_ts MessageType.get_partitions id m = record m { first = tsref id }
put_ts MessageType.get_requests id m = record m { first = tsref id }
put_ts MessageType.tuple_request id m = record m { first = tsref id }
put_ts MessageType.cancel_request id m = record m { first = tsref id }
put_ts MessageType.multiple_in id m = record m { first = tsref id }
put_ts _ id m = m

abbrev pub takes_ts : MessageType → Bool
takes_ts MessageType.out = true
takes_ts MessageType.in_ = true
takes_ts MessageType.inp = true
takes_ts MessageType.rd = true
takes_ts MessageType.rdp = true
takes_ts MessageType.collect = true
takes_ts MessageType.copy_collect = true
takes_ts MessageType.add_reference = true
takes_ts MessageType.delete_reference = true
takes_ts MessageType.register_partition = true
takes_ts MessageType.deleted_partition = true
takes_ts MessageType.inspect = true
takes_ts MessageType.register_thread = true
takes_ts MessageType.get_partitions = true
takes_ts MessageType.get_requests = true
takes_ts MessageType.tuple_request = true
takes_ts MessageType.cancel_request = true
takes_ts MessageType.multiple_in = true
takes_ts _ = false

-- the tag `ts`: without its attribute the copy of the name reads NULL
unfoldable pub on_ts : {V : Type 0} → Attrs → Message V → Outcome (Message V)
unfolding put_ts get_prop
on_ts attrs m = elim (get_prop "id" attrs) [
  | none ↦ if takes_ts m.type then crash else ok m
  | some id ↦ ok (put_ts m.type id m)
]

abbrev pub word_of : {V : Type 0} → Option String → Word V
word_of none = nul
word_of (some s) = str s

-- the tag `tid`
unfoldable pub put_tid : {V : Type 0} → MessageType → Word V → Message V → Message V
put_tid MessageType.in_ w m = record m { third = w }
put_tid MessageType.inp w m = record m { third = w }
put_tid MessageType.rd w m = record m { third = w }
put_tid MessageType.rdp w m = record m { third = w }
put_tid _ w m = m

-- the tag `tuple`
unfoldable pub put_tuple : {V : Type 0} → MessageType → V → Message V → Message V
put_tuple MessageType.result_tuple t m = record m { first = val t }
put_tuple MessageType.out t m = record m { second = val t }
put_tuple MessageType.in_ t m = record m { second = val t }
put_tuple MessageType.inp t m = record m { second = val t }
put_tuple MessageType.rd t m = record m { second = val t }
put_tuple MessageType.rdp t m = record m { second = val t }
put_tuple MessageType.tuple_request t m = record m { second = val t }
put_tuple MessageType.cancel_request t m = record m { second = val t }
put_tuple MessageType.multiple_in t m = record m { second = val t }
put_tuple MessageType.collect t m = record m { third = val t }
put_tuple MessageType.copy_collect t m = record m { third = val t }
put_tuple _ t m = m

-- the tag `integer`
unfoldable pub put_integer : (c : Codec) → MessageType → c.V → Message c.V → Message c.V
put_integer c MessageType.result_int v m = record m { first = int (c.get_int v) }
put_integer c _ v m = m

-- the first string of a type message is its id, a later one the process
unfoldable pub put_type_string : {V : Type 0} → Word V → String → Message V → Message V
put_type_string nul s m = record m { first = str s }
put_type_string _ s m = record m { third = str s }

-- the tag `string`
unfoldable pub put_string : {V : Type 0} → MessageType → String → Message V → Message V
unfolding put_type_string
put_string MessageType.result_string s m = record m { first = str s }
put_string MessageType.create_tuplespace s m = record m { first = str s }
put_string MessageType.register_thread s m = record m { first = str s }
put_string MessageType.my_name_is s m = record m { first = str s }
put_string MessageType.get_connection_details s m = record m { first = str s }
put_string MessageType.add_reference s m = record m { second = str s }
put_string MessageType.delete_reference s m = record m { second = str s }
put_string MessageType.register_partition s m = record m { second = str s }
put_string MessageType.deleted_partition s m = record m { second = str s }
put_string MessageType.register_type s m = put_type_string m.first s m
put_string MessageType.update_type s m = put_type_string m.first s m
put_string _ s m = m

-- the tag `element`
unfoldable pub put_element : {V : Type 0} → MessageType → V → Message V → Message V
put_element MessageType.register_type t m = record m { second = val t }
put_element MessageType.update_type t m = record m { second = val t }
put_element _ t m = m

-- `strlen` or `atoi` of an attribute
unfoldable pub copied : String → Attrs → Outcome String
unfolding get_prop
copied name attrs = elim (get_prop name attrs) [ none ↦ crash | some s ↦ ok s ]

-- the tag `msgid`
unfoldable pub on_msgid : (c : Codec) → Attrs → Message c.V → Outcome (Message c.V)
unfolding copied
on_msgid c attrs m = do
  dest ← copied "dest" attrs
  source ← copied "source" attrs
  count ← copied "count" attrs
  ok (record m { msgid = some (record { dest = dest; source = source; count = c.atoi count }) })

-- a tag other than `linda` and `body`
unfoldable pub on_tag : (c : Codec) → String → Attrs → Nodes → Message c.V → Outcome (Message c.V)
unfolding on_action on_ts put_tid put_tuple put_integer put_string put_element on_msgid get_prop
on_tag c name attrs children m =
    let value = c.xml_to_value (element name attrs children) in
    if str_eq name "action"
    then on_action children m
    else if str_eq name "ts"
    then on_ts attrs m
    else if str_eq name "tid"
    then ok (put_tid m.type (word_of (get_prop "id" attrs)) m)
    else if str_eq name "tuple"
    then ok (put_tuple m.type value m)
    else if str_eq name "integer"
    then ok (put_integer c m.type value m)
    else if str_eq name "string"
    then ok (put_string m.type (c.get_string value) m)
    else if str_eq name "element"
    then ok (put_element m.type value m)
    else if str_eq name "msgid"
    then on_msgid c attrs m
    else ok m

-- `BuildMessage`, and its loop over the children that are elements
unfoldable mutual
  unfolding on_tag

  pub build : (c : Codec) → Xml → Message c.V → Outcome (Message c.V)
  build c (text s) m = ok m
  build c (element name attrs children) m =
      let inside = build_all c children m in
      if str_eq name "linda"
      then inside
      else if str_eq name "body"
      then inside
      else on_tag c name attrs children m

  pub build_all : (c : Codec) → Nodes → Message c.V → Outcome (Message c.V)
  build_all c end m = ok m
  build_all c (next x rest) m = build c x m >>= λ m'. build_all c rest m'

-- the last step of `Message_recv`
unfoldable pub read_message : (c : Codec) → Xml → Outcome (Message c.V)
unfolding build
read_message c doc = build c doc blank
