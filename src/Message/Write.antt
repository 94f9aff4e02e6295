-- ===== src/Message/Write.antt =====
-- `Message_getString` of liblinda/src/message.c: the children that it gives the root element.
-- Reading a word as a type that it is not is a crash.
use pylinda.Base.{String, Option, none, some, Bool, true, false, [], ◌∷◌, Outcome, ok, crash, ◌>>=◌}
use pylinda.Message.{MessageType, MsgId, Message, Word, nul, str, tsref, val, int}
use pylinda.Message.Codec.{Codec}
use pylinda.Message.Xml.{Xml, Nodes, end, next, ◌+++◌, leaf, text_child}

-- a `char*` for `xmlNewProp`: NULL makes an attribute with no text
abbrev pub prop_of : {V : Type 0} → Word V → Outcome String
prop_of (str s) = ok s
prop_of nul = ok ""
prop_of _ = crash

-- `Minimal_getTupleSpace`
abbrev pub space_of : {V : Type 0} → Word V → Outcome String
space_of (tsref s) = ok s
space_of _ = crash

-- `xmlNewTextChild(root, NULL, "action", name)`
abbrev pub action : String → Nodes → Nodes
action name = next (text_child "action" name)

-- an element with one attribute `id`
abbrev pub id_node : String → String → Nodes → Nodes
id_node tag id = next (leaf tag (("id", id) ∷ []))

module _ (c : Codec) (types : Bool) (process_id : Option String) where
  -- `Linda_string(s)`, serialised with no types, and released
  abbrev pub string_nodes : Word c.V → Outcome Nodes
  string_nodes (str s) = ok (c.serialise false false (c.string s))
  string_nodes _ = crash

  -- `Linda_string(Linda_process_id)`
  abbrev pub pid_nodes : Outcome Nodes
  pid_nodes = elim process_id [ none ↦ crash | some s ↦ ok (c.serialise false false (c.string s)) ]

  -- `Minimal_serialiseXML(doc, root, v, t, s)`
  abbrev pub value_nodes : Bool → Bool → Word c.V → Outcome Nodes
  value_nodes t s (val v) = ok (c.serialise t s v)
  value_nodes t s _ = crash

  abbrev element_node : Nodes → Nodes → Nodes
  element_node inside rest = next (Xml.element "element" [] inside) rest

  -- the node `ts`, a tuple and the node `tid`
  abbrev match_nodes : String → Message c.V → Outcome Nodes
  match_nodes name m = do
    ts ← space_of m.first
    t ← value_nodes types false m.second
    tid ← prop_of m.third
    ok (action name (id_node "ts" ts (t +++ id_node "tid" tid end)))

  abbrev collect_nodes : String → Message c.V → Outcome Nodes
  collect_nodes name m = do
    ts1 ← space_of m.first
    ts2 ← space_of m.second
    t ← value_nodes types false m.third
    ok (action name (id_node "ts" ts1 (id_node "ts" ts2 t)))

  -- the node `ts` from the string `ref.ts`, and the string `ref.tid`
  abbrev ref_nodes : String → Message c.V → Outcome Nodes
  ref_nodes name m = do
    ts ← prop_of m.first
    tid ← string_nodes m.second
    ok (action name (id_node "ts" ts tid))

  abbrev ts_nodes : String → Message c.V → Outcome Nodes
  ts_nodes name m = do ts ← prop_of m.first; ok (action name (id_node "ts" ts end))

  abbrev request_nodes : String → Message c.V → Outcome Nodes
  request_nodes name m = do
    ts ← space_of m.first
    t ← value_nodes false false m.second
    ok (action name (id_node "ts" ts t))

  abbrev named_string : String → Outcome Nodes → Outcome Nodes
  named_string name s = do nodes ← s; ok (action name nodes)

  -- the cases of the messages between servers
  unfoldable pub server_nodes : MessageType → Message c.V → Outcome Nodes
  server_nodes MessageType.register_partition m = ref_nodes "register_partition" m
  server_nodes MessageType.get_partitions m = ts_nodes "get_partitions" m
  server_nodes MessageType.deleted_partition m = ref_nodes "deleted_partition" m
  server_nodes MessageType.get_requests m = ts_nodes "get_requests" m
  server_nodes MessageType.get_neighbours m = ok (action "get_neighbours" end)
  server_nodes MessageType.get_connection_details m =
      named_string "get_connection_details" (string_nodes m.first)
  server_nodes MessageType.tuple_request m = request_nodes "tuple_request" m
  server_nodes MessageType.cancel_request m = request_nodes "cancel_request" m
  server_nodes MessageType.multiple_in m = request_nodes "multiple_in" m
  server_nodes _ m = ok end

  -- the cases of the monitor, of registration and of types
  unfoldable pub register_nodes : MessageType → Message c.V → Outcome Nodes
  unfolding server_nodes
  register_nodes MessageType.monitor m = ok (action "monitor" end)
  register_nodes MessageType.list_ts m = ok (action "list_ts" end)
  register_nodes MessageType.inspect m = ts_nodes "inspect" m
  register_nodes MessageType.get_routes m = ok (action "get_routes" end)
  register_nodes MessageType.register_process m = ok (action "register_process" end)
  register_nodes MessageType.register_thread m = named_string "register_thread" pid_nodes
  register_nodes MessageType.register_type m = do
    t ← value_nodes types false m.second
    pid ← pid_nodes
    ok (action "register_type" (element_node t pid))
  register_nodes MessageType.update_type m = do
    type_id ← string_nodes m.first
    t ← value_nodes types true m.second
    pid ← pid_nodes
    ok (action "update_type" (type_id +++ element_node t pid))
  register_nodes MessageType.result_type m = do
    t ← value_nodes types false m.second
    ok (action "result_type" (element_node t end))
  register_nodes MessageType.request_type m = named_string "result_type" (string_nodes m.first)
  register_nodes MessageType.get_node_id m = ok (action "get_node_id" end)
  register_nodes MessageType.my_name_is m = named_string "my_name_is" pid_nodes
  register_nodes other m = server_nodes other m

  -- the cases of results and of a process's operations
  unfoldable pub client_nodes : MessageType → Message c.V → Outcome Nodes
  unfolding register_nodes
  client_nodes MessageType.done m = ok (action "done" end)
  client_nodes MessageType.dont_know m = ok (action "dont_know" end)
  client_nodes MessageType.result_string m = named_string "result_string" (string_nodes m.first)
  client_nodes MessageType.result_int m = elim m.first [
    | int i ↦ ok (action "result_int" (c.serialise false false (c.int i)))
    | _ ↦ crash
  ]
  client_nodes MessageType.result_tuple m =
      named_string "result_tuple" (value_nodes types false m.first)
  client_nodes MessageType.unblock m = ok (action "unblock" end)
  client_nodes MessageType.out m = do
    ts ← space_of m.first
    t ← value_nodes types false m.second
    ok (action "out" (id_node "ts" ts t))
  client_nodes MessageType.in_ m = match_nodes "in" m
  client_nodes MessageType.rd m = match_nodes "rd" m
  client_nodes MessageType.inp m = match_nodes "inp" m
  client_nodes MessageType.rdp m = match_nodes "rdp" m
  client_nodes MessageType.collect m = collect_nodes "collect" m
  client_nodes MessageType.copy_collect m = collect_nodes "copy_collect" m
  client_nodes MessageType.create_tuplespace m =
      named_string "create_tuplespace" (string_nodes m.first)
  client_nodes MessageType.add_reference m = ref_nodes "add_reference" m
  client_nodes MessageType.delete_reference m = ref_nodes "delete_reference" m
  client_nodes other m = register_nodes other m

  -- the node `msgid`, where there is one
  unfoldable pub msgid_nodes : Option MsgId → Nodes → Nodes
  msgid_nodes none rest = rest
  msgid_nodes (some id) rest =
      next
        (leaf "msgid" (("source", id.source) ∷ ("dest", id.dest) ∷ ("count", c.show id.count) ∷ []))
        rest

  -- `Message_getString`: the element `linda`
  unfoldable pub get_string : Message c.V → Outcome Xml
  unfolding client_nodes msgid_nodes
  get_string m = do
    nodes ← client_nodes m.type m
    ok (Xml.element "linda" [] (msgid_nodes m.msgid nodes))

-- `Message_send` writes the message's id before it makes the document.
unfoldable pub with_msgid : {V : Type 0} → Option MsgId → Message V → Message V
with_msgid id m = record m { msgid = id }
