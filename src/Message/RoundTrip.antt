-- ===== src/Message/RoundTrip.antt =====
-- A message that `Message_getString` writes and `BuildMessage` reads (liblinda/src/message.c,
-- messageread.c).
use pylinda.Base.{
  String, ◌≡◌, refl, Bool, false, Option, none, some, [], Outcome, ok, exited, crash, ◌>>=◌, ◌∙◌,
}
use pylinda.Base.Int.{ℤ}
use pylinda.Message.{MsgId, Message, Word, junk, nul}
use pylinda.Message.Codec.{Codec, IsCodec}
use pylinda.Message.Xml.{element, Nodes, ◌+++◌}
use pylinda.Message.Make
use pylinda.Message.Write.{get_string, client_nodes, msgid_nodes, with_msgid}
use pylinda.Message.Read.{blank, build, build_all, read_message}

-- The calls of the functions that make a message, for the messages that survive the trip.
pub data Call (V : Type 0) : Type 0 where
  done dont_know unblock monitor list_ts get_routes register_process : Call V
  get_node_id get_neighbours : Call V
  result_string : String → Call V
  result_int : ℤ → Call V
  out : (ts : String) → V → Call V
  in_ rd inp rdp : (thread_id ts : String) → V → Call V
  collect copy_collect : (ts1 ts2 : String) → V → Call V
  create_tuplespace : (thread_id : String) → Call V
  add_reference delete_reference : (thread_id ts : String) → Call V
  register_thread : (process_id : String) → Call V
  register_partition deleted_partition : (ts ref : String) → Call V
  get_connection_details : (id : String) → Call V
  tuple_request cancel_request multiple_in : (ts : String) → V → Call V

unfoldable pub make : {V : Type 0} → Call V → Message V
unfolding Make.make_done Make.make_dont_know Make.make_unblock Make.make_monitor Make.make_list_ts
    Make.make_get_routes Make.make_register_process Make.make_get_node_id Make.make_get_neighbours
    Make.make_result_string Make.make_result_int Make.make_out Make.make_in Make.make_rd
    Make.make_inp Make.make_rdp Make.make_collect Make.make_copy_collect Make.make_create_tuplespace
    Make.make_add_reference Make.make_delete_reference Make.make_register_thread
    Make.make_register_partition Make.make_deleted_partition Make.make_get_connection_details
    Make.make_tuple_request Make.make_cancel_request Make.make_multiple_in
make Call.done = Make.make_done
make Call.dont_know = Make.make_dont_know
make Call.unblock = Make.make_unblock
make Call.monitor = Make.make_monitor
make Call.list_ts = Make.make_list_ts
make Call.get_routes = Make.make_get_routes
make Call.register_process = Make.make_register_process
make Call.get_node_id = Make.make_get_node_id
make Call.get_neighbours = Make.make_get_neighbours
make (Call.result_string s) = Make.make_result_string s
make (Call.result_int i) = Make.make_result_int i
make (Call.out ts t) = Make.make_out ts t
make (Call.in_ id ts t) = Make.make_in id ts t
make (Call.rd id ts t) = Make.make_rd id ts t
make (Call.inp id ts t) = Make.make_inp id ts t
make (Call.rdp id ts t) = Make.make_rdp id ts t
make (Call.collect ts1 ts2 t) = Make.make_collect ts1 ts2 t
make (Call.copy_collect ts1 ts2 t) = Make.make_copy_collect ts1 ts2 t
make (Call.create_tuplespace id) = Make.make_create_tuplespace id
make (Call.add_reference id ts) = Make.make_add_reference id ts
make (Call.delete_reference id ts) = Make.make_delete_reference id ts
make (Call.register_thread pid) = Make.make_register_thread pid
make (Call.register_partition ts ref) = Make.make_register_partition ts ref
make (Call.deleted_partition ts ref) = Make.make_deleted_partition ts ref
make (Call.get_connection_details id) = Make.make_get_connection_details id
make (Call.tuple_request ts t) = Make.make_tuple_request ts t
make (Call.cancel_request ts t) = Make.make_cancel_request ts t
make (Call.multiple_in ts t) = Make.make_multiple_in ts t

-- memory that was never written reads as zero on the other side
abbrev pub settle_word : {V : Type 0} → Word V → Word V
settle_word junk = nul
settle_word w = w

abbrev pub settle : {V : Type 0} → Message V → Message V
settle m = record m {
  first = settle_word m.first;
  second = settle_word m.second;
  third = settle_word m.third;
}

module _ (c : Codec) (Wire : c.V → Type 0) (InRange : ℤ → Type 0) (process_id : Option String) where
  -- what the trip needs of the arguments
  abbrev pub Carried : Call c.V → Type 0
  Carried (Call.result_int i) = InRange i
  Carried (Call.out ts t) = Wire t
  Carried (Call.in_ id ts t) = Wire t
  Carried (Call.rd id ts t) = Wire t
  Carried (Call.inp id ts t) = Wire t
  Carried (Call.rdp id ts t) = Wire t
  Carried (Call.collect ts1 ts2 t) = Wire t
  Carried (Call.copy_collect ts1 ts2 t) = Wire t
  Carried (Call.register_thread pid) = process_id ≡ some pid
  Carried (Call.tuple_request ts t) = Wire t
  Carried (Call.cancel_request ts t) = Wire t
  Carried (Call.multiple_in ts t) = Wire t
  Carried _ = Unit

  module _ (k : IsCodec c Wire InRange) (types : Bool) where
    build_all-client_nodes :
        (x : Call c.V) (id : Option MsgId)
        → Carried x
        → (client_nodes c types process_id (make x).type (with_msgid id (make x)) >>= λ nodes.
            build_all c nodes (record blank { msgid = id }))
          ≡ ok (settle (with_msgid id (make x)))
    unfolding make client_nodes build ◌+++◌ with_msgid
    build_all-client_nodes Call.done m h = refl
    build_all-client_nodes Call.dont_know m h = refl
    build_all-client_nodes Call.unblock m h = refl
    build_all-client_nodes Call.monitor m h = refl
    build_all-client_nodes Call.list_ts m h = refl
    build_all-client_nodes Call.get_routes m h = refl
    build_all-client_nodes Call.register_process m h = refl
    build_all-client_nodes Call.get_node_id m h = refl
    build_all-client_nodes Call.get_neighbours m h = refl
    build_all-client_nodes (Call.result_string s) m h =
        let e = k.string_node s in rw e.written (rw e.read_back)
    build_all-client_nodes (Call.result_int i) m h =
        let e = k.int_node i h in rw e.written (rw e.read_back)
    build_all-client_nodes (Call.out ts t) m h =
        let e = k.tuple_node types t h in rw e.written (rw e.read_back)
    build_all-client_nodes (Call.in_ id ts t) m h =
        let e = k.tuple_node types t h in rw e.written (rw e.read_back)
    build_all-client_nodes (Call.rd id ts t) m h =
        let e = k.tuple_node types t h in rw e.written (rw e.read_back)
    build_all-client_nodes (Call.inp id ts t) m h =
        let e = k.tuple_node types t h in rw e.written (rw e.read_back)
    build_all-client_nodes (Call.rdp id ts t) m h =
        let e = k.tuple_node types t h in rw e.written (rw e.read_back)
    build_all-client_nodes (Call.collect ts1 ts2 t) m h =
        let e = k.tuple_node types t h in rw e.written (rw e.read_back)
    build_all-client_nodes (Call.copy_collect ts1 ts2 t) m h =
        let e = k.tuple_node types t h in rw e.written (rw e.read_back)
    build_all-client_nodes (Call.create_tuplespace id) m h =
        let e = k.string_node id in rw e.written (rw e.read_back)
    build_all-client_nodes (Call.add_reference id ts) m h =
        let e = k.string_node id in rw e.written (rw e.read_back)
    build_all-client_nodes (Call.delete_reference id ts) m h =
        let e = k.string_node id in rw e.written (rw e.read_back)
    build_all-client_nodes (Call.register_thread pid) m h =
        let e = k.string_node pid in rw h (rw e.written (rw e.read_back))
    build_all-client_nodes (Call.register_partition ts ref) m h =
        let e = k.string_node ref in rw e.written (rw e.read_back)
    build_all-client_nodes (Call.deleted_partition ts ref) m h =
        let e = k.string_node ref in rw e.written (rw e.read_back)
    build_all-client_nodes (Call.get_connection_details id) m h =
        let e = k.string_node id in rw e.written (rw e.read_back)
    build_all-client_nodes (Call.tuple_request ts t) m h =
        let e = k.tuple_node false t h in rw e.written (rw e.read_back)
    build_all-client_nodes (Call.cancel_request ts t) m h =
        let e = k.tuple_node false t h in rw e.written (rw e.read_back)
    build_all-client_nodes (Call.multiple_in ts t) m h =
        let e = k.tuple_node false t h in rw e.written (rw e.read_back)

    abbrev CountInRange : Option MsgId → Type 0
    CountInRange none = Unit
    CountInRange (some id) = InRange id.count

    build_all-msgid_nodes :
        (id : Option MsgId) (nodes : Nodes)
        → CountInRange id
        → build_all c (msgid_nodes c types process_id id nodes) blank
          ≡ build_all c nodes (record blank { msgid = id })
    unfolding msgid_nodes build
    build_all-msgid_nodes none nodes h = refl
    build_all-msgid_nodes (some id) nodes h = rw (k.atoi-show id.count h)

    read-linda :
        (o : Outcome Nodes) (id : Option MsgId)
        → CountInRange id
        → ((o >>= λ nodes. ok (element "linda" [] (msgid_nodes c types process_id id nodes)))
            >>= read_message c)
          ≡ (o >>= λ nodes. build_all c nodes (record blank { msgid = id }))
    unfolding read_message build
    read-linda (ok nodes) id h = build_all-msgid_nodes id nodes h
    read-linda exited id h = refl
    read-linda crash id h = refl

    -- A message made by one of these calls, sent with any id whose count is in range and read by
    -- the receiver, is that message, with the words that nothing wrote read as zero. A tuple of the
    -- message is one that the serialisation carries, a number is in range, and a thread is registered
    -- with the id of the process that sends.
    pub read_message-get_string :
        (x : Call c.V) (id : Option MsgId)
        → Carried x
        → CountInRange id
        → (get_string c types process_id (with_msgid id (make x)) >>= read_message c)
          ≡ ok (settle (with_msgid id (make x)))
    unfolding get_string with_msgid
    read_message-get_string x id h r =
        read-linda (client_nodes c types process_id (make x).type (with_msgid id (make x))) id r
        ∙ build_all-client_nodes x id h
