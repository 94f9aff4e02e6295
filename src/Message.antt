-- ===== src/Message.antt =====
-- liblinda/src/message.c and messageread.c: the messages between a process and its server, and the
-- XML documents that carry them. libxml's printing and parsing of a document are not modelled: a
-- document is the tree that the code builds and walks. The serialisation of a value
-- (minimal/src/serialise.c, parsexml.c) enters by the interface `Message.Codec`.
pub mod Xml
pub mod Codec
pub mod Make
pub mod Write
pub mod Read
pub mod RoundTrip
pub mod Free
pub mod Faults
mod Examples
use pylinda.Base.{String, Option, none}
use pylinda.Base.Int.{ℤ}

-- the enumeration in `struct Message_t`
pub data MessageType : Type 0 where
  done dont_know result_string result_int result_tuple result_type unblock : MessageType
  out in_ rd inp rdp collect copy_collect create_tuplespace : MessageType
  add_reference delete_reference monitor list_ts inspect get_routes : MessageType
  register_process register_thread register_type update_type request_type : MessageType
  my_name_is get_node_id register_partition get_partitions deleted_partition : MessageType
  get_requests get_neighbours get_connection_details : MessageType
  tuple_request cancel_request multiple_in : MessageType

pub record MsgId : Type 0 where
  pub dest : String
  pub source : String
  pub count : ℤ

-- A word of the union in `struct Message_t`: memory that was never written, NULL, a `char*`, a
-- reference to the tuple space of that name, another `LindaValue`, or an `int`.
pub data Word (V : Type 0) : Type 0 where
  junk nul : Word V
  str : String → Word V
  tsref : String → Word V
  val : V → Word V
  int : ℤ → Word V

-- The members of the union share its three words:
-- `string`, `i`, `tuple`, `ts`, `out.ts`, `in.ts`, `rd.ts`, `collect.ts1`, `ref.ts`,
-- `tuple_request.ts` and `typestruct.type_id` are the first; `out.t`, `in.t`, `rd.t`,
-- `collect.ts2`, `ref.tid`, `tuple_request.t` and `typestruct.typeobj` the second; `in.tid`,
-- `rd.tid`, `collect.t` and `typestruct.pid` the third.
pub record Message (V : Type 0) : Type 0 where
  pub type : MessageType
  pub msgid : Option MsgId
  pub first : Word V
  pub second : Word V
  pub third : Word V
