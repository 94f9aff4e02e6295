-- ===== src/Message/Make.antt =====
-- liblinda/src/message.c: the functions that make a message. A message comes from `malloc`, so the
-- words that a function does not write are `junk`. A tuple space reference is given by its name.
-- `Message_send` writes `msgid` before anything reads it.
use pylinda.Base.{String, Option, none, some, if◌then◌else◌}
use pylinda.Base.Int.{ℤ}
use pylinda.Message.{MessageType, Message, Word, junk, nul, str, tsref, val, int}
use pylinda.Message.Codec.{Codec}

abbrev pub fresh : {V : Type 0} → MessageType → Word V → Word V → Word V → Message V
fresh type a b c = record { type = type; msgid = none; first = a; second = b; third = c }

module _ {V : Type 0} where
  unfoldable pub make_done : Message V
  make_done = fresh MessageType.done junk junk junk

  unfoldable pub make_dont_know : Message V
  make_dont_know = fresh MessageType.dont_know junk junk junk

  unfoldable pub make_result_string : String → Message V
  make_result_string text = fresh MessageType.result_string (str text) junk junk

  unfoldable pub make_result_int : ℤ → Message V
  make_result_int i = fresh MessageType.result_int (int i) junk junk

  unfoldable pub make_result_type : V → Message V
  make_result_type t = fresh MessageType.result_type junk (val t) junk

  unfoldable pub make_out : String → V → Message V
  make_out ts t = fresh MessageType.out (tsref ts) (val t) junk

  unfoldable pub make_in : String → String → V → Message V
  make_in thread_id ts t = fresh MessageType.in_ (tsref ts) (val t) (str thread_id)

  unfoldable pub make_rd : String → String → V → Message V
  make_rd thread_id ts t = fresh MessageType.rd (tsref ts) (val t) (str thread_id)

  unfoldable pub make_inp : String → String → V → Message V
  make_inp thread_id ts t = fresh MessageType.inp (tsref ts) (val t) (str thread_id)

  unfoldable pub make_rdp : String → String → V → Message V
  make_rdp thread_id ts t = fresh MessageType.rdp (tsref ts) (val t) (str thread_id)

  unfoldable pub make_collect : String → String → V → Message V
  make_collect ts1 ts2 t = fresh MessageType.collect (tsref ts1) (tsref ts2) (val t)

  unfoldable pub make_copy_collect : String → String → V → Message V
  make_copy_collect ts1 ts2 t = fresh MessageType.copy_collect (tsref ts1) (tsref ts2) (val t)

  unfoldable pub make_unblock : Message V
  make_unblock = fresh MessageType.unblock junk junk junk

  unfoldable pub make_create_tuplespace : String → Message V
  make_create_tuplespace thread_id = fresh MessageType.create_tuplespace (str thread_id) junk junk

  unfoldable pub make_add_reference : String → String → Message V
  make_add_reference thread_id ts = fresh MessageType.add_reference (str ts) (str thread_id) junk

  unfoldable pub make_add_reference2 : String → String → Message V
  make_add_reference2 ts id = fresh MessageType.add_reference (str ts) (str id) junk

  unfoldable pub make_delete_reference : String → String → Message V
  make_delete_reference thread_id ts =
      fresh MessageType.delete_reference (str ts) (str thread_id) junk

  unfoldable pub make_monitor : Message V
  make_monitor = fresh MessageType.monitor junk junk junk

  unfoldable pub make_list_ts : Message V
  make_list_ts = fresh MessageType.list_ts junk junk junk

  unfoldable pub make_inspect : String → Message V
  make_inspect ts = fresh MessageType.inspect (str ts) junk junk

  unfoldable pub make_get_routes : Message V
  make_get_routes = fresh MessageType.get_routes junk junk junk

  unfoldable pub make_register_process : Message V
  make_register_process = fresh MessageType.register_process junk junk junk

  unfoldable pub make_register_thread : String → Message V
  make_register_thread process_id = fresh MessageType.register_thread (str process_id) junk junk

  unfoldable pub make_register_type : V → Message V
  make_register_type t = fresh MessageType.register_type nul (val t) nul

  unfoldable pub make_update_type : String → V → Message V
  make_update_type type_id t = fresh MessageType.update_type (str type_id) (val t) nul

  unfoldable pub make_request_type : String → Message V
  make_request_type type_id = fresh MessageType.request_type (str type_id) junk junk

  unfoldable pub make_my_name_is : String → Message V
  make_my_name_is name = fresh MessageType.my_name_is (str name) junk junk

  unfoldable pub make_get_node_id : Message V
  make_get_node_id = fresh MessageType.get_node_id junk junk junk

  unfoldable pub make_register_partition : String → String → Message V
  make_register_partition ts ref = fresh MessageType.register_partition (str ts) (str ref) junk

  unfoldable pub make_get_partitions : String → Message V
  make_get_partitions ts = fresh MessageType.get_partitions (str ts) junk junk

  unfoldable pub make_deleted_partition : String → String → Message V
  make_deleted_partition ts ref = fresh MessageType.deleted_partition (str ts) (str ref) junk

  unfoldable pub make_get_requests : String → Message V
  make_get_requests ts = fresh MessageType.get_requests (str ts) junk junk

  unfoldable pub make_get_neighbours : Message V
  make_get_neighbours = fresh MessageType.get_neighbours junk junk junk

  unfoldable pub make_get_connection_details : String → Message V
  make_get_connection_details id = fresh MessageType.get_connection_details (str id) junk junk

  unfoldable pub make_tuple_request : String → V → Message V
  make_tuple_request ts t = fresh MessageType.tuple_request (tsref ts) (val t) junk

  unfoldable pub make_cancel_request : String → V → Message V
  make_cancel_request ts t = fresh MessageType.cancel_request (tsref ts) (val t) junk

  unfoldable pub make_multiple_in : String → V → Message V
  make_multiple_in ts t = fresh MessageType.multiple_in (tsref ts) (val t) junk

-- Anything but a tuple is refused with NULL.
unfoldable pub make_result_tuple : (c : Codec) → c.V → Option (Message c.V)
make_result_tuple c t =
    if c.is_tuple t then some (fresh MessageType.result_tuple (val t) junk junk) else none
