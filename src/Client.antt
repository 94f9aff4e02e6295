-- ===== src/Client.antt =====
-- liblinda/src/linda.c and tuplespace.c: the operations of a client, as what they do with the answer
-- of the server, without the parts that only a build with types has. An operation makes a message,
-- sends and frees it, and reads the answer, or NULL when reading fails.
pub mod Balance
mod Examples
use pylinda.Base.{
  ℕ, String, Bool, true, false, ◌||◌, Option, none, some, List, [], ◌∷◌, ◌++◌, Outcome, ok, exited,
  crash, ◌>>=◌, str_eq, ◌==◌, if◌then◌else◌,
}
use pylinda.Base.Int.{ℤ, pos, negsuc}
use pylinda.Message.{MessageType, Message, Word, nul, str, tsref, val, int}
use pylinda.Message.Make.{
  make_in, make_rd, make_inp, make_rdp, make_collect, make_copy_collect, make_create_tuplespace,
  make_add_reference, make_delete_reference,
}
use pylinda.Message.Free.{Release, message_free}

-- What an operation does, in order: a message is made, with references and strings of its own, is
-- sent, and is received; a reference is taken and given back; a message's parts are given up.
pub data Event (V : Type 0) : Type 0 where
  made : Message V → Event V
  sent : Message V → Event V
  received : Message V → Event V
  took : Word V → Event V
  gave : Word V → Event V
  gave_up : List (Release V) → Event V

-- the events of a call, and what it returns
abbrev pub Run : Type 0 → Type 0
Run V = Outcome (List (Event V) × Word V)

abbrev pub is_unblock : MessageType → Bool
is_unblock MessageType.unblock = true
is_unblock _ = false

-- the guards of `Linda_addTSReference` and `Linda_delTSReference`: the calls of a server, for the
-- universal tuple space, or after the last connection is closed, do nothing
abbrev pub passes : (is_server : Bool) (connections : ℕ) → String → Bool
passes is_server connections ts = is_server || str_eq ts "UTS" || (connections == 0)

module _ {V : Type 0} where
  abbrev pub after : List (Event V) → Run V → Run V
  after es (ok (fs, r)) = ok (es ++ fs, r)
  after es exited = exited
  after es crash = crash

  -- `Message_send(tdata->sd, NULL, m); Message_free(m);`
  abbrev pub request : Message V → Run V → Run V
  request m rest = elim (message_free m) [
    | ok rs ↦ after (made m ∷ sent m ∷ gave_up rs ∷ []) rest
    | exited ↦ exited
    | crash ↦ crash
  ]

  -- `Message_free(m); Linda_delReference(t); return r;`
  abbrev pub finish : Message V → List (Event V) → Word V → Run V
  finish m es r = elim (message_free m) [
    | ok rs ↦ ok (gave_up rs ∷ es, r)
    | exited ↦ exited
    | crash ↦ crash
  ]

  -- `Linda_addReference(m->tuple); r = m->tuple;` and the rest; `m->tuple` is an object or not
  abbrev pub take_tuple : V → Message V → Word V → Run V
  take_tuple t m (val v) =
      after (received m ∷ took (val v) ∷ []) (finish m (gave (val t) ∷ []) (val v))
  take_tuple t m (tsref s) =
      after (received m ∷ took (tsref s) ∷ []) (finish m (gave (val t) ∷ []) (tsref s))
  take_tuple t m _ = crash

  -- the answer of a call that blocks
  abbrev pub blocking_answer : V → Option (Message V) → Run V
  blocking_answer t none = ok (gave (val t) ∷ [], nul)
  blocking_answer t (some m) = take_tuple t m m.first

  -- the answer of a call that does not block, when it can be read
  abbrev pub probing_answer : V → Message V → Run V
  probing_answer t m =
      if is_unblock m.type
      then after (received m ∷ []) (finish m (gave (val t) ∷ []) nul)
      else take_tuple t m m.first

  abbrev pub inp_answer : V → Option (Message V) → Run V
  inp_answer t none = ok (gave (val t) ∷ [], nul)
  inp_answer t (some m) = probing_answer t m

  abbrev pub rdp_answer : V → Option (Message V) → Run V
  rdp_answer t none = ok ([], nul)
  rdp_answer t (some m) = probing_answer t m

  -- the word `m->i`, when it was written as a number
  abbrev pub take_number : Message V → Word V → Run V
  take_number m (int i) = after (received m ∷ []) (finish m [] (int i))
  take_number m _ = crash

  abbrev pub collect_answer : Option (Message V) → Run V
  collect_answer none = ok ([], int (negsuc 0))
  collect_answer (some m) = take_number m m.first

  module _ (thread_id : String) where
    -- `Linda_in`, `Linda_rd`, `Linda_inp` and `Linda_rdp`
    unfoldable pub client_in : String → V → Option (Message V) → Run V
    client_in ts t reply =
        after (took (val t) ∷ []) (request (make_in thread_id ts t) (blocking_answer t reply))

    unfoldable pub client_rd : String → V → Option (Message V) → Run V
    client_rd ts t reply =
        after (took (val t) ∷ []) (request (make_rd thread_id ts t) (blocking_answer t reply))

    unfoldable pub client_inp : String → V → Option (Message V) → Run V
    client_inp ts t reply =
        after (took (val t) ∷ []) (request (make_inp thread_id ts t) (inp_answer t reply))

    unfoldable pub client_rdp : String → V → Option (Message V) → Run V
    client_rdp ts t reply =
        after (took (val t) ∷ []) (request (make_rdp thread_id ts t) (rdp_answer t reply))

    -- `Linda_collect` and `Linda_copy_collect`
    unfoldable pub client_collect : String → String → V → Option (Message V) → Run V
    client_collect ts1 ts2 t reply = request (make_collect ts1 ts2 t) (collect_answer reply)

    unfoldable pub client_copy_collect : String → String → V → Option (Message V) → Run V
    client_copy_collect ts1 ts2 t reply =
        request (make_copy_collect ts1 ts2 t) (collect_answer reply)

    -- `Minimal_tupleSpace(m->string)` is a new object
    abbrev pub named : Message V → MessageType → Word V → Run V
    named m MessageType.result_string (str s) =
        after (received m ∷ took (tsref s) ∷ []) (finish m [] (tsref s))
    named m MessageType.result_string _ = crash
    named m _ _ = ok (received m ∷ [], nul)

    -- the string of a L_RESULT_STRING; a message of another type is not freed
    abbrev pub tuplespace_answer : Option (Message V) → Run V
    tuplespace_answer none = ok ([], nul)
    tuplespace_answer (some m) = named m m.type m.first

    -- `Linda_createTuplespace`
    unfoldable pub client_create_tuplespace : Option (Message V) → Run V
    client_create_tuplespace reply =
        request (make_create_tuplespace thread_id) (tuplespace_answer reply)

    -- `Message_free(Message_recv(...))`, which does nothing for NULL
    abbrev pub freed_answer : Option (Message V) → Run V
    freed_answer none = ok ([], nul)
    freed_answer (some m) = after (received m ∷ []) (finish m [] nul)

    unfoldable pub add_ts_reference : Bool → ℕ → String → Option (Message V) → Run V
    add_ts_reference server n ts reply =
        if passes server n ts
        then ok ([], nul)
        else request (make_add_reference thread_id ts) (freed_answer reply)

    unfoldable pub del_ts_reference : Bool → ℕ → String → Option (Message V) → Run V
    del_ts_reference server n ts reply =
        if passes server n ts
        then ok ([], nul)
        else request (make_delete_reference thread_id ts) (freed_answer reply)
