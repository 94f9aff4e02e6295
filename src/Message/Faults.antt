-- ===== src/Message/Faults.antt =====
-- The messages that do not survive the trip between liblinda/src/message.c and messageread.c.
use pylinda.Base.{
  String, ◌≡◌, refl, Bool, true, false, Option, none, some, Outcome, ok, exited, crash, ◌>>=◌, [],
  ◌∷◌,
}
use pylinda.Base.Int.{ℤ}
use pylinda.Message.{MessageType, Message, nul, str, val}
use pylinda.Message.Codec.{Codec, IsCodec}
use pylinda.Message.Xml.{element, ◌+++◌}
use pylinda.Message.Make
use pylinda.Message.Write.{get_string}
use pylinda.Message.Read.{read_message}
use pylinda.Message.Free.{message_free, freed}

module _ (c : Codec) (types : Bool) (process_id : Option String) where
  -- what the receiver makes of a message
  abbrev pub trip : Message c.V → Outcome (Message c.V)
  trip m = get_string c types process_id m >>= read_message c

  -- Both the request for a type and its answer are written under a name that the receiver does not
  -- know, so reading either ends the receiving process.
  pub trip-type :
      (type_id : String) (t : c.V)
      → (trip (Make.make_request_type type_id) ≡ exited) × (trip (Make.make_result_type t) ≡ exited)
  unfolding get_string read_message Make.make_request_type Make.make_result_type
  trip-type type_id t = (refl, refl)

module _ (c : Codec) (Wire : c.V → Type 0) (InRange : ℤ → Type 0) (k : IsCodec c Wire InRange)
    (types : Bool) (pid : String) where
  -- The receiver of a registration of a type finds the sender's process id where the type's id
  -- belongs, and no process id; of an update it finds both where they belong.
  pub trip-register_type :
      (type_id : String) (t : c.V)
      → (m n : Message c.V) × (trip c types (some pid) (Make.make_register_type t) ≡ ok m)
        × (trip c types (some pid) (Make.make_update_type type_id t) ≡ ok n)
        × (m.first ≡ str pid)
        × (m.third ≡ nul)
        × (n.first ≡ str type_id)
        × (n.third ≡ str pid)
  unfolding get_string read_message Make.make_register_type Make.make_update_type ◌+++◌
  trip-register_type type_id t =
      let p = k.string_node pid in
      let i = k.string_node type_id in
      (
        record {
          type = MessageType.register_type;
          msgid = none;
          first = str pid;
          second = val (c.xml_to_value (element "element" [] (c.serialise types false t)));
          third = nul;
        },
        record {
          type = MessageType.update_type;
          msgid = none;
          first = str type_id;
          second = val (c.xml_to_value (element "element" [] (c.serialise types true t)));
          third = str pid;
        },
        rw (p.written, p.read_back),
        rw (p.written, i.written, p.read_back, i.read_back),
        refl,
        refl,
        refl,
        refl,
      )

-- The messages that ask about a tuple space.
pub data Question : Type 0 where
  partitions requests inspect : Question

unfoldable pub ask : {V : Type 0} → Question → String → Message V
unfolding Make.make_get_partitions Make.make_get_requests Make.make_inspect
ask partitions ts = Make.make_get_partitions ts
ask requests ts = Make.make_get_requests ts
ask inspect ts = Make.make_inspect ts

module _ (c : Codec) (types : Bool) (process_id : Option String) where
  -- The sender can free a question about a tuple space. The receiver can neither free it nor send
  -- it on: the reader keeps a reference where the writer and `Message_free` expect a string.
  pub trip-ask :
      (q : Question) (ts : String)
      → (m : Message c.V) × (trip c types process_id (ask q ts) ≡ ok m)
        × (message_free (ask {V = c.V} q ts) ≡ ok (freed ts ∷ []))
        × (message_free m ≡ crash)
        × (get_string c types process_id m ≡ crash)
  unfolding get_string read_message ask message_free
  trip-ask partitions ts = (_, refl, refl, refl, refl)
  trip-ask requests ts = (_, refl, refl, refl, refl)
  trip-ask inspect ts = (_, refl, refl, refl, refl)
