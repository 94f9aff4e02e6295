-- ===== src/Message/Free.antt =====
-- `Message_free` of liblinda/src/message.c: what it frees and which references it gives up.
use mathlib.Core.List.{Perm}
use mathlib.Core.List.Perm
use pylinda.Base.{
  String, ◌≡◌, refl, Option, none, some, List, [], ◌∷◌, ◌++◌, Outcome, ok, crash, ◌>>=◌,
}
use pylinda.Message.{MessageType, MsgId, Message, Word, nul, str, tsref, val}
use pylinda.Message.Write.{with_msgid}
use pylinda.Message.RoundTrip.{Call, make, settle}

-- one call of `free` on a string, or of `Linda_delReference`
pub data Release (V : Type 0) : Type 0 where
  freed : String → Release V
  dropped_ts : String → Release V
  dropped : V → Release V

module _ {V : Type 0} where
  -- `free(w)` of a `char*`: nothing for NULL; freeing a reference-counted object in this way or a
  -- pointer that was never written is a crash
  abbrev pub free_str : Word V → Outcome (List (Release V))
  free_str (str s) = ok (freed s ∷ [])
  free_str nul = ok []
  free_str _ = crash

  -- `Linda_delReference(w)`: NULL is dereferenced
  abbrev pub del_ref : Word V → Outcome (List (Release V))
  del_ref (tsref s) = ok (dropped_ts s ∷ [])
  del_ref (val v) = ok (dropped v ∷ [])
  del_ref _ = crash

  -- `if(w != NULL) { free(w); }`
  abbrev pub free_if : Word V → Outcome (List (Release V))
  free_if w = free_str w

  infixr 5 ◌then◌
  abbrev ◌then◌ :
      Outcome (List (Release V)) → Outcome (List (Release V)) → Outcome (List (Release V))
  a then b = do x ← a; y ← b; ok (x ++ y)

  -- the `switch`
  unfoldable pub free_words : MessageType → (a b c : Word V) → Outcome (List (Release V))
  free_words MessageType.done a b c = ok []
  free_words MessageType.dont_know a b c = ok []
  free_words MessageType.result_int a b c = ok []
  free_words MessageType.unblock a b c = ok []
  free_words MessageType.monitor a b c = ok []
  free_words MessageType.list_ts a b c = ok []
  free_words MessageType.get_routes a b c = ok []
  free_words MessageType.register_process a b c = ok []
  free_words MessageType.get_node_id a b c = ok []
  free_words MessageType.get_neighbours a b c = ok []
  free_words MessageType.result_string a b c = free_str a
  free_words MessageType.create_tuplespace a b c = free_str a
  free_words MessageType.register_thread a b c = free_str a
  free_words MessageType.my_name_is a b c = free_str a
  free_words MessageType.inspect a b c = free_str a
  free_words MessageType.get_connection_details a b c = free_str a
  free_words MessageType.result_tuple a b c = del_ref a
  free_words MessageType.result_type a b c = del_ref b
  free_words MessageType.out a b c = del_ref a then del_ref b
  free_words MessageType.tuple_request a b c = del_ref a then del_ref b
  free_words MessageType.cancel_request a b c = del_ref a then del_ref b
  free_words MessageType.multiple_in a b c = del_ref a then del_ref b
  free_words MessageType.rd a b c = free_str c then del_ref a then del_ref b
  free_words MessageType.rdp a b c = free_str c then del_ref a then del_ref b
  free_words MessageType.in_ a b c = free_str c then del_ref a then del_ref b
  free_words MessageType.inp a b c = free_str c then del_ref a then del_ref b
  free_words MessageType.collect a b c = del_ref a then del_ref b then del_ref c
  free_words MessageType.copy_collect a b c = del_ref a then del_ref b then del_ref c
  free_words MessageType.add_reference a b c = free_str a then free_str b
  free_words MessageType.delete_reference a b c = free_str a then free_str b
  free_words MessageType.register_partition a b c = free_str a then free_str b
  free_words MessageType.deleted_partition a b c = free_str a then free_str b
  free_words MessageType.register_type a b c = del_ref b then free_if a then free_if c
  free_words MessageType.update_type a b c = del_ref b then free_if a then free_if c
  free_words MessageType.request_type a b c = free_str a
  free_words MessageType.get_partitions a b c = free_str a
  free_words MessageType.get_requests a b c = free_str a

  unfoldable pub free_msgid : Option MsgId → List (Release V)
  free_msgid none = []
  free_msgid (some id) = freed id.source ∷ freed id.dest ∷ []

  -- `Message_free`
  unfoldable pub message_free : Message V → Outcome (List (Release V))
  unfolding free_words free_msgid
  message_free m = do
    rest ← free_words m.type m.first m.second m.third
    ok (free_msgid m.msgid ++ rest)

  -- what the words of a message own
  abbrev pub owned_word : Word V → List (Release V)
  owned_word (str s) = freed s ∷ []
  owned_word (tsref s) = dropped_ts s ∷ []
  owned_word (val v) = dropped v ∷ []
  owned_word _ = []

  abbrev pub owned : Message V → List (Release V)
  owned m = owned_word m.first ++ (owned_word m.second ++ owned_word m.third)

  rotate_three : (a b c : Release V) → Perm (c ∷ a ∷ b ∷ []) (a ∷ b ∷ c ∷ [])
  rotate_three a b c = Perm.trans (Perm.swap a c (b ∷ [])) (Perm.cons a (Perm.swap b c []))

  abbrev free_made : Call V → Outcome (List (Release V))
  free_made x = free_words (make x).type (make x).first (make x).second (make x).third

  abbrev free_settled : Call V → Outcome (List (Release V))
  free_settled x = let m = settle (make x) in free_words m.type m.first m.second m.third

  free_words-owned :
      (x : Call V) → (rs : List (Release V)) × (free_made x ≡ ok rs) × Perm rs (owned (make x))
  unfolding make free_words
  free_words-owned (Call.in_ id ts t) = (_, refl, rotate_three _ _ _)
  free_words-owned (Call.rd id ts t) = (_, refl, rotate_three _ _ _)
  free_words-owned (Call.inp id ts t) = (_, refl, rotate_three _ _ _)
  free_words-owned (Call.rdp id ts t) = (_, refl, rotate_three _ _ _)
  free_words-owned x = (owned (make x), refl, Perm.refl _)

  free_words_settle : (x : Call V) → free_settled x ≡ free_made x
  unfolding make free_words
  free_words_settle Call.done = refl
  free_words_settle _ = refl

  -- A message of one of these calls, with any id, is freed without a crash: each string and each
  -- reference that its words hold is given up once and nothing else is, together with the two
  -- strings of the id. This holds of the message as the sender made it and as the receiver has it.
  pub message_free-owned :
      (x : Call V) (id : Option MsgId)
      → (rs : List (Release V)) × (message_free (with_msgid id (make x)) ≡ ok (free_msgid id ++ rs))
        × (message_free (settle (with_msgid id (make x))) ≡ ok (free_msgid id ++ rs))
        × Perm rs (owned (make x))
  unfolding message_free with_msgid
  message_free-owned x id =
      let (rs, e, p) = free_words-owned x in (rs, rw e, rw (free_words_settle x) (rw e), p)
