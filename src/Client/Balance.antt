-- ===== src/Client/Balance.antt =====
-- The references and strings that the operations of liblinda/src/linda.c and tuplespace.c take are
-- given up, but for those of the result.
use pylinda.Base.{
  ℕ, ◌+◌, String, Bool, true, false, ◌≡◌, Option, none, some, List, [], ◌∷◌, ◌++◌, ok, exited,
  crash, if◌then◌else◌, arith,
}
use pylinda.Base.Int.{ℤ}
use pylinda.Message.{MessageType, MsgId, Message, junk, nul, str, val, int}
use pylinda.Message.Make.{
  make_in, make_rd, make_inp, make_rdp, make_collect, make_copy_collect, make_create_tuplespace,
  make_add_reference, make_delete_reference, fresh,
}
use pylinda.Message.Write.{with_msgid}
use pylinda.Message.Free.{Release, dropped, message_free, free_words, free_msgid, owned_word, owned}
use pylinda.Client.{
  Event, made, received, took, gave, gave_up, Run, request, freed_answer, passes, client_in,
  client_rd, client_inp, client_rdp, client_collect, client_copy_collect, client_create_tuplespace,
  add_ts_reference, del_ts_reference,
}

-- the answers of a server: a tuple, a tuple space as the tuple, nothing found, a number, a name, done
pub data Answer (V : Type 0) : Type 0 where
  tuple : V → Answer V
  unblock : Answer V
  number : ℤ → Answer V
  name : String → Answer V
  done : Answer V

-- the operations with the answers that they are made for
pub data Operation (V : Type 0) : Type 0 where
  in_ rd : (ts : String) (t v : V) → Operation V
  inp rdp : (ts : String) (t v : V) → Operation V
  inp_nothing rdp_nothing : (ts : String) (t : V) → Operation V
  collect copy_collect : (ts1 ts2 : String) (t : V) (i : ℤ) → Operation V
  create_tuplespace : String → Operation V
  add_ts del_ts : (server : Bool) (connections : ℕ) (ts : String) → Operation V

module _ {V : Type 0} where
  abbrev answer_message : Answer V → Message V
  answer_message (tuple v) = fresh MessageType.result_tuple (val v) junk junk
  answer_message unblock = fresh MessageType.unblock junk junk junk
  answer_message (number i) = fresh MessageType.result_int (int i) junk junk
  answer_message (name s) = fresh MessageType.result_string (str s) junk junk
  answer_message done = fresh MessageType.done junk junk junk

  -- the answer as it is received, with an id
  abbrev pub reply : Option MsgId → Answer V → Option (Message V)
  reply id a = some (with_msgid id (answer_message a))

  -- how much a list is worth, each element by itself
  unfoldable pub worth : (Release V → ℕ) → List (Release V) → ℕ
  worth f [] = 0
  worth f (r ∷ rs) = f r + worth f rs

  worth-append :
      (f : Release V → ℕ) (xs ys : List (Release V)) → worth f (xs ++ ys) ≡ worth f xs + worth f ys
  unfolding worth
  worth-append f [] ys = omega arith
  worth-append f (x ∷ xs) ys = omega (arith, worth-append f xs ys)

  abbrev gain : (Release V → ℕ) → Event V → ℕ
  gain f (made m) = worth f (owned m)
  gain f (received m) = worth f (free_msgid m.msgid ++ owned m)
  gain f (took w) = worth f (owned_word w)
  gain f _ = 0

  abbrev loss : (Release V → ℕ) → Event V → ℕ
  loss f (gave w) = worth f (owned_word w)
  loss f (gave_up rs) = worth f rs
  loss f _ = 0

  abbrev gains : (Release V → ℕ) → List (Event V) → ℕ
  gains f [] = 0
  gains f (e ∷ es) = gain f e + gains f es

  abbrev losses : (Release V → ℕ) → List (Event V) → ℕ
  losses f [] = 0
  losses f (e ∷ es) = loss f e + losses f es

  -- The call returns; all references and strings that come are given up again, each as often, but for
  -- those of the result. Any worth that may be put on them counts them.
  unfoldable pub IsBalanced : Run V → Type 0
  IsBalanced (ok (es, r)) = (f : Release V → ℕ) → gains f es ≡ losses f es + worth f (owned_word r)
  IsBalanced exited = ⊥
  IsBalanced crash = ⊥

  -- the call returns with a reference to `t` that it neither gives up nor returns
  unfoldable pub Keeps : V → Run V → Type 0
  Keeps t (ok (es, r)) =
      (f : Release V → ℕ) → gains f es ≡ losses f es + worth f (owned_word r) + f (dropped t)
  Keeps t exited = ⊥
  Keeps t crash = ⊥

  module _ (thread_id : String) (id : Option MsgId) where
    abbrev pub perform : Operation V → Run V
    perform (in_ ts t v) = client_in thread_id ts t (reply id (tuple v))
    perform (rd ts t v) = client_rd thread_id ts t (reply id (tuple v))
    perform (inp ts t v) = client_inp thread_id ts t (reply id (tuple v))
    perform (rdp ts t v) = client_rdp thread_id ts t (reply id (tuple v))
    perform (inp_nothing ts t) = client_inp thread_id ts t (reply id unblock)
    perform (rdp_nothing ts t) = client_rdp thread_id ts t (reply id unblock)
    perform (collect ts1 ts2 t i) = client_collect thread_id ts1 ts2 t (reply id (number i))
    perform (copy_collect ts1 ts2 t i) =
        client_copy_collect thread_id ts1 ts2 t (reply id (number i))
    perform (create_tuplespace ts) = client_create_tuplespace thread_id (reply id (name ts))
    perform (add_ts server n ts) = add_ts_reference thread_id server n ts (reply id done)
    perform (del_ts server n ts) = del_ts_reference thread_id server n ts (reply id done)

module _ (V : Type 0) where
  add_unread :
      (thread_id : String) (b : Bool) (ts : String)
      → IsBalanced {V = V} (
          if b
          then ok ([], nul)
          else request (make_add_reference thread_id ts) (freed_answer thread_id none))
  unfolding IsBalanced worth message_free free_words make_add_reference
  add_unread thread_id true ts = λ f. omega arith
  add_unread thread_id false ts = λ f. omega arith

  del_unread :
      (thread_id : String) (b : Bool) (ts : String)
      → IsBalanced {V = V} (
          if b
          then ok ([], nul)
          else request (make_delete_reference thread_id ts) (freed_answer thread_id none))
  unfolding IsBalanced worth message_free free_words make_delete_reference
  del_unread thread_id true ts = λ f. omega arith
  del_unread thread_id false ts = λ f. omega arith

module _ {V : Type 0} where
  -- When the answer cannot be read, Linda_in, Linda_rd, Linda_inp, Linda_collect,
  -- Linda_copy_collect, Linda_addTSReference and Linda_delTSReference return, and give up all that they
  -- have taken and made; Linda_rdp returns and keeps a reference to its tuple, which it does not return.
  pub unread_answers :
      (thread_id ts ts2 : String) (t : V) (server : Bool) (n : ℕ)
      → IsBalanced (client_in thread_id ts t none)
        × IsBalanced (client_rd thread_id ts t none)
        × IsBalanced (client_inp thread_id ts t none)
        × IsBalanced (client_collect thread_id ts ts2 t none)
        × IsBalanced (client_copy_collect thread_id ts ts2 t none)
        × IsBalanced {V = V} (add_ts_reference thread_id server n ts none)
        × IsBalanced {V = V} (del_ts_reference thread_id server n ts none)
        × Keeps t (client_rdp thread_id ts t none)
  unfolding IsBalanced Keeps worth message_free free_words client_in client_rd client_inp client_rdp
      client_collect client_copy_collect make_in make_rd make_inp make_rdp make_collect
      make_copy_collect add_ts_reference del_ts_reference
  unread_answers thread_id ts ts2 t server n = (
    λ f. omega arith,
    λ f. omega arith,
    λ f. omega arith,
    λ f. omega arith,
    λ f. omega arith,
    add_unread V thread_id (passes server n ts) ts,
    del_unread V thread_id (passes server n ts) ts,
    λ f. omega arith,
  )

module _ (V : Type 0) (thread_id : String) (id : Option MsgId) where
  add_ts-IsBalanced :
      (b : Bool) (ts : String)
      → IsBalanced {V = V} (
          if b
          then ok ([], nul)
          else request (make_add_reference thread_id ts) (freed_answer thread_id (reply id done)))
  unfolding IsBalanced worth message_free free_words with_msgid make_add_reference
  add_ts-IsBalanced true ts = λ f. omega arith
  add_ts-IsBalanced false ts = λ f. omega arith

  del_ts-IsBalanced :
      (b : Bool) (ts : String)
      → IsBalanced {V = V} (
          if b
          then ok ([], nul)
          else request
              (make_delete_reference thread_id ts)
              (freed_answer thread_id (reply id done)))
  unfolding IsBalanced worth message_free free_words with_msgid make_delete_reference
  del_ts-IsBalanced true ts = λ f. omega arith
  del_ts-IsBalanced false ts = λ f. omega arith

module _ {V : Type 0} (thread_id : String) (id : Option MsgId) where
  -- An operation that gets an answer of the kind that it is made for returns, and gives up each
  -- reference and each string that it has taken, made or received as often as it came, but for the
  -- one reference of its result.
  pub perform-IsBalanced : (o : Operation V) → IsBalanced (perform thread_id id o)
  unfolding IsBalanced worth message_free free_words with_msgid client_in client_rd client_inp
      client_rdp client_collect client_copy_collect client_create_tuplespace add_ts_reference
      del_ts_reference make_in make_rd make_inp make_rdp make_collect make_copy_collect
      make_create_tuplespace
  perform-IsBalanced (add_ts server n ts) = add_ts-IsBalanced V thread_id id (passes server n ts) ts
  perform-IsBalanced (del_ts server n ts) = del_ts-IsBalanced V thread_id id (passes server n ts) ts
  perform-IsBalanced o = λ f. omega arith
