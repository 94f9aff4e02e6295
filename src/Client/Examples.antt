-- ===== src/Client/Examples.antt =====
-- Tests of liblinda/src/linda.c and tuplespace.c, and the theorems for concrete calls. A tuple is a
-- number here.
use pylinda.Base.{ℕ, false, ◌≡◌, refl, none, some, List, [], ◌∷◌, ok}
use pylinda.Base.Int.{pos}
use pylinda.Message.{MsgId, nul, val}
use pylinda.Message.Make.{make_rdp}
use pylinda.Message.Free.{freed, dropped_ts, dropped, message_free, free_words, free_msgid}
use pylinda.Client.{
  Event, made, sent, took, gave_up, client_in, client_rd, client_inp, client_rdp, client_collect,
  client_copy_collect, add_ts_reference, del_ts_reference,
}
use pylinda.Client.Balance.{
  Operation, IsBalanced, Keeps, perform, perform-IsBalanced, unread_answers,
}

abbrev an_id : MsgId
an_id = record { dest = "d"; source = "s"; count = pos 3 }

abbrev template : ℕ
template = 7

abbrev found : ℕ
found = 9

-- a probe that finds a tuple
perform-IsBalanced_example :
    IsBalanced (perform "t1" (some an_id) (Operation.rdp "ts" template found))
perform-IsBalanced_example =
    perform-IsBalanced "t1" (some an_id) (Operation.rdp "ts" template found)

-- the events of a probe whose answer cannot be read
abbrev unread : List (Event ℕ)
unread =
    took (val 7)
    ∷ made (make_rdp "t1" "ts" 7)
    ∷ sent (make_rdp "t1" "ts" 7)
    ∷ gave_up (freed "t1" ∷ dropped_ts "ts" ∷ dropped 7 ∷ [])
    ∷ []

probes : client_rdp "t1" "ts" 7 none ≡ ok (unread, nul)
unfolding client_rdp make_rdp message_free free_words free_msgid
probes = refl

unread_answers_example :
    IsBalanced (client_in "t1" "ts" template none)
    × IsBalanced (client_rd "t1" "ts" template none)
    × IsBalanced (client_inp "t1" "ts" template none)
    × IsBalanced (client_collect "t1" "ts" "us" template none)
    × IsBalanced (client_copy_collect "t1" "ts" "us" template none)
    × IsBalanced (add_ts_reference {V = ℕ} "t1" false 1 "ts" none)
    × IsBalanced (del_ts_reference {V = ℕ} "t1" false 1 "ts" none)
    × Keeps template (client_rdp "t1" "ts" template none)
unread_answers_example = unread_answers "t1" "ts" "us" template false 1
