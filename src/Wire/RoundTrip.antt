-- ===== src/Wire/RoundTrip.antt =====
-- Message_send of liblinda/src/message.c followed by Message_recv of liblinda/src/messageread.c.
use pylinda.Base.{
  ℕ, suc, ◌+◌, ◌-◌, ◌≤◌, ◌<◌, ◌≡◌, refl, true, List, ◌∷◌, ◌++◌, length, take, drop, ltb, arith,
}
use pylinda.Wire.{
  Answer, moved, error, htonl, ntohl, sent_all, failed, out_of_bounds, least, send_text, send_frame,
  received, text_length, recv_frame,
}
use pylinda.Wire.Send.{IsMoved, send_loop-IsMoved}
use pylinda.Wire.Recv.{recv_bytes-IsMoved}

ntohl-htonl : (n : ℕ) → n < 2147483648 → text_length (ntohl (htonl n)) ≡ n
ntohl-htonl n h = ground arith

-- When every call of send moves bytes and there are enough of them, the whole frame is sent.
send_frame-IsMoved :
    (answers : List Answer) (text : List ℕ)
    → IsMoved answers
    → 4 + length text ≤ length answers
    → (left : List Answer) × (send_frame answers text ≡ sent_all (htonl (length text) ++ text) left)
unfolding send_frame
send_frame-IsMoved answers text v l =
    let (mid, p, q, r) =
      send_loop-IsMoved failed answers (htonl (length text)) 0 (length text) v (omega arith)
        (omega (arith, l)) in
    let (left, p', q', r') =
      send_loop-IsMoved out_of_bounds mid text 0 0 q (omega arith) (omega (arith, r)) in
    rw (p, p') (left, refl)

recv_frame-IsMoved :
    (answers : List Answer) (text rest : List ℕ)
    → length text < 2147483648
    → IsMoved answers
    → 4 + length text ≤ length answers
    → (left : List Answer) × (recv_frame answers (htonl (length text) ++ (text ++ rest))
        ≡ received text rest left)
unfolding recv_frame
recv_frame-IsMoved answers text rest s v l =
    let (mid, p, q, r) =
      recv_bytes-IsMoved 4 answers (htonl (length text)) (text ++ rest) (length text) (omega arith)
        v (omega (arith, l)) in
    let (left, p', q', r') =
      recv_bytes-IsMoved 102400 mid text rest 0 (omega arith) q (omega (arith, r)) in
    rw (p, ntohl-htonl (length text) s, p') (left, refl)

-- Message_recv reads the text that Message_send sent and leaves what follows it, however the calls of
-- send and recv divide the bytes, when none fails, enough are made, and the text is shorter than
-- 2 ^ 31 bytes.
pub recv_frame-send_frame :
    (sends recvs : List Answer) (text rest : List ℕ)
    → length text < 2147483648
    → IsMoved sends
    → 4 + length text ≤ length sends
    → IsMoved recvs
    → 4 + length text ≤ length recvs
    → (wire : List ℕ) × ((left : List Answer) × (send_frame sends text ≡ sent_all wire left))
      × ((left : List Answer) × (recv_frame recvs (wire ++ rest) ≡ received text rest left))
recv_frame-send_frame sends recvs text rest s v l w k = (
  htonl (length text) ++ text,
  send_frame-IsMoved sends text v l,
  recv_frame-IsMoved recvs text rest s w k,
)

below : {a b : ℕ} → a < b → ltb a b ≡ true
below h = ground arith

least_left : {a b : ℕ} → a < b → least a (b - 0) ≡ a
least_left h = ground arith

zero_add : (n : ℕ) → 0 + n ≡ n
zero_add n = omega arith

-- When send moves k + 1 bytes of a text and then fails once, the loop of Message_send goes on as if k
-- had moved: the byte at k is on the wire twice, and the wire is longer than the text.
pub send_text-error :
    (k : ℕ) (more : List Answer) (text : List ℕ)
    → suc k < length text
    → IsMoved more
    → length text ≤ length more + k
    → (left : List Answer) × (send_text (moved k ∷ error ∷ more) text
        ≡ sent_all (take (suc k) text ++ drop k text) left)
send_text-error k more text s v l =
    let (left, p, q, r) =
      send_loop-IsMoved out_of_bounds more text k 0 v (omega (arith, s)) (omega (arith, l)) in
    let some_text : 0 < length text = omega (arith, s) in
    (left, rw (below some_text, least_left s, zero_add (suc k), below s, p) refl)
