-- ===== src/Wire.antt =====
-- The framing of Message_send in liblinda/src/message.c and of Message_recv in
-- liblinda/src/messageread.c: four bytes of length, most significant first, and the text. What the
-- calls of send and recv answer is a script; bytes are natural numbers.
pub mod Send
pub mod Recv
pub mod RoundTrip
mod Examples
use pylinda.Base.{
  ℕ, zero, suc, ◌+◌, ◌-◌, ◌*◌, ◌/◌, ◌%◌, ◌^◌, Bool, true, false, Option, none, some, List, [], ◌∷◌,
  ◌++◌, length, take, drop, ltb, leb, if◌then◌else◌,
}

-- A call of send or recv moves one byte more than the number, or all that was asked for if that is
-- less; or it returns -1.
pub data Answer : Type 0 where
  moved : ℕ → Answer
  error : Answer

abbrev pub least : ℕ → ℕ → ℕ
least a b = if leb a b then a else b

-- `htonl`, as the bytes that are sent
abbrev pub htonl : ℕ → List ℕ
htonl n = n / 16777216 % 256 ∷ n / 65536 % 256 ∷ n / 256 % 256 ∷ n % 256 ∷ []

-- the number that four received bytes are, before it is read as a signed one
abbrev pub ntohl : List ℕ → ℕ
ntohl (a ∷ b ∷ c ∷ d ∷ _) = a * 16777216 + b * 65536 + c * 256 + d
ntohl _ = 0

-- How a loop over `send` ends: with all bytes sent and the answers left over, with the return after
-- the report of an error, with a read before the array, or it waits.
pub data Sending : Type 0 where
  sent_all : (wire : List ℕ) → (left : List Answer) → Sending
  failed : (wire : List ℕ) → Sending
  out_of_bounds : (wire : List ℕ) → Sending
  waiting : (wire : List ℕ) → Sending

-- the bytes already on the wire before those of a loop
abbrev pub after : List ℕ → Sending → Sending
after bs (sent_all wire left) = sent_all (bs ++ wire) left
after bs (failed wire) = failed (bs ++ wire)
after bs (out_of_bounds wire) = out_of_bounds (bs ++ wire)
after bs (waiting wire) = waiting (bs ++ wire)

-- `sent` bytes of `buf` are gone. An error takes one off `sent`; `stop` is what comes of an error
-- before the first byte.
abbrev pub send_loop : (stop : List ℕ → Sending) → List Answer → List ℕ → ℕ → Sending
send_loop stop [] buf sent = if ltb sent (length buf) then waiting [] else sent_all [] []
send_loop stop (moved k ∷ more) buf sent =
    let n = least (suc k) (length buf - sent) in
    let rest = send_loop stop more buf (sent + n) in
    if ltb sent (length buf)
    then after (take n (drop sent buf)) rest
    else sent_all [] (moved k ∷ more)
send_loop stop (error ∷ more) buf zero =
    if ltb 0 (length buf) then stop [] else sent_all [] (error ∷ more)
send_loop stop (error ∷ more) buf (suc sent) =
    let rest = send_loop stop more buf sent in
    if ltb (suc sent) (length buf) then rest else sent_all [] (error ∷ more)

-- the loop over the length returns on an error before the first byte
abbrev pub send_header : List Answer → ℕ → Sending
send_header answers n = send_loop failed answers (htonl n) 0

-- the loop over the text has no test for an error
abbrev pub send_text : List Answer → List ℕ → Sending
send_text answers text = send_loop out_of_bounds answers text 0

abbrev pub then_text : Sending → List ℕ → Sending
then_text (sent_all wire left) text = after wire (send_text left text)
then_text s text = s

-- the calls of `send` in `Message_send`
unfoldable pub send_frame : List Answer → List ℕ → Sending
send_frame answers text = then_text (send_header answers (length text)) text

-- How a loop over `recv` ends: with the bytes asked for, with NULL, or it waits.
pub data Receiving : Type 0 where
  received : (bytes stream : List ℕ) → (left : List Answer) → Receiving
  null : Receiving
  blocked : Receiving

abbrev pub before : List ℕ → Receiving → Receiving
before bs (received bytes stream left) = received (bs ++ bytes) stream left
before bs r = r

-- `need` bytes are still to come, at most `cap` in a call; an empty stream is a closed connection
abbrev pub recv_bytes : ℕ → List Answer → List ℕ → ℕ → Receiving
recv_bytes cap answers stream zero = received [] stream answers
recv_bytes cap [] stream (suc need) = blocked
recv_bytes cap (error ∷ more) stream (suc need) = null
recv_bytes cap (moved k ∷ more) [] (suc need) = null
recv_bytes cap (moved k ∷ more) (b ∷ stream) (suc need) =
    let got = take (least (suc k) (least cap (suc need))) (b ∷ stream) in
    before got (recv_bytes cap more (drop (length got) (b ∷ stream)) (suc need - length got))

-- A length from 2 ^ 31 on is negative, and no byte of text is read.
abbrev pub text_length : ℕ → ℕ
text_length n = if ltb n 2147483648 then n else 0

abbrev pub recv_text : Receiving → Receiving
recv_text (received bytes stream left) = recv_bytes 102400 left stream (text_length (ntohl bytes))
recv_text r = r

-- the calls of `recv` in `Message_recv`
unfoldable pub recv_frame : List Answer → List ℕ → Receiving
recv_frame answers stream = recv_text (recv_bytes 4 answers stream 4)
