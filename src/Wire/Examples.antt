-- ===== src/Wire/Examples.antt =====
-- Tests of the framing in liblinda/src/message.c and messageread.c, and its theorems on a short text.
use pylinda.Base.{ℕ, ◌≡◌, refl, List, [], ◌∷◌, ◌++◌, replicate, take, drop, arith}
use pylinda.Wire.{
  Answer, moved, error, sent_all, out_of_bounds, received, null, send_frame, send_text, recv_frame,
}
use pylinda.Wire.Send.{IsMoved}
use pylinda.Wire.RoundTrip.{recv_frame-send_frame, send_text-error}

abbrev text : List ℕ
text = 60 ∷ 97 ∷ 47 ∷ 62 ∷ []

-- two bytes a call, and three
abbrev twos : List Answer
twos = replicate 8 (moved 1)

abbrev threes : List Answer
threes = replicate 8 (moved 2)

sends :
    send_frame (moved 1 ∷ moved 9 ∷ moved 2 ∷ moved 0 ∷ []) text
    ≡ sent_all (0 ∷ 0 ∷ 0 ∷ 4 ∷ 60 ∷ 97 ∷ 47 ∷ 62 ∷ []) []
unfolding send_frame
sends = refl

-- an error before the first byte of the text
fails : send_frame (moved 3 ∷ error ∷ []) text ≡ out_of_bounds (0 ∷ 0 ∷ 0 ∷ 4 ∷ [])
unfolding send_frame
fails = refl

-- a connection that closes early
closes : recv_frame threes (0 ∷ 0 ∷ 0 ∷ 4 ∷ 60 ∷ []) ≡ null
unfolding recv_frame
closes = refl

recv_frame-send_frame_example :
    (wire : List ℕ) × ((left : List Answer) × (send_frame twos text ≡ sent_all wire left))
    × ((left : List Answer) × (recv_frame threes (wire ++ 7 ∷ []) ≡ received text (7 ∷ []) left))
unfolding IsMoved
recv_frame-send_frame_example =
    recv_frame-send_frame twos threes text (7 ∷ []) (omega arith) tt (omega arith) tt (omega arith)

send_text-error_example :
    (left : List Answer) × (send_text (moved 1 ∷ error ∷ twos) text
      ≡ sent_all (take 2 text ++ drop 1 text) left)
unfolding IsMoved
send_text-error_example = send_text-error 1 twos text (omega arith) tt (omega arith)
