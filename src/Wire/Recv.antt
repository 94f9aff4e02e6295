-- ===== src/Wire/Recv.antt =====
-- The loops of Message_recv in liblinda/src/messageread.c when every call of recv moves bytes.
use pylinda.Base.{
  ℕ, zero, suc, ◌+◌, ◌-◌, ◌≤◌, ◌<◌, ◌≡◌, refl, ap, ◌∙◌, List, [], ◌∷◌, ◌++◌, length, take, drop,
  arith,
}
use pylinda.Wire.{Answer, moved, error, received, before, least, recv_bytes}
use pylinda.Wire.Send.{IsMoved, take-drop}

module _ {A : Type 0} where
  pub take-append : (n : ℕ) (xs ys : List A) → n ≤ length xs → take n (xs ++ ys) ≡ take n xs
  take-append zero xs ys h = refl
  take-append (suc n) [] ys h = ground arith
  take-append (suc n) (x ∷ xs) ys h = ap (◌∷◌ x) (take-append n xs ys (omega (arith, h)))

  pub drop-append : (n : ℕ) (xs ys : List A) → n ≤ length xs → drop n (xs ++ ys) ≡ drop n xs ++ ys
  drop-append zero xs ys h = refl
  drop-append (suc n) [] ys h = ground arith
  drop-append (suc n) (x ∷ xs) ys h = drop-append n xs ys (omega (arith, h))

  pub length-take : (n : ℕ) (xs : List A) → n ≤ length xs → length (take n xs) ≡ n
  length-take zero xs h = refl
  length-take (suc n) [] h = ground arith
  length-take (suc n) (x ∷ xs) h = ap suc (length-take n xs (omega (arith, h)))

  pub length-drop : (n : ℕ) (xs : List A) → length (drop n xs) ≡ length xs - n
  length-drop zero xs = omega arith
  length-drop (suc n) [] = omega arith
  length-drop (suc n) (x ∷ xs) = omega (arith, length-drop n xs)

asked : (k : ℕ) {cap need : ℕ} → 0 < cap → least (suc k) (least cap (suc need)) ≤ suc need
asked k h = ground arith

asked_some : (k need : ℕ) {cap : ℕ} → 0 < cap → 1 ≤ least (suc k) (least cap (suc need))
asked_some k need h = ground arith

-- The loop reads the bytes asked for off the stream, and uses at most one answer for each.
pub recv_bytes-IsMoved :
    (cap : ℕ) (answers : List Answer) (bytes rest : List ℕ) (m : ℕ)
    → 0 < cap
    → IsMoved answers
    → length bytes + m ≤ length answers
    → (left : List Answer) × (recv_bytes cap answers (bytes ++ rest) (length bytes)
        ≡ received bytes rest left)
      × IsMoved left
      × (m ≤ length left)
unfolding IsMoved
recv_bytes-IsMoved cap answers [] rest m c v e = (answers, refl, v, omega (arith, e))
recv_bytes-IsMoved cap [] (b ∷ bytes) rest m c v e = ground arith
recv_bytes-IsMoved cap (error ∷ more) (b ∷ bytes) rest m c v e = absurd v
recv_bytes-IsMoved cap (moved k ∷ more) (b ∷ bytes) rest m c v e =
    let all = b ∷ bytes in
    let n = least (suc k) (least cap (length all)) in
    let within : n ≤ length all = asked k c in
    let (left, p, q, r) =
      recv_bytes-IsMoved cap more (drop n all) rest m c v
        (omega (arith, length-drop n all, asked_some k (length bytes) c, within, e)) in
    (
      left,
      ap
            (λ g.
              before g
                (recv_bytes cap more (drop (length g) (all ++ rest)) (length all - length g)))
            (take-append n all rest within)
          ∙ rw
              (
                length-take n all within,
                drop-append n all rest within,
                ← length-drop n all,
                p,
                take-drop n all,
              )
              refl,
      q,
      r,
    )
