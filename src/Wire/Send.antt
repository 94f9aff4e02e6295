-- ===== src/Wire/Send.antt =====
-- The loops of Message_send in liblinda/src/message.c when every call of send moves bytes.
use pylinda.Base.{
  ℕ, zero, suc, ◌+◌, ◌-◌, ◌≤◌, ◌<◌, ◌≡◌, refl, ap, sym, ◌∙◌, false, inl, inr, List, [], ◌∷◌, ◌++◌,
  length, take, drop, ltb, ltb→lt, Bool-cases, arith,
}
use pylinda.Wire.{Answer, moved, error, Sending, sent_all, least, send_loop}

unfoldable pub IsMoved : List Answer → Type 0
IsMoved [] = Unit
IsMoved (moved k ∷ more) = IsMoved more
IsMoved (error ∷ more) = ⊥

suc_add : (a n : ℕ) → suc a + n ≡ suc (a + n)
suc_add a n = omega arith

module _ {A : Type 0} where
  pub take-drop : (n : ℕ) (xs : List A) → take n xs ++ drop n xs ≡ xs
  take-drop zero xs = refl
  take-drop (suc n) [] = refl
  take-drop (suc n) (x ∷ xs) = ap (◌∷◌ x) (take-drop n xs)

  drop-nil : (n : ℕ) → drop {A = A} n [] ≡ []
  drop-nil zero = refl
  drop-nil (suc n) = refl

  drop-add : (a n : ℕ) (xs : List A) → drop (a + n) xs ≡ drop n (drop a xs)
  drop-add zero n xs = ap (λ m. drop m xs) (omega arith)
  drop-add (suc a) n [] = drop-nil (suc a + n) ∙ sym (drop-nil n)
  drop-add (suc a) n (x ∷ xs) = ap (λ m. drop m (x ∷ xs)) (suc_add a n) ∙ drop-add a n xs

  drop-all : (a : ℕ) (xs : List A) → length xs ≤ a → drop a xs ≡ []
  drop-all zero [] h = refl
  drop-all zero (x ∷ xs) h = ground arith
  drop-all (suc a) [] h = refl
  drop-all (suc a) (x ∷ xs) h = drop-all a xs (omega (arith, h))

not_below : {a b : ℕ} → a ≤ b → ltb b a ≡ false
not_below h = ground arith

below_not : {a b : ℕ} → ltb b a ≡ false → a ≤ b
below_not h = ground arith

step_le : (k : ℕ) {a b : ℕ} → a < b → a + least (suc k) (b - a) ≤ b
step_le k h = ground arith

step_some : (k : ℕ) {a b : ℕ} → a < b → 1 ≤ least (suc k) (b - a)
step_some k h = ground arith

-- The loop sends the bytes from `sent` on, and uses at most one answer for each.
pub send_loop-IsMoved :
    (stop : List ℕ → Sending) (answers : List Answer) (buf : List ℕ) (sent m : ℕ)
    → IsMoved answers
    → sent ≤ length buf
    → length buf + m ≤ length answers + sent
    → (left : List Answer) × (send_loop stop answers buf sent ≡ sent_all (drop sent buf) left)
      × IsMoved left
      × (m ≤ length left)
unfolding IsMoved
send_loop-IsMoved stop [] buf sent m v l e =
    let all : length buf ≤ sent = omega (arith, e) in
    rw (not_below all, drop-all sent buf all) ([], refl, tt, omega (arith, e))
send_loop-IsMoved stop (moved k ∷ more) buf sent m v l e =
    elim (Bool-cases (ltb sent (length buf))) [
      | inl b ↦
          let less = ltb→lt sent (length buf) b in
          let n = least (suc k) (length buf - sent) in
          let (left, p, q, r) =
            send_loop-IsMoved stop more buf (sent + n) m v (step_le k less)
              (omega (arith, e, step_some k less)) in
          rw (b, p)
            (
              left,
              ap (λ bs. sent_all bs left)
                  (ap (◌++◌ (take n (drop sent buf))) (drop-add sent n buf)
                    ∙ take-drop n (drop sent buf)),
              q,
              r,
            )
      | inr b ↦
          rw (b, drop-all sent buf (below_not b))
            (moved k ∷ more, refl, v, omega (arith, e, below_not b, l))
    ]
send_loop-IsMoved stop (error ∷ more) buf sent m v l e = absurd v
