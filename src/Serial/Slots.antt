-- ===== src/Serial/Slots.antt =====
-- The loops of minimal/src/parsexml.c over the children that a writer of minimal/src/serialise.c makes.
use pylinda.Base.{ℕ, suc, ◌+◌, ◌<◌, ◌≤◌, arith, true, false, List, [], ◌∷◌, ok, ◌≡◌, refl, ap, ◌∙◌}
use pylinda.Base.Int.{pos, ltb_ℤ}
use pylinda.SyntaxTree.{Tree, null, Trees, end, next, size}
use pylinda.Serial.Read.{
  Kid, is_null, each, add_branch, add_kid, two_slots, three_slots, type_slots, first_slot,
  sized_slot,
}

module _ (k l : Kid) (a b : Tree) (p : k.tree ≡ ok a) (present : is_null a ≡ false)
    (q : l.tree ≡ ok b) where
  pub each-two_slots : each two_slots (null, null) (k ∷ l ∷ []) ≡ ok (a, b)
  unfolding each two_slots
  each-two_slots = rw p (rw present (rw q))

  pub each-type_slots : each type_slots (null, null) (k ∷ l ∷ []) ≡ ok (a, b)
  unfolding each type_slots
  each-type_slots = rw p (rw present (rw q))

  pub each-three_slots :
      (m : Kid) (c : Tree)
      → is_null b ≡ false
      → m.tree ≡ ok c
      → each three_slots (null, null, null) (k ∷ l ∷ m ∷ []) ≡ ok (a, b, c)
  unfolding each three_slots
  each-three_slots m c also r = rw p (rw present (rw q (rw present (rw also (rw r)))))

pub each-two_slots_one :
    (k : Kid) (a : Tree) → k.tree ≡ ok a → each two_slots (null, null) (k ∷ []) ≡ ok (a, null)
unfolding each two_slots
each-two_slots_one k a p = rw p

pub each-first_slot : (k : Kid) (a : Tree) → k.tree ≡ ok a → each first_slot null (k ∷ []) ≡ ok a
unfolding each first_slot
each-first_slot k a p = rw p

-- The children, one for each branch.
abbrev pub AreRead : List Kid → Trees → Type 0
AreRead [] end = Unit
AreRead (k ∷ ks) (next t ts) = (k.tree ≡ ok t) × AreRead ks ts
AreRead _ _ = ⊥

abbrev pub append : Trees → Trees → Trees
append end us = us
append (next t ts) us = next t (append ts us)

append-end : (ts : Trees) → append ts end ≡ ts
append-end end = refl
append-end (next t ts) = ap (next t) (append-end ts)

append-add_branch :
    (ts : Trees) (t : Tree) (us : Trees) → append (add_branch ts t) us ≡ append ts (next t us)
unfolding add_branch
append-add_branch end t us = refl
append-add_branch (next u ts) t us = ap (next u) (append-add_branch ts t us)

size-add_branch : (ts : Trees) (t : Tree) → size (add_branch ts t) ≡ suc (size ts)
unfolding add_branch
size-add_branch end t = refl
size-add_branch (next u ts) t = ap suc (size-add_branch ts t)

each-add_each_onto :
    (done : Trees) (ks : List Kid) (ts : Trees)
    → AreRead ks ts
    → each add_kid done ks ≡ ok (append done ts)
unfolding each add_kid
each-add_each_onto done [] end h = rw (append-end done)
each-add_each_onto done [] (next t ts) h = absurd h
each-add_each_onto done (k ∷ ks) end h = absurd h
each-add_each_onto done (k ∷ ks) (next t ts) h =
    rw h.0 (each-add_each_onto (add_branch done t) ks ts h.1 ∙ ap ok (append-add_branch done t ts))

pub each-add_kid : (ks : List Kid) (ts : Trees) → AreRead ks ts → each add_kid end ks ≡ ok ts
each-add_kid = each-add_each_onto end

less : (m n : ℕ) → m < n → ltb_ℤ (pos m) (pos n) ≡ true
less m n h = ground arith

sized_slot-room :
    (n : ℕ) (done : Trees) (k : Kid) (t : Tree)
    → k.tree ≡ ok t
    → size done < n
    → sized_slot (pos n) done k ≡ ok (add_branch done t)
unfolding sized_slot add_kid
sized_slot-room n done k t p lt = rw (less (size done) n lt) (rw p)

each-sized_slot_onto :
    (n : ℕ) (done : Trees) (ks : List Kid) (ts : Trees)
    → AreRead ks ts
    → size done + size ts ≤ n
    → each (sized_slot (pos n)) done ks ≡ ok (append done ts)
unfolding each
each-sized_slot_onto n done [] end h le = rw (append-end done)
each-sized_slot_onto n done [] (next t ts) h le = absurd h
each-sized_slot_onto n done (k ∷ ks) end h le = absurd h
each-sized_slot_onto n done (k ∷ ks) (next t ts) h le =
    let rest =
      each-sized_slot_onto n (add_branch done t) ks ts h.1
        (omega (arith, size-add_branch done t)) in
    rw (sized_slot-room n done k t h.0 (omega arith)) (rest ∙ ap ok (append-add_branch done t ts))

pub each-sized_slot :
    (ks : List Kid) (ts : Trees) → AreRead ks ts → each (sized_slot (pos (size ts))) end ks ≡ ok ts
each-sized_slot ks ts h = each-sized_slot_onto (size ts) end ks ts h (omega arith)
