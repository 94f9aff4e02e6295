-- ===== src/Refcount/Finished.antt =====
-- What minimal/src/refcount.c and minimal/src/cyclic_garbage.c begin to destroy is freed in the end.
use pylinda.Base.{
  ℕ, suc, ◌+◌, ◌<◌, ltb, ltb→lt, ◌≡◌, refl, ap, sym, ◌∙◌, inl, inr, true, false, is_some, subst,
  Option, none, some, List, [], ◌∷◌, ◌++◌, map, ◌==◌, if◌then◌else◌, Bool-cases, ==_iff, arith,
}
use pylinda.Base.Int.{ℤ, is_pos}
use pylinda.Collector.Items.{occ}
use pylinda.Refcount.{
  Cell, Call, del_reference, free, lookup, update, with_count, set_reference_count, as_freed,
  count_in, freed_in,
}
use pylinda.Refcount.Cells.{
  field-update_same, lookup-update, lookup-update_other, lookup-update-none,
}
use pylinda.Refcount.Counts.{dead}
use pylinda.Refcount.Clear.{set-lookup, set-lookup_other}
use pylinda.Refcount.Settled.{IsDead, freed-set}

-- the calls of free for an object that are still to be made
unfoldable pub awaiting : List Call → ℕ → ℕ
awaiting [] q = 0
awaiting (del_reference p ∷ todo) q = awaiting todo q
awaiting (free p ∷ todo) q = (if p == q then 1 else 0) + awaiting todo q

-- An object that is not live is freed, or is about to be.
unfoldable pub AreFinished : List Cell → List Call → Type 0
AreFinished cs todo =
    (q : ℕ)
    → is_some (lookup cs (suc q)) ≡ true
    → IsDead cs (suc q)
    → freed_in (lookup cs (suc q)) ≡ false
    → 0 < awaiting todo (suc q)

awaiting-free :
    (ps : List ℕ) (todo : List Call) (q : ℕ)
    → awaiting (map free ps ++ todo) q ≡ occ q ps + awaiting todo q
unfolding awaiting occ
awaiting-free [] todo q = omega arith
awaiting-free (p ∷ ps) todo q = omega (arith, awaiting-free ps todo q)

pub awaiting-calls :
    (rs ps : List ℕ) (todo : List Call) (q : ℕ)
    → awaiting (map del_reference rs ++ map free ps ++ todo) q ≡ occ q ps + awaiting todo q
unfolding awaiting
awaiting-calls [] ps todo q = awaiting-free ps todo q
awaiting-calls (r ∷ rs) ps todo q = awaiting-calls rs ps todo q

pub drop-AreFinished :
    (cs : List Cell) (p : ℕ) (todo : List Call)
    → AreFinished cs (del_reference p ∷ todo)
    → AreFinished cs todo
unfolding AreFinished awaiting
drop-AreFinished cs p todo k = k

pub given-AreFinished :
    (cs : List Cell) (p : ℕ) (todo : List Call)
    → AreFinished cs todo
    → AreFinished cs (del_reference p ∷ todo)
unfolding AreFinished awaiting
given-AreFinished cs p todo k = k

-- the same objects, live and freed as before
pub same-AreFinished :
    (cs ds : List Cell) (todo : List Call)
    → ((q : ℕ) → is_some (lookup ds q) ≡ is_some (lookup cs q))
    → ((q : ℕ) → is_pos (count_in (lookup ds q)) ≡ is_pos (count_in (lookup cs q)))
    → ((q : ℕ) → freed_in (lookup ds q) ≡ freed_in (lookup cs q))
    → AreFinished cs todo
    → AreFinished ds todo
unfolding AreFinished
same-AreFinished cs ds todo a b c k q x y z =
    k q (sym (a (suc q)) ∙ x) (sym (b (suc q)) ∙ y) (sym (c (suc q)) ∙ z)

pub set-live_same :
    (cs : List Cell) (p : ℕ) (c : Cell) (n : ℤ)
    → lookup cs p ≡ some c
    → is_pos n ≡ is_pos c.reference_count
    → (q : ℕ)
    → is_pos (count_in (lookup (set_reference_count p n cs) q)) ≡ is_pos (count_in (lookup cs q))
set-live_same cs p c n e l q = elim (Bool-cases (p == q)) [
  | inl g ↦ rw (sym ((==_iff p q).0 g), set-lookup n p cs c e, e) l
  | inr g ↦ ap (λ o. is_pos (count_in o)) (set-lookup_other n p cs q g)
]

pub down-AreFinished :
    (cs : List Cell) (p : ℕ) (todo : List Call) (c : Cell) (n : ℤ)
    → lookup cs p ≡ some c
    → is_pos n ≡ is_pos c.reference_count
    → AreFinished cs todo
    → AreFinished (set_reference_count p n cs) todo
down-AreFinished cs p todo c n e l =
    same-AreFinished cs (set_reference_count p n cs) todo
      (λ q. field-update_same (with_count n) (λ c. refl) is_some (λ c. refl) p q cs)
      (set-live_same cs p c n e l) (freed-set cs p n)

-- the objects at `ps` are destroyed, and the others stay as they are
pub destroy-AreFinished :
    (cs ds : List Cell) (rs ps : List ℕ) (todo : List Call)
    → ((q : ℕ) → occ q ps ≡ 0 → lookup ds q ≡ lookup cs q)
    → AreFinished cs todo
    → AreFinished ds (map del_reference rs ++ map free ps ++ todo)
unfolding AreFinished
destroy-AreFinished cs ds rs ps todo f k q x y z =
    let w = awaiting-calls rs ps todo (suc q) in
    elim (Bool-cases (ltb 0 (occ (suc q) ps))) [
      | inl g ↦ omega (arith, w, ltb→lt 0 (occ (suc q) ps) g)
      | inr g ↦
          let e = f (suc q) (ground arith) in
          let more =
            k q (sym (ap is_some e) ∙ x) (sym (ap (λ o. is_pos (count_in o)) e) ∙ y)
              (sym (ap freed_in e) ∙ z) in
          omega (arith, w, more)
    ]

freed_now :
    {A : Type 0} (cs : List Cell) (p : ℕ) (o : Option Cell)
    → lookup cs p ≡ o
    → is_some (lookup (update as_freed p cs) p) ≡ true
    → freed_in (lookup (update as_freed p cs) p) ≡ false
    → A
freed_now cs p none e x z = dead x (ap is_some (lookup-update-none as_freed (λ c. refl) p cs e))
freed_now cs p (some c) e x z = dead (ap freed_in (lookup-update as_freed (λ c. refl) p cs c e)) z

pub free-AreFinished :
    (cs : List Cell) (p : ℕ) (todo : List Call)
    → AreFinished cs (free p ∷ todo)
    → AreFinished (update as_freed p cs) todo
unfolding AreFinished awaiting
free-AreFinished cs p todo k q x y z = elim (Bool-cases (p == suc q)) [
  | inl g ↦
      let at_p = (==_iff p (suc q)).0 g in
      freed_now cs p (lookup cs p) refl
        (subst (λ r. is_some (lookup (update as_freed p cs) r) ≡ true) (sym at_p) x)
        (subst (λ r. freed_in (lookup (update as_freed p cs) r) ≡ false) (sym at_p) z)
  | inr g ↦
      let e = lookup-update_other as_freed (λ c. refl) p (suc q) cs g in
      let more =
        k q (sym (ap is_some e) ∙ x) (sym (ap (λ o. is_pos (count_in o)) e) ∙ y)
          (sym (ap freed_in e) ∙ z) in
      ground arith
]
