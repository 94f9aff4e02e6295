-- ===== src/Refcount/Counts.antt =====
-- The invariant of minimal/src/refcount.c: a count is the number of references.
use pylinda.Base.{
  ℕ, suc, ◌+◌, ◌<◌, ◌≤◌, Bool, ltb, ltb→lt, String, ◌≡◌, refl, ap, sym, ◌∙◌, inl, inr, true, false,
  subst, some, List, [], ◌∷◌, ◌++◌, map, ok, ◌==◌, if◌then◌else◌, Bool-cases, ==_iff, arith,
}
use pylinda.Base.Int.{ℤ, pos, negsuc, is_pos}
use pylinda.NameMap.Strcmp.{IsStrcmp}
use pylinda.Collector.Items.{occ}
use pylinda.Object.Field.{del_object}
use pylinda.Object.Release.{Releases, object-Releases}
use pylinda.Refcount.{
  Cell, Call, del_reference, free, lookup, with_count, set_reference_count, count_in, clear,
  del_objects,
}
use pylinda.Refcount.Cells.{weight, holds, holds-update}
use pylinda.Refcount.Clear.{
  IsLive, set-lookup, set-lookup_other, weight_live, holds-clear, lookup-clear, lookup-clear_other,
  del_objects-Releases,
}

-- the calls of Minimal_delReference for an object that are still to be made
unfoldable pub pending : List Call → ℕ → ℕ
pending [] q = 0
pending (del_reference p ∷ todo) q = (if p == q then 1 else 0) + pending todo q
pending (free p ∷ todo) q = pending todo q

pub pending-free :
    (ps : List ℕ) (todo : List Call) (q : ℕ) → pending (map free ps ++ todo) q ≡ pending todo q
unfolding pending
pending-free [] todo q = refl
pending-free (p ∷ ps) todo q = pending-free ps todo q

pub pending-calls :
    (rs ps : List ℕ) (todo : List Call) (q : ℕ)
    → pending (map del_reference rs ++ map free ps ++ todo) q ≡ occ q rs + pending todo q
unfolding pending occ
pending-calls [] ps todo q = omega (arith, pending-free ps todo q)
pending-calls (r ∷ rs) ps todo q = omega (arith, pending-calls rs ps todo q)

-- the references to an object: those of live objects, those still to be released, and `external`, those
-- that the program holds
abbrev pub total : (external : ℕ → ℕ) → List Cell → List Call → ℕ → ℕ
total external cs todo p = holds cs p + pending todo p + external p

-- The count of each object that is not being destroyed is the number of references to it.
unfoldable pub IsCounted : (external : ℕ → ℕ) → List Cell → List Call → Type 0
IsCounted external cs todo =
    (q : ℕ)
    → IsLive (lookup cs (suc q))
    → count_in (lookup cs (suc q)) ≡ pos (total external cs todo (suc q))

pub pos_inj : {m n : ℕ} → pos m ≡ pos n → m ≡ n
pos_inj {m} {n} e = ap (λ z. elim z [ pos k ↦ k | negsuc k ↦ 0 ]) e

pub pending_here :
    (p q : ℕ) (todo : List Call)
    → (p == q) ≡ true
    → pending (del_reference p ∷ todo) q ≡ suc (pending todo q)
unfolding pending
pending_here p q todo e = rw (e) (omega arith)

pub pending_there :
    (p q : ℕ) (todo : List Call)
    → (p == q) ≡ false
    → pending (del_reference p ∷ todo) q ≡ pending todo q
unfolding pending
pending_there p q todo e = rw (e) (omega arith)

pub dead : {A : Type 0} {b : Bool} → b ≡ true → b ≡ false → A
dead h e = cc

module _ (external : ℕ → ℕ) where
  -- a call for an object that is not live
  pub drop_call :
      (cs : List Cell) (p : ℕ) (todo : List Call)
      → is_pos (count_in (lookup cs p)) ≡ false
      → IsCounted external cs (del_reference p ∷ todo)
      → IsCounted external cs todo
  unfolding IsCounted
  drop_call cs p todo d k q l = elim (Bool-cases (p == suc q)) [
    | inl e ↦ dead l (rw (sym ((==_iff p (suc q)).0 e)) d)
    | inr e ↦ k q l ∙ ap pos (omega (arith, pending_there p (suc q) todo e))
  ]

  -- a new count that is one less, when it is above 0
  pub count_down :
      (cs : List Cell) (p : ℕ) (todo : List Call) (c : Cell) (n : ℤ)
      → lookup cs p ≡ some c
      → ((q : ℕ) → weight (with_count n c) q ≡ weight c q)
      → (is_pos n ≡ true → (m : ℕ) × (c.reference_count ≡ pos (suc m)) × (n ≡ pos m))
      → IsCounted external cs (del_reference p ∷ todo)
      → IsCounted external (set_reference_count p n cs) todo
  unfolding IsCounted
  count_down cs p todo c n e w d k q l =
      let h = holds-update (with_count n) (λ c. refl) p cs c (suc q) e in
      let same = w (suc q) in
      elim (Bool-cases (p == suc q)) [
        | inl g ↦
            let at_p = (==_iff p (suc q)).0 g in
            let found =
              subst (λ r. lookup (set_reference_count p n cs) r ≡ some (with_count n c)) at_p
                (set-lookup n p cs c e) in
            let before = subst (λ r. lookup cs r ≡ some c) at_p e in
            let (m, f, f') = d (sym (ap (λ o. is_pos (count_in o)) found) ∙ l) in
            let old = k q (ap (λ o. is_pos (count_in o)) before ∙ ap is_pos f) in
            let number = pos_inj (sym f ∙ sym (ap count_in before) ∙ old) in
            ap count_in found
            ∙ f'
            ∙ ap pos (omega (arith, number, pending_here p (suc q) todo g, h, same))
        | inr g ↦
            let other = set-lookup_other n p cs (suc q) g in
            ap count_in other
            ∙ k q (sym (ap (λ o. is_pos (count_in o)) other) ∙ l)
            ∙ ap pos (omega (arith, pending_there p (suc q) todo g, h, same))
      ]

  module _ {strcmp : String → String → ℤ} (s : IsStrcmp strcmp) where
    -- the destruction of distinct live objects
    pub clear_counts :
        (cs : List Cell) (ps rs : List ℕ) (todo : List Call)
        → ((r : ℕ) → occ r ps ≤ 1)
        → ((r : ℕ) → 0 < occ r ps → IsLive (lookup cs r))
        → del_objects strcmp cs ps ≡ ok rs
        → IsCounted external cs todo
        → IsCounted external (clear ps cs) (map del_reference rs ++ map free ps ++ todo)
    unfolding IsCounted Releases
    clear_counts cs ps rs todo d v e k q l = elim (Bool-cases (ltb 0 (occ (suc q) ps))) [
      | inl g ↦ dead l (lookup-clear ps cs (suc q) (ltb→lt 0 (occ (suc q) ps) g))
      | inr g ↦
          let other = lookup-clear_other ps cs (suc q) (ground arith) in
          let moved = del_objects-Releases s cs ps rs e q in
          let less = holds-clear ps cs cs (suc q) d (λ r w. refl) v in
          ap count_in other
          ∙ k q (sym (ap (λ o. is_pos (count_in o)) other) ∙ l)
          ∙ ap pos (omega (arith, pending-calls rs ps todo (suc q), moved, less))
    ]

    -- the destruction of the object whose last reference goes
    pub last_counts :
        (cs : List Cell) (p : ℕ) (rs : List ℕ) (todo : List Call) (c : Cell)
        → lookup cs p ≡ some c
        → is_pos c.reference_count ≡ true
        → del_object strcmp c.object ≡ ok rs
        → IsCounted external cs (del_reference p ∷ todo)
        → IsCounted external
            (set_reference_count p (pos 0) cs)
            (map del_reference rs ++ map free (p ∷ []) ++ todo)
    unfolding IsCounted Releases weight
    last_counts cs p rs todo c e v f k q l =
        let cs' = set_reference_count p (pos 0) cs in
        elim (Bool-cases (p == suc q)) [
          | inl g ↦
              let found = set-lookup (pos 0) p cs c e in
              dead l (
                subst (λ r. is_pos (count_in (lookup cs' r)) ≡ false) ((==_iff p (suc q)).0 g)
                  (ap (λ o. is_pos (count_in o)) found))
          | inr g ↦
              let other = set-lookup_other (pos 0) p cs (suc q) g in
              let moved = object-Releases s c.object rs f q in
              let less = holds-update (with_count (pos 0)) (λ c. refl) p cs c (suc q) e in
              let more = weight_live c (suc q) v in
              ap count_in other
              ∙ k q (sym (ap (λ o. is_pos (count_in o)) other) ∙ l)
              ∙ ap pos (
                  omega (
                    arith,
                    pending_there p (suc q) todo g,
                    pending-calls rs (p ∷ []) todo (suc q),
                    moved,
                    less,
                    more,
                  ))
        ]
