-- ===== src/Refcount/Settled.antt =====
-- What is freed in minimal/src/refcount.c and minimal/src/cyclic_garbage.c is not used again.
use pylinda.Base.{
  ℕ, zero, suc, ◌<◌, ◌≡◌, refl, ap, sym, ◌∙◌, inl, inr, true, false, subst, some, List, [], ◌∷◌,
  ◌++◌, map, ◌==◌, Bool-cases, ==_iff, arith,
}
use pylinda.Base.Int.{ℤ, negsuc, is_pos}
use pylinda.Collector.Items.{occ}
use pylinda.Refcount.{
  Cell, Call, del_reference, free, lookup, update, with_count, set_reference_count, as_freed,
  count_in, freed_in, clear,
}
use pylinda.Refcount.Cells.{field-update_same, lookup-update_other}
use pylinda.Refcount.Clear.{set-lookup, set-lookup_other}
use pylinda.Refcount.Counts.{pending, pending-free, pending-calls}

-- the object is being destroyed, or is none
abbrev pub IsDead : List Cell → ℕ → Type 0
IsDead cs q = is_pos (count_in (lookup cs q)) ≡ false

-- An object that is about to be freed is being destroyed, and is not released after that.
unfoldable pub AreSettled : List Cell → List Call → Type 0
AreSettled cs [] = Unit
AreSettled cs (del_reference p ∷ todo) = AreSettled cs todo
AreSettled cs (free zero ∷ todo) = AreSettled cs todo
AreSettled cs (free (suc p) ∷ todo) =
    IsDead cs (suc p) × (pending todo (suc p) ≡ 0) × AreSettled cs todo

-- An object that is freed was being destroyed, and is not released any more.
unfoldable pub AreUnused : List Cell → List Call → Type 0
AreUnused cs todo =
    (q : ℕ) → freed_in (lookup cs (suc q)) ≡ true → IsDead cs (suc q) × (pending todo (suc q) ≡ 0)

pub later-AreSettled :
    (cs ds : List Cell) (todo : List Call)
    → ((q : ℕ) → IsDead cs q → IsDead ds q)
    → AreSettled cs todo
    → AreSettled ds todo
unfolding AreSettled
later-AreSettled cs ds [] f s = tt
later-AreSettled cs ds (del_reference p ∷ todo) f s = later-AreSettled cs ds todo f s
later-AreSettled cs ds (free zero ∷ todo) f s = later-AreSettled cs ds todo f s
later-AreSettled cs ds (free (suc p) ∷ todo) f (d, n, s) =
    (f (suc p) d, n, later-AreSettled cs ds todo f s)

free-AreSettled :
    (cs : List Cell) (ps : List ℕ) (todo : List Call)
    → ((q : ℕ) → 0 < occ (suc q) ps → IsDead cs (suc q) × (pending todo (suc q) ≡ 0))
    → AreSettled cs todo
    → AreSettled cs (map free ps ++ todo)
unfolding AreSettled occ
free-AreSettled cs [] todo f s = s
free-AreSettled cs (zero ∷ ps) todo f s =
    free-AreSettled cs ps todo (λ q l. f q (omega (arith, l))) s
free-AreSettled cs (suc p ∷ ps) todo f s =
    let (d, n) = f p (ground arith) in
    (
      d,
      pending-free ps todo (suc p) ∙ n,
      free-AreSettled cs ps todo (λ q l. f q (omega (arith, l))) s,
    )

pub calls-AreSettled :
    (cs : List Cell) (rs ps : List ℕ) (todo : List Call)
    → ((q : ℕ) → 0 < occ (suc q) ps → IsDead cs (suc q) × (pending todo (suc q) ≡ 0))
    → AreSettled cs todo
    → AreSettled cs (map del_reference rs ++ map free ps ++ todo)
unfolding AreSettled
calls-AreSettled cs [] ps todo f s = free-AreSettled cs ps todo f s
calls-AreSettled cs (r ∷ rs) ps todo f s = calls-AreSettled cs rs ps todo f s

-- a new count that is not above 0 where the old one was not
pub set-IsDead :
    (cs : List Cell) (p : ℕ) (c : Cell) (n : ℤ)
    → lookup cs p ≡ some c
    → (is_pos c.reference_count ≡ false → is_pos n ≡ false)
    → (q : ℕ) → IsDead cs q
    → IsDead (set_reference_count p n cs) q
set-IsDead cs p c n e f q d = elim (Bool-cases (p == q)) [
  | inl g ↦
      let at_p = (==_iff p q).0 g in
      let found =
        subst (λ r. lookup (set_reference_count p n cs) r ≡ some (with_count n c)) at_p
          (set-lookup n p cs c e) in
      let before = subst (λ r. lookup cs r ≡ some c) at_p e in
      ap (λ o. is_pos (count_in o)) found ∙ f (sym (ap (λ o. is_pos (count_in o)) before) ∙ d)
  | inr g ↦ ap (λ o. is_pos (count_in o)) (set-lookup_other n p cs q g) ∙ d
]

pub freed-set :
    (cs : List Cell) (p : ℕ) (n : ℤ) (q : ℕ)
    → freed_in (lookup (set_reference_count p n cs) q) ≡ freed_in (lookup cs q)
freed-set cs p n q = field-update_same (with_count n) (λ c. refl) freed_in (λ c. refl) p q cs

pub freed-clear :
    (ps : List ℕ) (cs : List Cell) (q : ℕ)
    → freed_in (lookup (clear ps cs) q) ≡ freed_in (lookup cs q)
unfolding clear
freed-clear [] cs q = refl
freed-clear (p ∷ ps) cs q =
    freed-clear ps (set_reference_count p (negsuc 0) cs) q ∙ freed-set cs p (negsuc 0) q

-- objects that are destroyed, of which none is freed, release nothing that is
pub later-AreUnused :
    (cs ds : List Cell) (rs ps : List ℕ) (todo : List Call)
    → ((q : ℕ) → freed_in (lookup ds q) ≡ freed_in (lookup cs q))
    → ((q : ℕ) → IsDead cs q → IsDead ds q)
    → ((q : ℕ) → IsDead cs (suc q) → occ (suc q) rs ≡ 0)
    → AreUnused cs todo
    → AreUnused ds (map del_reference rs ++ map free ps ++ todo)
unfolding AreUnused
later-AreUnused cs ds rs ps todo f g h u q e =
    let (d, n) = u q (sym (f (suc q)) ∙ e) in
    (g (suc q) d, omega (arith, pending-calls rs ps todo (suc q), h q d, n))

pub drop-AreUnused :
    (cs : List Cell) (p : ℕ) (todo : List Call)
    → AreUnused cs (del_reference p ∷ todo)
    → AreUnused cs todo
unfolding AreUnused pending
drop-AreUnused cs p todo u q e = let (d, n) = u q e in (d, omega (arith, n))

free-IsDead : (cs : List Cell) (p q : ℕ) → IsDead cs q → IsDead (update as_freed p cs) q
free-IsDead cs p q d =
    ap is_pos (field-update_same as_freed (λ c. refl) count_in (λ c. refl) p q cs) ∙ d

settled_first :
    (cs : List Cell) (p q : ℕ) (todo : List Call)
    → p ≡ suc q
    → AreSettled cs (free p ∷ todo)
    → IsDead cs (suc q) × (pending todo (suc q) ≡ 0)
unfolding AreSettled
settled_first cs zero q todo e s = ground arith
settled_first cs (suc p) q todo e (d, n, s) =
    subst (λ r. IsDead cs r × (pending todo r ≡ 0)) e (d, n)

settled_rest :
    (cs : List Cell) (p : ℕ) (todo : List Call) → AreSettled cs (free p ∷ todo) → AreSettled cs todo
unfolding AreSettled
settled_rest cs zero todo s = s
settled_rest cs (suc p) todo (d, n, s) = s

pub free-AreSettled_rest :
    (cs : List Cell) (p : ℕ) (todo : List Call)
    → AreSettled cs (free p ∷ todo)
    → AreSettled (update as_freed p cs) todo
free-AreSettled_rest cs p todo s =
    later-AreSettled cs (update as_freed p cs) todo (free-IsDead cs p) (settled_rest cs p todo s)

pub freed-AreUnused :
    (cs : List Cell) (p : ℕ) (todo : List Call)
    → AreSettled cs (free p ∷ todo)
    → AreUnused cs (free p ∷ todo)
    → AreUnused (update as_freed p cs) todo
unfolding AreUnused pending
freed-AreUnused cs p todo s u q e =
    let (d, n) : IsDead cs (suc q) × (pending todo (suc q) ≡ 0) = elim (Bool-cases (p == suc q)) [
      | inl g ↦ settled_first cs p q todo ((==_iff p (suc q)).0 g) s
      | inr g ↦
          u q (sym (ap freed_in (lookup-update_other as_freed (λ c. refl) p (suc q) cs g)) ∙ e)
    ] in
    (free-IsDead cs p (suc q) d, n)
