-- ===== src/NameMap/Client.antt =====
-- What a client of minimal/src/syntax_map.c sees after any sequence of `Minimal_addName`, with names
-- that `strcmp` compares as -1, 0 and 1 and with names that it does not.
use pylinda.Base.{
  ◌≤◌, String, ◌≡◌, ◌≢◌, refl, false, true, ap, ◌⊎◌, Option, none, some, List, [], ◌∷◌, Outcome, ok,
  ◌>>=◌, ◌∙◌, inl, inr, Bool-cases, arith, if◌then◌else◌, str_eq,
}
use pylinda.Base.Int.{ℤ, is_zero, is_one, is_minus_one}
use pylinda.NameMap.{NameMap, rejected, null, node, init, add_name, get_name2, size}
use pylinda.NameMap.Order.{All, All-imp, IsOrdered}
use pylinda.NameMap.Strcmp.{IsStrcmp, is_unit}
use pylinda.NameMap.Insert.{
  insert, inserted, is_reached-All, All-insert, add_name-insert, insert-IsOrdered, get_name2-insert,
}

module _ {ℓ} {V : Type ℓ} where
  -- no name is empty
  abbrev pub AllNamed : List (String × V) → Type 0
  AllNamed [] = Unit
  AllNamed ((name, v) ∷ ops) = (str_eq name "" ≡ false) × AllNamed ops

module _ {ℓ} {V : Type ℓ} (strcmp : String → String → ℤ) where
  unfoldable pub add_all : List (String × V) → NameMap V → Outcome (NameMap V)
  add_all [] m = ok m
  add_all ((name, v) ∷ ops) m = add_name strcmp name (some v) m >>= λ a. add_all ops a.map

  -- the last value added under each name, as a function
  unfoldable pub latest : List (String × V) → (String → Option V) → String → Option V
  latest [] f = f
  latest ((name, v) ∷ ops) f = latest ops (λ q. if is_zero (strcmp name q) then some v else f q)

module _ {ℓ} {V : Type ℓ} where
  -- the name is among those that are added
  abbrev pub IsAdded : String → List (String × V) → Type 0
  IsAdded q [] = ⊥
  IsAdded q ((name, v) ∷ ops) = (name ≡ q) ⊎ IsAdded q ops

  -- all names that are added satisfy `P`
  abbrev AllAre : (String → Type 0) → List (String × V) → Type 0
  AllAre P [] = Unit
  AllAre P ((name, v) ∷ ops) = P name × AllAre P ops

  AllAre-imp :
      (P Q : String → Type 0) (ops : List (String × V))
      → ((q : String) → P q → Q q)
      → AllAre P ops
      → AllAre Q ops
  AllAre-imp P Q [] f h = tt
  AllAre-imp P Q ((name, v) ∷ ops) f (h, hs) = (f name h, AllAre-imp P Q ops f hs)

  AllAre-IsAdded : (ops : List (String × V)) → AllAre (λ q. IsAdded q ops) ops
  AllAre-IsAdded [] = tt
  AllAre-IsAdded ((name, v) ∷ ops) =
      (inl refl, AllAre-imp (λ q. IsAdded q ops) _ ops (λ q h. inr h) (AllAre-IsAdded ops))

module _ {ℓ} {V : Type ℓ} {strcmp : String → String → ℤ} (s : IsStrcmp strcmp) where
  insert_ne_null : (name : String) (v : V) (m : NameMap V) → insert strcmp name v m ≢ null
  unfolding insert
  insert_ne_null name v null = cc
  insert_ne_null name v (node none l r) = cc
  insert_ne_null name v (node (some (k, w)) l r) = ground arith

  latest-eq :
      (ops : List (String × V)) (f g : String → Option V)
      → ((q : String) → f q ≡ g q)
      → (q : String) → latest strcmp ops f q ≡ latest strcmp ops g q
  unfolding latest
  latest-eq [] f g h q = h q
  latest-eq ((name, v) ∷ ops) f g h q = latest-eq ops _ _ (λ p. rw (h p)) q

  module _ (P : String → Type 0)
      (close : (a b : String) → P a → P b → is_unit (strcmp a b) ≡ true) where
    add_one :
        (name : String) (v : V) (m : NameMap V)
        → str_eq name "" ≡ false
        → P name
        → All P m
        → m ≢ null
        → IsOrdered strcmp m
        → add_name strcmp name (some v) m ≡ ok (inserted strcmp name v m)
    add_one name v m h p a n o =
        add_name-insert strcmp name v m h n o
        ∙ ap (λ b. ok (if b then inserted strcmp name v m else rejected m))
            (is_reached-All strcmp name v m (All-imp (λ k q. close k name q p) m a))

    add_all_from :
        (ops : List (String × V)) (m : NameMap V)
        → AllNamed ops
        → AllAre P ops
        → All P m
        → m ≢ null
        → IsOrdered strcmp m
        → (m' : NameMap V) × (add_all strcmp ops m ≡ ok m')
          × IsOrdered strcmp m'
          × ((q : String) → get_name2 strcmp q m' ≡ latest strcmp ops (λ p. get_name2 strcmp p m) q)
    unfolding add_all latest
    add_all_from [] m h ps a n o = (m, refl, o, λ q. refl)
    add_all_from ((name, v) ∷ ops) m (h, hs) (p, ps) a n o =
        let next = insert strcmp name v m in
        let (m', e, o', reads) =
          add_all_from ops next hs ps (All-insert s P name v m p a) (insert_ne_null name v m)
            (insert-IsOrdered s name v m o) in
        (
          m',
          rw (add_one name v m h p a n o) e,
          o',
          λ q. reads q ∙ latest-eq ops _ _ (λ p. get_name2-insert s name v m p o) q,
        )

  -- With any strcmp as C has it, a sequence of additions of nonempty names to a new tree, where any two
  -- of the names compare as -1, 0 or 1, returns, with a tree in search order in which every name reads
  -- the last value added under it, and the others nothing.
  pub add_all-latest :
      (ops : List (String × V))
      → AllNamed ops
      → ((a b : String) → IsAdded a ops → IsAdded b ops → is_unit (strcmp a b) ≡ true)
      → (m : NameMap V) × (add_all strcmp ops init ≡ ok m)
        × IsOrdered strcmp m
        × ((q : String) → get_name2 strcmp q m ≡ latest strcmp ops (λ _. none) q)
  unfolding get_name2
  add_all-latest ops h close =
      add_all_from (λ q. IsAdded q ops) close ops init h (AllAre-IsAdded ops) (tt, tt) (cc) tt

-- The shape of a tree that holds at most one name.
data IsSingle {ℓ} {V : Type ℓ} : NameMap V → Type ℓ where
  single : (e : Option (String × V)) → IsSingle (node e null null)

module _ {ℓ} {V : Type ℓ} (strcmp : String → String → ℤ)
    (far : (a b : String)
      → (is_minus_one (strcmp a b) ≡ false) × (is_one (strcmp a b) ≡ false)) where
  add_all-IsSingle :
      (ops : List (String × V)) (m : NameMap V)
      → AllNamed ops
      → IsSingle m
      → (m' : NameMap V) × (add_all strcmp ops m ≡ ok m') × IsSingle m'
  unfolding add_all add_name
  add_all-IsSingle [] m h t = (m, refl, t)
  add_all-IsSingle ((name, v) ∷ ops) _ (h, hs) (single none) =
      rw h (add_all-IsSingle ops _ hs (single (some (name, v))))
  add_all-IsSingle ((name, v) ∷ ops) _ (h, hs) (single (some (k, w))) =
      let (not_minus, not_one) = far k name in
      elim (Bool-cases (is_zero (strcmp k name))) [
        | inl e ↦ rw (h, e) (add_all-IsSingle ops _ hs (single (some (k, v))))
        | inr e ↦ rw (h, e, not_minus, not_one) (add_all-IsSingle ops _ hs (single (some (k, w))))
      ]

  -- With a `strcmp` whose results are never -1 or 1 a new tree never holds more than one name,
  -- however many nonempty ones are added.
  pub add_all-far :
      (ops : List (String × V))
      → AllNamed ops
      → (m : NameMap V) × (add_all strcmp ops init ≡ ok m) × (size m ≤ 1)
  unfolding size
  add_all-far ops h = let (m, e, t) = add_all-IsSingle ops init h (single none) in (m, e, size_le t)
    where
      size_le : {m : NameMap V} → IsSingle m → size m ≤ 1
      size_le (single none) = omega arith
      size_le (single (some e)) = omega arith
