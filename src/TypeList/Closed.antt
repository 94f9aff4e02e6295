-- ===== src/TypeList/Closed.antt =====
-- minimal/src/type_list.c: what is on the list when the collection has ended.
use pylinda.Base.{
  ℕ, ◌<◌, ◌≡◌, String, Bool, true, false, Option, none, some, List, get_elem?, length, ok, ◌⊎◌, inl,
  inr,
}
use pylinda.Base.Int.{ℤ}
use pylinda.SyntaxTree.{
  Tree, null, identifier, type_spec, type_function, product_type, sum_type, pointer, bracket, Trees,
}
use pylinda.Eval.{Run, value, ◌>>=◌, EvalLayer}
use pylinda.TypeList.{TypeCell, mem, is_built_in, named_type}
use pylinda.TypeList.Missing.{Keeps}

-- The run ends with a value of which `P` holds.
abbrev pub Yields : {A : Type 0} → (A → Type 0) → Run A → Type 0
Yields P (value a) = P a
Yields P r = ⊥

pub bind-Yields :
    {A B : Type 0} (P : A → Type 0) (Q : B → Type 0) (r : Run A) (f : A → Run B)
    → Yields P r
    → ((a : A) → P a → Yields Q (f a))
    → Yields Q (r >>= f)
bind-Yields P Q (value a) f h k = k a h
bind-Yields P Q (Run.stopped) f h k = absurd h
bind-Yields P Q (Run.crashed) f h k = absurd h
bind-Yields P Q (Run.starved) f h k = absurd h

-- code that can be read: no NULL, and both sides of a type function
abbrev mutual
  pub IsSpec : Tree → Type 0
  IsSpec null = ⊥
  IsSpec (type_spec n t) = IsSpec t
  IsSpec (type_function (Trees.next a (Trees.next b ts))) = IsSpec a × IsSpec b
  IsSpec (type_function ts) = ⊥
  IsSpec (product_type ts) = AreSpecs ts
  IsSpec (sum_type ts) = AreSpecs ts
  IsSpec (bracket t) = IsSpec t
  IsSpec t = Unit

  pub AreSpecs : Trees → Type 0
  AreSpecs Trees.end = Unit
  AreSpecs (Trees.next t ts) = IsSpec t × AreSpecs ts

module _ {F : Type 0} (strcmp : String → String → ℤ) (layers : List (EvalLayer F))
    (cells : List TypeCell) where
  -- no type, or one of the cells
  abbrev pub IsKnown : Option ℕ → Type 0
  IsKnown none = Unit
  IsKnown (some a) = a < length cells

  -- nothing, or a type of the list
  abbrev pub Holds : List ℕ → Option ℕ → Type 0
  Holds l none = Unit
  Holds l (some a) = mem a l ≡ true

  -- Every name that is not built in and that stands for a type stands for one of the list.
  abbrev pub HoldsName : List ℕ → Option ℕ → String → Type 0
  HoldsName l p name =
      is_built_in name ≡ false
      → (o : Option ℕ) → named_type strcmp layers cells p name ≡ ok o
      → Holds l o

  -- so for every name in the code
  abbrev mutual
    pub Covers : List ℕ → Option ℕ → Tree → Type 0
    Covers l p (identifier name d) = HoldsName l p name
    Covers l p (pointer name) = HoldsName l p name
    Covers l p (type_spec n t) = Covers l p t
    Covers l p (type_function (Trees.next a (Trees.next b ts))) = Covers l p a × Covers l p b
    Covers l p (product_type ts) = CoversAll l p ts
    Covers l p (sum_type ts) = CoversAll l p ts
    Covers l p (bracket t) = Covers l p t
    Covers l p t = Unit

    pub CoversAll : List ℕ → Option ℕ → Trees → Type 0
    CoversAll l p Trees.end = Unit
    CoversAll l p (Trees.next t ts) = Covers l p t × CoversAll l p ts

  abbrev pub HasMap : Option ℕ → Option TypeCell → Type 0
  HasMap p none = ⊥
  HasMap p (some c) = c.typemap ≡ p

  -- the layer of a type of the list
  abbrev pub IsFrom : List ℕ → Option ℕ → Type 0
  IsFrom l p = (y : ℕ) × ((mem y l ≡ true) × HasMap p (get_elem? cells y))

  pub IsFrom-Keeps : (l l' : List ℕ) (p : Option ℕ) → Keeps l l' → IsFrom l p → IsFrom l' p
  IsFrom-Keeps l l' p h (y, (k, e)) = (y, (h y k, e))

  -- The own type of a type is on the list, and so is what its code names in the layer of a type of
  -- the list.
  abbrev pub IsSettled : List ℕ → Option TypeCell → Type 0
  IsSettled l none = ⊥
  IsSettled l (some c) =
      Holds l c.typeobj × ((p : Option ℕ) × (IsFrom l p × Covers l p c.type_spec))

  abbrev pub IsCell : Option TypeCell → Type 0
  IsCell none = ⊥
  IsCell (some c) = IsSpec c.type_spec × IsKnown c.typeobj

  pub Holds-Keeps : (l l' : List ℕ) (o : Option ℕ) → Keeps l l' → Holds l o → Holds l' o
  Holds-Keeps l l' none h k = tt
  Holds-Keeps l l' (some a) h k = h a k

  HoldsName-Keeps :
      (l l' : List ℕ) (p : Option ℕ) (name : String)
      → Keeps l l'
      → HoldsName l p name
      → HoldsName l' p name
  HoldsName-Keeps l l' p name h k b o e = Holds-Keeps l l' o h (k b o e)

  mutual
    pub Covers-Keeps :
        (l l' : List ℕ) (p : Option ℕ) (t : Tree) → Keeps l l' → Covers l p t → Covers l' p t
    Covers-Keeps l l' p (identifier name d) h k = HoldsName-Keeps l l' p name h k
    Covers-Keeps l l' p (pointer name) h k = HoldsName-Keeps l l' p name h k
    Covers-Keeps l l' p (type_spec n t) h k = Covers-Keeps l l' p t h k
    Covers-Keeps l l' p (type_function (Trees.next a (Trees.next b ts))) h k =
        (Covers-Keeps l l' p a h k.0, Covers-Keeps l l' p b h k.1)
    Covers-Keeps l l' p (product_type ts) h k = CoversAll-Keeps l l' p ts h k
    Covers-Keeps l l' p (sum_type ts) h k = CoversAll-Keeps l l' p ts h k
    Covers-Keeps l l' p (bracket t) h k = Covers-Keeps l l' p t h k
    Covers-Keeps l l' p t h k = tt

    pub CoversAll-Keeps :
        (l l' : List ℕ) (p : Option ℕ) (ts : Trees)
        → Keeps l l'
        → CoversAll l p ts
        → CoversAll l' p ts
    CoversAll-Keeps l l' p Trees.end h k = tt
    CoversAll-Keeps l l' p (Trees.next t ts) h k =
        (Covers-Keeps l l' p t h k.0, CoversAll-Keeps l l' p ts h k.1)

  pub IsSettled-Keeps :
      (l l' : List ℕ) (c : Option TypeCell) → Keeps l l' → IsSettled l c → IsSettled l' c
  IsSettled-Keeps l l' none h k = k
  IsSettled-Keeps l l' (some c) h (o, (p, (f, s))) = (
    Holds-Keeps l l' c.typeobj h o,
    (p, (IsFrom-Keeps l l' p h f, Covers-Keeps l l' p c.type_spec h s)),
  )

  -- from one list to the next: nothing leaves it, and what is new is settled
  abbrev pub Walked : List ℕ → List ℕ → Type 0
  Walked l l' =
      Keeps l l' × ((x : ℕ) → mem x l' ≡ true → (mem x l ≡ true) ⊎ IsSettled l' (get_elem? cells x))

  pub Walked-refl : (l : List ℕ) → Walked l l
  Walked-refl l = ((λ x h. h), (λ x h. inl h))

  pub Walked-trans : (l k m : List ℕ) → Walked l k → Walked k m → Walked l m
  Walked-trans l k m (f, g) (f', g') = (
    (λ x h. f' x (f x h)),
    (λ x h. elim (g' x h) [
      | inl e ↦ elim (g x e) [
        | inl e' ↦ inl e'
        | inr s ↦ inr (IsSettled-Keeps k m (get_elem? cells x) f' s)
      ]
      | inr s ↦ inr s
    ]),
  )

  abbrev pub HoldsObject : List ℕ → Option TypeCell → Type 0
  HoldsObject l none = ⊥
  HoldsObject l (some c) = Holds l c.typeobj

  -- after an addition: `a` is on the list, and if it is new its code is still to be read
  abbrev pub Added : ℕ → List ℕ → Bool × List ℕ → Type 0
  Added a l (false, l') =
      Keeps l l' × ((x : ℕ) → mem x l' ≡ true → mem x l ≡ true) × (mem a l' ≡ true)
  Added a l (true, l') =
      Keeps l l'
      × (mem a l ≡ false)
      × (mem a l' ≡ true)
      × HoldsObject l' (get_elem? cells a)
      × ((x : ℕ)
          → mem x l' ≡ true
          → (mem x l ≡ true) ⊎ ((a ≡ x) ⊎ IsSettled l' (get_elem? cells x)))

  -- the list holds the type, and with every type what it is made of
  abbrev pub IsListOf : ℕ → List ℕ → Type 0
  IsListOf a l = (mem a l ≡ true) × ((x : ℕ) → mem x l ≡ true → IsSettled l (get_elem? cells x))
