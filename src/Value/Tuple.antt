-- ===== src/Value/Tuple.antt =====
-- The tuple operations of minimal/src/values.c on the array of slots; `none` is a NULL slot. The
-- second result of a call is the references that it releases.
use pylinda.Base.{
  inl, inr, Bool-cases, ℕ, zero, suc, ◌-◌, ◌<◌, ◌≤◌, ◌≡◌, refl, sym, ◌∙◌, ap, true, Option, none,
  some, List, [], ◌∷◌, ◌++◌, length, get_elem?, set, replicate, length-append, Outcome, ok, crash,
  ◌>>=◌, leb, ◌==◌, if◌then◌else◌, arith,
}
use pylinda.Base.Int.{ℤ, pos, negsuc}

abbrev pub Slots : Type 0 → Type 0
Slots V = List (Option V)

leb→le : {a b : ℕ} → leb a b ≡ true → a ≤ b
leb→le h = ground arith

leb_self : (n : ℕ) → leb n n ≡ true
leb_self n = ground arith

one_more : (n : ℕ) → suc n - n ≡ 1
one_more n = omega arith

module _ {V : Type 0} where
  -- `Minimal_tuple`; that of a negative size, which C makes, has no list
  unfoldable pub new_tuple : ℤ → Outcome (Slots V)
  new_tuple (pos n) = ok (replicate n none)
  new_tuple (negsuc n) = crash

  abbrev pub get_tuple_size : Slots V → ℕ
  get_tuple_size ts = length ts

  abbrev joined : Option (Option V) → Option V
  joined none = none
  joined (some o) = o

  unfoldable pub tuple_get : Slots V → ℤ → Option V
  tuple_get ts (pos i) = if leb (length ts) i then none else joined (get_elem? ts i)
  tuple_get ts (negsuc i) = none

  abbrev pub opt_list : Option V → List V
  opt_list none = []
  opt_list (some v) = v ∷ []

  -- the array with its new slots NULL
  abbrev pub grown : Slots V → ℕ → Slots V
  grown ts i = if leb (length ts) i then ts ++ replicate (suc i - length ts) none else ts

  -- releases what the slot held
  abbrev pub put : Slots V → ℕ → Option V → Option (Option V) → Outcome (Slots V × List V)
  put ts i v none = crash
  put ts i v (some old) = ok (set ts i v, opt_list old)

  -- A negative position is written before the array.
  unfoldable pub tuple_set : Slots V → ℤ → Option V → Outcome (Slots V × List V)
  tuple_set ts (negsuc i) v = crash
  tuple_set ts (pos i) v = put (grown ts i) i v (get_elem? (grown ts i) i)

  unfoldable pub tuple_add : Slots V → Option V → Outcome (Slots V × List V)
  tuple_add ts v = tuple_set ts (pos (length ts)) v

  length-replicate : (n : ℕ) (v : Option V) → length (replicate n v) ≡ n
  length-replicate zero v = refl
  length-replicate (suc n) v = ground (arith, length-replicate n v)

  get-beyond : (ts : Slots V) (i : ℕ) → length ts ≤ i → get_elem? ts i ≡ none
  get-beyond [] i h = refl
  get-beyond (t ∷ ts) zero h = ground arith
  get-beyond (t ∷ ts) (suc i) h = get-beyond ts i (omega arith)

  get-within :
      (ts : Slots V) (i : ℕ) → i < length ts → get_elem? ts i ≡ some (joined (get_elem? ts i))
  get-within [] i h = ground arith
  get-within (t ∷ ts) zero h = refl
  get-within (t ∷ ts) (suc i) h = get-within ts i (omega arith)

  get-set :
      (ts : Slots V) (i : ℕ) (v : Option V) (j : ℕ)
      → i < length ts
      → joined (get_elem? (set ts i v) j) ≡ (if j == i then v else joined (get_elem? ts j))
  get-set [] i v j h = ground arith
  get-set (t ∷ ts) zero v zero h = refl
  get-set (t ∷ ts) zero v (suc j) h = ground arith
  get-set (t ∷ ts) (suc i) v zero h = ground arith
  get-set (t ∷ ts) (suc i) v (suc j) h = ground (arith, get-set ts i v j)

  length-set : (ts : Slots V) (i : ℕ) (v : Option V) → length (set ts i v) ≡ length ts
  length-set [] i v = refl
  length-set (t ∷ ts) zero v = refl
  length-set (t ∷ ts) (suc i) v = omega (arith, length-set ts i v)

  get-replicate : (n j : ℕ) → joined (get_elem? (replicate n none) j) ≡ none
  get-replicate zero j = refl
  get-replicate (suc n) zero = refl
  get-replicate (suc n) (suc j) = get-replicate n j

  get-pad :
      (ts : Slots V) (n j : ℕ)
      → joined (get_elem? (ts ++ replicate n none) j) ≡ joined (get_elem? ts j)
  get-pad [] n j = get-replicate n j
  get-pad (t ∷ ts) n zero = refl
  get-pad (t ∷ ts) n (suc j) = get-pad ts n j

  get-grown : (ts : Slots V) (i j : ℕ) → joined (get_elem? (grown ts i) j) ≡ joined (get_elem? ts j)
  get-grown ts i j = ground (arith, get-pad ts (suc i - length ts) j)

  length-grown :
      (ts : Slots V) (i : ℕ)
      → length (grown ts i) ≡ (if leb (length ts) i then suc i else length ts)
  length-grown ts i = ground (
    arith,
    length-append ts (replicate (suc i - length ts) none),
    length-replicate (suc i - length ts) none,
  )

  tuple_get-joined : (ts : Slots V) (i : ℕ) → tuple_get ts (pos i) ≡ joined (get_elem? ts i)
  unfolding tuple_get
  tuple_get-joined ts i = elim (Bool-cases (leb (length ts) i)) [
    | inl e ↦ rw (e, get-beyond ts i (leb→le e)) refl
    | inr e ↦ rw (e) refl
  ]

  within_grown : (ts : Slots V) (i : ℕ) → i < length (grown ts i)
  within_grown ts i = ground (arith, length-grown ts i)

  slot-grown : (ts : Slots V) (i : ℕ) → get_elem? (grown ts i) i ≡ some (tuple_get ts (pos i))
  slot-grown ts i =
      get-within (grown ts i) i (within_grown ts i)
      ∙ ap some (get-grown ts i i ∙ sym (tuple_get-joined ts i))

  tuple_get-set :
      (ts : Slots V) (i : ℕ) (v : Option V) (j : ℕ)
      → tuple_get (set (grown ts i) i v) (pos j) ≡ (if j == i then v else tuple_get ts (pos j))
  tuple_get-set ts i v j =
      rw
        (
          tuple_get-joined (set (grown ts i) i v) j,
          get-set (grown ts i) i v j (within_grown ts i),
          get-grown ts i j,
          tuple_get-joined ts j,
        )
        refl

  -- Minimal_tupleSet at a position that is not negative returns, whatever the size: the tuple then
  -- reads the value there and what it read before elsewhere, it is as long as it was or ends at the
  -- position, and exactly the old value is released.
  pub tuple_set-get :
      (ts : Slots V) (i : ℕ) (v : Option V)
      → (us : Slots V) × (tuple_set ts (pos i) v ≡ ok (us, opt_list (tuple_get ts (pos i))))
        × (get_tuple_size us ≡ (if leb (get_tuple_size ts) i then suc i else get_tuple_size ts))
        × ((j : ℕ) → tuple_get us (pos j) ≡ (if j == i then v else tuple_get ts (pos j)))
  unfolding tuple_set
  tuple_set-get ts i v = (
    set (grown ts i) i v,
    ap (put (grown ts i) i v) (slot-grown ts i),
    length-set (grown ts i) i v ∙ length-grown ts i,
    tuple_get-set ts i v,
  )

  grown_end : (ts : Slots V) → grown ts (length ts) ≡ ts ++ none ∷ []
  grown_end ts = rw (leb_self (length ts), one_more (length ts)) refl

  get_last : (ts : Slots V) (o : Option V) → get_elem? (ts ++ o ∷ []) (length ts) ≡ some o
  get_last [] o = refl
  get_last (t ∷ ts) o = get_last ts o

  set_last : (ts : Slots V) (o v : Option V) → set (ts ++ o ∷ []) (length ts) v ≡ ts ++ v ∷ []
  set_last [] o v = refl
  set_last (t ∷ ts) o v = ap (◌∷◌ t) (set_last ts o v)

  tuple_add-append : (ts : Slots V) (v : Option V) → tuple_add ts v ≡ ok (ts ++ v ∷ [], [])
  unfolding tuple_add tuple_set
  tuple_add-append ts v =
      ap (λ g. put g (length ts) v (get_elem? g (length ts))) (grown_end ts)
      ∙ ap (put (ts ++ none ∷ []) (length ts) v) (get_last ts none)
      ∙ ap (λ us. ok (us, [])) (set_last ts none v)

  append-nil : (ts : Slots V) → ts ++ [] ≡ ts
  append-nil [] = refl
  append-nil (t ∷ ts) = ap (◌∷◌ t) (append-nil ts)

  snoc_append : (ts vs : Slots V) (v : Option V) → (ts ++ v ∷ []) ++ vs ≡ ts ++ v ∷ vs
  snoc_append [] vs v = refl
  snoc_append (t ∷ ts) vs v = ap (◌∷◌ t) (snoc_append ts vs v)

  abbrev pub add_all : Slots V → List (Option V) → Outcome (Slots V × List V)
  add_all ts [] = ok (ts, [])
  add_all ts (v ∷ vs) =
      tuple_add ts v >>= (λ (us, xs). add_all us vs >>= (λ (ws, ys). ok (ws, xs ++ ys)))

  -- Values added to a tuple stand behind those it had, in order, and nothing is released.
  pub add_all-append : (ts : Slots V) (vs : List (Option V)) → add_all ts vs ≡ ok (ts ++ vs, [])
  add_all-append ts [] = ap (λ us. ok (us, [])) (sym (append-nil ts))
  add_all-append ts (v ∷ vs) =
      rw (tuple_add-append ts v, add_all-append (ts ++ v ∷ []) vs, snoc_append ts vs v) refl
