-- ===== src/Value/Text.antt =====
-- The strings of minimal/src/values.c as arrays of bytes, and their sum in Minimal_Value_add of
-- minimal/src/value_funcs.c.
use pylinda.Base.{
  ℕ, zero, suc, ◌+◌, ◌-◌, ◌≤◌, ◌≡◌, ◌≢◌, refl, ap, ◌∙◌, true, Option, none, some, List, [], ◌∷◌,
  ◌++◌, length, length-append, set, take, drop, Outcome, ok, crash, ◌>>=◌, leb, if◌then◌else◌,
  arith,
}

-- the characters before the first NUL byte, as the C library and the printing of a value read them
abbrev pub c_string : List ℕ → Option (List ℕ)
c_string [] = none
c_string (zero ∷ bs) = some []
c_string (suc b ∷ bs) = elim (c_string bs) [ none ↦ none | some cs ↦ some (suc b ∷ cs) ]

-- `Minimal_string`: the length that is stored counts the NUL byte
abbrev pub new_string : List ℕ → List ℕ
new_string chars = chars ++ 0 ∷ []

abbrev pub get_string_len : List ℕ → ℕ
get_string_len bytes = length bytes

-- `memcpy` of all of `src` to the position `i` of `buf`
abbrev pub memcpy : (buf : List ℕ) → (i : ℕ) → (src : List ℕ) → Outcome (List ℕ)
memcpy buf i src =
    if leb (i + length src) (length buf)
    then ok (take i buf ++ (src ++ drop (i + length src) buf))
    else crash

-- `Minimal_string2`
abbrev pub new_string2 : List ℕ → ℕ → List ℕ
new_string2 bytes len = take len bytes

-- The strings' case of `Minimal_Value_add`; `fresh` is what malloc returns.
unfoldable pub add_strings : (fresh a b : List ℕ) → Outcome (List ℕ)
add_strings fresh a b = do
  r ← memcpy fresh 0 a
  s ← memcpy r (get_string_len a + 1) b
  let t = set s (get_string_len a + get_string_len b) 0
  ok (new_string2 t (get_string_len a + get_string_len b))

suc_add : (a n : ℕ) → suc a + n ≡ suc (a + n)
suc_add a n = omega arith

take-past : (a x : List ℕ) (m : ℕ) → take (length a + m) (a ++ x) ≡ a ++ take m x
take-past [] x m = ap (λ n. take n x) (omega arith)
take-past (b ∷ a) x m =
    ap (λ n. take n (b ∷ (a ++ x))) (suc_add (length a) m) ∙ ap (◌∷◌ b) (take-past a x m)

set-past : (a x : List ℕ) (m v : ℕ) → set (a ++ x) (length a + m) v ≡ a ++ set x m v
set-past [] x m v = ap (λ n. set x n v) (omega arith)
set-past (b ∷ a) x m v =
    ap (λ n. set (b ∷ (a ++ x)) n v) (suc_add (length a) m) ∙ ap (◌∷◌ b) (set-past a x m v)

length-drop : (n : ℕ) (xs : List ℕ) → length (drop n xs) ≡ length xs - n
length-drop zero xs = omega arith
length-drop (suc n) [] = omega arith
length-drop (suc n) (x ∷ xs) = omega (arith, length-drop n xs)

append_assoc : (a b c : List ℕ) → (a ++ b) ++ c ≡ a ++ (b ++ c)
append_assoc [] b c = refl
append_assoc (x ∷ a) b c = ap (◌∷◌ x) (append_assoc a b c)

-- no byte is NUL
unfoldable pub IsText : List ℕ → Type 0
IsText [] = Unit
IsText (b ∷ bs) = (b ≢ 0) × IsText bs

c_string-prefix : (s x : List ℕ) → IsText s → c_string ((s ++ 0 ∷ []) ++ x) ≡ some s
unfolding IsText
c_string-prefix [] x t = refl
c_string-prefix (zero ∷ s) x (t, ts) = absurd (t refl)
c_string-prefix (suc b ∷ s) x (t, ts) = rw (c_string-prefix s x ts) refl

leb_of : {a b : ℕ} → a ≤ b → leb a b ≡ true
leb_of h = ground arith

-- the bytes of a sum begin with all bytes of the first operand
add_strings-prefix :
    (fresh a b : List ℕ)
    → length fresh ≡ length a + length b + 1
    → (x : List ℕ) × (add_strings fresh a b ≡ ok (a ++ x))
unfolding add_strings
add_strings-prefix fresh a b h =
    let d = drop (0 + length a) fresh in
    let r = a ++ d in
    let e = drop (length a + 1 + length b) r in
    let y = take 1 d ++ (b ++ e) in
    let room : 0 + length a ≤ length fresh = omega (arith, h) in
    let more : length a + 1 + length b ≤ length r =
      omega (arith, h, length-append a d, length-drop (0 + length a) fresh) in
    (
      take (length b) (set y (length b) 0),
      rw
          (
            leb_of room,
            leb_of more,
            take-past a d 1,
            append_assoc a (take 1 d) (b ++ e),
            set-past a y (length b) 0,
            take-past a (set y (length b) 0) (length b),
          )
          refl,
    )

-- The sum of two strings that Minimal_string made returns, whatever the memory held, and C code reads
-- it as the first of them.
pub add_strings-c_string :
    (fresh s t : List ℕ)
    → IsText s
    → length fresh ≡ length (new_string s) + length (new_string t) + 1
    → (r : List ℕ) × (add_strings fresh (new_string s) (new_string t) ≡ ok r)
      × (c_string r ≡ some s)
add_strings-c_string fresh s t p h =
    let (x, e) = add_strings-prefix fresh (new_string s) (new_string t) h in
    (new_string s ++ x, e, c_string-prefix s x p)
