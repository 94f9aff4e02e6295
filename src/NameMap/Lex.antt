-- ===== src/NameMap/Lex.antt =====
-- A `strcmp` that meets the hypotheses of the theorems on minimal/src/syntax_map.c: the order of
-- the characters, with a result of any fixed size.
use Prim.Native.Nat.{compare, Ordering}
use Prim.Native.Char.{code}
use Prim.Native.String.{String}
use text.Mathlib.TextEquality.{codes_equal}
use pylinda.Base.{ℕ, suc, ◌≡◌, refl, true, false, arith}
use pylinda.Base.Int.{ℤ, pos, negsuc, is_neg, is_zero, is_pos, is_one, is_minus_one}
use pylinda.NameMap.Strcmp.{IsStrcmp, is_unit}

-- -(n + 1), 0 or n + 1
unfoldable pub lex : ℕ → String → String → ℤ
lex n String.[] String.[] = pos 0
lex n String.[] (String.◌∷◌ d t) = negsuc n
lex n (String.◌∷◌ c s) String.[] = pos (suc n)
lex n (String.◌∷◌ c s) (String.◌∷◌ d t) =
    let rest = lex n s t in
    elim (compare (code c) (code d)) [
      | Ordering.lt ↦ negsuc n
      | Ordering.eq ↦ rest
      | Ordering.gt ↦ pos (suc n)
    ]

pub lex_same : (n : ℕ) (a : String) → is_zero (lex n a a) ≡ true
unfolding lex
lex_same n String.[] = refl
lex_same n (String.◌∷◌ c s) = ground (arith, lex_same n s)

lex-eq_of_zero : (n : ℕ) (a b : String) → is_zero (lex n a b) ≡ true → a ≡ b
unfolding lex
lex-eq_of_zero n String.[] String.[] h = refl
lex-eq_of_zero n String.[] (String.◌∷◌ d t) h = cc
lex-eq_of_zero n (String.◌∷◌ c s) String.[] h = cc
lex-eq_of_zero n (String.◌∷◌ c s) (String.◌∷◌ d t) h =
    ground (arith, codes_equal c d, lex-eq_of_zero n s t)

lex-pos_of_neg : (n : ℕ) (a b : String) → is_neg (lex n a b) ≡ true → is_pos (lex n b a) ≡ true
unfolding lex
lex-pos_of_neg n String.[] String.[] h = cc
lex-pos_of_neg n String.[] (String.◌∷◌ d t) h = refl
lex-pos_of_neg n (String.◌∷◌ c s) String.[] h = cc
lex-pos_of_neg n (String.◌∷◌ c s) (String.◌∷◌ d t) h = ground (arith, lex-pos_of_neg n s t)

lex-neg_of_pos : (n : ℕ) (a b : String) → is_pos (lex n a b) ≡ true → is_neg (lex n b a) ≡ true
unfolding lex
lex-neg_of_pos n String.[] String.[] h = cc
lex-neg_of_pos n String.[] (String.◌∷◌ d t) h = cc
lex-neg_of_pos n (String.◌∷◌ c s) String.[] h = refl
lex-neg_of_pos n (String.◌∷◌ c s) (String.◌∷◌ d t) h = ground (arith, lex-neg_of_pos n s t)

lex-neg_trans :
    (n : ℕ) (a b c : String)
    → is_neg (lex n a b) ≡ true
    → is_neg (lex n b c) ≡ true
    → is_neg (lex n a c) ≡ true
unfolding lex
lex-neg_trans n String.[] String.[] c h k = cc
lex-neg_trans n String.[] (String.◌∷◌ d t) String.[] h k = cc
lex-neg_trans n String.[] (String.◌∷◌ d t) (String.◌∷◌ e u) h k = refl
lex-neg_trans n (String.◌∷◌ c s) String.[] e h k = cc
lex-neg_trans n (String.◌∷◌ c s) (String.◌∷◌ d t) String.[] h k = cc
lex-neg_trans n (String.◌∷◌ c s) (String.◌∷◌ d t) (String.◌∷◌ e u) h k =
    ground (arith, lex-neg_trans n s t u)

pub lex-IsStrcmp : (n : ℕ) → IsStrcmp (lex n)
lex-IsStrcmp n = record {
  same = lex_same n;
  eq_of_zero = lex-eq_of_zero n;
  pos_of_neg = lex-pos_of_neg n;
  neg_of_pos = lex-neg_of_pos n;
  neg_trans = lex-neg_trans n;
}

pub lex-is_unit : (a b : String) → is_unit (lex 0 a b) ≡ true
unfolding lex is_unit
lex-is_unit String.[] String.[] = refl
lex-is_unit String.[] (String.◌∷◌ d t) = refl
lex-is_unit (String.◌∷◌ c s) String.[] = refl
lex-is_unit (String.◌∷◌ c s) (String.◌∷◌ d t) = ground (arith, lex-is_unit s t)

-- with results -2, 0 and 2
pub lex_far : (a b : String) → (is_minus_one (lex 1 a b) ≡ false) × (is_one (lex 1 a b) ≡ false)
unfolding lex
lex_far String.[] String.[] = (refl, refl)
lex_far String.[] (String.◌∷◌ d t) = (refl, refl)
lex_far (String.◌∷◌ c s) String.[] = (refl, refl)
lex_far (String.◌∷◌ c s) (String.◌∷◌ d t) = ground (arith, lex_far s t)
