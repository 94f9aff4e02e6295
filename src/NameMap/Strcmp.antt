-- ===== src/NameMap/Strcmp.antt =====
-- What C says of `strcmp`, and the stronger promise that minimal/src/syntax_map.c relies on.
use pylinda.Base.{String, Bool, true, ◌||◌, ◌≡◌}
use pylinda.Base.Int.{ℤ, is_neg, is_zero, is_pos, is_one, is_minus_one}

-- Zero exactly for equal texts, and a sign that is a strict order.
pub record IsStrcmp (strcmp : String → String → ℤ) : Type 0 where
  pub same : (a : String) → is_zero (strcmp a a) ≡ true
  pub eq_of_zero : (a b : String) → is_zero (strcmp a b) ≡ true → a ≡ b
  pub pos_of_neg : (a b : String) → is_neg (strcmp a b) ≡ true → is_pos (strcmp b a) ≡ true
  pub neg_of_pos : (a b : String) → is_pos (strcmp a b) ≡ true → is_neg (strcmp b a) ≡ true
  pub neg_trans :
      (a b c : String)
      → is_neg (strcmp a b) ≡ true
      → is_neg (strcmp b c) ≡ true
      → is_neg (strcmp a c) ≡ true

-- A result is -1, 0 or 1. C does not promise it: whether two names compare so is up to the library.
unfoldable pub is_unit : ℤ → Bool
is_unit c = is_zero c || is_minus_one c || is_one c

-- The three cases of a sign.
pub data Sign (c : ℤ) : Type 0 where
  negative : is_neg c ≡ true → Sign c
  zero : is_zero c ≡ true → Sign c
  positive : is_pos c ≡ true → Sign c
