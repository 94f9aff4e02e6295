-- ===== src/Serial.antt =====
-- minimal/src/serialise.c and parsexml.c: values and syntax trees as parts of a document. The document
-- is the tree that libxml builds; the numerals of C are parameters.
pub mod Tag
pub mod Write
pub mod Read
pub mod Slots
pub mod Trees
pub mod Specs
pub mod Params
pub mod Datum
mod Examples
use pylinda.Base.{String, ◌≡◌}
use pylinda.Base.Int.{ℤ}

-- `sprintf` of "%i" or "%li", `atoi`, and `sscanf` of "%i"
pub record Numerals : Type 0 where
  pub show : ℤ → String
  pub atoi : String → ℤ
  pub scan : String → ℤ

-- what C says of them, for the numbers of a type
pub record IsNumerals (n : Numerals) (InRange : ℤ → Type 0) : Type 0 where
  pub atoi-show : (i : ℤ) → InRange i → n.atoi (n.show i) ≡ i
  pub scan-show : (i : ℤ) → InRange i → n.scan (n.show i) ≡ i
