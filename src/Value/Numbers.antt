-- ===== src/Value/Numbers.antt =====
-- The integers of minimal/src/values.c: the constructors store a number of any of the C types, the
-- getters convert what is stored. char is signed, and long has 64 bits.
use pylinda.Base.{
  ℕ, ◌+◌, ◌-◌, ◌*◌, ◌/◌, ◌%◌, ◌<◌, ◌≡◌, ap, Outcome, ok, crash, ltb, if◌then◌else◌, arith,
}
use pylinda.Base.Int.{ℤ, pos, negsuc}
use pylinda.Value.{Value, integer, uinteger}

-- the C types
pub data Kind : Type 0 where
  byte short int long : Kind

-- Minimal_byte, Minimal_short, Minimal_int and Minimal_long: the number is widened
unfoldable pub new_integer : {F : Type 0} → Kind → ℤ → Value F
new_integer kind i = integer i

-- Minimal_ubyte, Minimal_ushort, Minimal_uint and Minimal_ulong
unfoldable pub new_uinteger : {F : Type 0} → Kind → ℕ → Value F
new_uinteger kind n = uinteger n

-- 2 ^ w for the type that the getter of the kind casts to: that of long casts to int
abbrev pub modulus : Kind → ℕ
modulus byte = 256
modulus short = 65536
modulus int = 4294967296
modulus long = 4294967296

-- the residue below `m`
abbrev pub residue : ℕ → ℤ → ℕ
residue m (pos n) = n % m
residue m (negsuc n) = m - 1 - n % m

-- the number of that residue from -m/2 up to m/2
abbrev pub signed : ℕ → ℕ → ℤ
signed m r = if ltb r (m / 2) then pos r else negsuc (m - 1 - r)

-- Minimal_getByte, Minimal_getShort, Minimal_getInt and Minimal_getLong
unfoldable pub get_integer : {F : Type 0} → Kind → Value F → Outcome ℤ
get_integer kind (integer i) = ok (signed (modulus kind) (residue (modulus kind) i))
get_integer kind _ = crash

-- Minimal_getUByte, Minimal_getUShort, Minimal_getUInt and Minimal_getULong
unfoldable pub get_uinteger : {F : Type 0} → Kind → Value F → Outcome ℕ
get_uinteger kind (uinteger n) = ok (n % modulus kind)
get_uinteger kind _ = crash

-- from -m/2 up to m/2
abbrev pub InRange : ℕ → ℤ → Type 0
InRange m (pos n) = n < m / 2
InRange m (negsuc n) = n < m / 2

signed-residue :
    (k : Kind) (i : ℤ) → InRange (modulus k) i → signed (modulus k) (residue (modulus k) i) ≡ i
signed-residue byte (pos n) r = ground arith
signed-residue short (pos n) r = ground arith
signed-residue int (pos n) r = ground arith
signed-residue long (pos n) r = ground arith
signed-residue byte (negsuc n) r = ground arith
signed-residue short (negsuc n) r = ground arith
signed-residue int (negsuc n) r = ground arith
signed-residue long (negsuc n) r = ground arith

-- A number that a constructor stores comes back from the getter of its kind, signed or unsigned, when
-- it is in the range of the type that the getter casts to.
pub get-new :
    (F : Type 0) (k : Kind) (i : ℤ) (n : ℕ)
    → InRange (modulus k) i
    → n < modulus k
    → (get_integer {F = F} k (new_integer k i) ≡ ok i)
      × (get_uinteger {F = F} k (new_uinteger k n) ≡ ok n)
unfolding get_integer get_uinteger new_integer new_uinteger
get-new F k i n r s = (ap ok (signed-residue k i r), ap ok (ground arith))

-- Minimal_getLong and Minimal_getULong read a stored n + 2 ^ 32 * q, with n below 2 ^ 31, as n.
pub get_integer-long :
    (F : Type 0) (n q : ℕ)
    → n < 2147483648
    → (get_integer {F = F} long (new_integer long (pos (n + 4294967296 * q))) ≡ ok (pos n))
      × (get_uinteger {F = F} long (new_uinteger long (n + 4294967296 * q)) ≡ ok n)
unfolding get_integer get_uinteger new_integer new_uinteger
get_integer-long F n q h = (ap ok (ground arith), ap ok (ground arith))
