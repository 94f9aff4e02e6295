-- ===== src/Value/Examples.antt =====
-- Tests of minimal/src/values.c and value_funcs.c, and the theorems about them at concrete values.
use pylinda.Base.{
  ◌+◌, ◌*◌, List, replicate, ℕ, ◌≡◌, refl, true, false, none, some, [], ◌∷◌, ok, ltb, leb, ◌==◌,
  if◌then◌else◌, arith,
}
use pylinda.Base.Int.{pos, negsuc}
use pylinda.NameMap.Lex.{lex, lex_same}
use pylinda.Value.{nil, integer, string, tuple, Values, end, slot}
use pylinda.Value.Compare.{Floats, value_eq, value_ge}
use pylinda.Value.Order.{value_ge_irrefl, IsFull}
use pylinda.Value.Tuple.{Slots, tuple_set, tuple_get, get_tuple_size, opt_list, tuple_set-get}
use pylinda.Value.Text.{add_strings, new_string, c_string, IsText, add_strings-c_string}
use pylinda.Value.Numbers.{
  byte, long, new_integer, new_uinteger, get_integer, get_uinteger, get-new, get_integer-long,
}

ltb_irrefl : (n : ℕ) → ltb n n ≡ false
ltb_irrefl n = ground arith

abbrev floats : Floats
floats = record { F = ℕ; gt = λ a b. ltb b a; eq = ◌==◌ }

abbrev one_two : Values ℕ
one_two = slot (integer (pos 1)) (slot (string "a" 2) end)

abbrev one_nil : Values ℕ
one_nil = slot (integer (pos 1)) (slot nil end)

tuples_differ_late : value_eq floats (lex 0) (tuple one_two) (tuple one_nil) ≡ ok true
unfolding value_eq
tuples_differ_late = refl

value_ge_irrefl_example : value_ge floats (lex 0) (tuple one_two) (tuple one_two) ≡ ok false
unfolding IsFull
value_ge_irrefl_example =
    value_ge_irrefl floats (lex 0) (λ n. ltb_irrefl n) (lex_same 0) (tuple one_two) (tt, (tt, tt))

abbrev slots : Slots ℕ
slots = some 7 ∷ none ∷ []

set_runs : tuple_set slots (pos 3) (some 9) ≡ ok (some 7 ∷ none ∷ none ∷ some 9 ∷ [], [])
unfolding tuple_set
set_runs = refl

tuple_set-get_example :
    (us : Slots ℕ) × (tuple_set slots (pos 0) (some 9)
      ≡ ok (us, opt_list (tuple_get slots (pos 0))))
    × (get_tuple_size us ≡ (if leb (get_tuple_size slots) 0 then 1 else get_tuple_size slots))
    × ((j : ℕ) → tuple_get us (pos j) ≡ (if j == 0 then some 9 else tuple_get slots (pos j)))
tuple_set-get_example = tuple_set-get slots 0 (some 9)

-- "hi" and "yo"
abbrev hi : List ℕ
hi = 104 ∷ 105 ∷ []

abbrev yo : List ℕ
yo = 121 ∷ 111 ∷ []

fresh : List ℕ
fresh = replicate 7 255

add_strings_runs :
    add_strings fresh (new_string hi) (new_string yo) ≡ ok (104 ∷ 105 ∷ 0 ∷ 255 ∷ 121 ∷ 111 ∷ [])
unfolding add_strings fresh
add_strings_runs = refl

add_strings-c_string_example :
    (r : List ℕ) × (add_strings fresh (new_string hi) (new_string yo) ≡ ok r)
    × (c_string r ≡ some hi)
unfolding IsText fresh
add_strings-c_string_example = add_strings-c_string fresh hi yo ((λ e. cc), ((λ e. cc), tt)) refl

get-new_example :
    (get_integer {F = ℕ} byte (new_integer byte (negsuc 127)) ≡ ok (negsuc 127))
    × (get_uinteger {F = ℕ} byte (new_uinteger byte 255) ≡ ok 255)
get-new_example = get-new ℕ byte (negsuc 127) 255 (omega arith) (omega arith)

get_integer-long_example :
    (get_integer {F = ℕ} long (new_integer long (pos (5 + 4294967296 * 3))) ≡ ok (pos 5))
    × (get_uinteger {F = ℕ} long (new_uinteger long (5 + 4294967296 * 3)) ≡ ok 5)
get_integer-long_example = get_integer-long ℕ 5 3 (omega arith)
