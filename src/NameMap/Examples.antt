-- ===== src/NameMap/Examples.antt =====
-- Tests of minimal/src/syntax_map.c, and its theorems at concrete trees.
use pylinda.Base.{ℕ, String, ◌≡◌, refl, none, some, List, [], ◌∷◌, ok, true, false, if◌then◌else◌}
use pylinda.NameMap.{
  NameMap, rejected, null, node, init, add_name, get_name2, del_name, empty, get_references, size,
}
use pylinda.NameMap.Order.{IsOrdered}
use pylinda.NameMap.Insert.{inserted, is_reached, add_name-insert}
use pylinda.NameMap.Client.{add_all, latest, add_all-latest}
use pylinda.NameMap.Delete.{empty-get_references, del_name-right}
use pylinda.NameMap.Lex.{lex, lex-IsStrcmp, lex-is_unit}

abbrev ops : List (String × ℕ)
ops = ("m", 1) ∷ ("t", 2) ∷ ("c", 3) ∷ ("t", 4) ∷ []

-- greater names stand to the left
abbrev tree : NameMap ℕ
tree = node (some ("m", 1)) (node (some ("t", 4)) null null) (node (some ("c", 3)) null null)

add_all_runs : add_all (lex 0) ops init ≡ ok tree
unfolding add_all add_name lex
add_all_runs = refl

add_all_runs_far : add_all (lex 1) ops init ≡ ok (node (some ("m", 1)) null null)
unfolding add_all add_name lex
add_all_runs_far = refl

tree-IsOrdered : IsOrdered (lex 0) tree
unfolding lex
tree-IsOrdered = ((refl, tt, tt), (refl, tt, tt), (tt, tt, tt, tt), (tt, tt, tt, tt))

add_all-latest_example :
    (m : NameMap ℕ) × (add_all (lex 0) ops init ≡ ok m)
    × IsOrdered (lex 0) m
    × ((q : String) → get_name2 (lex 0) q m ≡ latest (lex 0) ops (λ _. none) q)
add_all-latest_example =
    add_all-latest (lex-IsStrcmp 0) ops (refl, (refl, (refl, (refl, tt))))
      (λ a b p q. lex-is_unit a b)

add_name-insert_example :
    add_name (lex 0) "t" (some 9) tree
    ≡ ok (if is_reached (lex 0) "t" tree then inserted (lex 0) "t" 9 tree else rejected tree)
add_name-insert_example = add_name-insert (lex 0) "t" 9 tree refl (λ e. cc e) tree-IsOrdered

-- the names are there, and with results of another size they are not reached
reached : is_reached (lex 0) "t" tree ≡ true
unfolding is_reached lex
reached = refl

not_reached : is_reached (lex 1) "t" tree ≡ false
unfolding is_reached lex
not_reached = refl

del_name-right_example :
    get_name2 (lex 0) "c" (del_name (lex 0) "c" tree).0 ≡ get_name2 (lex 0) "c" tree
unfolding lex
del_name-right_example =
    del_name-right (lex-IsStrcmp 0) "m" 1 (node (some ("t", 4)) null null)
      (node (some ("c", 3)) null null) "c" refl

empty-get_references_example :
    ((empty (lex 0) tree).1 ≡ get_references tree) × (size (empty (lex 0) tree).0 ≡ 0)
empty-get_references_example = empty-get_references (lex-IsStrcmp 0) tree
