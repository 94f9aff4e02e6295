-- ===== src/Object/Build.antt =====
-- The functions of minimal/src/syntax_tree.c that put nodes together in sequences, types and tuples.
-- An array with no elements is a null pointer in the source.
use pylinda.Base.{ℕ, ◌≡◌, refl, ap, sym, ◌∙◌, List, [], ◌∷◌, ◌++◌}
use pylinda.Object.Node.{Node, sequence}

-- a node at its address
abbrev pub Located : Type 0
Located = ℕ × Node

-- Minimal_SyntaxTree_addToSequence, Minimal_SyntaxTree_addToProductType and
-- Minimal_SyntaxTree_addToSumType
abbrev pub add_to : List ℕ → ℕ → List ℕ
add_to [] v = v ∷ []
add_to (p ∷ ps) v = (p ∷ ps) ++ v ∷ []

-- Minimal_SyntaxTree_prependToSequence, Minimal_SyntaxTree_prependToProductType and
-- Minimal_SyntaxTree_prependToSumType
abbrev pub prepend_to : List ℕ → ℕ → List ℕ
prepend_to [] v = v ∷ []
prepend_to ps v = v ∷ ps

abbrev pub add_each : List ℕ → List ℕ → List ℕ
add_each ps [] = ps
add_each ps (q ∷ qs) = add_each (add_to ps q) qs

-- The node that results, and the references that are taken; `fresh` is the address of a new node.
unfoldable pub create_sequence2 : (fresh : ℕ) → Located → Located → Located × List ℕ
create_sequence2 fresh (a, sequence ps) (b, sequence qs) = ((a, sequence (add_each ps qs)), qs)
create_sequence2 fresh (a, sequence ps) (b, n) = ((a, sequence (add_to ps b)), [])
create_sequence2 fresh (a, m) (b, sequence qs) = ((b, sequence (prepend_to qs a)), [])
create_sequence2 fresh (a, m) (b, n) = ((fresh, sequence (a ∷ b ∷ [])), [])

-- the definitions that a node stands for
abbrev pub definitions : Located → List ℕ
definitions (a, sequence ps) = ps
definitions (a, n) = a ∷ []

add_to_lem : (ps : List ℕ) (v : ℕ) → add_to ps v ≡ ps ++ v ∷ []
add_to_lem [] v = refl
add_to_lem (p ∷ ps) v = refl

prepend_to_lem : (ps : List ℕ) (v : ℕ) → prepend_to ps v ≡ v ∷ ps
prepend_to_lem [] v = refl
prepend_to_lem (p ∷ ps) v = refl

snoc_append : (ps qs : List ℕ) (v : ℕ) → (ps ++ v ∷ []) ++ qs ≡ ps ++ v ∷ qs
snoc_append [] qs v = refl
snoc_append (p ∷ ps) qs v = ap (◌∷◌ p) (snoc_append ps qs v)

append-nil : (ps : List ℕ) → ps ++ [] ≡ ps
append-nil [] = refl
append-nil (p ∷ ps) = ap (◌∷◌ p) (append-nil ps)

add_each_lem : (ps qs : List ℕ) → add_each ps qs ≡ ps ++ qs
add_each_lem ps [] = sym (append-nil ps)
add_each_lem ps (q ∷ qs) =
    add_each_lem (add_to ps q) qs ∙ ap (λ xs. xs ++ qs) (add_to_lem ps q) ∙ snoc_append ps qs q

-- A sequence of two nodes holds the definitions of the first and then those of the second, whichever
-- of the two are sequences themselves.
pub create_sequence2-definitions :
    (fresh : ℕ) (s t : Located)
    → definitions (create_sequence2 fresh s t).0 ≡ definitions s ++ definitions t
unfolding create_sequence2
create_sequence2-definitions fresh (a, sequence ps) (b, sequence qs) = add_each_lem ps qs
create_sequence2-definitions fresh (a, sequence ps) (b, n) = add_to_lem ps b
create_sequence2-definitions fresh (a, m) (b, sequence qs) = prepend_to_lem qs a
create_sequence2-definitions fresh (a, m) (b, n) = refl
