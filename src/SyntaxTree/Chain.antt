-- ===== src/SyntaxTree/Chain.antt =====
-- The chains of arguments and of parameters that minimal/src/syntax_tree.c builds. A chain is a tree
-- here: while it is built each of its nodes has one owner.
use pylinda.Base.{String, ◌≡◌, refl, ap, sym, ◌∙◌, List, [], ◌∷◌, ◌++◌, Outcome, ok, crash, ◌>>=◌}
use pylinda.SyntaxTree.{Tree, null, identifier, create_id, string, parameter_list, argument_list}

-- `Minimal_SyntaxTree_createArgumentList1`
unfoldable pub argument_list1 : Tree → Tree
argument_list1 (argument_list a n) = argument_list a n
argument_list1 t = argument_list t null

-- the loop to the last node, and the assignment to its `next_arg`
abbrev pub link_argument : Tree → Tree → Tree
link_argument (argument_list a null) t = argument_list a t
link_argument (argument_list a n) t = argument_list a (link_argument n t)
link_argument n t = n

-- `Minimal_SyntaxTree_createArgumentList2`, whose last two cases make the first node a list
unfoldable pub argument_list2 : Tree → Tree → Tree
unfolding argument_list1
argument_list2 (argument_list a n) t = link_argument (argument_list a n) (argument_list1 t)
argument_list2 s t = link_argument (argument_list1 s) (argument_list1 t)

-- the arguments of a chain, or a node that is one argument itself
abbrev pub arguments : Tree → List Tree
arguments null = []
arguments (argument_list a n) = a ∷ arguments n
arguments t = t ∷ []

-- NULL, or a chain that ends in NULL
abbrev pub IsArguments : Tree → Type 0
IsArguments null = Unit
IsArguments (argument_list a n) = IsArguments n
IsArguments t = ⊥

-- `Minimal_SyntaxTree_createParameterList1` reads the text of an identifier.
unfoldable pub parameter_list1 : Tree → Outcome Tree
parameter_list1 (parameter_list v n) = ok (parameter_list v n)
parameter_list1 (identifier s d) = ok (parameter_list s null)
parameter_list1 (string s) = ok (parameter_list s null)
parameter_list1 t = crash

abbrev pub link_parameter : Tree → Tree → Tree
link_parameter (parameter_list v null) t = parameter_list v t
link_parameter (parameter_list v n) t = parameter_list v (link_parameter n t)
link_parameter n t = n

-- `Minimal_SyntaxTree_createParameterList2`: where only the second node is a list, the first goes to
-- its end
unfoldable pub parameter_list2 : Tree → Tree → Outcome Tree
unfolding parameter_list1
parameter_list2 (parameter_list v m) (parameter_list w n) =
    ok (link_parameter (parameter_list v m) (parameter_list w n))
parameter_list2 (parameter_list v m) t =
    parameter_list1 t >>= (λ u. ok (link_parameter (parameter_list v m) u))
parameter_list2 s (parameter_list w n) =
    parameter_list1 s >>= (λ u. ok (link_parameter (parameter_list w n) u))
parameter_list2 s t =
    parameter_list1 s >>= (λ u. parameter_list1 t >>= (λ w. ok (link_parameter u w)))

-- the names of a chain, or of an identifier
abbrev pub names : Tree → List String
names (parameter_list v n) = v ∷ names n
names (identifier s d) = s ∷ []
names t = []

abbrev pub IsParameters : Tree → Type 0
IsParameters null = Unit
IsParameters (parameter_list v n) = IsParameters n
IsParameters t = ⊥

-- a chain with an argument, or a node that is one argument
abbrev pub IsPart : Tree → Type 0
IsPart null = ⊥
IsPart (argument_list a n) = IsArguments n
IsPart t = Unit

link_arguments :
    (a n t : Tree)
    → IsArguments n
    → arguments (link_argument (argument_list a n) t) ≡ a ∷ (arguments n ++ arguments t)
link_arguments a null t h = refl
link_arguments a (argument_list b n) t h = ap (◌∷◌ a) (link_arguments b n t h)
link_arguments a n t h = absurd h

arguments_list1 : (t : Tree) → IsPart t → arguments (argument_list1 t) ≡ arguments t
unfolding argument_list1
arguments_list1 (argument_list a n) h = refl
arguments_list1 null h = absurd h
arguments_list1 t h = refl

-- Two parts become a chain of the arguments of the first and then those of the second.
pub argument_list2-arguments :
    (s t : Tree) → IsPart s → IsPart t → arguments (argument_list2 s t) ≡ arguments s ++ arguments t
unfolding argument_list2
argument_list2-arguments (argument_list a n) t h k =
    link_arguments a n (argument_list1 t) h
    ∙ ap (λ xs. (a ∷ arguments n) ++ xs) (arguments_list1 t k)
argument_list2-arguments null t h k = absurd h
argument_list2-arguments s t h k = ap (◌∷◌ s) (arguments_list1 t k)

link_names :
    (v : String) (n t : Tree)
    → IsParameters n
    → names (link_parameter (parameter_list v n) t) ≡ v ∷ (names n ++ names t)
link_names v null t h = refl
link_names v (parameter_list w n) t h = ap (◌∷◌ v) (link_names w n t h)
link_names v n t h = absurd h

link-IsParameters :
    (v : String) (n : Tree) (w : String)
    → IsParameters n
    → IsParameters (link_parameter (parameter_list v n) (parameter_list w null))
link-IsParameters v null w h = tt
link-IsParameters v (parameter_list u n) w h = link-IsParameters u n w h
link-IsParameters v n w h = absurd h

-- the grammar's rule for parameters, one identifier after the other
abbrev pub more_parameters : Tree → List String → Outcome Tree
more_parameters t [] = ok t
more_parameters t (v ∷ vs) = parameter_list2 t (create_id v) >>= (λ u. more_parameters u vs)

abbrev pub parameters_of : String → List String → Outcome Tree
parameters_of v vs = parameter_list1 (create_id v) >>= (λ t. more_parameters t vs)

append_assoc : (xs ys zs : List String) → (xs ++ ys) ++ zs ≡ xs ++ (ys ++ zs)
append_assoc [] ys zs = refl
append_assoc (x ∷ xs) ys zs = ap (◌∷◌ x) (append_assoc xs ys zs)

append-nil : (xs : List String) → xs ++ [] ≡ xs
append-nil [] = refl
append-nil (x ∷ xs) = ap (◌∷◌ x) (append-nil xs)

IsList : Tree → Type 0
IsList (parameter_list v n) = IsParameters n
IsList t = ⊥

link-IsList :
    (v : String) (n : Tree) (w : String)
    → IsParameters n
    → IsList (link_parameter (parameter_list v n) (parameter_list w null))
unfolding IsList
link-IsList v null w h = tt
link-IsList v (parameter_list u n) w h = link-IsParameters u n w h
link-IsList v n w h = absurd h

more_names :
    (t : Tree) (vs : List String)
    → IsList t
    → (u : Tree) × (more_parameters t vs ≡ ok u) × (names u ≡ names t ++ vs)
unfolding IsList parameter_list2
more_names (parameter_list v n) [] h = (parameter_list v n, refl, sym (append-nil (v ∷ names n)))
more_names (parameter_list v n) (w ∷ vs) h =
    let linked = link_parameter (parameter_list v n) (parameter_list w null) in
    let (u, e, f) = more_names linked vs (link-IsList v n w h) in
    (
      u,
      e,
      f
          ∙ ap (λ xs. xs ++ vs) (link_names v n (parameter_list w null) h)
          ∙ ap (◌∷◌ v) (append_assoc (names n) (w ∷ []) vs),
    )
more_names t vs h = absurd h

-- The parameters that the grammar's rule reads one after the other stand in the chain in that order.
pub parameters_of-names :
    (v : String) (vs : List String) → (t : Tree) × (parameters_of v vs ≡ ok t) × (names t ≡ v ∷ vs)
unfolding parameter_list1 IsList
parameters_of-names v vs = more_names (parameter_list v null) vs tt

-- A name put before a chain goes to its end.
pub parameter_list2-names :
    (x v : String) (n : Tree)
    → IsParameters n
    → (t : Tree) × (parameter_list2 (create_id x) (parameter_list v n) ≡ ok t)
      × (names t ≡ v ∷ (names n ++ x ∷ []))
unfolding parameter_list2
parameter_list2-names x v n h = (
  link_parameter (parameter_list v n) (parameter_list x null),
  refl,
  link_names v n (parameter_list x null) h,
)
