-- ===== src/Object/Release.antt =====
-- Deleting an object releases what it reports to the cyclic collector.
use pylinda.Base.{
  true, false, ℕ, zero, suc, String, ◌≡◌, refl, ap, sym, ◌∙◌, List, [], ◌∷◌, ◌++◌, Outcome, ok,
  exited, crash, arith,
}
use pylinda.Base.Int.{ℤ}
use pylinda.NameMap.{get_references}
use pylinda.NameMap.Strcmp.{IsStrcmp}
use pylinda.NameMap.Delete.{empty-get_references}
use pylinda.Collector.Items.{occ, occ-append}
use pylinda.Object.{del_reference, del_if, ◌then◌, del_all, del_all_if, add_if}
use pylinda.Object.Node.{
  Node, sequence, type_spec, type_function, function_def, parameter_list, function_call,
  argument_list, operator, product_type, sum_type, tuple, pointer, if_expr, bracket, index,
  let_expr, node_references, free_node,
}
use pylinda.Object.Field.{
  Body, Object, value, layer, name_map, tree, body_references, free_body, references, del_object,
}

payload : Outcome (List ℕ) → List ℕ
payload (ok xs) = xs
payload _ = []

ok_inj : {xs ys : List ℕ} → ◌≡◌ {A = Outcome (List ℕ)} (ok xs) (ok ys) → xs ≡ ys
unfolding payload
ok_inj h = ap payload h

-- The call returns, if it does, the addresses of `ps`, each as often; null pointers are left aside.
unfoldable pub Releases : Outcome (List ℕ) → List ℕ → Type 0
Releases r ps = (rs : List ℕ) → r ≡ ok rs → (p : ℕ) → occ (suc p) rs ≡ occ (suc p) ps

pub Releases-ok : (ps : List ℕ) → Releases (ok ps) ps
unfolding Releases
Releases-ok ps rs h p = ap (occ (suc p)) (sym (ok_inj h))

Releases-del : (q : ℕ) → Releases (del_reference q) (q ∷ [])
unfolding Releases
Releases-del zero = λ rs h. cc
Releases-del (suc q) = Releases-ok (suc q ∷ [])

-- a null pointer is not counted
Releases-null : (r : Outcome (List ℕ)) → Releases r [] → Releases r (0 ∷ [])
unfolding Releases occ
Releases-null r f rs h p = ground (arith, f rs h p)

Releases-del_if : (q : ℕ) → Releases (del_if q) (q ∷ [])
Releases-del_if zero = Releases-null (ok []) (Releases-ok [])
Releases-del_if (suc q) = Releases-ok (suc q ∷ [])

Releases-add_if : (q : ℕ) → Releases (del_if q) (add_if q)
Releases-add_if zero = Releases-ok []
Releases-add_if (suc q) = Releases-ok (suc q ∷ [])

pub Releases-then :
    (r s : Outcome (List ℕ)) (ps qs : List ℕ)
    → Releases r ps
    → Releases s qs
    → Releases (r then s) (ps ++ qs)
unfolding Releases
Releases-then (ok xs) (ok ys) ps qs f g rs h p =
    ap (occ (suc p)) (sym (ok_inj h))
    ∙ omega (arith, occ-append (suc p) xs ys, occ-append (suc p) ps qs, f xs refl p, g ys refl p)
Releases-then (ok xs) exited ps qs f g rs h p = cc
Releases-then (ok xs) crash ps qs f g rs h p = cc
Releases-then exited s ps qs f g rs h p = cc
Releases-then crash s ps qs f g rs h p = cc

Releases-del_all : (ps : List ℕ) → Releases (del_all ps) ps
Releases-del_all [] = Releases-ok []
Releases-del_all (p ∷ ps) =
    Releases-then (del_reference p) (del_all ps) (p ∷ []) ps (Releases-del p) (Releases-del_all ps)

Releases-del_all_if : (ps : List ℕ) → Releases (del_all_if ps) ps
Releases-del_all_if [] = Releases-ok []
Releases-del_all_if (p ∷ ps) =
    Releases-then (del_if p) (del_all_if ps) (p ∷ []) ps (Releases-del_if p)
      (Releases-del_all_if ps)

-- another order
Releases-order :
    (r : Outcome (List ℕ)) (ps qs : List ℕ)
    → ((p : ℕ) → occ (suc p) ps ≡ occ (suc p) qs)
    → Releases r ps
    → Releases r qs
unfolding Releases
Releases-order r ps qs e f rs h p = f rs h p ∙ e p

two : (a b : ℕ) → Releases (del_reference a then del_reference b) (a ∷ b ∷ [])
two a b =
    Releases-then (del_reference a) (del_reference b) (a ∷ []) (b ∷ []) (Releases-del a)
      (Releases-del b)

three :
    (a b c : ℕ)
    → Releases (del_reference a then del_reference b then del_reference c) (a ∷ b ∷ c ∷ [])
three a b c =
    Releases-then (del_reference a) (del_reference b then del_reference c) (a ∷ []) (b ∷ c ∷ [])
      (Releases-del a) (two b c)

pub crash-Releases : (ps : List ℕ) → Releases crash ps
unfolding Releases
crash-Releases ps = λ rs h. cc

last_first : (m : ℕ) (ps : List ℕ) (p : ℕ) → occ (suc p) (ps ++ m ∷ []) ≡ occ (suc p) (m ∷ ps)
unfolding occ
last_first m ps p = omega (arith, occ-append (suc p) ps (m ∷ []))

node-Releases : (n : Node) → Releases (free_node n) (node_references n)
unfolding free_node node_references
node-Releases (sequence ps) = Releases-del_all ps
node-Releases (type_spec n p) = Releases-del p
node-Releases (type_function ps) = Releases-del_all ps
node-Releases (function_def n t p b) =
    Releases-then (del_if t) (del_reference p then del_reference b) (add_if t) (p ∷ b ∷ [])
      (Releases-add_if t) (two p b)
node-Releases (parameter_list n p) = Releases-del_if p
node-Releases (function_call f a) = two f a
node-Releases (let_expr v e c) = three v e c
node-Releases (argument_list a n) =
    Releases-then (del_reference a) (del_if n) (a ∷ []) (n ∷ []) (Releases-del a)
      (Releases-del_if n)
node-Releases (operator o a b) = two a b
node-Releases (product_type ps) = Releases-del_all ps
node-Releases (sum_type ps) = Releases-del_all ps
node-Releases (tuple ps) = Releases-del_all ps
node-Releases (pointer s) = crash-Releases []
node-Releases (if_expr a b c) = three a b c
node-Releases (bracket p) = Releases-del p
node-Releases (index a b) = two a b
node-Releases n = Releases-ok []

swap_counts : (s m p : ℕ) → occ (suc p) (s ∷ m ∷ []) ≡ occ (suc p) (m ∷ s ∷ [])
unfolding occ
swap_counts s m p = omega arith

turn_counts : (a b c p : ℕ) → occ (suc p) (a ∷ b ∷ c ∷ []) ≡ occ (suc p) (c ∷ a ∷ b ∷ [])
unfolding occ
turn_counts a b c p = omega arith

body-Releases : (b : Body) → Releases (free_body b) (body_references b)
body-Releases Body.scalar = Releases-ok []
body-Releases (Body.type_ s m) =
    Releases-order (del_if s then del_if m) (s ∷ m ∷ []) (m ∷ s ∷ []) (swap_counts s m) (
      Releases-then (del_if s) (del_if m) (s ∷ []) (m ∷ []) (Releases-del_if s) (Releases-del_if m))
body-Releases (Body.tsref true) = Releases-ok []
body-Releases (Body.tsref false) = crash-Releases []
body-Releases (Body.tuple vs) = Releases-del_all_if vs
body-Releases (Body.sum v) = Releases-del v
body-Releases (Body.function p c l) =
    Releases-order (del_reference p then del_reference c then del_reference l) (p ∷ c ∷ l ∷ [])
      (l ∷ p ∷ c ∷ []) (turn_counts p c l) (three p c l)
body-Releases (Body.pointer v) = Releases-del v
body-Releases (Body.syntax_tree t) = Releases-del t

module _ {strcmp : String → String → ℤ} (s : IsStrcmp strcmp) where
  pub object-Releases : (o : Object) → Releases (del_object strcmp o) (references o)
  unfolding del_object references
  object-Releases (value v) =
      Releases-then (del_if v.typeobj) (free_body v.body) (add_if v.typeobj)
        (body_references v.body) (Releases-add_if v.typeobj) (body-Releases v.body)
  object-Releases (layer l) =
      Releases-order (del_if l.parent then del_reference l.map) (add_if l.parent ++ l.map ∷ [])
        (l.map ∷ add_if l.parent) (last_first l.map (add_if l.parent))
        (Releases-then (del_if l.parent) (del_reference l.map) (add_if l.parent) (l.map ∷ [])
          (Releases-add_if l.parent) (Releases-del l.map))
  object-Releases (name_map m) =
      rw ((empty-get_references s m).0) (Releases-del_all (get_references m))
  object-Releases (tree n) = node-Releases n
