-- ===== src/Disk/Nodes.antt =====
-- The map from path to node.
use action_learning_p2p_vers.Prelude.{
  ℕ, ◌≡◌, refl, ap, inl, inr, Bool-cases, List, [], ◌∷◌, Option, none, some, arith, if◌then◌else◌,
}
use action_learning_p2p_vers.Prelude.Text.{Text, text_eq, text_eq_iff, text_eq_refl}

-- A regular file has its content and its permission bits.
pub data Node : Type 0 where
  file : Text → ℕ → Node
  dir : Node

abbrev pub Nodes : Type 0
Nodes = List (Text × Node)

unfoldable pub lookup : Text → Nodes → Option Node
lookup p [] = none
lookup p ((q, n) ∷ ns) = if text_eq p q then some n else lookup p ns

unfoldable pub insert : Text → Node → Nodes → Nodes
insert p n [] = (p, n) ∷ []
insert p n ((q, m) ∷ ns) = if text_eq p q then (p, n) ∷ ns else (q, m) ∷ insert p n ns

unfoldable pub erase : Text → Nodes → Nodes
erase p [] = []
erase p ((q, m) ∷ ns) = let rest = erase p ns in if text_eq p q then rest else (q, m) ∷ rest

pub lookup-insert :
    (q p : Text) (n : Node) (ns : Nodes)
    → lookup q (insert p n ns) ≡ (if text_eq q p then some n else lookup q ns)
unfolding lookup insert
lookup-insert q p n [] = refl
lookup-insert q p n ((r, m) ∷ ns) =
    ground (arith, text_eq_iff q p, text_eq_iff p r, text_eq_iff q r, lookup-insert q p n ns)

pub lookup-erase :
    (q p : Text) (ns : Nodes) → lookup q (erase p ns) ≡ (if text_eq q p then none else lookup q ns)
unfolding lookup erase
lookup-erase q p [] = ground arith
lookup-erase q p ((r, m) ∷ ns) =
    ground (arith, text_eq_iff q p, text_eq_iff p r, text_eq_iff q r, lookup-erase q p ns)

pub insert-insert :
    (p : Text) (m n : Node) (ns : Nodes) → insert p n (insert p m ns) ≡ insert p n ns
unfolding insert
insert-insert p m n [] = rw (text_eq_refl p) refl
insert-insert p m n ((q, k) ∷ ns) = ground (arith, text_eq_refl p, insert-insert p m n ns)

erase_absent : (p : Text) (ns : Nodes) → lookup p ns ≡ none → erase p ns ≡ ns
unfolding lookup erase
erase_absent p [] h = refl
erase_absent p ((q, k) ∷ ns) h = elim (Bool-cases (text_eq p q)) [
  | inl t ↦ ground arith
  | inr t ↦ rw t (ap (◌∷◌ (q, k)) (erase_absent p ns (ground arith)))
]

-- A node that is made and taken away again leaves no trace.
pub erase-insert :
    (p : Text) (n : Node) (ns : Nodes) → lookup p ns ≡ none → erase p (insert p n ns) ≡ ns
unfolding lookup insert erase
erase-insert p n [] h = rw (text_eq_refl p) refl
erase-insert p n ((q, k) ∷ ns) h = elim (Bool-cases (text_eq p q)) [
  | inl t ↦ ground arith
  | inr t ↦ rw (t, t) (ap (◌∷◌ (q, k)) (erase-insert p n ns (ground arith)))
]
