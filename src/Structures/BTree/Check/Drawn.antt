-- ===== src/Structures/BTree/Check/Drawn.antt =====
-- The nodes of Structures/BTree/Nodes, as they stand in memory.

use cpp_db.Prelude.{
  List, Option, [], ap, arith, length, map, none, refl, some, suc, zero, ℕ, ◌∷◌, ◌≡◌,
}
use cpp_db.Structures.BTree.{BTree, Root}
use cpp_db.Structures.BTree.Check.{
  Children, RawNode, RawTree, child_node, count_children, no_children, raw_node,
}
use cpp_db.Structures.BTree.Nodes.{Entries, Node}

module _ {ℓ} (V : Type ℓ) where
  abbrev pub keys_of : Entries V → List ℕ
  keys_of es = map (λ (e : ℕ × V). e.0) es

  abbrev pub values_of : Entries V → List V
  values_of es = map (λ (e : ℕ × V). e.1) es

  abbrev pub raw_children : {A : Type ℓ} → (A → RawNode V) → List A → Children V
  raw_children f [] = no_children
  raw_children f (c ∷ cs) = child_node (f c) (raw_children f cs)

  abbrev pub raw_of : (h : ℕ) → Node V h → RawNode V
  raw_of zero es = raw_node (keys_of es) (values_of es) no_children
  raw_of (suc h) (es, cs) = raw_node (keys_of es) (values_of es) (raw_children (λ c. raw_of h c) cs)

  abbrev pub raw_root : Root V → Option (RawNode V)
  raw_root none = none
  raw_root (some (h, n)) = some (raw_of h n)

  abbrev pub raw_tree : BTree V → RawTree V
  raw_tree b = record { root = raw_root b.root; min_degree = b.min_degree; size = b.size }

  pub count_raw_children :
      {A : Type ℓ} (f : A → RawNode V) (cs : List A)
      → count_children V (raw_children f cs) ≡ length cs
  unfolding count_children
  count_raw_children f [] = refl
  count_raw_children f (c ∷ cs) = ap suc (count_raw_children f cs)

  pub entries_from :
      (ks : List ℕ) (vs : List V)
      → length vs ≡ length ks
      → (es : Entries V) × (keys_of es ≡ ks) × (values_of es ≡ vs)
  entries_from [] [] l = ([], refl, refl)
  entries_from [] (v ∷ vs) l = absurd (omega arith)
  entries_from (k ∷ ks) [] l = absurd (omega arith)
  entries_from (k ∷ ks) (v ∷ vs) l =
      let (es, p, q) = entries_from ks vs (omega arith) in ((k, v) ∷ es, ap (◌∷◌ k) p, ap (◌∷◌ v) q)
