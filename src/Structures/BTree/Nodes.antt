-- ===== src/Structures/BTree/Nodes.antt =====
-- The nodes of the B-tree, by height.

use cpp_db.Prelude.{List, [], suc, zero, ℕ}

abbrev pub Entries {ℓ} : Type ℓ → Type ℓ
Entries V = List (ℕ × V)

abbrev pub Node {ℓ} : Type ℓ → ℕ → Type ℓ
Node V zero = Entries V
Node V (suc h) = Entries V × List (Node V h)

abbrev pub entries {ℓ} : (V : Type ℓ) (h : ℕ) → Node V h → Entries V
entries V zero es = es
entries V (suc h) n = n.0

abbrev pub empty_node {ℓ} : (V : Type ℓ) (h : ℕ) → Node V h
empty_node V zero = []
empty_node V (suc h) = ([], [])
