-- ===== src/Structures/LruCache/Items.antt =====
-- The nodes of the list by their keys and by their addresses.

use cpp_db.Prelude.{
  ==-false, ==_iff, All, All-mono, Bool-cases, Eq, List, Option, [], ap, beq-false, false,
  if◌then◌else◌, inl, inr, length, map, none, refl, some, some_inj, subst, suc, sym, true, ℕ, ◌==◌,
  ◌∙◌, ◌∷◌, ◌≡◌, ◌≢◌,
}
use cpp_db.Structures.BTree.Removal.{last_elem?, pop_back}
use cpp_db.Structures.BTree.Removal.Siblings.{All-last}
use cpp_db.Structures.LruCache.{Item, assign_node, erase_node, node_entry}
use cpp_db.Structures.LruCache.Recency.{assoc, drop_key}

module _ {K V : Type 0} where
  -- No two nodes have the same address or the same key.
  abbrev pub Distinct : List (Item K V) → Type 0
  Distinct [] = Unit
  Distinct (x ∷ xs) = All (λ y. (y.0 ≢ x.0) × (y.1.0 ≢ x.1.0)) xs × Distinct xs

  abbrev pub entries_in : List (Item K V) → List (K × V)
  entries_in xs = map (λ (x : Item K V). x.1) xs

module _ {K V : Type 0} ⦃e : Eq K⦄ where
  -- The address of the node of a key.
  unfoldable pub id_of : K → List (Item K V) → Option ℕ
  id_of k [] = none
  id_of k (x ∷ xs) = if e.beq x.1.0 k then some x.0 else id_of k xs

  pub id_of-All :
      (P : Item K V → Type 0) (k : K) (id : ℕ) (xs : List (Item K V))
      → All P xs
      → id_of k xs ≡ some id
      → (v : V) × P (id, (k, v))
  unfolding id_of
  id_of-All P k id [] a h = cc
  id_of-All P k id (x ∷ xs) a h = elim (Bool-cases (e.beq x.1.0 k)) [
    | inl y ↦ (
      x.1.1,
      subst (λ z. P z)
          (ap (λ i. (i, x.1)) (some_inj x.0 id (rw y at h))
            ∙ ap (λ j. (id, (j, x.1.1))) ((e.beq_iff x.1.0 k).0 y))
          a.0,
    )
    | inr n ↦ id_of-All P k id xs a.1 (rw n at h)
  ]

  id_of-ne :
      (x : Item K V) (k : K) (id : ℕ) (xs : List (Item K V))
      → All (λ y. (y.0 ≢ x.0) × (y.1.0 ≢ x.1.0)) xs
      → id_of k xs ≡ some id
      → (x.0 == id) ≡ false
  id_of-ne x k id xs a h =
      let (v, ne) = id_of-All (λ y. (y.0 ≢ x.0) × (y.1.0 ≢ x.1.0)) k id xs a h in
      ==-false x.0 id (λ s. ne.0 (sym s))

  -- The node of a key, by its address.
  pub record Held (xs : List (Item K V)) (k : K) (id : ℕ) : Type 0 where
    pub value : V
    pub entry : node_entry xs id ≡ some (k, value)
    pub found : assoc k (entries_in xs) ≡ some value
    pub erased : entries_in (erase_node xs id) ≡ drop_key k (entries_in xs)
    pub assigned : (w : V) → node_entry (assign_node xs id w) id ≡ some (k, w)
    pub rest : (w : V) → erase_node (assign_node xs id w) id ≡ erase_node xs id
    pub shorter : suc (length (erase_node xs id)) ≡ length xs

  pub id_of-Held :
      (xs : List (Item K V)) (k : K) (id : ℕ) → Distinct xs → id_of k xs ≡ some id → Held xs k id
  unfolding id_of node_entry assoc erase_node drop_key assign_node
  id_of-Held [] k id d h = cc
  id_of-Held (x ∷ xs) k id d h = elim (Bool-cases (e.beq x.1.0 k)) [
    | inl y ↦
        let here : (x.0 == id) ≡ true = (==_iff x.0 id).1 (some_inj x.0 id (rw y at h)) in
        let same = (e.beq_iff x.1.0 k).0 y in
        record {
          value = x.1.1;
          entry = rw here (ap (λ j. some (j, x.1.1)) same);
          found = rw y refl;
          erased = rw (here, y) refl;
          assigned = λ w. rw here (rw here (ap (λ j. some (j, w)) same));
          rest = λ w. rw here (rw here refl);
          shorter = rw here refl;
        }
    | inr n ↦
        let deep = id_of-Held xs k id d.1 (rw n at h) in
        let ne = id_of-ne x k id xs d.0 (rw n at h) in
        record {
          value = deep.value;
          entry = rw ne deep.entry;
          found = rw n deep.found;
          erased = rw (ne, n) (ap (◌∷◌ x.1) deep.erased);
          assigned = λ w. rw ne (rw ne (deep.assigned w));
          rest = λ w. rw ne (rw ne (ap (◌∷◌ x) (deep.rest w)));
          shorter = rw ne (ap suc deep.shorter);
        }
  ]

  pub id_of-none :
      (xs : List (Item K V)) (k : K) → id_of k xs ≡ none → assoc k (entries_in xs) ≡ none
  unfolding id_of assoc
  id_of-none [] k h = refl
  id_of-none (x ∷ xs) k h = elim (Bool-cases (e.beq x.1.0 k)) [
    | inl y ↦ absurd (cc (rw y at h))
    | inr n ↦ rw n (id_of-none xs k (rw n at h))
  ]

  -- A key that no node has.
  id_of-absent : (xs : List (Item K V)) (k : K) → All (λ y. y.1.0 ≢ k) xs → id_of k xs ≡ none
  unfolding id_of
  id_of-absent [] k a = refl
  id_of-absent (x ∷ xs) k a = rw (beq-false x.1.0 k a.0) (id_of-absent xs k a.1)

  pub id_of-fresh : (xs : List (Item K V)) (k : K) → id_of k xs ≡ none → All (λ y. y.1.0 ≢ k) xs
  unfolding id_of
  id_of-fresh [] k h = tt
  id_of-fresh (x ∷ xs) k h = elim (Bool-cases (e.beq x.1.0 k)) [
    | inl y ↦ absurd (cc (rw y at h))
    | inr n ↦
        (λ same. absurd (let y = (e.beq_iff x.1.0 k).1 same in cc), id_of-fresh xs k (rw n at h))
  ]

  pub All-erase_node :
      (P : Item K V → Type 0) (xs : List (Item K V)) (id : ℕ) → All P xs → All P (erase_node xs id)
  unfolding erase_node
  All-erase_node P [] id a = tt
  All-erase_node P (x ∷ xs) id a = elim (Bool-cases (x.0 == id)) [
    | inl y ↦ rw y a.1
    | inr n ↦ rw n (a.0, All-erase_node P xs id a.1)
  ]

  pub erase_node-Distinct :
      (xs : List (Item K V)) (id : ℕ) → Distinct xs → Distinct (erase_node xs id)
  unfolding erase_node
  erase_node-Distinct [] id d = tt
  erase_node-Distinct (x ∷ xs) id d = elim (Bool-cases (x.0 == id)) [
    | inl y ↦ rw y d.1
    | inr n ↦ rw n (
      All-erase_node (λ y. (y.0 ≢ x.0) × (y.1.0 ≢ x.1.0)) xs id d.0,
      erase_node-Distinct xs id d.1,
    )
  ]

  -- Which keys have a node after the node of `k` has gone.
  pub id_of-erase_node :
      (xs : List (Item K V)) (k j : K) (id : ℕ)
      → Distinct xs
      → id_of k xs ≡ some id
      → ((j ≡ k) → id_of j (erase_node xs id) ≡ none)
        × ((j ≢ k) → id_of j (erase_node xs id) ≡ id_of j xs)
  unfolding id_of erase_node
  id_of-erase_node [] k j id d h = cc
  id_of-erase_node (x ∷ xs) k j id d h = elim (Bool-cases (e.beq x.1.0 k)) [
    | inl y ↦
        let here : (x.0 == id) ≡ true = (==_iff x.0 id).1 (some_inj x.0 id (rw y at h)) in
        let key = (e.beq_iff x.1.0 k).0 y in
        rw here (
          (λ same. id_of-absent xs j (
              All-mono (λ z. (z.0 ≢ x.0) × (z.1.0 ≢ x.1.0)) (λ z. z.1.0 ≢ j) xs
                (λ z p q. p.1 (q ∙ (same ∙ sym key))) d.0)),
          (λ other. rw (beq-false x.1.0 j (λ q. other (sym q ∙ key))) refl),
        )
    | inr n ↦
        let ne = id_of-ne x k id xs d.0 (rw n at h) in
        let (p, q) = id_of-erase_node xs k j id d.1 (rw n at h) in
        let off = λ (same : j ≡ k). subst (λ z. e.beq x.1.0 z ≡ false) (sym same) n in
        rw ne (
          (λ same. rw (off same) (p same)),
          (λ other. ap (λ o. if e.beq x.1.0 j then some x.0 else o) (q other)),
        )
  ]

  pub id_of-pop_back :
      (xs : List (Item K V)) (x : Item K V) (j : K)
      → Distinct xs
      → last_elem? xs ≡ some x
      → ((j ≡ x.1.0) → id_of j (pop_back xs) ≡ none)
        × ((j ≢ x.1.0) → id_of j (pop_back xs) ≡ id_of j xs)
  unfolding id_of
  id_of-pop_back [] x j d h = cc
  id_of-pop_back (y ∷ []) x j d h = (
    (λ same. refl),
    (λ other.
        sym (rw (beq-false y.1.0 j (λ q. other (sym q ∙ ap (λ z. z.1.0) (some_inj y x h)))) refl)),
  )
  id_of-pop_back (y ∷ (z ∷ xs)) x j d h =
      let (p, q) = id_of-pop_back (z ∷ xs) x j d.1 h in
      let last_ne = All-last (λ w. (w.0 ≢ y.0) × (w.1.0 ≢ y.1.0)) (z ∷ xs) x d.0 h in
      (
        (λ same. rw (beq-false y.1.0 j (λ r. last_ne.1 (sym (r ∙ same)))) (p same)),
        (λ other. ap (λ o. if e.beq y.1.0 j then some y.0 else o) (q other)),
      )

  -- The other nodes have other addresses.
  pub erase_node-others :
      (xs : List (Item K V)) (k : K) (id : ℕ)
      → Distinct xs
      → id_of k xs ≡ some id
      → All (λ y. y.0 ≢ id) (erase_node xs id)
  unfolding id_of erase_node
  erase_node-others [] k id d h = cc
  erase_node-others (x ∷ xs) k id d h = elim (Bool-cases (e.beq x.1.0 k)) [
    | inl y ↦
        let same = some_inj x.0 id (rw y at h) in
        rw ((==_iff x.0 id).1 same) (
          All-mono (λ z. (z.0 ≢ x.0) × (z.1.0 ≢ x.1.0)) (λ z. z.0 ≢ id) xs
            (λ z p q. p.0 (q ∙ sym same)) d.0)
    | inr n ↦
        let there = rw n at h in
        let (v, ne) = id_of-All (λ y. (y.0 ≢ x.0) × (y.1.0 ≢ x.1.0)) k id xs d.0 there in
        rw (id_of-ne x k id xs d.0 there) ((λ s. ne.0 (sym s)), erase_node-others xs k id d.1 there)
  ]

pub All-both {ℓ κ κ'} :
    {A : Type ℓ} (P : A → Type κ) (Q : A → Type κ') (xs : List A)
    → All P xs
    → All Q xs
    → All (λ x. P x × Q x) xs
All-both P Q [] a b = tt
All-both P Q (x ∷ xs) a b = ((a.0, b.0), All-both P Q xs a.1 b.1)
