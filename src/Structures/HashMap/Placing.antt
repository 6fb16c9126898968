-- ===== src/Structures/HashMap/Placing.antt =====
-- `place` on a table with a vacant slot: which keys it changes, and its counts.

use cpp_db.Prelude.{
  Bool, Eq, List, Option, [], ap, arith, false, get_or, get_or-set_self, if◌then◌else◌, inl, inr,
  length, length-set, none, not, refl, set, some, subst, suc, sym, true, zero, ℕ, ◌+◌, ◌<◌, ◌∙◌,
  ◌∷◌, ◌≡◌, ◌≢◌, ◌≤◌,
}
use cpp_db.Core.Schema.{is_found}
use cpp_db.Structures.HashMap.{
  HashMap, Slot, at_free, at_key, deleted, home_index, is_occupied, is_vacant, occupied,
  place_entry, place_with, vacant,
}
use cpp_db.Structures.HashMap.Changes.{
  looked, looked-Absent, looked-occupied, looked-set, set-IsProbed,
}
use cpp_db.Structures.HashMap.Counts.{bit, count_if, count_if-set, count_if-some_not}
use cpp_db.Structures.HashMap.Ends.{place_probe-ends}
use cpp_db.Structures.HashMap.Find.{IsProbed, Kept, occupied_key}
use cpp_db.Structures.HashMap.Masks.{steps-lt}
use cpp_db.Structures.HashMap.Probing.{Absent, HasVacant, is_vacant-occupied}

pub occupied-lt {ℓ} :
    {K V : Type ℓ} (slots : List (Slot K V)) (i : ℕ) (k : K) (v : V)
    → get_or slots i vacant ≡ occupied k v
    → i < length slots
occupied-lt [] i k v h = cc
occupied-lt (s ∷ slots) zero k v h = omega arith
occupied-lt (s ∷ slots) (suc i) k v h = omega (arith, occupied-lt slots i k v h)

-- The value that stands under the key after `place`.
abbrev pub kept_value {ℓ} : {V : Type ℓ} → Bool → V → Option V → V
kept_value assign_if_present v none = v
kept_value assign_if_present v (some w) = if assign_if_present then v else w

module _ {ℓ} {K V : Type ℓ} where
  abbrev pub is_used : Slot K V → Bool
  is_used s = not (is_vacant s)

  used-vacant : (s : Slot K V) → is_used s ≡ false → s ≡ vacant
  unfolding is_vacant
  used-vacant vacant h = refl
  used-vacant (occupied k v) h = cc
  used-vacant deleted h = cc

  pub occupied_value : (k j : K) (v w : V) → occupied k v ≡ occupied j w → v ≡ w
  occupied_value k j v w h = cc

  pub is_occupied-occupied :
      (s : Slot K V) (k : K) (v : V) → s ≡ occupied k v → is_occupied s ≡ true
  unfolding is_occupied
  is_occupied-occupied s k v h = rw h refl

  -- The two counts after a write.
  pub counts-set :
      (slots : List (Slot K V)) (i : ℕ) (s : Slot K V)
      → i < length slots
      → (count_if is_occupied (set slots i s) + bit (is_occupied (get_or slots i vacant))
          ≡ count_if is_occupied slots + bit (is_occupied s))
        × (count_if is_used (set slots i s) + bit (is_used (get_or slots i vacant))
            ≡ count_if is_used slots + bit (is_used s))
  counts-set slots i s l =
      (count_if-set is_occupied slots i s vacant l, count_if-set is_used slots i s vacant l)

module _ {ℓ} {K V : Type ℓ} ⦃e : Eq K⦄ (hash : K → ℕ) where
  -- The slots are probed, and the fields count_if them.
  pub record IsTable (m : HashMap K V) : Type ℓ where
    pub probed : IsProbed hash m.slots
    pub sized : m.size ≡ count_if is_occupied m.slots
    pub counted : m.used ≡ count_if is_used m.slots

  pub table-HasVacant : (m : HashMap K V) → IsTable m → m.used < length m.slots → HasVacant m.slots
  table-HasVacant m t l =
      let (i, inside, h) = count_if-some_not is_used m.slots vacant (omega (arith, t.counted)) in
      (i, inside, used-vacant (get_or m.slots i vacant) h)

  -- What `place` promises.
  pub record Placed (m : HashMap K V) (key : K) (v : V) (b : Bool) (r : HashMap K V × Bool)
      : Type ℓ where
    pub table : IsTable r.0
    pub same_length : length r.0.slots ≡ length m.slots
    pub used_le : r.0.used ≤ m.used + 1
    pub flag : r.1 ≡ not (is_found (looked hash m.slots key))
    pub here : looked hash r.0.slots key ≡ some (kept_value b v (looked hash m.slots key))
    pub others : (j : K) → j ≢ key → looked hash r.0.slots j ≡ looked hash m.slots j
    pub size_after : r.0.size ≡ (if r.1 then m.size + 1 else m.size)

  write_key-IsProbed :
      (slots : List (Slot K V)) (key : K) (v w : V) (i : ℕ)
      → IsProbed hash slots
      → get_or slots i vacant ≡ occupied key w
      → IsProbed hash (set slots i (occupied key v))
  write_key-IsProbed slots key v w i p held =
      set-IsProbed hash slots i (occupied key v) p (occupied-lt slots i key w held)
        (is_vacant-occupied (occupied key v) key v refl)
        (λ k x h.
          let same = occupied_key key k v x h in
          (
            subst (λ z. Kept hash slots z i) same (p.kept i key w held),
            λ j y g. p.unique j i key y w (g ∙ ap (λ z. occupied z y) (sym same)) held,
          ))

  assign_key-Placed :
      (m : HashMap K V) (key : K) (v w : V) (i : ℕ)
      → IsTable m
      → get_or m.slots i vacant ≡ occupied key w
      → Placed m key v true (place_with m key v true (at_key i))
  unfolding place_with is_found
  assign_key-Placed m key v w i t held =
      let l = occupied-lt m.slots i key w held in
      let p = write_key-IsProbed m.slots key v w i t.probed held in
      let found = looked-occupied hash m.slots key i w t.probed held in
      let s = get_or m.slots i vacant in
      let new : Slot K V = occupied key v in
      let counts = counts-set m.slots i new l in
      let old_used : is_used s ≡ true = ap not (is_vacant-occupied s key w held) in
      let new_used : is_used new ≡ true = ap not (is_vacant-occupied new key v refl) in
      let old_live = is_occupied-occupied s key w held in
      let new_live = is_occupied-occupied new key v refl in
      record {
        table = record {
          probed = p;
          sized = omega (arith, t.sized, counts.0, ap bit old_live, ap bit new_live);
          counted = omega (arith, t.counted, counts.1, ap bit old_used, ap bit new_used);
        };
        same_length = length-set m.slots i new;
        used_le = omega arith;
        flag = rw found refl;
        here =
            looked-occupied hash (set m.slots i new) key i v p
              (get_or-set_self m.slots i new vacant l)
            ∙ rw found refl;
        others = λ j ne.
            looked-set hash m.slots i new j t.probed p l
              (λ x h. ne (sym (occupied_key key j w x (sym held ∙ h))))
              (λ x h. ne (sym (occupied_key key j v x h)));
        size_after = refl;
      }

  keep_key-Placed :
      (m : HashMap K V) (key : K) (v w : V) (i : ℕ)
      → IsTable m
      → get_or m.slots i vacant ≡ occupied key w
      → Placed m key v false (place_with m key v false (at_key i))
  unfolding place_with is_found
  keep_key-Placed m key v w i t held =
      let found = looked-occupied hash m.slots key i w t.probed held in
      record {
        table = t;
        same_length = refl;
        used_le = omega arith;
        flag = rw found refl;
        here = rw found refl;
        others = λ j ne. refl;
        size_after = refl;
      }

  used_after : (s : Slot K V) (n : ℕ) → (if is_vacant s then n + 1 else n) + bit (is_used s) ≡ n + 1
  unfolding is_vacant
  used_after vacant n = omega arith
  used_after (occupied k v) n = omega arith
  used_after deleted n = omega arith

  free-Placed :
      (m : HashMap K V) (key : K) (v : V) (b : Bool) (i : ℕ)
      → IsTable m
      → is_occupied (get_or m.slots i vacant) ≡ false
      → Kept hash m.slots key i
      → Absent m.slots key
      → Placed m key v b (place_with m key v b (at_free i))
  unfolding place_with is_found
  free-Placed m key v b i t free kept absent =
      let (d, less, at, path) = kept in
      let l : i < length m.slots =
        subst (λ x. x < length m.slots) at
          (steps-lt (length m.slots) (home_index hash (length m.slots) key) d t.probed.capacity) in
      let s = get_or m.slots i vacant in
      let new : Slot K V = occupied key v in
      let p =
        set-IsProbed hash m.slots i new t.probed l (is_vacant-occupied new key v refl) (λ k x h.
          let same = occupied_key key k v x h in
          (
            subst (λ z. Kept hash m.slots z i) same kept,
            λ j y g. absurd (absent j y (g ∙ ap (λ z. occupied z y) (sym same))),
          )) in
      let gone = looked-Absent hash m.slots key absent in
      let counts = counts-set m.slots i new l in
      let new_used : is_used new ≡ true = ap not (is_vacant-occupied new key v refl) in
      let new_live = is_occupied-occupied new key v refl in
      let u = used_after s m.used in
      record {
        table = record {
          probed = p;
          sized = omega (arith, t.sized, counts.0, ap bit free, ap bit new_live);
          counted = omega (arith, t.counted, counts.1, ap bit new_used, u);
        };
        same_length = length-set m.slots i new;
        used_le = omega (arith, u);
        flag = rw gone refl;
        here =
            looked-occupied hash (set m.slots i new) key i v p
              (get_or-set_self m.slots i new vacant l)
            ∙ rw gone refl;
        others = λ j ne.
            looked-set hash m.slots i new j t.probed p l (λ x h. live-not s j x free h)
              (λ x h. ne (sym (occupied_key key j v x h)));
        size_after = refl;
      }
    where
      live-not : (s : Slot K V) (j : K) (x : V) → is_occupied s ≡ false → s ≡ occupied j x → ⊥
      live-not s j x f h = let y = is_occupied-occupied s j x h in cc

  -- `place` where fewer slots are used than there are.
  pub place_entry-Placed :
      (m : HashMap K V) (key : K) (v : V) (b : Bool)
      → IsTable m
      → m.used < length m.slots
      → Placed m key v b (place_entry hash m key v b)
  unfolding place_entry
  place_entry-Placed m key v b t l =
      elim (place_probe-ends hash m.slots key t.probed (table-HasVacant m t l)) [
        | inl (i, w, at, held) ↦ rw at (by_flag b i w held)
        | inr (i, at, free, kept, absent) ↦ rw at (free-Placed m key v b i t free kept absent)
      ]
    where
      by_flag :
          (b : Bool) (i : ℕ) (w : V)
          → get_or m.slots i vacant ≡ occupied key w
          → Placed m key v b (place_with m key v b (at_key i))
      by_flag true i w held = assign_key-Placed m key v w i t held
      by_flag false i w held = keep_key-Placed m key v w i t held
