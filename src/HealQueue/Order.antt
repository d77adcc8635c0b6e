-- ===== src/HealQueue/Order.antt =====
-- The map and the heap under the heal queue of crates/ozd-app/src/pool.rs.
use ozd.Prelude.{
  suc, ◌≤◌, List, [], ◌∷◌, ◌≡◌, ◌⊎◌, inl, inr, refl, none, some, arith, if◌then◌else◌, length,
  bytes_eq, bytes_eq_iff, Option-cases,
}
use ozd.Domain.{BlockKey}
use ozd.HealQueue.{HealPriority, rank, HealItem, Dedup, get, remove, insert, heap_pop}

pub get-remove :
    (k j : BlockKey) (m : Dedup) → get j (remove k m) ≡ (if bytes_eq k j then none else get j m)
unfolding get remove
get-remove k j [] = ground arith
get-remove k j ((i, p) ∷ m) =
    ground (arith, get-remove k j m, bytes_eq_iff i k, bytes_eq_iff i j, bytes_eq_iff k j)

pub get-insert :
    (k j : BlockKey) (p : HealPriority) (m : Dedup)
    → get j (insert k p m) ≡ (if bytes_eq k j then some p else get j m)
unfolding get insert
get-insert k j p m = ground (arith, get-remove k j m)

pub length-remove-le : (k : BlockKey) (m : Dedup) → length (remove k m) ≤ length m
unfolding remove
length-remove-le k [] = omega arith
length-remove-le k ((i, p) ∷ m) = ground (arith, length-remove-le k m)

pub length-insert :
    (k : BlockKey) (p : HealPriority) (m : Dedup)
    → length (insert k p m) ≡ suc (length (remove k m))
unfolding insert
length-insert k p m = refl

pub length-remove-lt :
    (k : BlockKey) (m : Dedup) (p : HealPriority)
    → get k m ≡ some p
    → suc (length (remove k m)) ≤ length m
unfolding get remove
length-remove-lt k [] p h = cc
length-remove-lt k ((i, v) ∷ m) p h = ground (arith, length-remove-le k m, length-remove-lt k m p)

-- The heap holds an item of this key and priority.
abbrev pub Has : List HealItem → BlockKey → HealPriority → Type 0
Has [] k p = ⊥
Has (x ∷ xs) k p = ((x.key ≡ k) × (x.prio ≡ p)) ⊎ Has xs k p

pub heap_pop-none : (xs : List HealItem) → heap_pop xs ≡ none → xs ≡ []
unfolding heap_pop
heap_pop-none [] h = refl
heap_pop-none (x ∷ xs) h = ground arith

-- What the heap gives out: the rest holds all other items, and no item has a higher priority.
pub record Popped (xs : List HealItem) (y : HealItem) (ys : List HealItem) : Type 0 where
  pub shorter : suc (length ys) ≡ length xs
  pub others :
      (k : BlockKey) (p : HealPriority) → Has xs k p → ((y.key ≡ k) × (y.prio ≡ p)) ⊎ Has ys k p
  pub highest : (k : BlockKey) (p : HealPriority) → Has xs k p → rank p ≤ rank y.prio

pub heap_pop-Popped :
    (xs : List HealItem) (y : HealItem) (ys : List HealItem)
    → heap_pop xs ≡ some (y, ys)
    → Popped xs y ys
unfolding heap_pop
heap_pop-Popped [] y ys h = absurd (ground arith)
heap_pop-Popped (x ∷ xs) y ys h = elim (Option-cases (heap_pop xs)) [
  | inl e ↦
      let last = heap_pop-none xs e in
      record { shorter = ground arith; others = λ k p. ground arith; highest = λ k p. ground arith }
  | inr ((z, zs), e) ↦
      let ih = heap_pop-Popped xs z zs e in
      record {
        shorter = ground (arith, ih.shorter);
        others = λ k p m. ground (arith, ih.others k p);
        highest = λ k p m. ground (arith, ih.highest k p);
      }
]
