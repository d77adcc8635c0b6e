-- ===== src/HealQueue.antt =====
-- The priority heal queue of crates/ozd-app/src/pool.rs: a heap with lazily deleted copies, and a
-- map from keys to their current priority.
pub mod Invariant
pub mod Order
mod Tests
use ozd.Prelude.{
  ℕ, zero, suc, ◌+◌, List, [], ◌∷◌, Bool, true, false, ◌&&◌, ◌||◌, Option, none, some, ltb, leb,
  ◌==◌, if◌then◌else◌, length, bytes_eq,
}
use ozd.Domain.{BlockKey}

pub data HealPriority : Type 0 where
  low normal high urgent : HealPriority

-- The discriminant, by which priorities are ordered.
abbrev pub rank : HealPriority → ℕ
rank low = 0
rank normal = 1
rank high = 2
rank urgent = 3

pub record HealItem : Type 0 where
  pub prio : HealPriority
  pub seq : ℕ
  pub key : BlockKey

-- `HealItem::cmp`: a is greater than b.
abbrev pub precedes : HealItem → HealItem → Bool
precedes a b = ltb (rank b.prio) (rank a.prio) || (rank a.prio == rank b.prio && ltb a.seq b.seq)

-- `HashMap<BlockKey, HealPriority>`
abbrev pub Dedup : Type 0
Dedup = List (BlockKey × HealPriority)

unfoldable pub get : BlockKey → Dedup → Option HealPriority
get k [] = none
get k ((j, p) ∷ m) = if bytes_eq j k then some p else get k m

unfoldable pub remove : BlockKey → Dedup → Dedup
remove k [] = []
remove k ((j, p) ∷ m) = let rest = remove k m in if bytes_eq j k then rest else (j, p) ∷ rest

unfoldable pub insert : BlockKey → HealPriority → Dedup → Dedup
insert k p m = (k, p) ∷ remove k m

-- `BinaryHeap`: the list of its items, with the greatest taken out by `heap_pop`.
unfoldable pub heap_pop : List HealItem → Option (HealItem × List HealItem)
heap_pop [] = none
heap_pop (x ∷ xs) = elim (heap_pop xs) [
  | none ↦ some (x, [])
  | some (y, ys) ↦ if precedes y x then some (y, x ∷ ys) else some (x, xs)
]

pub record HealQueue : Type 0 where
  pub heap : List HealItem
  pub dedup : Dedup
  pub seq : ℕ

abbrev pub empty : HealQueue
empty = record { heap = []; dedup = []; seq = 0 }

abbrev pub cap : ℕ
cap = 100000

-- A duplicate of the same or of a higher importance is dropped.
abbrev covered : Option HealPriority → HealPriority → Bool
covered none p = false
covered (some cur) p = leb (rank p) (rank cur)

abbrev absent : Option HealPriority → Bool
absent none = true
absent (some _) = false

unfoldable pub push : BlockKey → HealPriority → HealQueue → HealQueue
push key prio q =
    if covered (get key q.dedup) prio
    then q
    else if leb cap (length q.dedup) && absent (get key q.dedup)
    then q
    else record {
      heap = record { prio = prio; seq = q.seq + 1; key = key } ∷ q.heap;
      dedup = insert key prio q.dedup;
      seq = q.seq + 1;
    }

abbrev pub is_current : HealItem → Option HealPriority → Bool
is_current item none = false
is_current item (some p) = rank p == rank item.prio

-- Each round takes an item off the heap, so its size is enough fuel.
unfoldable pub pop_loop : ℕ → HealQueue → Option (BlockKey × HealPriority) × HealQueue
pop_loop zero q = (none, q)
pop_loop (suc fuel) q = elim (heap_pop q.heap) [
  | none ↦ (none, q)
  | some (item, rest) ↦
      let again = pop_loop fuel (record q { heap = rest }) in
      if is_current item (get item.key q.dedup)
      then (some (item.key, item.prio), record q { heap = rest; dedup = remove item.key q.dedup })
      else again
]

unfoldable pub pop : HealQueue → Option (BlockKey × HealPriority) × HealQueue
pop q = pop_loop (length q.heap) q

unfoldable pub len : HealQueue → ℕ
len q = length q.dedup
