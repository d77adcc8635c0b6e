-- ===== src/HealQueue/Invariant.antt =====
-- No queued key of the heal queue of crates/ozd-app/src/pool.rs is lost, and the most urgent one
-- comes first.
use ozd.Prelude.{
  ℕ, zero, suc, ◌≤◌, ◌<◌, List, [], ◌∷◌, ◌≡◌, ◌⊎◌, inl, inr, refl, true, false, Option, none, some,
  arith, leb, if◌then◌else◌, length, bytes_eq, bytes_eq_iff, bytes_eq_refl, Bool-cases, ◌&&◌,
  Option-cases,
}
use mathlib.Core.Path.{subst}
use native.Mathlib.Nat.{le_refl}
use ozd.Domain.{BlockKey}
use ozd.HealQueue.{
  HealPriority, rank, low, normal, high, urgent, HealItem, Dedup, get, insert, remove, heap_pop,
  HealQueue, empty, cap, covered, absent, push, is_current, pop_loop, pop,
}
use ozd.HealQueue.Order.{
  get-remove, get-insert, length-insert, length-remove-lt, length-remove-le, Has, Popped,
  heap_pop-none, heap_pop-Popped,
}

-- Every key of the map has its item in the heap, at its current priority, and the map is bounded.
pub record IsValid (q : HealQueue) : Type 0 where
  pub live : (k : BlockKey) (p : HealPriority) → get k q.dedup ≡ some p → Has q.heap k p
  pub bounded : length q.dedup ≤ cap

rank-injective : (p r : HealPriority) → rank p ≡ rank r → p ≡ r
rank-injective low r h = ground arith
rank-injective normal r h = ground arith
rank-injective high r h = ground arith
rank-injective urgent r h = ground arith

pub empty-IsValid : IsValid empty
unfolding get
empty-IsValid = record { live = λ k p h. ground arith; bounded = omega arith }

pub push-IsValid :
    (key : BlockKey) (prio : HealPriority) (q : HealQueue) → IsValid q → IsValid (push key prio q)
unfolding push
push-IsValid key prio q v = elim (Bool-cases (covered (get key q.dedup) prio)) [
  | inl known ↦ rw (push, known) v
  | inr fresh ↦ elim (Bool-cases (leb cap (length q.dedup) && absent (get key q.dedup))) [
    | inl full ↦ rw (push, fresh, full) v
    | inr room ↦ rw (push, fresh, room) (record { live = live_after; bounded = fits room })
  ]
]
  where
    live_after :
        (k : BlockKey) (p : HealPriority)
        → get k (insert key prio q.dedup) ≡ some p
        → ((key ≡ k) × (prio ≡ p)) ⊎ Has q.heap k p
    live_after k p h = ground (arith, get-insert key k prio q.dedup, bytes_eq_iff key k, v.live k p)

    fits :
        (leb cap (length q.dedup) && absent (get key q.dedup)) ≡ false
        → length (insert key prio q.dedup) ≤ cap
    fits room = elim (Option-cases (get key q.dedup)) [
      | inl new ↦
          ground (arith, length-insert key prio q.dedup, length-remove-le key q.dedup, v.bounded)
      | inr (p, old) ↦
          ground (arith, length-insert key prio q.dedup, length-remove-lt key q.dedup p, v.bounded)
    ]

empty_of_live :
    (heap : List HealItem) (m : Dedup)
    → heap ≡ []
    → ((k : BlockKey) (p : HealPriority) → get k m ≡ some p → Has heap k p)
    → m ≡ []
unfolding get
empty_of_live heap [] h live = refl
empty_of_live heap ((k, p) ∷ m) h live =
    absurd (subst (λ xs. Has xs k p) h (live k p (rw bytes_eq_refl refl)))

-- What a pop from a queue with this map gives.
abbrev pub PopOutcome : Dedup → Option (BlockKey × HealPriority) × HealQueue → Type 0
PopOutcome m (none, q') = (m ≡ []) × IsValid q'
PopOutcome m (some (k, p), q') =
    (get k m ≡ some p)
    × ((j : BlockKey) (r : HealPriority) → get j m ≡ some r → rank r ≤ rank p)
    × (q'.dedup ≡ remove k m)
    × IsValid q'

-- An item that is current is taken out with its key.
taken :
    (q : HealQueue) (item : HealItem) (rest : List HealItem)
    → Popped q.heap item rest
    → IsValid q
    → is_current item (get item.key q.dedup) ≡ true
    → PopOutcome q.dedup
        (some (item.key, item.prio), record q { heap = rest; dedup = remove item.key q.dedup })
taken q item rest out v current = (
  here,
  λ j r h. out.highest j r (v.live j r h),
  refl,
  record {
    live = λ k p h.
        ground (
          arith,
          get-remove item.key k q.dedup,
          bytes_eq_iff item.key k,
          v.live k p,
          out.others k p,
        );
    bounded = omega (arith, length-remove-le item.key q.dedup, v.bounded);
  },
)
  where
    here : get item.key q.dedup ≡ some item.prio
    here = elim (Option-cases (get item.key q.dedup)) [
      | inl gone ↦ ground arith
      | inr (p, found) ↦ ground (arith, rank-injective p item.prio)
    ]

-- A stale item is dropped, and no key of the map was its.
dropped :
    (q : HealQueue) (item : HealItem) (rest : List HealItem)
    → Popped q.heap item rest
    → IsValid q
    → is_current item (get item.key q.dedup) ≡ false
    → IsValid (record q { heap = rest })
dropped q item rest out v stale = record {
  live = λ k p h. ground (arith, v.live k p, out.others k p);
  bounded = v.bounded;
}

pop_loop-outcome :
    (fuel : ℕ) (q : HealQueue)
    → length q.heap ≤ fuel
    → IsValid q
    → PopOutcome q.dedup (pop_loop fuel q)
unfolding pop_loop
pop_loop-outcome zero q enough v = (empty_of_live q.heap q.dedup (ground arith) v.live, v)
pop_loop-outcome (suc fuel) q enough v = elim (Option-cases (heap_pop q.heap)) [
  | inl e ↦ rw (pop_loop, e) (empty_of_live q.heap q.dedup (heap_pop-none q.heap e) v.live, v)
  | inr ((item, rest), e) ↦
      let out = heap_pop-Popped q.heap item rest e in
      elim (Bool-cases (is_current item (get item.key q.dedup))) [
        | inl current ↦ rw (pop_loop, e, current) (taken q item rest out v current)
        | inr stale ↦
            rw (pop_loop, e, stale)
              (pop_loop-outcome fuel (record q { heap = rest }) (omega (arith, out.shorter))
                (dropped q item rest out v stale))
      ]
]

-- From a valid queue, `pop` gives nothing only if no key is queued. Otherwise it gives a queued key
-- with its current priority, and no queued key has a higher one; just that key is queued no more,
-- and the queue stays valid.
pub pop-outcome : (q : HealQueue) → IsValid q → PopOutcome q.dedup (pop q)
unfolding pop
pop-outcome q v = pop_loop-outcome (length q.heap) q (le_refl (length q.heap)) v

-- After a push below the capacity, the pushed key has the higher of its old and its new priority,
-- and every other key what it had.
pub get-push :
    (key j : BlockKey) (prio : HealPriority) (q : HealQueue)
    → length q.dedup < cap
    → get j (push key prio q).dedup ≡ (
        if bytes_eq key j
        then (if covered (get key q.dedup) prio then get key q.dedup else some prio)
        else get j q.dedup)
unfolding push
get-push key j prio q room = ground (arith, get-insert key j prio q.dedup, bytes_eq_iff key j)

-- The queues that pushes and pops make from the empty one.
pub data Reach : HealQueue → Type 0 where
  start : Reach empty
  pushed :
      {q : HealQueue} (key : BlockKey) (prio : HealPriority) → Reach q → Reach (push key prio q)
  popped : {q : HealQueue} → Reach q → Reach (pop q).1

outcome-IsValid :
    (m : Dedup) (r : Option (BlockKey × HealPriority)) (q : HealQueue)
    → PopOutcome m (r, q)
    → IsValid q
outcome-IsValid m none q h = h.1
outcome-IsValid m (some (k, p)) q h = h.3

-- Every queue that pushes and pops make from the empty one is valid: each queued key has its item
-- in the heap at its current priority, and at most 100000 keys are queued.
pub Reach-IsValid : {q : HealQueue} → Reach q → IsValid q
Reach-IsValid start = empty-IsValid
Reach-IsValid (pushed {q} key prio r) = push-IsValid key prio q (Reach-IsValid r)
Reach-IsValid (popped {q} r) =
    outcome-IsValid q.dedup (pop q).0 (pop q).1 (pop-outcome q (Reach-IsValid r))
