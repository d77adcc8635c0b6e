-- ===== src/HealQueue/Tests.antt =====
-- Tests of the heal queue of crates/ozd-app/src/pool.rs.
use ozd.Prelude.{[], ◌∷◌, ◌≡◌, refl, none, some, arith, bytes_eq, length, ◌<◌}
use ozd.Domain.{BlockKey}
use ozd.HealQueue.{
  HealQueue, low, normal, high, urgent, empty, get, remove, insert, heap_pop, push, pop_loop, pop,
}
use ozd.HealQueue.Invariant.{
  IsValid, PopOutcome, pop-outcome, Reach, start, pushed, popped, Reach-IsValid,
}

program : Unit {0}
unfolding get remove insert heap_pop push pop_loop pop bytes_eq
program = tt

abbrev a : BlockKey
a = 97 ∷ []

abbrev b : BlockKey
b = 98 ∷ []

-- `a` is pushed low, then `b` normal, then `a` is raised to urgent
abbrev three : HealQueue
three = push a urgent (push b normal (push a low empty))

raised_first : (pop three).0 ≡ some (a, urgent)
unfolding program
raised_first = refl

stale_skipped : (pop (pop (pop three).1).1).0 ≡ none
unfolding program
stale_skipped = refl

fifo : (pop (push b high (push a high empty))).0 ≡ some (a, high)
unfolding program
fifo = refl

three_small : length three.dedup < 100000
unfolding program
three_small = omega arith

three-Reach : Reach three
three-Reach = pushed a urgent (pushed b normal (pushed a low start))

Reach-IsValid_example : IsValid (pop three).1
Reach-IsValid_example = Reach-IsValid (popped three-Reach)

pop-outcome_example : PopOutcome three.dedup (pop three)
pop-outcome_example = pop-outcome three (Reach-IsValid three-Reach)
