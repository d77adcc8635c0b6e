-- ===== src/Cache/Flights.antt =====
-- `CacheTier::get` of crates/ozd-app/src/cache.rs with its `Flight` slots: of the calls that read a
-- key at the same time one reads, and the others wait for its result.
pub mod Valid
pub mod Single
use ozd.Prelude.{
  ℕ, suc, ◌<◌, List, [], ◌∷◌, Bool, Option, none, some, ◌≡◌, ◌⊎◌, inl, inr, refl, arith, sym, ◌∙◌,
  ap, if◌then◌else◌, ◌==◌, bytes_eq, bytes_eq_iff, bytes_eq_refl, Bool-cases, Option-cases, ==_iff,
  ==_refl,
}
use ozd.Domain.{BlockKey, Body, DomainError, DomainResult, ok, err, io, not_found}
use ozd.Shards.{update}

-- Where a call of `get` is: it leads a flight and reads, it has written the result to the slot, it
-- has woken those that sleep on the flight, it is about to look at the slot, it sleeps until the
-- flight's condition variable is notified, or it has returned.
pub data Thread : Type 0 where
  outside : Thread
  leading : BlockKey → ℕ → Thread
  published : BlockKey → ℕ → DomainResult Body → Thread
  notified : BlockKey → ℕ → DomainResult Body → Thread
  following : BlockKey → ℕ → Thread
  asleep : BlockKey → ℕ → Thread
  returned : BlockKey → DomainResult Body → Thread

-- What a waiting call makes of the result: only the message of `NotFound` is told apart.
unfoldable pub coalesced : DomainResult Body → DomainResult Body
coalesced (ok v) = ok v
coalesced (err not_found) = err not_found
coalesced (err e) = err io

-- The map of flights, their slots, the next slot that is made, and the calls.
pub record Flights (T : Type 0) : Type 0 where
  pub tier : T
  pub inflight : BlockKey → Option ℕ
  pub slots : ℕ → Option (DomainResult Body)
  pub next : ℕ
  pub threads : ℕ → Thread

abbrev enrol : BlockKey → Option ℕ → (BlockKey → Option ℕ) → BlockKey → Option ℕ
enrol key f m k = if bytes_eq key k then f else m k

-- The flight that a call leads, and its key.
abbrev pub led_flight : Thread → Option (BlockKey × ℕ)
led_flight (leading key f) = some (key, f)
led_flight (published key f r) = some (key, f)
led_flight (notified key f r) = some (key, f)
led_flight th = none

-- The flight that a call waits for, and its key.
abbrev pub waits_for : Thread → Option (BlockKey × ℕ)
waits_for (following key f) = some (key, f)
waits_for (asleep key f) = some (key, f)
waits_for th = none

-- What a call has written, for which key and to which slot.
abbrev pub written_by : Thread → Option (BlockKey × ℕ × DomainResult Body)
written_by (published key f r) = some (key, f, r)
written_by (notified key f r) = some (key, f, r)
written_by th = none

-- `notify_all` of a flight: who sleeps on it looks at the slot again.
abbrev pub woken : ℕ → Thread → Thread
woken f outside = outside
woken f (leading key g) = leading key g
woken f (published key g r) = published key g r
woken f (notified key g r) = notified key g r
woken f (following key g) = following key g
woken f (asleep key g) = if g == f then following key g else asleep key g
woken f (returned key r) = returned key r

-- No call is under way.
abbrev pub quiet : {T : Type 0} → T → Flights T
quiet t = record {
  tier = t;
  inflight = λ key. none;
  slots = λ f. none;
  next = 0;
  threads = λ i. outside;
}

module _ {T : Type 0} (read_through : BlockKey → T → DomainResult Body × T) where
  -- The map is looked at and changed under its lock.
  unfoldable pub enter : ℕ → BlockKey → Option ℕ → Flights T → Flights T
  enter i key (some f) s = record s { threads = update s.threads i (following key f) }
  enter i key none s = record s {
    inflight = enrol key (some s.next) s.inflight;
    slots = update s.slots s.next none;
    next = suc s.next;
    threads = update s.threads i (leading key s.next);
  }

  -- The leader reads, and writes the result to its slot.
  unfoldable pub publish : ℕ → BlockKey → ℕ → Flights T → Flights T
  publish i key f s = record s {
    tier = (read_through key s.tier).1;
    slots = update s.slots f (some (read_through key s.tier).0);
    threads = update s.threads i (published key f (read_through key s.tier).0);
  }

  -- The lock of the slot is given up before the sleepers are woken.
  unfoldable pub notify : ℕ → BlockKey → ℕ → DomainResult Body → Flights T → Flights T
  notify i key f r s = record s {
    threads = update (λ j. woken f (s.threads j)) i (notified key f r);
  }

  -- The wait, which begins under the lock of the slot.
  unfoldable pub sleep : ℕ → BlockKey → ℕ → Flights T → Flights T
  sleep i key f s = record s { threads = update s.threads i (asleep key f) }

  unfoldable pub retire : ℕ → BlockKey → DomainResult Body → Flights T → Flights T
  retire i key r s = record s {
    inflight = enrol key none s.inflight;
    threads = update s.threads i (returned key r);
  }

  unfoldable pub wake : ℕ → BlockKey → DomainResult Body → Flights T → Flights T
  unfolding coalesced
  wake i key r s = record s { threads = update s.threads i (returned key (coalesced r)) }

  -- One step of a call that is under way.
  pub data Ongoing : Flights T → Flights T → Type 0 where
    publishes :
        (i : ℕ) (key : BlockKey) (f : ℕ) (s : Flights T)
        → s.threads i ≡ leading key f
        → Ongoing s (publish i key f s)
    notifies :
        (i : ℕ) (key : BlockKey) (f : ℕ) (r : DomainResult Body) (s : Flights T)
        → s.threads i ≡ published key f r
        → Ongoing s (notify i key f r s)
    retires :
        (i : ℕ) (key : BlockKey) (f : ℕ) (r : DomainResult Body) (s : Flights T)
        → s.threads i ≡ notified key f r
        → Ongoing s (retire i key r s)
    sleeps :
        (i : ℕ) (key : BlockKey) (f : ℕ) (s : Flights T)
        → s.threads i ≡ following key f
        → s.slots f ≡ none
        → Ongoing s (sleep i key f s)
    wakes :
        (i : ℕ) (key : BlockKey) (f : ℕ) (r : DomainResult Body) (s : Flights T)
        → s.threads i ≡ following key f
        → s.slots f ≡ some r
        → Ongoing s (wake i key r s)

  -- A step of a call under way, a call that comes, or other calls of the tier.
  pub data Step : Flights T → Flights T → Type 0 where
    goes_on : (s u : Flights T) → Ongoing s u → Step s u
    enters :
        (i : ℕ) (key : BlockKey) (s : Flights T)
        → s.threads i ≡ outside
        → Step s (enter i key (s.inflight key) s)
    elsewhere : (t : T) (s : Flights T) → Step s (record s { tier = t })

  pub data Steps : Flights T → Flights T → Type 0 where
    start : (s : Flights T) → Steps s s
    step : (s u v : Flights T) → Steps s u → Step u v → Steps s v

  -- Steps of the calls under way alone.
  pub data Run : Flights T → Flights T → Type 0 where
    here : (s : Flights T) → Run s s
    after : (s u v : Flights T) → Ongoing s u → Run u v → Run s v
