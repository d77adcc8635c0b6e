-- ===== src/Cache/Flights/Single.antt =====
-- What the calls of `CacheTier::get` of crates/ozd-app/src/cache.rs get from their flights.
use ozd.Prelude.{ℕ, some, [], bytes_eq_iff, ◌≡◌, inl, inr, arith, Option-cases}
use ozd.Domain.{BlockKey, Body, DomainResult, ok}
use ozd.Shards.{update}
use ozd.Cache.Flights.{
  returned, Flights, led_flight, waits_for, enter, publish, notify, sleep, retire, wake, coalesced,
  Ongoing, Step, enters, publishes, notifies, retires, sleeps, wakes, goes_on, elsewhere, Steps,
  start, step, quiet,
}
use ozd.Cache.Flights.Valid.{IsValid, steps-IsValid, woken-waits, woken-returned}

module _ {T : Type 0} (read_through : BlockKey → T → DomainResult Body × T) where
  -- Whatever calls came and however they interleave: two calls that read the same key, or have
  -- read it and still hold its flight, are the same call.
  pub one_reader :
      (t : T) (s : Flights T) (i j : ℕ) (key : BlockKey) (f g : ℕ)
      → Steps read_through (quiet t) s
      → led_flight (s.threads i) ≡ some (key, f)
      → led_flight (s.threads j) ≡ some (key, g)
      → i ≡ j
  one_reader t s i j key f g reached mine yours =
      let v : IsValid read_through s = steps-IsValid read_through t s reached in
      ground (arith, v.mapped i key f, v.mapped j key g, v.single i j key f)

  module _ (P : BlockKey → Body → Type 0)
      (sound : (key : BlockKey) (t : T) (b : Body) → (read_through key t).0 ≡ ok b → P key b) where
    -- Every flight has a key of its own, and only bodies of that key are in its slot.
    record IsGenuine (s : Flights T) (owner : ℕ → BlockKey) : Type 0 where
      named : (key : BlockKey) (f : ℕ) → s.inflight key ≡ some f → owner f ≡ key
      waits :
          (i : ℕ) (key : BlockKey) (f : ℕ) → waits_for (s.threads i) ≡ some (key, f) → owner f ≡ key
      slot : (f : ℕ) (b : Body) → s.slots f ≡ some (ok b) → P (owner f) b
      told : (i : ℕ) (key : BlockKey) (b : Body) → s.threads i ≡ returned key (ok b) → P key b

    quiet-IsGenuine : (t : T) → IsGenuine (quiet t) (λ f. [])
    quiet-IsGenuine t = record {
      named = λ key f h. ground arith;
      waits = λ i key f h. ground arith;
      slot = λ f b h. absurd (ground arith);
      told = λ i key b h. absurd (ground arith);
    }

    Ongoing-IsGenuine :
        (s u : Flights T) (owner : ℕ → BlockKey)
        → IsValid read_through s
        → Ongoing read_through s u
        → IsGenuine s owner
        → IsGenuine u owner
    unfolding publish notify sleep retire wake coalesced
    Ongoing-IsGenuine s u owner v (publishes i key f _ leads) g = record {
      named = g.named;
      waits = λ j k l h. ground (arith, g.waits j k l);
      slot =
          λ l b h. ground (arith, g.slot l b, g.named key f, v.mapped i key f, sound key s.tier b);
      told = λ j k b h. ground (arith, g.told j k b);
    }
    Ongoing-IsGenuine s u owner v (notifies i key f r _ done) g = record {
      named = g.named;
      waits = λ j k l h. ground (arith, g.waits j k l, woken-waits f (s.threads j));
      slot = g.slot;
      told = λ j k b h. ground (arith, g.told j k b, woken-returned f (s.threads j) k (ok b));
    }
    Ongoing-IsGenuine s u owner v (retires i key f r _ done) g = record {
      named = λ k l h. ground (arith, g.named k l);
      waits = λ j k l h. ground (arith, g.waits j k l);
      slot = g.slot;
      told = λ j k b h.
          ground
            (arith, g.told j k b, g.slot f b, v.written i key f r, g.named key f, v.mapped i key f);
    }
    Ongoing-IsGenuine s u owner v (sleeps i key f _ waits empty) g = record {
      named = g.named;
      waits = λ j k l h. ground (arith, g.waits j k l, g.waits i key f);
      slot = g.slot;
      told = λ j k b h. ground (arith, g.told j k b);
    }
    Ongoing-IsGenuine s u owner v (wakes i key f r _ waits slot) g = record {
      named = g.named;
      waits = λ j k l h. ground (arith, g.waits j k l);
      slot = g.slot;
      told = λ j k b h. ground (arith, g.told j k b, g.slot f b, g.waits i key f);
    }

    kept-IsGenuine :
        (s u : Flights T) (owner : ℕ → BlockKey)
        → IsValid read_through s
        → Step read_through s u
        → IsGenuine s owner
        → (owner' : ℕ → BlockKey) × IsGenuine u owner'
    unfolding enter
    kept-IsGenuine s u owner v (enters i key _ out) g = elim (Option-cases (s.inflight key)) [
      | inl free ↦ rw free (
        update owner s.next key,
        record {
          named = λ k f h. ground (arith, g.named k f, v.fresh k f, bytes_eq_iff key k);
          waits = λ j k f h. ground (arith, g.waits j k f, v.awaited j k f);
          slot = λ f b h. ground (arith, g.slot f b);
          told = λ j k b h. ground (arith, g.told j k b);
        },
      )
      | inr (f, known) ↦ rw known (
        owner,
        record {
          named = g.named;
          waits = λ j k l h. ground (arith, g.waits j k l, g.named key f known);
          slot = g.slot;
          told = λ j k b h. ground (arith, g.told j k b);
        },
      )
    ]
    kept-IsGenuine s u owner v (goes_on _ _ st) g = (owner, Ongoing-IsGenuine s u owner v st g)
    kept-IsGenuine s u owner v (elsewhere t _) g =
        (owner, record { named = g.named; waits = g.waits; slot = g.slot; told = g.told })

    steps-IsGenuine :
        (t : T) (s : Flights T)
        → Steps read_through (quiet t) s
        → (owner : ℕ → BlockKey) × IsGenuine s owner
    steps-IsGenuine t s (start _) = (λ f. [], quiet-IsGenuine t)
    steps-IsGenuine t s (step _ u _ before last) =
        let (owner, g) = steps-IsGenuine t u before in
        kept-IsGenuine u s owner (steps-IsValid read_through t u before) last g

    -- If every body that a read of a key can answer has a property of bodies for that key, whatever
    -- the tier's state, then every body that a call of the key returned has it, whichever flight it
    -- came from.
    pub returned_genuine :
        (t : T) (s : Flights T) (i : ℕ) (key : BlockKey) (b : Body)
        → Steps read_through (quiet t) s
        → s.threads i ≡ returned key (ok b)
        → P key b
    returned_genuine t s i key b reached told = (steps-IsGenuine t s reached).1.told i key b told
