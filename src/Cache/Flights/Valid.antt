-- ===== src/Cache/Flights/Valid.antt =====
-- The invariant of the flights of crates/ozd-app/src/cache.rs, and that every step keeps it.
use ozd.Prelude.{
  ℕ, ◌<◌, none, some, ◌≡◌, refl, ap, false, ◌==◌, ==_iff, inl, inr, arith, bytes_eq, bytes_eq_iff,
  bytes_eq_refl, Bool-cases, Option-cases,
}
use ozd.Domain.{BlockKey, Body, DomainResult}
use ozd.Cache.Flights.{
  Thread, outside, leading, published, notified, following, asleep, returned, Flights, led_flight,
  waits_for, written_by, woken, enter, publish, notify, sleep, retire, wake, Ongoing, Step, enters,
  publishes, notifies, retires, sleeps, wakes, goes_on, elsewhere, Steps, start, step, quiet,
}

-- Only a sleeper changes when a flight is notified.
woken-led : (f : ℕ) (th : Thread) → led_flight (woken f th) ≡ led_flight th
woken-led f outside = refl
woken-led f (leading k g) = refl
woken-led f (published k g r) = refl
woken-led f (notified k g r) = refl
woken-led f (following k g) = refl
woken-led f (asleep k g) = ground arith
woken-led f (returned k r) = refl

pub woken-waits : (f : ℕ) (th : Thread) → waits_for (woken f th) ≡ waits_for th
woken-waits f outside = refl
woken-waits f (leading k g) = refl
woken-waits f (published k g r) = refl
woken-waits f (notified k g r) = refl
woken-waits f (following k g) = refl
woken-waits f (asleep k g) = ground arith
woken-waits f (returned k r) = refl

woken-written : (f : ℕ) (th : Thread) → written_by (woken f th) ≡ written_by th
woken-written f outside = refl
woken-written f (leading k g) = refl
woken-written f (published k g r) = refl
woken-written f (notified k g r) = refl
woken-written f (following k g) = refl
woken-written f (asleep k g) = ground arith
woken-written f (returned k r) = refl

written-led :
    (th : Thread) (k : BlockKey) (f : ℕ) (r : DomainResult Body)
    → written_by th ≡ some (k, f, r)
    → led_flight th ≡ some (k, f)
written-led outside k f r h = ground arith
written-led (leading _ _) k f r h = ground arith
written-led (published _ _ _) k f r h = ground arith
written-led (notified _ _ _) k f r h = ground arith
written-led (following _ _) k f r h = ground arith
written-led (asleep _ _) k f r h = ground arith
written-led (returned _ _) k f r h = ground arith

woken-leading :
    (f : ℕ) (th : Thread) (k : BlockKey) (g : ℕ) → woken f th ≡ leading k g → th ≡ leading k g
woken-leading f outside k g h = h
woken-leading f (leading _ _) k g h = h
woken-leading f (published _ _ _) k g h = h
woken-leading f (notified _ _ _) k g h = h
woken-leading f (following _ _) k g h = h
woken-leading f (asleep _ _) k g h = ground arith
woken-leading f (returned _ _) k g h = h

woken-asleep :
    (f : ℕ) (th : Thread) (k : BlockKey) (g : ℕ)
    → woken f th ≡ asleep k g
    → (th ≡ asleep k g) × ((g == f) ≡ false)
woken-asleep f outside k g h = absurd (ground arith)
woken-asleep f (leading _ _) k g h = absurd (ground arith)
woken-asleep f (published _ _ _) k g h = absurd (ground arith)
woken-asleep f (notified _ _ _) k g h = absurd (ground arith)
woken-asleep f (following _ _) k g h = absurd (ground arith)
woken-asleep f (asleep l m) k g h = elim (Bool-cases (m == f)) [
  | inl e ↦ absurd (let no = rw e at h in ground arith)
  | inr e ↦ let same = rw e at h in ground arith
]
woken-asleep f (returned _ _) k g h = absurd (ground arith)

pub woken-returned :
    (f : ℕ) (th : Thread) (k : BlockKey) (r : DomainResult Body)
    → woken f th ≡ returned k r
    → th ≡ returned k r
woken-returned f outside k r h = h
woken-returned f (leading _ _) k r h = h
woken-returned f (published _ _ _) k r h = h
woken-returned f (notified _ _ _) k r h = h
woken-returned f (following _ _) k r h = h
woken-returned f (asleep _ _) k r h = ground arith
woken-returned f (returned _ _) k r h = h

module _ {T : Type 0} (read_through : BlockKey → T → DomainResult Body × T) where
  pub record IsValid (s : Flights T) : Type 0 where
    pub fresh : (key : BlockKey) (f : ℕ) → s.inflight key ≡ some f → f < s.next
    pub mapped :
        (i : ℕ) (key : BlockKey) (f : ℕ)
        → led_flight (s.threads i) ≡ some (key, f)
        → s.inflight key ≡ some f
    pub apart :
        (key k : BlockKey) (f : ℕ) → s.inflight key ≡ some f → s.inflight k ≡ some f → key ≡ k
    pub single :
        (i j : ℕ) (key : BlockKey) (f : ℕ)
        → led_flight (s.threads i) ≡ some (key, f)
        → led_flight (s.threads j) ≡ some (key, f)
        → i ≡ j
    pub unread : (i : ℕ) (key : BlockKey) (f : ℕ) → s.threads i ≡ leading key f → s.slots f ≡ none
    pub led :
        (key : BlockKey) (f : ℕ)
        → s.inflight key ≡ some f
        → (i : ℕ) × (led_flight (s.threads i) ≡ some (key, f))
    pub written :
        (i : ℕ) (key : BlockKey) (f : ℕ) (r : DomainResult Body)
        → written_by (s.threads i) ≡ some (key, f, r)
        → s.slots f ≡ some r
    pub awaited :
        (i : ℕ) (key : BlockKey) (f : ℕ)
        → waits_for (s.threads i) ≡ some (key, f)
        → (f < s.next) × (s.slots f ≡ none → s.inflight key ≡ some f)
    -- Who sleeps on a slot that is full will be woken: its leader has yet to notify.
    pub rung :
        (i : ℕ) (key : BlockKey) (f : ℕ) (r : DomainResult Body)
        → s.threads i ≡ asleep key f
        → s.slots f ≡ some r
        → (j : ℕ) × (s.threads j ≡ published key f r)

  quiet-IsValid : (t : T) → IsValid (quiet t)
  quiet-IsValid t = record {
    fresh = λ key f h. ground arith;
    mapped = λ i key f h. ground arith;
    apart = λ key k f h h'. ground arith;
    single = λ i j key f h h'. ground arith;
    unread = λ i key f h. ground arith;
    led = λ key f h. ground arith;
    written = λ i key f r h. ground arith;
    awaited = λ i key f h. ground arith;
    rung = λ i key f r h full. absurd (ground arith);
  }

  enter_new-IsValid :
      (i : ℕ) (key : BlockKey) (s : Flights T)
      → s.threads i ≡ outside
      → s.inflight key ≡ none
      → IsValid s
      → IsValid (enter read_through i key none s)
  unfolding enter
  enter_new-IsValid i key s out free v = record {
    fresh = λ k f h. ground (arith, v.fresh k f);
    mapped = λ j k f h. ground (arith, v.mapped j k f, v.fresh k f, bytes_eq_iff key k);
    apart = λ k l f h h'.
        ground
          (arith, v.apart k l f, v.fresh k f, v.fresh l f, bytes_eq_iff key k, bytes_eq_iff key l);
    single = λ j l k f h h'.
        ground (arith, v.single j l k f, v.mapped j k f, v.mapped l k f, v.fresh k f);
    unread = λ j k f h. ground (arith, v.unread j k f, v.mapped j k f, v.fresh k f);
    led = λ k f h. elim (Bool-cases (bytes_eq key k)) [
      | inl e ↦ (i, ground (arith, bytes_eq_iff key k))
      | inr e ↦
          let old : s.inflight k ≡ some f = ground arith in
          ((v.led k f old).0, ground (arith, (v.led k f old).1))
    ];
    written = λ j k f r h.
        ground
          (arith, v.written j k f r, v.mapped j k f, v.fresh k f, written-led (s.threads j) k f r);
    awaited = λ j k f h. ground (arith, v.awaited j k f, bytes_eq_iff key k);
    rung = λ j k f r h full.
        let old : s.threads j ≡ asleep k f = ground arith in
        let below = v.awaited j k f (ap waits_for old) in
        let rings = v.rung j k f r old (ground arith) in (rings.0, ground (arith, rings.1));
  }

  enter_old-IsValid :
      (i : ℕ) (key : BlockKey) (g : ℕ) (s : Flights T)
      → s.threads i ≡ outside
      → s.inflight key ≡ some g
      → IsValid s
      → IsValid (enter read_through i key (some g) s)
  unfolding enter
  enter_old-IsValid i key g s out here v = record {
    fresh = v.fresh;
    mapped = λ j k f h. ground (arith, v.mapped j k f);
    apart = v.apart;
    single = λ j l k f h h'. ground (arith, v.single j l k f);
    unread = λ j k f h. ground (arith, v.unread j k f);
    led = λ k f h. ((v.led k f h).0, ground (arith, (v.led k f h).1));
    written = λ j k f r h. ground (arith, v.written j k f r);
    awaited = λ j k f h. ground (arith, v.awaited j k f, v.fresh k f);
    rung = λ j k f r h full.
        let rings = v.rung j k f r (ground arith) full in (rings.0, ground (arith, rings.1));
  }

  publish-IsValid :
      (i : ℕ) (key : BlockKey) (g : ℕ) (s : Flights T)
      → s.threads i ≡ leading key g
      → IsValid s
      → IsValid (publish read_through i key g s)
  unfolding publish
  publish-IsValid i key g s leads v = record {
    fresh = v.fresh;
    mapped = λ j k f h. ground (arith, v.mapped j k f);
    apart = v.apart;
    single = λ j l k f h h'. ground (arith, v.single j l k f);
    unread = λ j k f h. ground (
      arith,
      v.unread j k f,
      v.mapped j k f,
      v.mapped i key f,
      v.apart key k f,
      v.single i j key f,
    );
    led = λ k f h. ((v.led k f h).0, ground (arith, (v.led k f h).1));
    written = λ j k f r h. ground (
      arith,
      v.written j k f r,
      v.mapped j k f,
      v.mapped i key f,
      v.apart key k f,
      v.single i j key f,
      written-led (s.threads j) k f r,
    );
    awaited = λ j k f h. ground (arith, v.awaited j k f);
    rung = λ j k f r h full.
        let old : s.threads j ≡ asleep k f = ground arith in
        elim (Bool-cases (g == f)) [
          | inl e ↦
              let same : g ≡ f = (==_iff g f).0 e in
              let empty : s.slots f ≡ none = ground (arith, v.unread i key g leads) in
              let theirs : s.inflight k ≡ some f = (v.awaited j k f (ap waits_for old)).1 empty in
              let mine : s.inflight key ≡ some f =
                ground (arith, v.mapped i key g (ap led_flight leads)) in
              (i, ground (arith, v.apart key k f mine theirs))
          | inr e ↦
              let rings = v.rung j k f r old (ground arith) in (rings.0, ground (arith, rings.1))
        ];
  }

  notify-IsValid :
      (i : ℕ) (key : BlockKey) (g : ℕ) (r : DomainResult Body) (s : Flights T)
      → s.threads i ≡ published key g r
      → IsValid s
      → IsValid (notify read_through i key g r s)
  unfolding notify
  notify-IsValid i key g r s done v = record {
    fresh = v.fresh;
    mapped = λ j k f h. ground (arith, v.mapped j k f, woken-led g (s.threads j));
    apart = v.apart;
    single = λ j l k f h h'.
        ground (arith, v.single j l k f, woken-led g (s.threads j), woken-led g (s.threads l));
    unread = λ j k f h. ground (arith, v.unread j k f, woken-leading g (s.threads j) k f);
    led = λ k f h. let l = v.led k f h in (l.0, ground (arith, l.1, woken-led g (s.threads l.0)));
    written = λ j k f q h.
        ground (arith, v.written j k f q, v.written i key g r, woken-written g (s.threads j));
    awaited = λ j k f h. ground (arith, v.awaited j k f, woken-waits g (s.threads j));
    rung = λ j k f q h full.
        let before : (s.threads j ≡ asleep k f) × ((f == g) ≡ false) =
          ground (arith, woken-asleep g (s.threads j) k f) in
        let rings = v.rung j k f q before.0 full in (rings.0, ground (arith, rings.1, before.1));
  }

  retire-IsValid :
      (i : ℕ) (key : BlockKey) (g : ℕ) (r : DomainResult Body) (s : Flights T)
      → s.threads i ≡ notified key g r
      → IsValid s
      → IsValid (retire read_through i key r s)
  unfolding retire
  retire-IsValid i key g r s done v = record {
    fresh = λ k f h. ground (arith, v.fresh k f);
    mapped = λ j k f h.
        ground (arith, v.mapped j k f, v.mapped i key g, v.single i j key g, bytes_eq_iff key k);
    apart = λ k l f h h'. ground (arith, v.apart k l f);
    single = λ j l k f h h'. ground (arith, v.single j l k f);
    unread = λ j k f h. ground (arith, v.unread j k f);
    led = λ k f h.
        let old : s.inflight k ≡ some f = ground arith in
        ((v.led k f old).0, ground (arith, (v.led k f old).1, bytes_eq_refl key));
    written = λ j k f q h. ground (arith, v.written j k f q);
    awaited = λ j k f h.
        ground (arith, v.awaited j k f, v.mapped i key g, v.written i key g r, bytes_eq_iff key k);
    rung = λ j k f q h full.
        let rings = v.rung j k f q (ground arith) full in (rings.0, ground (arith, rings.1));
  }

  wake-IsValid :
      (i : ℕ) (key : BlockKey) (g : ℕ) (r : DomainResult Body) (s : Flights T)
      → s.threads i ≡ following key g
      → IsValid s
      → IsValid (wake read_through i key r s)
  unfolding wake
  wake-IsValid i key g r s waits v = record {
    fresh = v.fresh;
    mapped = λ j k f h. ground (arith, v.mapped j k f);
    apart = v.apart;
    single = λ j l k f h h'. ground (arith, v.single j l k f);
    unread = λ j k f h. ground (arith, v.unread j k f);
    led = λ k f h. ((v.led k f h).0, ground (arith, (v.led k f h).1));
    written = λ j k f q h. ground (arith, v.written j k f q);
    awaited = λ j k f h. ground (arith, v.awaited j k f);
    rung = λ j k f q h full.
        let rings = v.rung j k f q (ground arith) full in (rings.0, ground (arith, rings.1));
  }

  sleep-IsValid :
      (i : ℕ) (key : BlockKey) (g : ℕ) (s : Flights T)
      → s.threads i ≡ following key g
      → s.slots g ≡ none
      → IsValid s
      → IsValid (sleep read_through i key g s)
  unfolding sleep
  sleep-IsValid i key g s waits empty v = record {
    fresh = v.fresh;
    mapped = λ j k f h. ground (arith, v.mapped j k f);
    apart = v.apart;
    single = λ j l k f h h'. ground (arith, v.single j l k f);
    unread = λ j k f h. ground (arith, v.unread j k f);
    led = λ k f h. ((v.led k f h).0, ground (arith, (v.led k f h).1));
    written = λ j k f q h. ground (arith, v.written j k f q);
    awaited = λ j k f h. ground (arith, v.awaited j k f, v.awaited i key g);
    rung = λ j k f q h full.
        let old : s.threads j ≡ asleep k f = ground arith in
        let rings = v.rung j k f q old full in (rings.0, ground (arith, rings.1));
  }

  Ongoing-IsValid : (s u : Flights T) → Ongoing read_through s u → IsValid s → IsValid u
  Ongoing-IsValid s u (publishes i key f _ leads) v = publish-IsValid i key f s leads v
  Ongoing-IsValid s u (notifies i key f r _ done) v = notify-IsValid i key f r s done v
  Ongoing-IsValid s u (retires i key f r _ done) v = retire-IsValid i key f r s done v
  Ongoing-IsValid s u (sleeps i key f _ waits empty) v = sleep-IsValid i key f s waits empty v
  Ongoing-IsValid s u (wakes i key f r _ waits slot) v = wake-IsValid i key f r s waits v

  step-IsValid : (s u : Flights T) → Step read_through s u → IsValid s → IsValid u
  step-IsValid s u (goes_on _ _ st) v = Ongoing-IsValid s u st v
  step-IsValid s u (enters i key _ out) v = elim (Option-cases (s.inflight key)) [
    | inl free ↦ rw free (enter_new-IsValid i key s out free v)
    | inr (g, known) ↦ rw known (enter_old-IsValid i key g s out known v)
  ]
  step-IsValid s u (elsewhere t _) v = record {
    fresh = v.fresh;
    mapped = v.mapped;
    apart = v.apart;
    single = v.single;
    unread = v.unread;
    led = v.led;
    written = v.written;
    awaited = v.awaited;
    rung = v.rung;
  }

  -- Every state that the calls reach from none is valid.
  pub steps-IsValid : (t : T) (s : Flights T) → Steps read_through (quiet t) s → IsValid s
  steps-IsValid t s (start _) = quiet-IsValid t
  steps-IsValid t s (step _ u _ before last) = step-IsValid u s last (steps-IsValid t u before)
