-- ===== src/Pool/Drain/Slots.antt =====
-- The slots of the disks, and the requests, while the heal queue of crates/ozd-app/src/pool.rs is
-- drained.
use ozd.Prelude.{
  ℕ, ◌+◌, ◌-◌, ◌≤◌, max, List, [], ◌∷◌, ◌++◌, Bool, true, false, Option, none, some, ◌≡◌, refl, ap,
  arith, leb, ◌==◌, if◌then◌else◌, length, get_elem?, set, Bool-cases, inl, inr, ==_iff,
  length-append, ◌⊎◌,
}
use ozd.Domain.{BlockKey, ShardId}
use ozd.Erasure.{ReedSolomon}
use ozd.Placement.{Row}
use ozd.Shards.{ShardEngine, update}
use ozd.Pool.{Pool, replicas_for}
use ozd.Pool.Repair.{repair_key}
use ozd.Pool.Drain.{
  Request, Running, Phase, Event, is_whole, Drain, start, goes_on, acquire, back_out, release,
  claim_next, heal, advance_in, advance_one, step, run,
}
use ozd.Pool.Drain.Totals.{tally, tally-append, total, total-append, total-drop, total-set}

-- How often a disk stands among slots.
abbrev pub occurs : ShardId → List ShardId → ℕ
occurs t [] = 0
occurs t (s ∷ ss) = (if s == t then 1 else 0) + occurs t ss

occurs-append :
    (t : ShardId) (xs ys : List ShardId) → occurs t (xs ++ ys) ≡ occurs t xs + occurs t ys
occurs-append t [] ys = omega arith
occurs-append t (x ∷ xs) ys = omega (arith, occurs-append t xs ys)

-- The slots of a disk that a worker holds, and those that it will give back at once.
abbrev pub held : ShardId → Running → ℕ
held t w = occurs t w.slots

abbrev pub over_in : ShardId → Phase → ℕ
over_in t (Phase.over s) = if s == t then 1 else 0
over_in t (Phase.acquiring left) = 0
over_in t (Phase.releasing healed) = 0

abbrev pub too_many : ShardId → Running → ℕ
too_many t w = over_in t w.phase

abbrev pub asks : (Request → Bool) → Running → ℕ
asks q w = if q w.request then 1 else 0

update_add : (f : ℕ → ℕ) (t u : ℕ) → update f t (f t + 1) u ≡ f u + (if t == u then 1 else 0)
update_add f t u = elim (Bool-cases (t == u)) [
  | inl e ↦ rw e (rw ((==_iff t u).0 e) refl)
  | inr e ↦ rw e (omega arith)
]

update_sub : (f : ℕ → ℕ) (t u : ℕ) → update f t (f t - 1) u ≡ f u - (if t == u then 1 else 0)
update_sub f t u = elim (Bool-cases (t == u)) [
  | inl e ↦ rw e (rw ((==_iff t u).0 e) refl)
  | inr e ↦ rw e (omega arith)
]

module _ (eng : ShardEngine) where
  -- Every request of the batch is waiting, with a worker, healed or put off, as often as it stands
  -- in the batch.
  pub record Shared (batch : List Request) (d : Drain eng) : Type 0 where
    pub done : List Request
    pub healed : length done ≡ d.healed
    pub all :
        (q : Request → Bool)
        → tally q d.todo + (total (asks q) d.running + (tally q done + tally q d.deferred))
          ≡ tally q batch

  -- The count of a disk is the slots that workers hold and those that they are about to give back,
  -- and no disk has more held slots than the cap.
  pub record Balanced (cap : ℕ) (batch : List Request) (d : Drain eng) : Type 0 where
    pub taken :
        (t : ShardId) → d.inflight t ≡ total (held t) d.running + total (too_many t) d.running
    pub bound : (t : ShardId) → total (held t) d.running ≤ max cap 1
    pub shared : Shared batch d

  module _ (cap : ℕ) (batch : List Request) (n : ℕ) (w : Running) where
    -- A worker goes on with its request.
    goes_on-Shared :
        (w' : Running) (inflight : ℕ → ℕ) (d : Drain eng)
        → get_elem? d.running n ≡ some w
        → w'.request ≡ w.request
        → Shared batch d
        → Shared batch (goes_on eng n w' inflight d)
    goes_on-Shared w' inflight d e same v = record {
      done = v.done;
      healed = v.healed;
      all = λ q. omega (
        arith,
        v.all q,
        total-set (asks q) n d.running w w' e,
        ap {B = ℕ} (λ (r : Request). if q r then 1 else 0) same,
      );
    }

    acquire-Balanced :
        (t : ShardId) (left : List ShardId) (d : Drain eng)
        → get_elem? d.running n ≡ some w
        → w.phase ≡ Phase.acquiring (t ∷ left)
        → Balanced cap batch d
        → Balanced cap batch (acquire eng (max cap 1) n w t left d)
    unfolding acquire
    acquire-Balanced t left d e ph v =
        let inflight = update d.inflight t (d.inflight t + 1) in
        let refused : Running = record w { phase = Phase.over t } in
        let given : Running = record w {
          slots = w.slots ++ t ∷ [];
          phase = Phase.acquiring left;
        } in
        elim (Bool-cases (leb (max cap 1) (d.inflight t))) [
          | inl full ↦ rw full (record {
            taken = λ u. omega (
              arith,
              v.taken u,
              update_add d.inflight t u,
              total-set (held u) n d.running w refused e,
              total-set (too_many u) n d.running w refused e,
              ap (over_in u) ph,
            );
            bound = λ u. omega (arith, v.bound u, total-set (held u) n d.running w refused e);
            shared = goes_on-Shared refused inflight d e refl v.shared;
          })
          | inr room ↦ rw room (record {
            taken = λ u. omega (
              arith,
              v.taken u,
              update_add d.inflight t u,
              occurs-append u w.slots (t ∷ []),
              total-set (held u) n d.running w given e,
              total-set (too_many u) n d.running w given e,
              ap (over_in u) ph,
            );
            bound = λ u. held_below u (Bool-cases (t == u)) room;
            shared = goes_on-Shared given inflight d e refl v.shared;
          })
        ]
      where
        held_below :
            (u : ShardId)
            → ((t == u) ≡ true) ⊎ ((t == u) ≡ false)
            → leb (max cap 1) (d.inflight t) ≡ false
            → total (held u) (
                set d.running n
                  (record w { slots = w.slots ++ t ∷ []; phase = Phase.acquiring left }))
              ≤ max cap 1
        held_below u (inl same) room = ground (
          arith,
          (==_iff t u).0 same,
          v.taken t,
          v.taken u,
          occurs-append u w.slots (t ∷ []),
          total-set (held u) n d.running w
              (record w { slots = w.slots ++ t ∷ []; phase = Phase.acquiring left }) e,
        )
        held_below u (inr other) room = ground (
          arith,
          other,
          v.bound u,
          occurs-append u w.slots (t ∷ []),
          total-set (held u) n d.running w
              (record w { slots = w.slots ++ t ∷ []; phase = Phase.acquiring left }) e,
        )

    back_out-Balanced :
        (t : ShardId) (d : Drain eng)
        → get_elem? d.running n ≡ some w
        → w.phase ≡ Phase.over t
        → Balanced cap batch d
        → Balanced cap batch (back_out eng n w t d)
    unfolding back_out
    back_out-Balanced t d e ph v =
        let w' : Running = record w { phase = Phase.releasing false } in
        record {
          taken = λ u. omega (
            arith,
            v.taken u,
            update_sub d.inflight t u,
            total-set (held u) n d.running w w' e,
            total-set (too_many u) n d.running w w' e,
            ap (over_in u) ph,
          );
          bound = λ u. omega (arith, v.bound u, total-set (held u) n d.running w w' e);
          shared = goes_on-Shared w' (update d.inflight t (d.inflight t - 1)) d e refl v.shared;
        }

    release-Balanced :
        (healed : Bool) (slots : List ShardId) (d : Drain eng)
        → get_elem? d.running n ≡ some w
        → w.phase ≡ Phase.releasing healed
        → w.slots ≡ slots
        → Balanced cap batch d
        → Balanced cap batch (release eng n healed w slots d)
    unfolding release
    release-Balanced healed (t ∷ ts) d e ph sl v =
        let w' : Running = record w { slots = ts; phase = Phase.releasing healed } in
        record {
          taken = λ u. omega (
            arith,
            v.taken u,
            update_sub d.inflight t u,
            total-set (held u) n d.running w w' e,
            total-set (too_many u) n d.running w w' e,
            ap (over_in u) ph,
            ap (occurs u) sl,
          );
          bound = λ u.
              omega (arith, v.bound u, total-set (held u) n d.running w w' e, ap (occurs u) sl);
          shared = goes_on-Shared w' (update d.inflight t (d.inflight t - 1)) d e refl v.shared;
        }
    release-Balanced true [] d e ph sl v = record {
      taken = λ u. omega (
        arith,
        v.taken u,
        total-drop (held u) n d.running w e,
        total-drop (too_many u) n d.running w e,
        ap (over_in u) ph,
        ap (occurs u) sl,
      );
      bound = λ u. omega (arith, v.bound u, total-drop (held u) n d.running w e);
      shared = record {
        done = v.shared.done ++ w.request ∷ [];
        healed = omega (arith, v.shared.healed, length-append v.shared.done (w.request ∷ []));
        all = λ q. omega (
          arith,
          v.shared.all q,
          total-drop (asks q) n d.running w e,
          tally-append q v.shared.done (w.request ∷ []),
        );
      };
    }
    release-Balanced false [] d e ph sl v = record {
      taken = λ u. omega (
        arith,
        v.taken u,
        total-drop (held u) n d.running w e,
        total-drop (too_many u) n d.running w e,
        ap (over_in u) ph,
        ap (occurs u) sl,
      );
      bound = λ u. omega (arith, v.bound u, total-drop (held u) n d.running w e);
      shared = record {
        done = v.shared.done;
        healed = v.shared.healed;
        all = λ q. omega (
          arith,
          v.shared.all q,
          total-drop (asks q) n d.running w e,
          tally-append q d.deferred (w.request ∷ []),
        );
      };
    }

  module _ (rs : ReedSolomon) (select : BlockKey → List Row → ℕ → List ShardId) where
    claim_next-Balanced :
        (cap : ℕ) (batch : List Request) (now : ℕ) (todo : List Request) (d : Drain eng)
        → d.todo ≡ todo
        → Balanced cap batch d
        → Balanced cap batch (claim_next eng rs select now todo d)
    unfolding claim_next
    claim_next-Balanced cap batch now [] d e v = v
    claim_next-Balanced cap batch now (r ∷ rest) d e v =
        let targets = (replicas_for eng select now r.0 d.pool).0 in
        let w : Running = record { request = r; slots = []; phase = Phase.acquiring targets } in
        record {
          taken = λ t. omega (
            arith,
            v.taken t,
            total-append (held t) d.running (w ∷ []),
            total-append (too_many t) d.running (w ∷ []),
          );
          bound = λ t. omega (arith, v.bound t, total-append (held t) d.running (w ∷ []));
          shared = record {
            done = v.shared.done;
            healed = v.shared.healed;
            all = λ q.
                omega
                  (arith, v.shared.all q, ap (tally q) e, total-append (asks q) d.running (w ∷ []));
          };
        }

    heal-Balanced :
        (cap : ℕ) (batch : List Request) (n now later : ℕ) (w : Running) (d : Drain eng)
        → get_elem? d.running n ≡ some w
        → w.phase ≡ Phase.acquiring []
        → Balanced cap batch d
        → Balanced cap batch (heal eng rs select n now later w d)
    unfolding heal
    heal-Balanced cap batch n now later w d e ph v =
        let x = repair_key eng rs select now later w.request.0 d.pool in
        let w' : Running = record w { phase = Phase.releasing (is_whole x.0) } in
        let kept = goes_on-Shared cap batch n w w' d.inflight d e refl v.shared in
        record {
          taken = λ u. omega (
            arith,
            v.taken u,
            total-set (held u) n d.running w w' e,
            total-set (too_many u) n d.running w w' e,
            ap (over_in u) ph,
          );
          bound = λ u. omega (arith, v.bound u, total-set (held u) n d.running w w' e);
          shared = record { done = kept.done; healed = kept.healed; all = kept.all };
        }

    advance-Balanced :
        (cap : ℕ) (batch : List Request) (n now later : ℕ) (w : Running) (ph : Phase)
        (d : Drain eng)
        → get_elem? d.running n ≡ some w
        → w.phase ≡ ph
        → Balanced cap batch d
        → Balanced cap batch (advance_in eng rs select cap n now later w ph d)
    unfolding advance_in
    advance-Balanced cap batch n now later w (Phase.acquiring []) d e h v =
        heal-Balanced cap batch n now later w d e h v
    advance-Balanced cap batch n now later w (Phase.acquiring (t ∷ ts)) d e h v =
        acquire-Balanced cap batch n w t ts d e h v
    advance-Balanced cap batch n now later w (Phase.over t) d e h v =
        back_out-Balanced cap batch n w t d e h v
    advance-Balanced cap batch n now later w (Phase.releasing healed) d e h v =
        release-Balanced cap batch n w healed w.slots d e h refl v

    advance_one-Balanced :
        (cap : ℕ) (batch : List Request) (n now later : ℕ) (o : Option Running) (d : Drain eng)
        → get_elem? d.running n ≡ o
        → Balanced cap batch d
        → Balanced cap batch (advance_one eng rs select cap n now later o d)
    unfolding advance_one
    advance_one-Balanced cap batch n now later none d e v = v
    advance_one-Balanced cap batch n now later (some w) d e v =
        advance-Balanced cap batch n now later w w.phase d e refl v

    run-Balanced :
        (cap : ℕ) (batch : List Request) (es : List Event) (d : Drain eng)
        → Balanced cap batch d
        → Balanced cap batch (run eng rs select cap es d)
    unfolding run step
    run-Balanced cap batch [] d v = v
    run-Balanced cap batch (Event.claim now ∷ es) d v =
        run-Balanced cap batch es (step eng rs select cap (Event.claim now) d)
          (claim_next-Balanced cap batch now d.todo d refl v)
    run-Balanced cap batch (Event.advance n now later ∷ es) d v =
        run-Balanced cap batch es (step eng rs select cap (Event.advance n now later) d)
          (advance_one-Balanced cap batch n now later (get_elem? d.running n) d refl v)

    -- After any sequence of steps of the workers, each step a claim, an atomic addition or
    -- subtraction on one disk's count, or a whole repair: the count of each disk is the slots that
    -- workers hold and those that they are about to give back, no disk has more held slots than the
    -- cap (at least one), and every request stands as often in the batch as among those that wait,
    -- are with a worker, were healed (as many as are counted) or were put off.
    pub drain-Balanced :
        (cap : ℕ) (batch : List Request) (es : List Event) (p : Pool eng)
        → Balanced cap batch (run eng rs select cap es (start eng batch p))
    drain-Balanced cap batch es p = run-Balanced cap batch es (start eng batch p) (record {
      taken = λ t. refl;
      bound = λ t. omega arith;
      shared = record { done = []; healed = refl; all = λ q. omega arith };
    })
