-- ===== src/Cache/Tests.antt =====
-- The cache tier of crates/ozd-app/src/cache.rs on small stores, and the theorems on them.
use ozd.Prelude.{
  List, [], ◌∷◌, ℕ, ◌≡◌, refl, arith, true, Option, none, some, [], ◌∷◌, if◌then◌else◌, bytes_eq,
  bytes_eq_iff, bytes_eq_refl,
}
use ozd.Domain.{BlockKey, Body, DomainResult, ok, err, not_found}
use ozd.Cache.{
  BlockStore, CacheEngine, CacheConfig, CacheMetrics, CacheTier, read_through, put, delete, new,
  evict_loop, maybe_evict,
}
use ozd.Cache.Evict.{evict_to_max, IsSettled, evict_loop-evict_to_max, maybe_evict-settles}
use ozd.Cache.Coherent.{IsBlockStore, IsCacheEngine, IsCoherent, read_through-transparent}
use ozd.Cache.Calls.{Call, gets, puts, deletes, AreAllowed, run, run-IsCoherent}
use ozd.Cache.Flights.{
  Flights, quiet, Steps, start, step, goes_on, enters, publishes, notifies, retires, enter, publish,
  notify, sleep, retire, wake,
}
use ozd.Cache.Flights.Single.{one_reader, returned_genuine}

-- A disk that keeps what is put, and evicts everything at once; it says how many bytes it holds.
abbrev Held : Type 0
Held = BlockKey → Option Body

abbrev as_result : Option Body → DomainResult Body
as_result none = err not_found
as_result (some b) = ok b

abbrev kept : BlockKey → Option Body → Held → Held
kept key b d k = if bytes_eq key k then b else d k

abbrev memory : CacheEngine
memory = record {
  Disk = Held;
  put = λ key body d. (ok tt, kept key (some body) d);
  get = λ key d. as_result (d key);
  delete = λ key d. (ok tt, kept key none d);
  data_bytes = λ d. ok 0;
  evict_oldest_segment = λ d. (ok (5, 1), λ k. none);
}

abbrev pool : BlockStore
pool = record {
  Store = Held;
  put = λ key body d. (ok tt, kept key (some body) d);
  get = λ key d. (as_result (d key), d);
  stat = λ key d. err not_found;
  has = λ key d. ok true;
  delete = λ key d. (ok tt, kept key none d);
  list = λ prefix after limit d. ok [];
}

pool-IsBlockStore : IsBlockStore pool
pool-IsBlockStore = record {
  get-get = λ key k s. refl;
  get-put = λ key body s h. rw (bytes_eq_refl key) refl;
  get-put_again = λ key body s h. rw (bytes_eq_refl key) refl;
  get-put_other = λ key k body b s ne h. rw ne h;
  get-delete_other = λ key k b s ne h. rw ne h;
}

memory-IsCacheEngine : IsCacheEngine memory
memory-IsCacheEngine = record {
  get-put = λ key k body b d h. ground (arith, bytes_eq_iff key k);
  get-delete = λ key k b d h. ground arith;
  get-deleted = λ key b d h e. ground (arith, bytes_eq_refl key);
  get-evict = λ k b d h. ground arith;
}

abbrev cfg : CacheConfig
cfg = record { max_bytes = 10; min_size = 1 }

abbrev no_metrics : CacheMetrics
no_metrics = record {
  hits = 0;
  misses = 0;
  self_heals = 0;
  populated_bytes = 0;
  evicted_segments = 0;
  evicted_bytes = 0;
}

abbrev one_key : BlockKey
one_key = 1 ∷ []

abbrev one_body : Body
one_body = 7 ∷ 8 ∷ []

-- The pool holds one body, and the cache holds it too.
abbrev warm : CacheTier pool memory cfg
warm = record {
  store = kept one_key (some one_body) (λ k. none);
  disk = kept one_key (some one_body) (λ k. none);
  bytes = 2;
  metrics = no_metrics;
}

abbrev full : CacheTier pool memory cfg
full = record warm { bytes = 14 }

warm-IsCoherent : IsCoherent pool memory cfg pool-IsBlockStore memory-IsCacheEngine warm
warm-IsCoherent k b h = h

program : Unit {0}
unfolding read_through put delete new bytes_eq
program = tt

-- A hit answers the cached body; a cold tier reads the pool and caches what it read.
hit : (read_through pool memory cfg one_key warm).0 ≡ ok one_body
unfolding program
hit = refl

cold : CacheTier pool memory cfg
unfolding program
cold = new pool memory cfg warm.store (λ k. none) no_metrics

cold_caches : memory.get one_key (read_through pool memory cfg one_key cold).1.disk ≡ ok one_body
unfolding program cold
cold_caches = refl

evict_loop-evict_to_max_example :
    evict_loop pool memory cfg 14 full ≡ evict_to_max pool memory cfg 14 full
evict_loop-evict_to_max_example = evict_loop-evict_to_max pool memory cfg 14 full

maybe_evict-settles_example :
    (evict_loop pool memory cfg 20 full ≡ maybe_evict pool memory cfg full)
    × IsSettled pool memory cfg (maybe_evict pool memory cfg full)
maybe_evict-settles_example =
    maybe_evict-settles pool memory cfg 20 full (omega arith) (omega arith)

read_through-transparent_example :
    ((read_through pool memory cfg one_key warm).0 ≡ (pool.get one_key warm.store).0)
    × IsCoherent pool memory cfg pool-IsBlockStore memory-IsCacheEngine
        (read_through pool memory cfg one_key warm).1
read_through-transparent_example =
    read_through-transparent pool memory cfg pool-IsBlockStore memory-IsCacheEngine one_key warm
      warm-IsCoherent

-- The first call leads a read of the key, and the second one waits for it.
abbrev reader : BlockKey → CacheTier pool memory cfg → DomainResult Body × CacheTier pool memory cfg
reader = read_through pool memory cfg

abbrev called : Flights (CacheTier pool memory cfg) → ℕ → Flights (CacheTier pool memory cfg)
called s i = enter reader i one_key (s.inflight one_key) s

calls : Unit {0}
unfolding program enter publish notify sleep retire wake
calls = tt

abbrev two_calls : Flights (CacheTier pool memory cfg)
two_calls = called (called (quiet warm) 0) 1

two_calls-Steps : Steps reader (quiet warm) two_calls
unfolding calls
two_calls-Steps =
    step (quiet warm) (called (quiet warm) 0) two_calls
      (step (quiet warm) (quiet warm) (called (quiet warm) 0) (start (quiet warm))
        (enters 0 one_key (quiet warm) refl))
      (enters 1 one_key (called (quiet warm) 0) refl)

one_reader_example : ◌≡◌ {A = ℕ} 0 0
unfolding calls
one_reader_example = one_reader reader warm two_calls 0 0 one_key 0 0 two_calls-Steps refl refl

-- A store that answers every key with the bytes of the key: a call reads, publishes and returns.
abbrev echo : BlockKey → Unit {0} → DomainResult Body × Unit {0}
echo key t = (ok key, t)

abbrev echoing : Flights (Unit {0})
echoing = enter echo 0 one_key none (quiet tt)

abbrev echoed : Flights (Unit {0})
echoed = publish echo 0 one_key 0 echoing

abbrev announced : Flights (Unit {0})
announced = notify echo 0 one_key 0 (ok one_key) echoed

announced-Steps : Steps echo (quiet tt) announced
unfolding calls
announced-Steps =
    step (quiet tt) echoed announced
      (step (quiet tt) echoing echoed
        (step (quiet tt) (quiet tt) echoing (start (quiet tt)) (enters 0 one_key (quiet tt) refl))
        (goes_on echoing echoed (publishes 0 one_key 0 echoing refl)))
      (goes_on echoed announced (notifies 0 one_key 0 (ok one_key) echoed refl))

abbrev retired : Flights (Unit {0})
retired = retire echo 0 one_key (ok one_key) announced

returned_genuine_example : one_key ≡ one_key
unfolding calls
returned_genuine_example =
    returned_genuine echo (λ key b. b ≡ key) (λ key t b h. ground arith) tt retired 0 one_key
      one_key
      (step (quiet tt) announced retired announced-Steps
        (goes_on announced retired (retires 0 one_key 0 (ok one_key) announced refl)))
      refl

abbrev history : List Call
history = puts one_key one_body ∷ gets one_key ∷ deletes one_key ∷ []

history-AreAllowed : AreAllowed pool memory cfg pool-IsBlockStore memory-IsCacheEngine history warm
history-AreAllowed = (λ b h. ground arith, (tt, ((refl, refl), tt)))

run-IsCoherent_example :
    IsCoherent pool memory cfg pool-IsBlockStore memory-IsCacheEngine
      (run pool memory cfg pool-IsBlockStore memory-IsCacheEngine history warm)
run-IsCoherent_example =
    run-IsCoherent pool memory cfg pool-IsBlockStore memory-IsCacheEngine history warm
      history-AreAllowed warm-IsCoherent
