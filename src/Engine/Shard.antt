-- ===== src/Engine/Shard.antt =====
-- `DiskEngine` of crates/ozd-engine/src/lib.rs is a `ShardEngine` of crates/ozd-domain/src/lib.rs:
-- it keeps what the pool relies on, for keys whose length fits 16 bits.
use ozd.Prelude.{
  ℕ, ◌<◌, ◌^◌, length, List, true, ◌||◌, Option, none, some, ◌≡◌, refl, ap, inl, inr, arith,
}
use ozd.Domain.{BlockKey, Body, Capacity, DomainResult, ok}
use ozd.Segment.{Record}
use ozd.Segment.Recovery.{FitsRecord}
use ozd.Shards.{ShardEngine, IsShardOn}
use ozd.Tables.{lookup, found, Lookup, inlined, addressed, missing, is_some, has, stat, stat_obj}
use ozd.Engine.{Segments, Zstd, EngineConfig, Engine, get, get_between, put_impl, delete}
use ozd.Engine.Reads.{IsAppendOnly, Held, final-Held}
use ozd.Engine.Roundtrip.{IsLossless, get-put, record_of-Fits}
use ozd.Engine.Durable.{get-put_failed, get-put_other}
use ozd.Engine.Gc.{DbReads, Files}
use ozd.Engine.Gc.Collect.{flush}
use ozd.Engine.Catalog.{list, scrub_step, set_obj_logical, save_cursor, load_cursor}

-- `statvfs` of the data directory: the bytes in all and those that are free.
abbrev pub or_zero : Option ℕ → ℕ
or_zero none = 0
or_zero (some n) = n

-- The key's length fits its field in the header of a record.
abbrev pub IsShort : BlockKey → Type 0
IsShort key = length key < 2 ^ 16

module _ (segments : Segments) (zstd : Zstd) (cfg : EngineConfig) (files : Files segments)
    (reads : DbReads) (fs_total_bytes fs_free_bytes : segments.Store → Option ℕ) where
  abbrev State : Type 0
  State = Engine segments zstd cfg

  unfoldable pub usage : State → DomainResult Capacity
  usage e = ok (record {
    total_bytes = or_zero (fs_total_bytes e.store);
    free_bytes = or_zero (fs_free_bytes e.store);
  })

  abbrev pub disk_engine : ShardEngine
  disk_engine = record {
    Shard = State;
    put_meta = put_impl segments zstd cfg;
    get = get segments zstd cfg;
    has = λ key e. ok (has key e.db.index);
    delete = delete segments zstd cfg;
    list = list segments zstd cfg reads.iter;
    stat = λ key e. stat key e.db.index;
    stat_obj = λ key e. stat_obj key e.db.index;
    set_obj_logical = set_obj_logical segments zstd cfg reads.iter;
    scrub_step = scrub_step segments zstd cfg reads.iter;
    usage = usage;
    flush = flush segments zstd cfg files reads;
    load_cursor = load_cursor segments zstd cfg reads.iter;
    save_cursor = save_cursor segments zstd cfg reads.iter;
  }

  found-is_some :
      (i a : Option (List ℕ)) (l : Lookup)
      → found i a ≡ ok l
      → ¬ (l ≡ missing)
      → (is_some i || is_some a) ≡ true
  found-is_some (some v) a l h there = refl
  found-is_some none (some v) l h there = refl
  found-is_some none none l h there = absurd (there (ground arith))

  module _ (Whole : segments.Store → Type 0) (append_only : IsAppendOnly segments Whole)
      (lossless : IsLossless zstd) where
    -- Nothing torn is in the segments, nor will be after the next append of a record that fits.
    abbrev pub IsWritable : State → Type 0
    IsWritable e =
        Whole e.store × ((r : Record) → FitsRecord r → Whole (segments.append r e.store).1)

    held-has :
        (key : BlockKey) (b : Body) (e : State)
        → Held segments zstd cfg (lookup key e.db.index) e.store b
        → has key e.db.index ≡ true
    unfolding Held has lookup
    held-has key b e (inl h) =
        found-is_some (e.db.index.inline key) (e.db.index.addr key) (inlined b) h
          (λ no. ground arith)
    held-has key b e (inr (x, stored, h, read, u)) =
        found-is_some (e.db.index.inline key) (e.db.index.addr key) (addressed x) h
          (λ no. ground arith)

    -- The disk engine keeps the promises that the pool relies on, if its segments only grow and
    -- its compression is lossless: an acknowledged put is read back, provided that the key is
    -- shorter than 2 ^ 16 bytes (its length is cut to 16 bits, unchecked), the body is
    -- shorter than 2 ^ 32 bytes, the object's length fits its field and no torn bytes are in the
    -- segments before and after the append; a put that fails and a put of another key lose
    -- nothing; and what can be read is reported as there.
    pub disk_engine-IsShard : IsShardOn IsShort disk_engine IsWritable
    unfolding get_between
    disk_engine-IsShard = record {
      get-put = λ key body obj e short good fits obj_fits done.
          get-put segments zstd cfg Whole append_only lossless key body obj short fits obj_fits e
            good.0 (good.1 _ (record_of-Fits segments zstd cfg key body short fits)) done;
      get-put_failed = λ key k body b obj e x failed h.
          get-put_failed segments zstd cfg Whole append_only key k body b obj e x failed h;
      get-put_other = λ key k body b obj e other h.
          get-put_other segments zstd cfg Whole append_only key k body b obj e other h;
      has-get = λ key b e h.
          ap (λ found. ok found)
            (held-has key b e (final-Held segments zstd cfg (lookup key e.db.index) e.store b h));
    }
