-- ===== src/Engine/Roundtrip.antt =====
-- What `put` of crates/ozd-engine/src/lib.rs stores is what `get` and `stat` give.
use ozd.Prelude.{
  ℕ, ◌%◌, ◌^◌, ◌<◌, ◌≤◌, ◌&&◌, not, Option, some, ◌≡◌, refl, arith, inl, inr, length, Bool-cases,
  Option-cases, ltb, leb, ==_refl, bytes_eq_refl,
}
use ozd.Io.{IoResult, ok, err}
use ozd.Domain.{BlockKey, Body, ok, err}
use ozd.Segment.{RecordAddr}
use ozd.Segment.Recovery.{FitsRecord}
use ozd.Index.{AddrEntry}
use ozd.Index.Roundtrip.{FitsObj, FitsEntry}
use ozd.Tables.{put_inline, put_addr, addressed, lookup, is_some}
use ozd.Tables.Laws.{lookup-put_inline, lookup-put_addr}
use ozd.Engine.{
  Segments, Zstd, EngineConfig, Engine, get, get_between, put_impl, append_retried, index_record,
  record_of, pack, unpack,
}
use ozd.Engine.Reads.{IsAppendOnly, Held, Held-final}
use ozd.Engine.Append.{commit-ok, Reported, retried-Reported}
use ozd.Engine.Durable.{indexed-store}

-- What is documented of the compression: what was compressed is decompressed to the same bytes.
pub record IsLossless (zstd : Zstd) : Type 0 where
  pub restores :
      (body c : Body) → zstd.compress body ≡ some c → zstd.decompress c (length body) ≡ some body

module _ (segments : Segments) (zstd : Zstd) (cfg : EngineConfig) where
  abbrev entry_of : RecordAddr → ℕ → Body → Option ℕ → AddrEntry
  entry_of addr crc body obj = record {
    addr = addr;
    crc = crc;
    logical_len = length body % 2 ^ 32;
    flags = (pack segments zstd cfg body).0;
    obj_logical = obj;
  }

  -- Unpacking undoes packing, whether or not the body was compressed.
  pub unpack-pack :
      (lossless : IsLossless zstd) (addr : RecordAddr) (crc : ℕ) (body : Body) (obj : Option ℕ)
      → length body < 2 ^ 32
      → unpack segments zstd cfg (entry_of addr crc body obj) (pack segments zstd cfg body).1
        ≡ ok body
  unfolding unpack pack
  unpack-pack lossless addr crc body obj fits =
      elim (Bool-cases (cfg.compress_zstd && leb cfg.compress_min (length body))) [
        | inl tried ↦ elim (Option-cases (zstd.compress body)) [
          | inl failed ↦ rw (tried, failed) refl
          | inr (c, packed) ↦ elim (Bool-cases (ltb (length c) (length body))) [
            | inl smaller ↦
                let exact : length body % 2 ^ 32 ≡ length body = omega arith in
                rw
                  (
                    tried,
                    packed,
                    smaller,
                    entry_of,
                    exact,
                    lossless.restores body c packed,
                    entry_of,
                    exact,
                    ==_refl,
                  )
                  refl
            | inr larger ↦ rw (tried, packed, larger) refl
          ]
        ]
        | inr plain ↦ rw plain refl
      ]

  pack-flags : (body : Body) → (pack segments zstd cfg body).0 < 256 ^ 2
  unfolding pack
  pack-flags body = elim (Bool-cases (cfg.compress_zstd && leb cfg.compress_min (length body))) [
    | inl tried ↦ elim (Option-cases (zstd.compress body)) [
      | inl failed ↦ rw (tried, failed) (omega arith)
      | inr (c, packed) ↦ elim (Bool-cases (ltb (length c) (length body))) [
        | inl smaller ↦ rw (tried, packed, smaller) (omega arith)
        | inr larger ↦ rw (tried, packed, larger) (omega arith)
      ]
    ]
    | inr plain ↦ rw plain (omega arith)
  ]

  length-pack : (body : Body) → length (pack segments zstd cfg body).1 ≤ length body
  unfolding pack
  length-pack body = elim (Bool-cases (cfg.compress_zstd && leb cfg.compress_min (length body))) [
    | inl tried ↦ elim (Option-cases (zstd.compress body)) [
      | inl failed ↦ rw (tried, failed) (omega arith)
      | inr (c, packed) ↦ elim (Bool-cases (ltb (length c) (length body))) [
        | inl smaller ↦ rw (tried, packed, smaller) (ground arith)
        | inr larger ↦ rw (tried, packed, larger) (omega arith)
      ]
    ]
    | inr plain ↦ rw plain (omega arith)
  ]

  -- The record of a put fits the fields of its header.
  pub record_of-Fits :
      (key : BlockKey) (body : Body)
      → length key < 2 ^ 16
      → length body < 2 ^ 32
      → FitsRecord (record_of segments zstd cfg key body)
  record_of-Fits key body short fits = record {
    key = short;
    stored = omega (arith, length-pack body);
    logical_len = omega arith;
    flags = omega (arith, pack-flags body);
  }

  module _ (Whole : segments.Store → Type 0) (law : IsAppendOnly segments Whole)
      (lossless : IsLossless zstd) (key : BlockKey) (body : Body) (obj : Option ℕ)
      (short : length key < 2 ^ 16) (fits : length body < 2 ^ 32) (obj_fits : FitsObj obj) where
    indexed-get :
        (x : IoResult (RecordAddr × ℕ)) (e : Engine segments zstd cfg)
        → ((a : RecordAddr) (crc : ℕ)
            → x ≡ ok (a, crc)
            → Reported segments zstd cfg Whole law
                (record_of segments zstd cfg key body)
                e.store
                a
                crc)
        → (index_record segments zstd cfg key body obj x e).0 ≡ ok tt
        → Held segments zstd cfg
            (lookup key (index_record segments zstd cfg key body obj x e).1.db.index)
            e.store
            body
    unfolding index_record Held Reported
    indexed-get (err y) e reported h = absurd cc
    indexed-get (ok (a, crc)) e reported h =
        let entry = entry_of a crc body obj in
        let (read, addr_fits, crc_fits) = reported a crc refl in
        let entry-Fits : FitsEntry entry = record {
          addr = addr_fits;
          crc = crc_fits;
          logical_len = omega arith;
          flags = pack-flags body;
          obj = obj_fits;
        } in
        let found : lookup key (put_addr key entry e.db.index) ≡ ok (addressed entry) =
          rw (lookup-put_addr key key entry e.db.index entry-Fits, bytes_eq_refl key) refl in
        inr (
          entry,
          (pack segments zstd cfg body).1,
          (rw (commit-ok e.db.commits (put_addr key entry) e.db.index h) found),
          read,
          unpack-pack lossless a crc body obj fits,
        )

    put-own :
        (e : Engine segments zstd cfg)
        → Whole e.store
        → Whole (segments.append (record_of segments zstd cfg key body) e.store).1
        → (put_impl segments zstd cfg key body obj e).0 ≡ ok tt
        → Held segments zstd cfg
            (lookup key (put_impl segments zstd cfg key body obj e).1.db.index)
            (put_impl segments zstd cfg key body obj e).1.store
            body
    unfolding put_impl Held Reported
    put-own e whole whole' h =
        let r = record_of segments zstd cfg key body in
        let r_fits = record_of-Fits key body short fits in
        let x = segments.append r e.store in
        let appended = append_retried segments zstd cfg r x e in
        elim (Bool-cases (not (is_some obj) && ltb (length body % 2 ^ 32) cfg.inline_min)) [
          | inl small ↦
              rw
                (
                  small,
                  commit-ok e.db.commits (put_inline key body) e.db.index (rw small at h),
                  lookup-put_inline key key body e.db.index,
                  bytes_eq_refl key,
                )
                (inl refl)
          | inr large ↦
              rw
                (
                  large,
                  indexed-store segments zstd cfg Whole law key body obj appended.0 appended.1,
                )
                (indexed-get appended.0 appended.1
                  (λ a crc ok_at.
                    retried-Reported segments zstd cfg Whole law r x e a crc r_fits whole'
                      (λ a' crc' ok_at'. law.appended r e.store a' crc' r_fits whole ok_at') ok_at)
                  (rw large at h))
        ]

    -- A body that was put without an error is the one that is got, whether it went to the index or
    -- to a segment, compressed or not, and also when a full disk made a second append necessary, if
    -- the key is shorter than 2 ^ 16 bytes and the body than 2 ^ 32 bytes, the object's length fits its field, the segments only
    -- grow and hold nothing torn when an append starts, and the compression is lossless.
    pub get-put :
        (e : Engine segments zstd cfg)
        → Whole e.store
        → Whole (segments.append (record_of segments zstd cfg key body) e.store).1
        → (put_impl segments zstd cfg key body obj e).0 ≡ ok tt
        → get segments zstd cfg key (put_impl segments zstd cfg key body obj e).1 ≡ ok body
    unfolding get_between
    get-put e whole whole' h = Held-final segments zstd cfg _ _ body (put-own e whole whole' h)
