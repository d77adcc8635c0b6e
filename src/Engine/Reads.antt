-- ===== src/Engine/Reads.antt =====
-- When `get` of crates/ozd-engine/src/lib.rs gives a body, over any pack segments that only grow.
use ozd.Prelude.{ℕ, ◌^◌, ◌<◌, List, true, Option, none, some, ◌≡◌, refl, ◌⊎◌, inl, inr, ==_refl}
use ozd.Io.{IoResult, ok, err, enospc, invalid_data, unexpected_eof, other}
use ozd.Domain.{Body, DomainResult, ok, err, io}
use ozd.Segment.{Record, RecordAddr}
use ozd.Segment.Recovery.{FitsRecord}
use ozd.Index.{AddrEntry}
use ozd.Index.Roundtrip.{FitsAddr}
use ozd.Tables.{Lookup, inlined, addressed, missing}
use ozd.Engine.{
  Segments, Zstd, EngineConfig, answer, read_answer, after_first, retry_get, unpack, same_entry,
  same_obj,
}

-- What is documented of the segments: they only grow, and a record that was appended without an
-- error, on a store in which nothing torn is left, is read from its address, if its lengths fit the
-- fields of its header (the key's length is cut to 16 bits, unchecked).
pub record IsAppendOnly (segments : Segments) (Whole : segments.Store → Type 0) : Type 0 where
  pub kept :
      (r : Record) (s : segments.Store) (a : RecordAddr) (crc : ℕ) (stored : List ℕ)
      → segments.read s a crc ≡ ok stored
      → segments.read (segments.append r s).1 a crc ≡ ok stored
  pub appended :
      (r : Record) (s : segments.Store) (a : RecordAddr) (crc : ℕ)
      → FitsRecord r
      → Whole s
      → (segments.append r s).0 ≡ ok (a, crc)
      → (segments.read (segments.append r s).1 a crc ≡ ok r.stored) × FitsAddr a × (crc < 256 ^ 4)

same_obj_refl : (o : Option ℕ) → same_obj o o ≡ true
same_obj_refl none = refl
same_obj_refl (some a) = ==_refl a

module _ (segments : Segments) (zstd : Zstd) (cfg : EngineConfig) where
  same_entry_refl : (e : AddrEntry) → same_entry segments zstd cfg e e ≡ true
  same_entry_refl e =
      rw (==_refl, ==_refl, ==_refl, ==_refl, ==_refl, ==_refl, ==_refl, same_obj_refl) refl

  -- A body, as a lookup and the segments have it.
  unfoldable pub Held : DomainResult Lookup → segments.Store → Body → Type 0
  Held l s b =
      (l ≡ ok (inlined b))
      ⊎ (e : AddrEntry) × (stored : Body) × (l ≡ ok (addressed e))
        × (segments.read s e.addr e.crc ≡ ok stored)
        × (unpack segments zstd cfg e stored ≡ ok b)

  abbrev pub final : DomainResult Lookup → segments.Store → DomainResult Body
  final l s = after_first segments zstd cfg (answer segments zstd cfg l s) l s

  unreadable :
      (e : AddrEntry) (s : segments.Store) (b : Body)
      → retry_get segments zstd cfg e s (ok (addressed e)) ≡ ok b
      → ⊥
  unreadable e s b h =
      let stopped : retry_get segments zstd cfg e s (ok (addressed e)) ≡ err io =
        rw (same_entry_refl e) refl in
      cc

  read-held :
      (e : AddrEntry) (x : IoResult (List ℕ)) (s : segments.Store) (b : Body)
      → after_first segments zstd cfg (read_answer segments zstd cfg e x) (ok (addressed e)) s
        ≡ ok b
      → (stored : Body) × (x ≡ ok stored) × (unpack segments zstd cfg e stored ≡ ok b)
  unfolding read_answer
  read-held e (ok stored) s b h = (stored, refl, h)
  read-held e (err invalid_data) s b h = absurd cc
  read-held e (err enospc) s b h = absurd (unreadable e s b h)
  read-held e (err unexpected_eof) s b h = absurd (unreadable e s b h)
  read-held e (err other) s b h = absurd (unreadable e s b h)

  pub final-Held :
      (l : DomainResult Lookup) (s : segments.Store) (b : Body) → final l s ≡ ok b → Held l s b
  unfolding Held
  final-Held (err x) s b h = absurd cc
  final-Held (ok (inlined v)) s b h = inl (cc)
  final-Held (ok missing) s b h = absurd cc
  final-Held (ok (addressed e)) s b h =
      let (stored, r, u) = read-held e (segments.read s e.addr e.crc) s b h in
      inr (e, stored, refl, r, u)

  pub Held-final :
      (l : DomainResult Lookup) (s : segments.Store) (b : Body) → Held l s b → final l s ≡ ok b
  unfolding Held read_answer
  Held-final l s b (inl h) = rw h refl
  Held-final l s b (inr (e, stored, found, r, u)) = rw (found, r, read_answer, u) refl

  -- What a lookup finds is still there after an append, whether or not it succeeded.
  pub Held-append :
      (Whole : segments.Store → Type 0)
      → IsAppendOnly segments Whole
      → (r : Record) (l : DomainResult Lookup) (s : segments.Store) (b : Body) → Held l s b
      → Held l (segments.append r s).1 b
  unfolding Held
  Held-append Whole law r l s b (inl h) = inl h
  Held-append Whole law r l s b (inr (e, stored, found, read, u)) =
      inr (e, stored, found, law.kept r s e.addr e.crc stored read, u)
