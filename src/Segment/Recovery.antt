-- ===== src/Segment/Recovery.antt =====
-- What the tail scan of crates/ozd-engine/src/segment.rs recovers from a crashed segment.
use ozd.Prelude.{
  ℕ, zero, suc, ◌+◌, ◌%◌, ◌^◌, ◌<◌, ◌≤◌, List, [], ◌∷◌, ◌++◌, ◌≡◌, refl, sym, ap, ◌∙◌, some, arith,
  length, take, drop, All, append_assoc, length-append, take-length-append, drop-length-append,
  drop-add, take-take, length-take, from_le-le_bytes, min,
}
use mathlib.Core.List.{append-nil}
use native.Mathlib.Decide.{dec_lt}
use native.Mathlib.Nat.{add-zero}
use ozd.Segment.{ParsedHeader, Record, header_len, encode_header, parse_header, encode_record}
use ozd.Segment.Scan.{RecoveredRecord, recovered, recover_loop, recover_tail}

-- A record whose lengths and fields fit their casts.
pub record FitsRecord (r : Record) : Type 0 where
  pub key : length r.key < 2 ^ 16
  pub stored : length r.stored < 2 ^ 32
  pub logical_len : r.logical_len < 2 ^ 32
  pub flags : r.flags < 2 ^ 16

abbrev pub record_len : Record → ℕ
record_len r = header_len + length r.key + length r.stored

module _ (crc32 : List ℕ → ℕ) (crc_fits : (bs : List ℕ) → crc32 bs < 2 ^ 32) where
  abbrev pub header_of : Record → ParsedHeader
  header_of r = record {
    key_len = length r.key;
    flags = r.flags;
    stored_len = length r.stored;
    logical_len = r.logical_len;
    crc = crc32 (r.key ++ r.stored);
  }

  parse_record :
      (r : Record) (rest : List ℕ)
      → FitsRecord r
      → parse_header (take header_len (encode_record crc32 r ++ rest)) ≡ some (header_of r)
  unfolding parse_header encode_header encode_record
  parse_record r rest v = ground (
    arith,
    from_le-le_bytes 2 (length r.key % 2 ^ 16),
    from_le-le_bytes 2 r.flags,
    from_le-le_bytes 4 (length r.stored % 2 ^ 32),
    from_le-le_bytes 4 r.logical_len,
    from_le-le_bytes 4 (crc32 (r.key ++ r.stored)),
    crc_fits (r.key ++ r.stored),
  )

  drop_header :
      (r : Record) (rest : List ℕ)
      → drop header_len (encode_record crc32 r ++ rest) ≡ r.key ++ (r.stored ++ rest)
  unfolding encode_header encode_record
  drop_header r rest = append_assoc r.key r.stored rest

  pub drop_header_self : (r : Record) → drop header_len (encode_record crc32 r) ≡ r.key ++ r.stored
  unfolding encode_header encode_record
  drop_header_self r = refl

  drop_record :
      (r : Record) (rest : List ℕ) → drop (record_len r) (encode_record crc32 r ++ rest) ≡ rest
  drop_record r rest =
      rw (drop-add, drop-add, drop_header, drop-length-append, drop-length-append) refl

  pub length-record : (r : Record) → length (encode_record crc32 r) ≡ record_len r
  unfolding encode_header encode_record
  length-record r = omega (arith, length-append r.key r.stored)

  recover_step :
      (fuel seg_id pos : ℕ) (r : Record) (rest : List ℕ)
      → FitsRecord r
      → recover_loop crc32 (suc fuel) seg_id pos (encode_record crc32 r ++ rest) ≡ (
        recovered seg_id pos (header_of r) r.key r.stored
            ∷ (recover_loop crc32 fuel seg_id (pos + record_len r) rest).0,
        (recover_loop crc32 fuel seg_id (pos + record_len r) rest).1,
      )
  unfolding recover_loop
  recover_step fuel seg_id pos r rest v =
      rw
        (
          parse_record r rest v,
          drop_header,
          take-length-append,
          drop-length-append,
          take-length-append,
          drop_record,
        )
        (ground (arith, length-append (encode_record crc32 r) rest, length-record r))

  -- The records, one after another.
  abbrev pub segment_of : List Record → List ℕ
  segment_of [] = []
  segment_of (r ∷ rs) = encode_record crc32 r ++ segment_of rs

  length-le-segment : (rs : List Record) → length rs ≤ length (segment_of rs)
  length-le-segment [] = omega arith
  length-le-segment (r ∷ rs) = omega (
    arith,
    length-append (encode_record crc32 r) (segment_of rs),
    length-record r,
    length-le-segment rs,
  )

  -- What should be recovered of them, from a given offset on.
  abbrev pub recovered_all : ℕ → ℕ → List Record → List RecoveredRecord
  recovered_all seg_id pos [] = []
  recovered_all seg_id pos (r ∷ rs) =
      recovered seg_id pos (header_of r) r.key r.stored
      ∷ recovered_all seg_id (pos + record_len r) rs

  recover_torn :
      (fuel seg_id pos n : ℕ) (r : Record)
      → FitsRecord r
      → n < record_len r
      → recover_loop crc32 fuel seg_id pos (take n (encode_record crc32 r)) ≡ ([], pos)
  unfolding recover_loop
  recover_torn zero seg_id pos n r v h = refl
  recover_torn (suc fuel) seg_id pos n r v h =
      let len : length (take n (encode_record crc32 r)) ≡ n =
        omega (arith, length-take n (encode_record crc32 r), length-record r) in
      elim (dec_lt n header_len) [
        | yes short ↦ ground (arith, len)
        | no long ↦
            let parsed : parse_header (take header_len (encode_record crc32 r))
                ≡ some (header_of r) =
              ap (λ b. parse_header (take header_len b)) (sym (append-nil (encode_record crc32 r)))
              ∙ parse_record r [] v in
            rw (take-take header_len n (encode_record crc32 r) (omega arith), parsed, len)
              (ground arith)
      ]

  recover-All :
      (rs : List Record) (fuel seg_id pos n : ℕ) (r : Record)
      → All FitsRecord rs
      → FitsRecord r
      → n < record_len r
      → length rs ≤ fuel
      → recover_loop crc32 fuel seg_id pos (segment_of rs ++ take n (encode_record crc32 r))
        ≡ (recovered_all seg_id pos rs, pos + length (segment_of rs))
  recover-All [] fuel seg_id pos n r vs v h enough =
      rw add-zero (recover_torn fuel seg_id pos n r v h)
  recover-All (x ∷ rs) zero seg_id pos n r vs v h enough = absurd (omega arith)
  recover-All (x ∷ rs) (suc fuel) seg_id pos n r vs v h enough =
      rw
        (
          append_assoc,
          recover_step fuel seg_id pos x _ vs.0,
          recover-All rs fuel seg_id (pos + record_len x) n r vs.1 v h (omega arith),
          length-append,
          length-record,
        )
        (ap (λ p. (recovered_all seg_id pos (x ∷ rs), p)) (omega arith))

  -- A crash leaves, after the flushed bytes, whole records and the first n bytes of one more, n
  -- below its length. Reopening recovers exactly the whole records, in order, each with its key,
  -- body and offset, and cuts the file back to just after the last of them.
  pub recover-crash :
      (seg_id n : ℕ) (flushed : List ℕ) (rs : List Record) (torn : Record)
      → All FitsRecord rs
      → FitsRecord torn
      → n < record_len torn
      → recover_tail crc32 seg_id
          (length flushed)
          (flushed ++ (segment_of rs ++ take n (encode_record crc32 torn)))
        ≡ (recovered_all seg_id (length flushed) rs, length (flushed ++ segment_of rs))
  unfolding recover_tail
  recover-crash seg_id n flushed rs torn vs v h =
      let tail = segment_of rs ++ take n (encode_record crc32 torn) in
      let start : min (length flushed) (length (flushed ++ tail)) ≡ length flushed =
        omega (arith, length-append flushed tail) in
      let enough : length rs ≤ length (flushed ++ tail) = omega (
        arith,
        length-append flushed tail,
        length-append (segment_of rs) (take n (encode_record crc32 torn)),
        length-le-segment rs,
      ) in
      rw
        (
          start,
          drop-length-append,
          recover-All rs _ seg_id (length flushed) n torn vs v h enough,
          length-append,
        )
        refl
