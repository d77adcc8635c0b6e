-- ===== src/Index.antt =====
-- crates/ozd-engine/src/lib.rs: the rows of the address table, in three versions that their length
-- tells apart.
pub mod Roundtrip
mod Tests
use ozd.Prelude.{
  ℕ, List, [], ◌++◌, ◌&&◌, not, Option, none, some, leb, ◌==◌, if◌then◌else◌, length, take, drop,
  le_bytes, from_le,
}
use ozd.Segment.{RecordAddr}

pub record AddrEntry : Type 0 where
  pub addr : RecordAddr
  pub crc : ℕ
  pub logical_len : ℕ
  pub flags : ℕ
  pub obj_logical : Option ℕ

abbrev obj_bytes : Option ℕ → List ℕ
obj_bytes none = []
obj_bytes (some obj) = le_bytes 8 obj

-- The row of version 1, which had no logical length and no flags.
abbrev addr_bytes : RecordAddr → ℕ → List ℕ
addr_bytes a crc =
    le_bytes 4 a.seg_id
    ++ (le_bytes 8 a.offset
        ++ (le_bytes 4 a.stored_len ++ (le_bytes 2 a.key_len ++ le_bytes 4 crc)))

unfoldable pub encode_addr : AddrEntry → List ℕ
encode_addr e =
    addr_bytes e.addr e.crc
    ++ (le_bytes 4 e.logical_len ++ (le_bytes 2 e.flags ++ obj_bytes e.obj_logical))

unfoldable pub decode_addr : List ℕ → Option AddrEntry
decode_addr v =
    if not (length v == 22) && (not (length v == 28) && not (length v == 36))
    then none
    else let a : RecordAddr = record {
      seg_id = from_le (take 4 v);
      offset = from_le (take 8 (drop 4 v));
      stored_len = from_le (take 4 (drop 12 v));
      key_len = from_le (take 2 (drop 16 v));
    } in
      some (record {
        addr = a;
        crc = from_le (take 4 (drop 18 v));
        logical_len = if leb 28 (length v) then from_le (take 4 (drop 22 v)) else a.stored_len;
        flags = if leb 28 (length v) then from_le (take 2 (drop 26 v)) else 0;
        obj_logical = if length v == 36 then some (from_le (take 8 (drop 28 v))) else none;
      })
