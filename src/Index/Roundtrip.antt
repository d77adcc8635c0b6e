-- ===== src/Index/Roundtrip.antt =====
-- Rows of the address table of crates/ozd-engine/src/lib.rs are read as they were written.
use ozd.Prelude.{ℕ, ◌^◌, ◌<◌, Option, none, some, ◌≡◌, refl, arith, from_le-le_bytes}
use ozd.Segment.{RecordAddr}
use ozd.Index.{AddrEntry, addr_bytes, encode_addr, decode_addr}

abbrev pub FitsObj : Option ℕ → Type 0
FitsObj none = Unit
FitsObj (some obj) = obj < 256 ^ 8

pub record FitsAddr (a : RecordAddr) : Type 0 where
  pub seg_id : a.seg_id < 256 ^ 4
  pub offset : a.offset < 256 ^ 8
  pub stored_len : a.stored_len < 256 ^ 4
  pub key_len : a.key_len < 256 ^ 2

pub record FitsEntry (e : AddrEntry) : Type 0 where
  pub addr : FitsAddr e.addr
  pub crc : e.crc < 256 ^ 4
  pub logical_len : e.logical_len < 256 ^ 4
  pub flags : e.flags < 256 ^ 2
  pub obj : FitsObj e.obj_logical

decode-addr_bytes :
    (a : RecordAddr) (crc : ℕ)
    → FitsAddr a
    → crc < 256 ^ 4
    → decode_addr (addr_bytes a crc)
      ≡ some (record {
        addr = a;
        crc = crc;
        logical_len = a.stored_len;
        flags = 0;
        obj_logical = none;
      })
unfolding decode_addr
decode-addr_bytes a crc v h = ground (
  arith,
  from_le-le_bytes 4 a.seg_id,
  from_le-le_bytes 8 a.offset,
  from_le-le_bytes 4 a.stored_len,
  from_le-le_bytes 2 a.key_len,
  from_le-le_bytes 4 crc,
)

decode-encode_with :
    (e : AddrEntry) (obj : Option ℕ)
    → e.obj_logical ≡ obj
    → FitsObj obj
    → FitsEntry e
    → decode_addr (encode_addr e) ≡ some e
unfolding decode_addr encode_addr
decode-encode_with e none p fits v = ground (
  arith,
  from_le-le_bytes 4 e.addr.seg_id,
  from_le-le_bytes 8 e.addr.offset,
  from_le-le_bytes 4 e.addr.stored_len,
  from_le-le_bytes 2 e.addr.key_len,
  from_le-le_bytes 4 e.crc,
  from_le-le_bytes 4 e.logical_len,
  from_le-le_bytes 2 e.flags,
)
decode-encode_with e (some obj) p fits v = ground (
  arith,
  from_le-le_bytes 4 e.addr.seg_id,
  from_le-le_bytes 8 e.addr.offset,
  from_le-le_bytes 4 e.addr.stored_len,
  from_le-le_bytes 2 e.addr.key_len,
  from_le-le_bytes 4 e.crc,
  from_le-le_bytes 4 e.logical_len,
  from_le-le_bytes 2 e.flags,
  from_le-le_bytes 8 obj,
)

-- A row whose fields fit their widths decodes to the entry that was encoded, with and without the
-- object's length.
pub decode-encode : (e : AddrEntry) → FitsEntry e → decode_addr (encode_addr e) ≡ some e
decode-encode e v = decode-encode_with e e.obj_logical refl v.obj v
