-- ===== src/Index/Tests.antt =====
-- Tests of the rows of the address table of crates/ozd-engine/src/lib.rs.
use ozd.Prelude.{◌≡◌, refl, none, some, arith, take, from_le}
use ozd.Index.{AddrEntry, encode_addr, decode_addr}
use ozd.Index.Roundtrip.{FitsEntry}

abbrev entry : AddrEntry
entry = record {
  addr = record { seg_id = 7; offset = 123456789; stored_len = 4242; key_len = 33 };
  crc = 3735928559;
  logical_len = 9000;
  flags = 1;
  obj_logical = some 1000000;
}

entry_fits : FitsEntry entry
entry_fits = record {
  addr = record {
    seg_id = omega arith;
    offset = omega arith;
    stored_len = omega arith;
    key_len = omega arith;
  };
  crc = omega arith;
  logical_len = omega arith;
  flags = omega arith;
  obj = omega arith;
}

-- a row cut to 30 bytes is of no version
odd_length : decode_addr (take 30 (encode_addr entry)) ≡ none
unfolding encode_addr decode_addr from_le
odd_length = refl
