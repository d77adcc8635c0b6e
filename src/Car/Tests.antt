-- ===== src/Car/Tests.antt =====
-- Tests of the varints and identifiers of crates/ozd-app/src/car.rs.
use ozd.Prelude.{
  Option, true, bytes_eq, ℕ, ◌+◌, ◌^◌, ◌<◌, List, [], ◌∷◌, ◌++◌, some, none, ◌≡◌, refl, arith,
  length,
}
use ozd.Domain.{DomainResult, ok, err, io}
use ozd.Segment.Scan.{read_exact}
use ozd.Cache.{BlockStore}
use ozd.Car.Export
use ozd.Car.Export.{
  b32_value, decode_loop, base32_decode, export_header, export_keys, export_pages, car_export,
  Exporting,
}
use ozd.Car.Import.{
  base32_nopad, key_for_multihash, car_import, take_frame, read_frames, put_blocks, emit,
  base32_loop,
}
use ozd.Car.{read_loop, read_varint, write_loop, write_varint, slice_loop, parse_cid}
use ozd.Car.Cid.{multihash, exported_cid, parse_cid-exported}

program : Unit {0}
unfolding read_loop write_loop slice_loop parse_cid
program = tt

bytes_of_300 : write_varint 300 ≡ 172 ∷ 2 ∷ []
unfolding program
bytes_of_300 = refl

end_of_stream : read_varint [] ≡ ok none
unfolding program
end_of_stream = refl

cut_short : read_varint (172 ∷ []) ≡ err io
unfolding program
cut_short = refl

-- a tenth group is written for 2 ^ 63, and refused by the reader
wide_refused : read_varint (write_varint (2 ^ 63)) ≡ err io
unfolding program
wide_refused = refl

unknown_version : parse_cid (2 ∷ 85 ∷ 18 ∷ 1 ∷ 7 ∷ []) ≡ none
unfolding program
unknown_version = refl

digest_cut : parse_cid (1 ∷ 85 ∷ 18 ∷ 3 ∷ 7 ∷ []) ≡ none
unfolding program
digest_cut = refl

abbrev digest : List ℕ
digest = 7 ∷ 8 ∷ 9 ∷ []

short_frame : length (exported_cid (multihash 18 digest) ++ 5 ∷ 6 ∷ []) < 2 ^ 64
unfolding program
short_frame = omega arith

parse_cid-exported_example :
    parse_cid (exported_cid (multihash 18 digest) ++ 5 ∷ 6 ∷ [])
    ≡ some (2 + length (multihash 18 digest), multihash 18 digest)
parse_cid-exported_example =
    parse_cid-exported 18 digest (5 ∷ 6 ∷ []) (omega arith) (omega arith) short_frame

imports : Unit {0}
unfolding base32_nopad key_for_multihash car_import take_frame read_frames read_exact read_loop
    slice_loop parse_cid bytes_eq put_blocks emit base32_loop
imports = tt

-- "foobar" is "MZXW6YTBOI" (RFC 4648).
foobar :
    base32_nopad (102 ∷ 111 ∷ 111 ∷ 98 ∷ 97 ∷ 114 ∷ [])
    ≡ 77 ∷ 90 ∷ 88 ∷ 87 ∷ 54 ∷ 89 ∷ 84 ∷ 66 ∷ 79 ∷ 73 ∷ []
unfolding imports
foobar = refl

-- A frame of an identifier with a multihash that is not a sha2-256, and a body of one byte.
abbrev frame_stream : List ℕ
frame_stream = 7 ∷ 1 ∷ 85 ∷ 0 ∷ 2 ∷ 7 ∷ 8 ∷ 9 ∷ []

abbrev no_hash : List ℕ → List ℕ
no_hash body = []

frame_read :
    (read_frames no_hash (47 ∷ []) true 9 frame_stream (record { sent = []; corrupt = 0 })).1.sent
    ≡ (key_for_multihash (47 ∷ []) (0 ∷ 2 ∷ 7 ∷ 8 ∷ []), 9 ∷ []) ∷ []
unfolding imports
frame_read = refl

exports : Unit {0}
unfolding imports base32_decode decode_loop b32_value car_export export_pages export_keys
    Export.frame_of write_loop
exports = tt

foobar_decoded :
    base32_decode (base32_nopad (102 ∷ 111 ∷ 111 ∷ 98 ∷ 97 ∷ 114 ∷ []))
    ≡ some (102 ∷ 111 ∷ 111 ∷ 98 ∷ 97 ∷ 114 ∷ [])
unfolding exports
foobar_decoded = refl

-- A store of one block under the key of the multihash 0, 1, 7.
abbrev one_block : BlockStore
one_block = record {
  Store = Unit {0};
  put = λ key body s. (ok tt, s);
  get = λ key s. (ok (9 ∷ []), s);
  stat = λ key s. ok 1;
  has = λ key s. ok true;
  delete = λ key s. (ok tt, s);
  list = λ prefix after limit s. ok ((47 ∷ base32_nopad (0 ∷ 1 ∷ 7 ∷ []), 1) ∷ []);
}

abbrev written : Option (DomainResult (Exporting one_block (47 ∷ []))) → List ℕ
written none = []
written (some (err e)) = []
written (some (ok x)) = x.out

-- The header, and one frame of the identifier and the body.
one_exported :
    written (car_export one_block (47 ∷ []) 1 tt)
    ≡ (17 ∷ export_header) ++ (6 ∷ 1 ∷ 85 ∷ 0 ∷ 1 ∷ 7 ∷ 9 ∷ [])
unfolding exports
one_exported = refl
