-- ===== src/Domain/Piece/Tests.antt =====
-- Tests of the piece envelope of crates/ozd-domain/src/piece.rs.
use ozd.Prelude.{
  ℕ, List, [], ◌∷◌, ◌++◌, ◌≡◌, refl, some, none, arith, replicate, from_le, div_ceil, All, IsByte,
}
use ozd.Domain.Piece.{PieceHeader, encode_piece_header, parse_piece_header}
use ozd.Domain.Piece.Roundtrip.{IsPieceOf, parse-encode}

program : Unit {0}
unfolding encode_piece_header parse_piece_header from_le div_ceil
program = tt

abbrev third : PieceHeader
third = record { k = 4; m = 2; piece_idx = 3; logical_len = 10 }

abbrev stripe : List ℕ
stripe = replicate 3 7

-- a header whose k + m is 256 is refused by its own parser
wide_refused :
    parse_piece_header
      (encode_piece_header (record { k = 128; m = 128; piece_idx = 0; logical_len = 1 }) ++ 9 ∷ [])
    ≡ none
unfolding program
wide_refused = refl

raw_refused : parse_piece_header (replicate 20 1) ≡ none
unfolding program
raw_refused = refl

size_mismatch_refused : parse_piece_header (encode_piece_header third ++ replicate 4 7) ≡ none
unfolding program
size_mismatch_refused = refl

third-IsPieceOf : IsPieceOf third stripe
unfolding program
third-IsPieceOf = record {
  has_data = omega arith;
  has_parity = omega arith;
  fits_byte = omega arith;
  in_range = omega arith;
  fits_u64 = omega arith;
  stripe_len = refl;
}

third_bytes : All IsByte (encode_piece_header third ++ stripe)
unfolding program
third_bytes = omega arith

parse-encode_example : parse_piece_header (encode_piece_header third ++ stripe) ≡ some third
parse-encode_example = parse-encode third stripe third-IsPieceOf
