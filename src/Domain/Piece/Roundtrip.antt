-- ===== src/Domain/Piece/Roundtrip.antt =====
-- What the envelope of crates/ozd-domain/src/piece.rs carries from the encoder to the parser.
use ozd.Prelude.{
  ℕ, ◌+◌, ◌^◌, ◌<◌, List, [], ◌∷◌, ◌++◌, ◌≡◌, some, arith, div_ceil, length, drop, All, IsByte,
  from_le-le_bytes, le_bytes-from_le,
}
use ozd.Domain.Piece.{PieceHeader, ec_header_len, encode_piece_header, parse_piece_header}

-- The headers that a stripe of the given length may carry.
pub record IsPieceOf (h : PieceHeader) (stripe : List ℕ) : Type 0 where
  pub has_data : 0 < h.k
  pub has_parity : 0 < h.m
  pub fits_byte : h.k + h.m < 256
  pub in_range : h.piece_idx < h.k + h.m
  pub fits_u64 : h.logical_len < 256 ^ 8
  pub stripe_len : length stripe ≡ div_ceil h.logical_len h.k

-- A piece that the encoder wrote in front of a stripe of the right length is parsed back to its
-- header, if k + m is below 256 and the index below k + m.
pub parse-encode :
    (h : PieceHeader) (stripe : List ℕ)
    → IsPieceOf h stripe
    → parse_piece_header (encode_piece_header h ++ stripe) ≡ some h
unfolding parse_piece_header encode_piece_header
parse-encode h stripe v = ground (arith, from_le-le_bytes 8 h.logical_len)

-- A body that parses is, byte for byte, the encoded header followed by a stripe whose length is
-- the object's length over k rounded up; k and m are positive.
pub parse_sound :
    (body : List ℕ) (h : PieceHeader)
    → All IsByte body
    → parse_piece_header body ≡ some h
    → (body ≡ encode_piece_header h ++ drop ec_header_len body)
      × (length (drop ec_header_len body) ≡ div_ceil h.logical_len h.k)
      × (0 < h.k)
      × (0 < h.m)
unfolding parse_piece_header encode_piece_header
parse_sound
      (b0 ∷ b1 ∷ b2 ∷ b3 ∷ b4 ∷ b5 ∷ b6 ∷ b7 ∷ b8 ∷ b9 ∷ b10 ∷ b11 ∷ b12 ∷ b13 ∷ b14 ∷ b15 ∷ stripe)
      h bytes e =
    ground (arith, le_bytes-from_le (b8 ∷ b9 ∷ b10 ∷ b11 ∷ b12 ∷ b13 ∷ b14 ∷ b15 ∷ []))
parse_sound _ h bytes e = ground arith
