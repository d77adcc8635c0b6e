-- ===== src/Domain/Piece.antt =====
-- crates/ozd-domain/src/piece.rs: the self-describing envelope of an erasure-coded piece.
pub mod Roundtrip
mod Tests
use ozd.Prelude.{
  ℕ, ◌+◌, ◌-◌, ◌%◌, List, [], ◌∷◌, ◌++◌, Bool, not, ◌||◌, Option, none, some, ltb, leb, ◌==◌,
  if◌then◌else◌, bytes_eq, div_ceil, length, take, drop, get_or, le_bytes, from_le,
}

abbrev pub ec_magic : List ℕ
ec_magic = b'O' ∷ b'Z' ∷ b'E' ∷ b'C' ∷ []

abbrev pub ec_ver : ℕ
ec_ver = 1

abbrev pub ec_header_len : ℕ
ec_header_len = 16

pub record PieceHeader : Type 0 where
  pub k : ℕ
  pub m : ℕ
  pub piece_idx : ℕ
  pub logical_len : ℕ

unfoldable pub encode_piece_header : PieceHeader → List ℕ
encode_piece_header h = ec_magic ++ (ec_ver ∷ h.k ∷ h.m ∷ h.piece_idx ∷ le_bytes 8 h.logical_len)

-- The fields at their offsets.
abbrev pub read_fields : List ℕ → PieceHeader
read_fields body = record {
  k = get_or body 5 0;
  m = get_or body 6 0;
  piece_idx = get_or body 7 0;
  logical_len = from_le (take 8 (drop 8 body));
}

-- `h.k + h.m` is a sum of two `u8`: it wraps at 256.
abbrev pub bad_shape : PieceHeader → Bool
bad_shape h = h.k == 0 || h.m == 0 || leb ((h.k + h.m) % 256) h.piece_idx

unfoldable pub parse_piece_header : List ℕ → Option PieceHeader
unfolding bytes_eq
parse_piece_header body =
    if ltb (length body) ec_header_len
      || not (bytes_eq (take 4 body) ec_magic)
      || not (get_or body 4 0 == ec_ver)
    then none
    else let h = read_fields body in
      if bad_shape h
      then none
      else if length body - ec_header_len == div_ceil h.logical_len h.k
      then some h
      else none
