-- ===== src/Erasure.antt =====
-- crates/ozd-app/src/erasure.rs: bodies cut into k data pieces and m parity pieces. The
-- Reed-Solomon code is a parameter.
pub mod Stripes
pub mod Slots
pub mod Decode
mod Tests
use ozd.Prelude.{
  ℕ, zero, suc, ◌+◌, ◌-◌, ◌*◌, ◌%◌, ◌^◌, min, max, List, [], ◌∷◌, ◌++◌, Bool, true, false, not,
  ◌&&◌, Option, none, some, ltb, ◌==◌, if◌then◌else◌, length, take, drop, replicate, div_ceil,
}
use ozd.Domain.{Body, DomainResult, ok, err, io, not_found, integrity_violation, ok_or, ◌>>=◌}
use ozd.Domain.Piece.{PieceHeader, ec_header_len, encode_piece_header, parse_piece_header}

-- `reed_solomon_erasure::galois_8::ReedSolomon`: whether a code of this shape exists, the shards
-- with the parity filled in, and the shards with the missing ones filled in.
pub record ReedSolomon : Type 0 where
  pub exists : ℕ → ℕ → Bool
  pub encode : ℕ → ℕ → List Body → Option (List Body)
  pub reconstruct : ℕ → ℕ → List (Option Body) → Option (List (Option Body))

pub record EcConfig : Type 0 where
  pub data_pieces : ℕ
  pub parity : ℕ
  pub min_size : ℕ
  pub write_quorum : ℕ

unfoldable pub total : EcConfig → ℕ
total cfg = cfg.data_pieces + cfg.parity

-- `s.resize(stripe, 0)` of a vector that is not longer
abbrev pub resize : ℕ → Body → Body
resize n s = s ++ replicate (n - length s) 0

-- The i-th stripe: `data[start..end]`, filled up with zeros.
unfoldable pub stripe_at : Body → ℕ → ℕ → Body
stripe_at body stripe i =
    let start = min (i * stripe) (length body) in
    let end = min ((i + 1) * stripe) (length body) in
    resize stripe (take (end - start) (drop start body))

-- The stripes from the i-th on.
unfoldable pub stripes_from : Body → ℕ → ℕ → ℕ → List Body
stripes_from body stripe i zero = []
stripes_from body stripe i (suc n) = stripe_at body stripe i ∷ stripes_from body stripe (i + 1) n

abbrev pub concat : List Body → Body
concat [] = []
concat (s ∷ ss) = s ++ concat ss

-- The header and the shard, for each from the i-th on; k, m, and i are cast to `u8`.
unfoldable pub pieces_from : ℕ → ℕ → ℕ → ℕ → List Body → List Body
pieces_from k m logical_len i [] = []
pieces_from k m logical_len i (s ∷ ss) =
    (encode_piece_header (record {
      k = k % 256;
      m = m % 256;
      piece_idx = i % 256;
      logical_len = logical_len % 2 ^ 64;
    })
      ++ s)
    ∷ pieces_from k m logical_len (i + 1) ss

abbrev pub stripe_len : Body → ℕ → ℕ
stripe_len body k = max (div_ceil (length body) k) 1

module _ (rs : ReedSolomon) where
  unfoldable pub ec_encode : Body → EcConfig → DomainResult (List Body)
  ec_encode body cfg =
      let k = cfg.data_pieces in
      let m = cfg.parity in
      let stripe = stripe_len body k in
      let shards = stripes_from body stripe 0 k ++ replicate m (replicate stripe 0) in
      if not (rs.exists k m) then err io else (do
        encoded ← ok_or (rs.encode k m shards) io
        ok (pieces_from k m (length body) 0 encoded))

  -- The loop over the slots: the logical length of the last piece, and the stripes.
  unfoldable pub read_slots :
      ℕ → List (Option Body) → Option ℕ → DomainResult (Option ℕ × List (Option Body))
  read_slots i [] logical = ok (logical, [])
  read_slots i (none ∷ slots) logical = do
    (logical', stripes) ← read_slots (i + 1) slots logical
    ok (logical', none ∷ stripes)
  read_slots i (some p ∷ slots) logical = elim (parse_piece_header p) [
    | none ↦ err integrity_violation
    | some h ↦
        let rest = read_slots (i + 1) slots (some h.logical_len) in
        if not (h.piece_idx == i)
        then err integrity_violation
        else (do (logical', stripes) ← rest; ok (logical', some (drop ec_header_len p) ∷ stripes))
  ]

  abbrev pub present : List (Option Body) → List Body
  present [] = []
  present (none ∷ ss) = present ss
  present (some s ∷ ss) = s ∷ present ss

  abbrev pub all_present : List (Option Body) → Bool
  all_present [] = true
  all_present (none ∷ ss) = false
  all_present (some s ∷ ss) = all_present ss

  unfoldable pub ec_decode : List (Option Body) → ℕ → ℕ → DomainResult Body
  ec_decode slots k m = if not (length slots == k + m) then err io else (do
    (found, stripes) ← read_slots 0 slots none
    logical ← ok_or found not_found
    if ltb (length (present stripes)) k
        then err io
        else if all_present (take k stripes)
        then ok (take logical (concat (present (take k stripes))))
        else if not (rs.exists k m)
        then err io
        else (do
          full ← ok_or (rs.reconstruct k m stripes) io
          ok (take logical (concat (present (take k full))))))

  unfoldable pub ec_repair_pieces : List (Option Body) → ℕ → ℕ → DomainResult (List Body)
  ec_repair_pieces slots k m = do
    body ← ec_decode slots k m
    ec_encode body (record { data_pieces = k; parity = m; min_size = 65536; write_quorum = 5 })
