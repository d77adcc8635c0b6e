-- ===== src/Erasure/Slots.antt =====
-- The slots that crates/ozd-app/src/erasure.rs decodes: the pieces of one body, some of them lost.
use ozd.Prelude.{
  ℕ, zero, suc, ◌+◌, ◌%◌, ◌^◌, ◌≤◌, ◌<◌, List, [], ◌∷◌, ◌++◌, map, Bool, true, false, Option, none,
  some, ◌≡◌, ◌∙◌, refl, ap, arith, if◌then◌else◌, length, take, drop, All, div_ceil, ==_refl,
}
use ozd.Domain.{Body, ok}
use ozd.Domain.Piece.{PieceHeader, ec_header_len, encode_piece_header, parse_piece_header}
use ozd.Domain.Piece.Roundtrip.{parse-encode}
use ozd.Erasure.{ReedSolomon, pieces_from, read_slots, present, all_present}

-- The bodies of a list that are still there.
abbrev pub keep : List Bool → List Body → List (Option Body)
keep [] ps = []
keep (b ∷ bs) [] = []
keep (b ∷ bs) (p ∷ ps) = (if b then some p else none) ∷ keep bs ps

abbrev pub count : List Bool → ℕ
count [] = 0
count (b ∷ bs) = if b then suc (count bs) else count bs

-- The logical length that a reader knows after the slots.
abbrev pub found_length : List Bool → ℕ → Option ℕ → Option ℕ
found_length [] len known = known
found_length (b ∷ bs) len known = found_length bs len (if b then some len else known)

found_length-known : (mask : List Bool) (len : ℕ) → found_length mask len (some len) ≡ some len
found_length-known [] len = refl
found_length-known (true ∷ bs) len = found_length-known bs len
found_length-known (false ∷ bs) len = found_length-known bs len

pub found_length_lem :
    (mask : List Bool) (len : ℕ) (known : Option ℕ)
    → 0 < count mask
    → found_length mask len known ≡ some len
found_length_lem [] len known h = absurd (omega arith)
found_length_lem (true ∷ bs) len known h = found_length-known bs len
found_length_lem (false ∷ bs) len known h = found_length_lem bs len known h

pub length-keep :
    (mask : List Bool) (ps : List Body)
    → length mask ≡ length ps
    → length (keep mask ps) ≡ length ps
length-keep [] [] h = refl
length-keep [] (p ∷ ps) h = absurd (omega arith)
length-keep (b ∷ bs) [] h = absurd (omega arith)
length-keep (b ∷ bs) (p ∷ ps) h = ap suc (length-keep bs ps (omega arith))

pub length-pieces_from :
    (k m len i : ℕ) (ss : List Body) → length (pieces_from k m len i ss) ≡ length ss
unfolding pieces_from
length-pieces_from k m len i [] = refl
length-pieces_from k m len i (s ∷ ss) = ap suc (length-pieces_from k m len (i + 1) ss)

module _ (rs : ReedSolomon) where
  pub length-present :
      (mask : List Bool) (ps : List Body)
      → length mask ≡ length ps
      → length (present rs (keep mask ps)) ≡ count mask
  length-present [] [] h = refl
  length-present [] (p ∷ ps) h = absurd (omega arith)
  length-present (b ∷ bs) [] h = absurd (omega arith)
  length-present (true ∷ bs) (p ∷ ps) h = ap suc (length-present bs ps (omega arith))
  length-present (false ∷ bs) (p ∷ ps) h = length-present bs ps (omega arith)

  pub present-all :
      (k : ℕ) (mask : List Bool) (ps : List Body)
      → length mask ≡ length ps
      → all_present rs (take k (keep mask ps)) ≡ true
      → present rs (take k (keep mask ps)) ≡ take k ps
  present-all zero mask ps h e = refl
  present-all (suc k) [] [] h e = refl
  present-all (suc k) [] (p ∷ ps) h e = absurd (omega arith)
  present-all (suc k) (b ∷ bs) [] h e = absurd (omega arith)
  present-all (suc k) (true ∷ bs) (p ∷ ps) h e = ap (◌∷◌ p) (present-all k bs ps (omega arith) e)
  present-all (suc k) (false ∷ bs) (p ∷ ps) h e = cc

  pub present-map : (k : ℕ) (ps : List Body) → present rs (take k (map some ps)) ≡ take k ps
  present-map zero ps = refl
  present-map (suc k) [] = refl
  present-map (suc k) (p ∷ ps) = ap (◌∷◌ p) (present-map k ps)

  module _ (k m len stripe : ℕ) (has_data : 0 < k) (has_parity : 0 < m) (fits_byte : k + m < 256)
      (fits_u64 : len < 2 ^ 64) (stripe_fits : stripe ≡ div_ceil len k) where
    header_at : ℕ → PieceHeader
    header_at i = record {
      k = k % 256;
      m = m % 256;
      piece_idx = i % 256;
      logical_len = len % 2 ^ 64;
    }

    parse_piece :
        (i : ℕ) (s : Body)
        → i < k + m
        → length s ≡ stripe
        → parse_piece_header (encode_piece_header (header_at i) ++ s)
          ≡ some (record { k = k; m = m; piece_idx = i; logical_len = len })
    unfolding header_at
    parse_piece i s h e =
        let ek : k % 256 ≡ k = omega arith in
        let em : m % 256 ≡ m = omega arith in
        let ei : i % 256 ≡ i = omega arith in
        let el : len % 2 ^ 64 ≡ len = omega arith in
        rw (ek, em, ei, el)
          (parse-encode (record { k = k; m = m; piece_idx = i; logical_len = len }) s
            (record {
              has_data = has_data;
              has_parity = has_parity;
              fits_byte = fits_byte;
              in_range = h;
              fits_u64 = fits_u64;
              stripe_len = e ∙ stripe_fits;
            }))

    strip : (h : PieceHeader) (s : Body) → drop ec_header_len (encode_piece_header h ++ s) ≡ s
    unfolding encode_piece_header
    strip h s = refl

    -- Reading the slots gives back the shards that are still there.
    pub read-keep :
        (mask : List Bool) (i : ℕ) (ss : List Body) (known : Option ℕ)
        → length mask ≡ length ss
        → i + length ss ≤ k + m
        → All (λ s. length s ≡ stripe) ss
        → read_slots rs i (keep mask (pieces_from k m len i ss)) known
          ≡ ok (found_length mask len known, keep mask ss)
    unfolding read_slots pieces_from header_at
    read-keep [] i [] known h fits lens = refl
    read-keep [] i (s ∷ ss) known h fits lens = absurd (omega arith)
    read-keep (b ∷ bs) i [] known h fits lens = absurd (omega arith)
    read-keep (false ∷ bs) i (s ∷ ss) known h fits lens =
        rw (read-keep bs (i + 1) ss known (omega arith) (omega arith) lens.1) refl
    read-keep (true ∷ bs) i (s ∷ ss) known h fits lens =
        let parsed = parse_piece i s (omega arith) lens.0 in
        rw
          (
            read_slots,
            parsed,
            ==_refl,
            strip (header_at i) s,
            read-keep bs (i + 1) ss (some len) (omega arith) (omega arith) lens.1,
          )
          refl
