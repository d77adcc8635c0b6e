-- ===== src/Erasure/Tests.antt =====
-- Tests of the erasure sets of crates/ozd-app/src/erasure.rs with a code that repeats the one data
-- shard.
use ozd.Prelude.{
  ℕ, zero, suc, ◌+◌, ◌≤◌, ◌≡◌, refl, ap, arith, Bool, true, false, List, [], ◌∷◌, map, Option, some,
  none, length, take, replicate, ◌++◌, All, length-replicate, from_le, div_ceil,
}
use ozd.Domain.{Body, ok, err, integrity_violation, not_found}
use ozd.Domain.Piece.{encode_piece_header, parse_piece_header}
use ozd.Erasure.{
  ReedSolomon, EcConfig, ec_encode, ec_decode, ec_repair_pieces, read_slots, stripes_from,
  stripe_at, pieces_from,
}
use ozd.Erasure.Slots.{keep, count}
use ozd.Erasure.Decode.{IsCode, Encodable, pieces, ec_decode-ec_encode}

program : Unit {0}
unfolding ec_encode ec_decode ec_repair_pieces read_slots stripes_from stripe_at pieces_from
    encode_piece_header parse_piece_header from_le div_ceil
program = tt

abbrev first : List (Option Body) → Option Body
first [] = none
first (none ∷ ss) = first ss
first (some s ∷ ss) = some s

abbrev repeat_first : ℕ → Option Body → Option (List (Option Body))
repeat_first n none = none
repeat_first n (some s) = some (replicate n (some s))

abbrev is_one : ℕ → Bool
is_one zero = false
is_one (suc zero) = true
is_one (suc (suc k)) = false

abbrev repeat_encode : ℕ → ℕ → List Body → Option (List Body)
repeat_encode zero m ss = none
repeat_encode (suc zero) m [] = none
repeat_encode (suc zero) m (s ∷ ss) = some (replicate (suc m) s)
repeat_encode (suc (suc k)) m ss = none

abbrev repeated : ReedSolomon
repeated = record {
  exists = λ k m. is_one k;
  encode = repeat_encode;
  reconstruct = λ k m slots. repeat_first (k + m) (first slots);
}

map-replicate : (n : ℕ) (s : Body) → replicate n (some s) ≡ map some (replicate n s)
map-replicate zero s = refl
map-replicate (suc n) s = ap (◌∷◌ (some s)) (map-replicate n s)

first-keep :
    (mask : List Bool) (n : ℕ) (s : Body)
    → length mask ≡ n
    → 1 ≤ count mask
    → first (keep mask (replicate n s)) ≡ some s
first-keep [] n s h e = absurd (omega arith)
first-keep (b ∷ bs) zero s h e = absurd (omega arith)
first-keep (true ∷ bs) (suc n) s h e = refl
first-keep (false ∷ bs) (suc n) s h e = first-keep bs n s (omega arith) e

All-repeat :
    (n stripe : ℕ) (s : Body) → length s ≡ stripe → All (λ x. length x ≡ stripe) (replicate n s)
All-repeat zero stripe s h = tt
All-repeat (suc n) stripe s h = (h, All-repeat n stripe s h)

repeat-encodes :
    (k m stripe : ℕ) (shards : List Body)
    → is_one k ≡ true
    → length shards ≡ k + m
    → All (λ s. length s ≡ stripe) shards
    → (enc : List Body) × (repeat_encode k m shards ≡ some enc)
      × (take k enc ≡ take k shards)
      × (length enc ≡ k + m)
      × All (λ s. length s ≡ stripe) enc
repeat-encodes zero m stripe shards x len lens = absurd cc
repeat-encodes (suc zero) m stripe [] x len lens = absurd (omega arith)
repeat-encodes (suc zero) m stripe (s ∷ ss) x len lens = (
  replicate (suc m) s,
  refl,
  refl,
  omega (arith, length-replicate (suc m) s),
  All-repeat (suc m) stripe s lens.0,
)
repeat-encodes (suc (suc k)) m stripe shards x len lens = absurd cc

repeat-reconstructs :
    (k m : ℕ) (shards enc : List Body) (mask : List Bool)
    → repeat_encode k m shards ≡ some enc
    → length mask ≡ k + m
    → k ≤ count mask
    → repeat_first (k + m) (first (keep mask enc)) ≡ some (map some enc)
repeat-reconstructs zero m shards enc mask e len enough = absurd cc
repeat-reconstructs (suc zero) m [] enc mask e len enough = absurd cc
repeat-reconstructs (suc zero) m (s ∷ ss) enc mask e len enough =
    let one_shard : replicate (suc m) s ≡ enc = cc in
    let size : 1 + m ≡ suc m = omega arith in
    rw
      (
        size,
        ← one_shard,
        first-keep mask (suc m) s (omega (arith, len)) enough,
        map-replicate (suc m) s,
      )
      refl
repeat-reconstructs (suc (suc k)) m shards enc mask e len enough = absurd cc

repeated-IsCode : IsCode repeated
repeated-IsCode = record { encodes = repeat-encodes; reconstructs = repeat-reconstructs }

abbrev config : EcConfig
config = record { data_pieces = 1; parity = 1; min_size = 65536; write_quorum = 2 }

abbrev body : Body
body = 7 ∷ 8 ∷ 9 ∷ []

body-Encodable : Encodable repeated config body
body-Encodable = record {
  code = refl;
  has_data = omega arith;
  has_parity = omega arith;
  fits_byte = omega arith;
  not_empty = omega arith;
  fits_u64 = omega arith;
}

abbrev first_lost : List Bool
first_lost = false ∷ true ∷ []

ec_decode-ec_encode_example :
    (ec_encode repeated body config
      ≡ ok (pieces repeated repeated-IsCode config body body-Encodable))
    × (ec_decode repeated
          (keep first_lost (pieces repeated repeated-IsCode config body body-Encodable))
          1
          1
        ≡ ok body)
ec_decode-ec_encode_example =
    ec_decode-ec_encode repeated repeated-IsCode config body body-Encodable first_lost refl
      (omega arith)

abbrev wide : ReedSolomon
wide = record {
  exists = λ k m. true;
  encode = λ k m ss. some ss;
  reconstruct = λ k m slots. some slots;
}

abbrev three : List Body
three =
    (79 ∷ 90 ∷ 69 ∷ 67 ∷ 1 ∷ 2 ∷ 1 ∷ 0 ∷ 3 ∷ 0 ∷ 0 ∷ 0 ∷ 0 ∷ 0 ∷ 0 ∷ 0 ∷ 7 ∷ 8 ∷ [])
    ∷ (79 ∷ 90 ∷ 69 ∷ 67 ∷ 1 ∷ 2 ∷ 1 ∷ 1 ∷ 3 ∷ 0 ∷ 0 ∷ 0 ∷ 0 ∷ 0 ∷ 0 ∷ 0 ∷ 9 ∷ 0 ∷ [])
    ∷ (79 ∷ 90 ∷ 69 ∷ 67 ∷ 1 ∷ 2 ∷ 1 ∷ 2 ∷ 3 ∷ 0 ∷ 0 ∷ 0 ∷ 0 ∷ 0 ∷ 0 ∷ 0 ∷ 0 ∷ 0 ∷ [])
    ∷ []

-- two data pieces of two bytes, the last filled up with a zero
cut_in_two :
    ec_encode wide body (record { data_pieces = 2; parity = 1; min_size = 65536; write_quorum = 3 })
    ≡ ok three
unfolding program
cut_in_two = refl

-- the pieces of an empty body do not decode: their stripe is one byte, and the header says none
empty_refused :
    ec_decode repeated
      ((some
          (encode_piece_header (record { k = 1; m = 1; piece_idx = 0; logical_len = 0 }) ++ 0 ∷ []))
        ∷ none
        ∷ [])
      1
      1
    ≡ err integrity_violation
unfolding program
empty_refused = refl

empty_encoded :
    ec_encode repeated [] config
    ≡ ok (
        (encode_piece_header (record { k = 1; m = 1; piece_idx = 0; logical_len = 0 }) ++ 0 ∷ [])
        ∷ (encode_piece_header (record { k = 1; m = 1; piece_idx = 1; logical_len = 0 }) ++ 0 ∷ [])
        ∷ [])
unfolding program
empty_encoded = refl

too_few : ec_decode wide (none ∷ none ∷ none ∷ []) 2 1 ≡ err not_found
unfolding program
too_few = refl

repaired :
    ec_repair_pieces repeated
      ((some (79 ∷ 90 ∷ 69 ∷ 67 ∷ 1 ∷ 1 ∷ 1 ∷ 0 ∷ 1 ∷ 0 ∷ 0 ∷ 0 ∷ 0 ∷ 0 ∷ 0 ∷ 0 ∷ 7 ∷ []))
        ∷ none
        ∷ [])
      1
      1
    ≡ ok (
        (79 ∷ 90 ∷ 69 ∷ 67 ∷ 1 ∷ 1 ∷ 1 ∷ 0 ∷ 1 ∷ 0 ∷ 0 ∷ 0 ∷ 0 ∷ 0 ∷ 0 ∷ 0 ∷ 7 ∷ [])
        ∷ (79 ∷ 90 ∷ 69 ∷ 67 ∷ 1 ∷ 1 ∷ 1 ∷ 1 ∷ 1 ∷ 0 ∷ 0 ∷ 0 ∷ 0 ∷ 0 ∷ 0 ∷ 0 ∷ 7 ∷ [])
        ∷ [])
unfolding program
repaired = refl
