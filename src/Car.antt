-- ===== src/Car.antt =====
-- crates/ozd-app/src/car.rs: varints and content identifiers of the CAR import and export.
pub mod Varint
pub mod Cid
pub mod Import
pub mod Export
mod Tests
use ozd.Prelude.{
  ℕ, zero, suc, ◌+◌, ◌-◌, ◌*◌, ◌/◌, ◌%◌, ◌^◌, List, [], ◌∷◌, ◌++◌, Bool, true, false, not, ◌&&◌,
  Option, none, some, ltb, leb, ◌==◌, if◌then◌else◌, length, take, drop, get_elem?,
}
use ozd.Domain.{DomainResult, ok, err, io}

-- `b & 0x80 == 0`
abbrev pub is_last : ℕ → Bool
is_last b = b / 128 % 2 == 0

-- The loop of `read_varint` over a stream; `first` says that no byte was read yet. The groups of
-- seven bits do not overlap, so `|` adds them.
unfoldable pub read_loop : ℕ → ℕ → Bool → List ℕ → DomainResult (Option (ℕ × List ℕ))
read_loop x shift true [] = ok none
read_loop x shift false [] = err io
read_loop x shift first (b ∷ r) =
    let x' = x + b % 128 * 2 ^ shift in
    let rest = read_loop x' (shift + 7) false r in
    if leb 63 shift then err io else if is_last b then ok (some (x', r)) else rest

abbrev pub read_varint : List ℕ → DomainResult (Option (ℕ × List ℕ))
read_varint r = read_loop 0 0 true r

-- The loop of `write_varint`: a `u64` has ten groups of seven bits at most.
unfoldable pub write_loop : ℕ → ℕ → List ℕ
write_loop zero x = []
write_loop (suc fuel) x =
    let rest = write_loop fuel (x / 128) in
    if x / 128 == 0 then (x % 128) ∷ [] else (x % 128 + 128) ∷ rest

abbrev pub write_varint : ℕ → List ℕ
write_varint x = write_loop 10 x

-- The loop of `slice_varint`: the value, and the buffer from the new position on.
unfoldable pub slice_loop : ℕ → ℕ → List ℕ → Option (ℕ × List ℕ)
slice_loop x shift [] = none
slice_loop x shift (b ∷ r) =
    let x' = x + b % 128 * 2 ^ shift in
    let rest = slice_loop x' (shift + 7) r in
    if leb 63 shift then none else if is_last b then some (x', r) else rest

abbrev pub slice_varint : List ℕ → Option (ℕ × List ℕ)
slice_varint buf = slice_loop 0 0 buf

abbrev and_then : {A B : Type 0} → Option A → (A → Option B) → Option B
and_then none f = none
and_then (some a) f = f a

abbrev starts_v0 : List ℕ → Bool
starts_v0 [] = false
starts_v0 (a ∷ []) = false
starts_v0 (a ∷ b ∷ r) = a == 18 && b == 32

-- The length of the identifier, and its multihash. A position is the length of the buffer without
-- what is left of it.
unfoldable pub parse_cid : List ℕ → Option (ℕ × List ℕ)
parse_cid buf =
    let v1 = and_then (slice_varint buf) (λ ver.
      if not (ver.0 == 1)
      then none
      else and_then (slice_varint ver.1) (λ codec.
        let mh_start = length buf - length codec.1 in
        and_then (slice_varint codec.1) (λ code. and_then (slice_varint code.1) (λ dlen.
          let end = length buf - length dlen.1 + dlen.0 in
          if leb (2 ^ 64) end
          then none
          else if ltb (length buf) end
          then none
          else some (end, take (end - mh_start) (drop mh_start buf)))))) in
    if leb 34 (length buf) && starts_v0 buf then some (34, take 34 buf) else v1
