-- ===== src/Car/Cid.antt =====
-- The identifiers that the export of crates/ozd-app/src/car.rs writes are parsed by its import.
use ozd.Prelude.{
  ℕ, suc, ◌&&◌, ◌+◌, ◌-◌, ◌^◌, ◌<◌, List, ◌∷◌, ◌++◌, Bool, true, false, some, ◌≡◌, ◌∙◌, refl, ap,
  arith, leb, ltb, length, length-append, append_assoc, take-length-append,
}
use ozd.Car.{parse_cid, slice_varint, slice_loop, write_varint}
use ozd.Car.Varint.{read-write_varint}

-- A multihash: the code, the length of the digest, and the digest.
abbrev pub multihash : ℕ → List ℕ → List ℕ
multihash code digest = write_varint code ++ (write_varint (length digest) ++ digest)

-- The version 1 identifier with the raw codec that `car_export` writes for a multihash.
abbrev pub exported_cid : List ℕ → List ℕ
exported_cid mh = 1 ∷ 85 ∷ mh

and_false : (b : Bool) → (b && false) ≡ false
and_false true = refl
and_false false = refl

-- An exported identifier in front of a body is parsed to its length and its multihash, if the code
-- and the length of the digest are below 2 ^ 63 and the frame is shorter than 2 ^ 64 bytes.
pub parse_cid-exported :
    (code : ℕ) (digest body : List ℕ)
    → code < 2 ^ 63
    → length digest < 2 ^ 63
    → length (exported_cid (multihash code digest) ++ body) < 2 ^ 64
    → parse_cid (exported_cid (multihash code digest) ++ body)
      ≡ some (2 + length (multihash code digest), multihash code digest)
unfolding parse_cid slice_loop
parse_cid-exported code digest body h1 h2 h3 =
    let mh = multihash code digest in
    let rest = digest ++ body in
    let m = mh ++ body in
    let regroup : m ≡ write_varint code ++ (write_varint (length digest) ++ rest) =
      append_assoc (write_varint code) (write_varint (length digest) ++ digest) body
      ∙ ap (λ t. write_varint code ++ t)
          (append_assoc (write_varint (length digest)) digest body) in
    let e0 : slice_varint (1 ∷ 85 ∷ m) ≡ some (1, 85 ∷ m) = refl in
    let e1 : slice_varint (85 ∷ m) ≡ some (85, m) = refl in
    let e2 : slice_varint m ≡ some (code, write_varint (length digest) ++ rest) =
      ap slice_varint regroup
      ∙ (read-write_varint code (write_varint (length digest) ++ rest) h1).1 in
    let e3 : slice_varint (write_varint (length digest) ++ rest) ≡ some (length digest, rest) =
      (read-write_varint (length digest) rest h2).1 in
    let long : length m ≡ length mh + length body = length-append mh body in
    let tail : length rest ≡ length digest + length body = length-append digest body in
    let inside : length mh
        ≡ length (write_varint code) + length (write_varint (length digest) ++ digest) =
      length-append (write_varint code) (write_varint (length digest) ++ digest) in
    let inner : length (write_varint (length digest) ++ digest)
        ≡ length (write_varint (length digest)) + length digest =
      length-append (write_varint (length digest)) digest in
    let start : suc (suc (length m)) - length m ≡ 2 = omega arith in
    let end : suc (suc (length m)) - length rest + length digest ≡ 2 + length mh =
      omega (arith, long, tail, inside, inner) in
    let in_range : leb (2 ^ 64) (2 + length mh) ≡ false = ground (arith, h3, long) in
    let in_frame : ltb (suc (suc (length m))) (2 + length mh) ≡ false = ground (arith, long) in
    let cut : 2 + length mh - 2 ≡ length mh = omega arith in
    rw
      (
        and_false (leb 34 (suc (suc (length m)))),
        e2,
        e3,
        end,
        start,
        in_range,
        in_frame,
        cut,
        take-length-append mh body,
      )
      refl
