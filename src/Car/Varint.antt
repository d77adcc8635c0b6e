-- ===== src/Car/Varint.antt =====
-- The varints of crates/ozd-app/src/car.rs are read as they were written.
use ozd.Prelude.{
  ℕ, zero, suc, ◌+◌, ◌*◌, ◌/◌, ◌%◌, ◌^◌, ◌≤◌, ◌<◌, List, [], ◌∷◌, ◌++◌, Bool, true, false, some,
  none, ◌≡◌, ◌∙◌, refl, sym, ap, arith, if◌then◌else◌, Option, leb, ◌==◌, Bool-cases, inl, inr,
}
use native.Mathlib.Decide.{dec_le}
use native.Mathlib.Nat.{add-mul}
use ozd.Domain.{DomainResult, ok, err}
use ozd.Car.{is_last, read_loop, read_varint, write_loop, write_varint, slice_loop, slice_varint}

pow_mono : (a d : ℕ) → a ≤ d → 2 ^ a ≤ 2 ^ d
pow_mono a zero h = let same : a ≡ 0 = omega arith in rw same (omega arith)
pow_mono a (suc d) h = elim (dec_le a d) [
  | yes le ↦ omega (arith, pow_mono a d le)
  | no gt ↦ let same : a ≡ suc d = omega arith in rw same (omega arith)
]

pow_add_7 : (s : ℕ) → 2 ^ (s + 7) ≡ 2 ^ s * 128
pow_add_7 s =
    ap (λ n. 2 ^ n) {x = s + 7} {y = suc (suc (suc (suc (suc (suc (suc s))))))} (omega arith)
    ∙ omega arith

distribute : (q r p : ℕ) → (q * 128 + r) * p ≡ r * p + q * (p * 128)
distribute q r p = grind (arith, add-mul (q * 128) r p)

regroup : (x p : ℕ) → x % 128 * p + x / 128 * (p * 128) ≡ x * p
regroup x p =
    let split : x / 128 * 128 + x % 128 ≡ x = omega arith in
    sym (distribute (x / 128) (x % 128) p) ∙ ap (λ n. n * p) split

next_shift : (x s : ℕ) → x * 2 ^ s < 2 ^ 63 → 0 < x / 128 → s + 7 < 63
next_shift x s h p = elim (dec_le 63 (s + 7)) [
  | yes far ↦
      let big : 2 ^ 63 ≤ 2 ^ s * 128 = omega (arith, pow_mono 63 (s + 7) far, pow_add_7 s) in
      absurd (grind (arith, big, regroup x (2 ^ s)))
  | no near ↦ omega arith
]

next_fits : (x s : ℕ) → x * 2 ^ s < 2 ^ 63 → x / 128 * 2 ^ (s + 7) < 2 ^ 63
next_fits x s h = rw (pow_add_7 s) (omega (arith, regroup x (2 ^ s)))

read-step :
    (acc shift : ℕ) (first : Bool) (b : ℕ) (r : List ℕ)
    → shift < 63
    → read_loop acc shift first (b ∷ r) ≡ (
        if is_last b
        then ok (some (acc + b % 128 * 2 ^ shift, r))
        else read_loop (acc + b % 128 * 2 ^ shift) (shift + 7) false r)
unfolding read_loop
read-step acc shift true b r room = let near : leb 63 shift ≡ false = ground arith in rw near refl
read-step acc shift false b r room = let near : leb 63 shift ≡ false = ground arith in rw near refl

last_group : (x : ℕ) → x < 128 → is_last (x % 128) ≡ true
last_group x h = ground arith

inner_group : (x : ℕ) → is_last (x % 128 + 128) ≡ false
inner_group x = ground arith

write_last : (fuel x : ℕ) → x < 128 → write_loop (suc fuel) x ≡ (x % 128) ∷ []
unfolding write_loop
write_last fuel x h = let none_left : (x / 128 == 0) ≡ true = ground arith in rw none_left refl

write_more :
    (fuel x : ℕ) → 128 ≤ x → write_loop (suc fuel) x ≡ (x % 128 + 128) ∷ write_loop fuel (x / 128)
unfolding write_loop
write_more fuel x h = let some_left : (x / 128 == 0) ≡ false = ground arith in rw some_left refl

has_fuel : (fuel y : ℕ) → 0 < y → y < 128 ^ fuel → 0 < fuel
has_fuel zero y p h = absurd (omega arith)
has_fuel (suc fuel) y p h = omega arith

-- What the loop reads of a varint that it is in the middle of.
pub read-write_loop :
    (fuel x acc shift : ℕ) (first : Bool) (rest : List ℕ)
    → x < 128 ^ fuel
    → 0 < fuel
    → shift < 63
    → x * 2 ^ shift < 2 ^ 63
    → read_loop acc shift first (write_loop fuel x ++ rest) ≡ ok (some (acc + x * 2 ^ shift, rest))
read-write_loop zero x acc shift first rest small some_fuel room fits = absurd (omega arith)
read-write_loop (suc fuel) x acc shift first rest small some_fuel room fits = elim (dec_le 128 x) [
  | no short ↦
      let value : x % 128 % 128 ≡ x = omega arith in
      rw
        (
          write_last fuel x (omega arith),
          read-step acc shift first (x % 128) rest room,
          last_group x (omega arith),
          value,
        )
        refl
  | yes long ↦
      let value : (x % 128 + 128) % 128 ≡ x % 128 = omega arith in
      rw
        (
          write_more fuel x long,
          read-step acc shift first (x % 128 + 128) (write_loop fuel (x / 128) ++ rest) room,
          inner_group x,
          value,
        )
        (read-write_loop fuel (x / 128) (acc + x % 128 * 2 ^ shift) (shift + 7) false rest
            (omega arith) (has_fuel fuel (x / 128) (omega arith) (omega arith))
            (next_shift x shift fits (omega arith)) (next_fits x shift fits)
          ∙ ap (λ n. ok (some (n, rest)))
              (rw (pow_add_7 shift) (omega (arith, regroup x (2 ^ shift)))))
]

abbrev value : DomainResult (Option (ℕ × List ℕ)) → Option (ℕ × List ℕ)
value (ok o) = o
value (err e) = none

-- The reader of a buffer finds what the reader of a stream finds in the middle of a varint.
pub slice-read_loop :
    (x shift : ℕ) (buf : List ℕ) → slice_loop x shift buf ≡ value (read_loop x shift false buf)
unfolding slice_loop read_loop
slice-read_loop x shift [] = refl
slice-read_loop x shift (b ∷ r) =
    let ih = slice-read_loop (x + b % 128 * 2 ^ shift) (shift + 7) r in
    elim (Bool-cases (leb 63 shift)) [
      | inl far ↦ rw far refl
      | inr near ↦ elim (Bool-cases (is_last b)) [
        | inl last ↦ rw (near, last) refl
        | inr more ↦ rw (near, more) ih
      ]
    ]

-- A number below 2 ^ 63 that was written as a varint is read back, from a stream and from a buffer,
-- and what follows it is left over.
pub read-write_varint :
    (x : ℕ) (rest : List ℕ)
    → x < 2 ^ 63
    → (read_varint (write_varint x ++ rest) ≡ ok (some (x, rest)))
      × (slice_varint (write_varint x ++ rest) ≡ some (x, rest))
read-write_varint x rest h =
    let whole : 0 + x * 2 ^ 0 ≡ x = omega arith in
    let read : (first : Bool)
        → read_loop 0 0 first (write_varint x ++ rest) ≡ ok (some (0 + x * 2 ^ 0, rest)) =
      λ first.
        read-write_loop 10 x 0 0 first rest (omega arith) (omega arith) (omega arith)
          (omega arith) in
    (
      read true ∙ ap (λ n. ok (some (n, rest))) whole,
      slice-read_loop 0 0 (write_varint x ++ rest)
          ∙ ap value (read false)
          ∙ ap (λ n. some (n, rest)) whole,
    )
