-- ===== src/Erasure/Stripes.antt =====
-- The stripes of crates/ozd-app/src/erasure.rs, put together again, are the body.
use ozd.Prelude.{
  ℕ, zero, suc, ◌+◌, ◌-◌, ◌*◌, ◌≤◌, min, List, [], ◌∷◌, ◌++◌, ◌≡◌, ◌∙◌, refl, sym, ap, arith,
  length, take, drop, replicate, length-append, length-take, length-drop, length-replicate,
  drop-add, append_assoc, append-nil, drop-nil, take-append-drop, take-length-append,
}
use native.Mathlib.Nat.{zero-add, suc-add}
use native.Mathlib.Decide.{dec_le}
use ozd.Domain.{Body}
use ozd.Erasure.{resize, stripe_at, stripes_from, concat}

take-nil : (n : ℕ) → take {A = ℕ} n [] ≡ []
take-nil zero = refl
take-nil (suc n) = refl

take_all : (n : ℕ) (xs : List ℕ) → length xs ≤ n → take n xs ≡ xs
take_all n [] h = take-nil n
take_all zero (x ∷ xs) h = absurd (omega arith)
take_all (suc n) (x ∷ xs) h = ap (◌∷◌ x) (take_all n xs (omega arith))

drop_all : (n : ℕ) (xs : List ℕ) → length xs ≤ n → drop n xs ≡ []
drop_all n [] h = drop-nil n
drop_all zero (x ∷ xs) h = absurd (omega arith)
drop_all (suc n) (x ∷ xs) h = drop_all n xs (omega arith)

take-append_add : (xs ys : List ℕ) (n : ℕ) → take (length xs + n) (xs ++ ys) ≡ xs ++ take n ys
take-append_add [] ys n = rw zero-add refl
take-append_add (x ∷ xs) ys n = rw suc-add (ap (◌∷◌ x) (take-append_add xs ys n))

take-min-length : (n : ℕ) (xs : List ℕ) → take (min n (length xs)) xs ≡ take n xs
take-min-length n xs = elim (dec_le n (length xs)) [
  | yes h ↦ ap (λ k. take k xs) {x = min n (length xs)} (omega arith)
  | no h ↦ take_all (min n (length xs)) xs (omega arith) ∙ sym (take_all n xs (omega arith))
]

cut-eq-take : (n s : ℕ) (xs : List ℕ) → n ≡ min s (length xs) → take n xs ≡ take s xs
cut-eq-take n s xs e = ap (λ k. take k xs) e ∙ take-min-length s xs

-- A stripe as a cut of what is left of the body.
stripe-eq-cut :
    (body : Body) (stripe i : ℕ)
    → stripe_at body stripe i ≡ resize stripe (take stripe (drop (i * stripe) body))
unfolding stripe_at
stripe-eq-cut body stripe i = elim (dec_le (i * stripe) (length body)) [
  | yes h ↦
      let start : min (i * stripe) (length body) ≡ i * stripe = omega arith in
      ap (resize stripe) (
        rw start (
          cut-eq-take _ stripe (drop (i * stripe) body)
            (omega (arith, length-drop (i * stripe) body))))
  | no h ↦
      let none_left : min ((i + 1) * stripe) (length body) - min (i * stripe) (length body) ≡ 0 =
        omega arith in
      rw (none_left, drop_all (i * stripe) body (omega arith), take-nil) refl
]

pub length-stripe_at : (body : Body) (stripe i : ℕ) → length (stripe_at body stripe i) ≡ stripe
length-stripe_at body stripe i = rw (stripe-eq-cut body stripe i) (
    let cut = take stripe (drop (i * stripe) body) in
    omega (
      arith,
      length-append cut (replicate (stripe - length cut) 0),
      length-replicate {A = ℕ} (stripe - length cut) 0,
      length-take stripe (drop (i * stripe) body),
    ))

pub length-stripes_from : (body : Body) (stripe i n : ℕ) → length (stripes_from body stripe i n) ≡ n
unfolding stripes_from
length-stripes_from body stripe i zero = refl
length-stripes_from body stripe i (suc n) = ap suc (length-stripes_from body stripe (i + 1) n)

drop-next :
    (body : Body) (stripe i : ℕ)
    → drop ((i + 1) * stripe) body ≡ drop stripe (drop (i * stripe) body)
drop-next body stripe i =
    ap (λ k. drop k body) {x = (i + 1) * stripe} {y = i * stripe + stripe} (omega arith)
    ∙ drop-add (i * stripe) stripe body

rejoin_full :
    (d rest : List ℕ) (stripe : ℕ)
    → stripe ≤ length d
    → take (length (drop stripe d)) rest ≡ drop stripe d
    → take (length d) (resize stripe (take stripe d) ++ rest) ≡ d
rejoin_full d rest stripe h ih =
    let len : length (take stripe d) ≡ stripe = omega (arith, length-take stripe d) in
    let pad : stripe - length (take stripe d) ≡ 0 = omega (arith, len) in
    let total : length d ≡ length (take stripe d) + length (drop stripe d) =
      omega (arith, len, length-drop stripe d) in
    rw (pad, append-nil)
      (ap (λ k. take k (take stripe d ++ rest)) total
        ∙ take-append_add (take stripe d) rest (length (drop stripe d))
        ∙ ap (λ t. take stripe d ++ t) ih
        ∙ take-append-drop stripe d)

rejoin_short :
    (d rest : List ℕ) (stripe : ℕ)
    → length d ≤ stripe
    → take (length d) (resize stripe (take stripe d) ++ rest) ≡ d
rejoin_short d rest stripe h = rw (take_all stripe d h, append_assoc) (take-length-append d _)

-- All the stripes from the i-th on, cut to the length of what is left, are what is left.
pub rejoin :
    (body : Body) (stripe i n : ℕ)
    → length body ≤ (i + n) * stripe
    → take (length (drop (i * stripe) body)) (concat (stripes_from body stripe i n))
      ≡ drop (i * stripe) body
unfolding stripes_from
rejoin body stripe i zero h = rw (drop_all (i * stripe) body (omega arith)) refl
rejoin body stripe i (suc n) h =
    let d = drop (i * stripe) body in
    let rest = concat (stripes_from body stripe (i + 1) n) in
    let ih : take (length (drop stripe d)) rest ≡ drop stripe d =
      rw (← drop-next body stripe i) (rejoin body stripe (i + 1) n (omega arith)) in
    rw (stripe-eq-cut body stripe i) (elim (dec_le stripe (length d)) [
      | yes full ↦ rejoin_full d rest stripe full ih
      | no short ↦ rejoin_short d rest stripe (omega arith)
    ])
