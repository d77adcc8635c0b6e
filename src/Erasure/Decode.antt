-- ===== src/Erasure/Decode.antt =====
-- Any k of the k + m pieces of crates/ozd-app/src/erasure.rs give the body back.
use ozd.Prelude.{
  ℕ, zero, suc, ◌+◌, ◌*◌, ◌^◌, ◌%◌, ◌≤◌, ◌<◌, List, [], ◌∷◌, ◌++◌, map, Bool, true, false, some,
  none, ltb, ◌==◌, ◌≡◌, ◌∙◌, refl, sym, ap, arith, length, take, drop, replicate, All, div_ceil,
  Bool-cases, inl, inr, ==_refl, le→ltb, length-replicate, length-append, take-length-append,
}
use native.Mathlib.Nat.{div-add-mod, mod-lt, zero-add}
use ozd.Domain.{Body, ok}
use ozd.Erasure.{
  ReedSolomon, EcConfig, stripe_len, stripes_from, pieces_from, concat, present, all_present,
  ec_encode, ec_decode, read_slots,
}
use ozd.Erasure.Stripes.{rejoin, length-stripe_at, length-stripes_from}
use ozd.Erasure.Slots.{
  keep, count, found_length_lem, length-keep, length-pieces_from, length-present, present-all,
  present-map, read-keep,
}

-- What is documented of the Reed-Solomon library: encoding keeps the data shards in front and
-- fills in the parity shards; of the encoded shards any k bring back all.
pub record IsCode (rs : ReedSolomon) : Type 0 where
  pub encodes :
      (k m stripe : ℕ) (shards : List Body)
      → rs.exists k m ≡ true
      → length shards ≡ k + m
      → All (λ s. length s ≡ stripe) shards
      → (enc : List Body) × (rs.encode k m shards ≡ some enc)
        × (take k enc ≡ take k shards)
        × (length enc ≡ k + m)
        × All (λ s. length s ≡ stripe) enc
  pub reconstructs :
      (k m : ℕ) (shards enc : List Body) (mask : List Bool)
      → rs.encode k m shards ≡ some enc
      → length mask ≡ k + m
      → k ≤ count mask
      → rs.reconstruct k m (keep mask enc) ≡ some (map some enc)

-- The configurations and bodies whose pieces carry all that a decoder wants.
pub record Encodable (rs : ReedSolomon) (cfg : EcConfig) (body : Body) : Type 0 where
  pub code : rs.exists cfg.data_pieces cfg.parity ≡ true
  pub has_data : 0 < cfg.data_pieces
  pub has_parity : 0 < cfg.parity
  pub fits_byte : cfg.data_pieces + cfg.parity < 256
  pub not_empty : 0 < length body
  pub fits_u64 : length body < 2 ^ 64

le-div_ceil : (a k : ℕ) → 0 < k → a ≤ k * div_ceil a k
unfolding div_ceil
le-div_ceil a k h = elim (Bool-cases (a % k == 0)) [
  | inl e ↦ rw e (grind (arith, div-add-mod a k, mod-lt a h))
  | inr e ↦ rw e (grind (arith, div-add-mod a k, mod-lt a h))
]

div_ceil-pos : (a k : ℕ) → 0 < k → 0 < a → 0 < div_ceil a k
unfolding div_ceil
div_ceil-pos a k h p = ground (arith, div-add-mod a k, mod-lt a h)

stripes-lengths :
    (body : Body) (stripe i n : ℕ) → All (λ s. length s ≡ stripe) (stripes_from body stripe i n)
unfolding stripes_from
stripes-lengths body stripe i zero = tt
stripes-lengths body stripe i (suc n) =
    (length-stripe_at body stripe i, stripes-lengths body stripe (i + 1) n)

All-append : (P : Body → Type 0) (xs ys : List Body) → All P xs → All P ys → All P (xs ++ ys)
All-append P [] ys h k = k
All-append P (x ∷ xs) ys h k = (h.0, All-append P xs ys h.1 k)

All-replicate : (P : Body → Type 0) (n : ℕ) (x : Body) → P x → All P (replicate n x)
All-replicate P zero x h = tt
All-replicate P (suc n) x h = (h, All-replicate P n x h)

module _ (rs : ReedSolomon) (law : IsCode rs) (cfg : EcConfig) (body : Body)
    (v : Encodable rs cfg body) where
  open cfg use {data_pieces as k, parity as m}

  abbrev stripe : ℕ
  stripe = stripe_len body k

  abbrev shards : List Body
  shards = stripes_from body stripe 0 k ++ replicate m (replicate stripe 0)

  length-shards : length shards ≡ k + m
  length-shards = omega (
    arith,
    length-append (stripes_from body stripe 0 k) (replicate m (replicate {A = ℕ} stripe 0)),
    length-stripes_from body stripe 0 k,
    length-replicate m (replicate {A = ℕ} stripe 0),
  )

  encoded :
      (enc : List Body) × (rs.encode k m shards ≡ some enc)
      × (take k enc ≡ take k shards)
      × (length enc ≡ k + m)
      × All (λ s. length s ≡ stripe) enc
  encoded = law.encodes k m stripe shards v.code length-shards (
      All-append _ (stripes_from body stripe 0 k) (replicate m (replicate stripe 0))
        (stripes-lengths body stripe 0 k)
        (All-replicate _ m (replicate stripe 0) (length-replicate stripe 0)))

  abbrev enc : List Body
  enc = encoded.0

  stripe_fits : stripe ≡ div_ceil (length body) k
  stripe_fits = omega (arith, div_ceil-pos (length body) k v.has_data v.not_empty)

  body_fits : length body ≤ (0 + k) * stripe
  body_fits = rw (stripe_fits, zero-add) (le-div_ceil (length body) k v.has_data)

  -- The data shards, joined and cut, are the body.
  joined : take (length body) (concat (take k enc)) ≡ body
  joined =
      let front : take k shards ≡ stripes_from body stripe 0 k =
        ap (λ n. take n shards) (sym (length-stripes_from body stripe 0 k))
        ∙ take-length-append (stripes_from body stripe 0 k) (replicate m (replicate stripe 0)) in
      let all_of_it : drop (0 * stripe) body ≡ body =
        ap (λ n. drop n body) {x = 0 * stripe} {y = 0} (omega arith) in
      rw (encoded.2, front) (rw all_of_it at (rejoin body stripe 0 k body_fits))

  pub pieces : List Body
  pieces = pieces_from k m (length body) 0 enc

  -- Encoding a body that is not empty succeeds.
  pub ec_encode-pieces : ec_encode rs body cfg ≡ ok pieces
  unfolding ec_encode pieces
  ec_encode-pieces = rw (v.code, encoded.1) refl

  -- From any choice of at least k of the pieces of a body, each in its slot, decoding gives the
  -- body back, if k and m are positive, k + m is below 256, there is such a code and it brings lost
  -- shards back, and the body is not empty and shorter than 2 ^ 64 bytes.
  pub ec_decode-ec_encode :
      (mask : List Bool)
      → length mask ≡ k + m
      → k ≤ count mask
      → (ec_encode rs body cfg ≡ ok pieces) × (ec_decode rs (keep mask pieces) k m ≡ ok body)
  unfolding ec_decode pieces
  ec_decode-ec_encode mask len enough = (ec_encode-pieces, decoded)
    where
      aligned : length mask ≡ length enc
      aligned = omega (arith, encoded.3)

      whole : length (keep mask (pieces_from k m (length body) 0 enc)) ≡ k + m
      whole = omega (
        arith,
        encoded.3,
        length-pieces_from k m (length body) 0 enc,
        length-keep mask (pieces_from k m (length body) 0 enc),
      )

      read :
          read_slots rs 0 (keep mask (pieces_from k m (length body) 0 enc)) none
          ≡ ok (some (length body), keep mask enc)
      read =
          read-keep rs k m (length body) stripe v.has_data v.has_parity v.fits_byte v.fits_u64
            stripe_fits mask 0 enc none aligned (omega (arith, encoded.3)) encoded.4
          ∙ ap (λ o. ok (o, keep mask enc))
              (found_length_lem mask (length body) none (omega (arith, v.has_data)))

      many : ltb (length (present rs (keep mask enc))) k ≡ false
      many = le→ltb _ k (omega (arith, length-present rs mask enc aligned))

      decoded : ec_decode rs (keep mask (pieces_from k m (length body) 0 enc)) k m ≡ ok body
      decoded = elim (Bool-cases (all_present rs (take k (keep mask enc)))) [
        | inl fast ↦
            rw (whole, ==_refl, read, many, fast, present-all rs k mask enc aligned fast, joined)
              refl
        | inr slow ↦
            rw
              (
                whole,
                ==_refl,
                read,
                many,
                slow,
                v.code,
                law.reconstructs k m shards enc mask encoded.1 len enough,
                present-map,
                joined,
              )
              refl
      ]
