-- ===== src/Car/Import.antt =====
-- The import of crates/ozd-app/src/car.rs: the frames of a stream, and the keys of their blocks.
pub mod Verified
use ozd.Prelude.{
  ℕ, zero, suc, ◌+◌, ◌-◌, ◌*◌, ◌/◌, ◌%◌, ◌^◌, ◌<◌, List, [], ◌∷◌, ◌++◌, Bool, true, false, not,
  ◌&&◌, ◌||◌, Option, none, some, ltb, leb, ◌==◌, if◌then◌else◌, length, take, drop, bytes_eq, ◌≡◌,
  refl, arith, All, Bool-cases, inl, inr, bytes_eq_iff,
}
use ozd.Domain.{BlockKey, Body, DomainResult, ok, err, io}
use ozd.Segment.Scan.{read_exact}
use ozd.Cache.{BlockStore}
use ozd.Car.{read_varint, read_loop, parse_cid}

-- The letters and digits of RFC 4648.
abbrev pub b32 : ℕ → ℕ
b32 i = if ltb i 26 then 65 + i else 24 + i

-- The groups of five bits that are complete: two at most after a byte.
unfoldable pub emit : ℕ → ℕ → ℕ → List ℕ × ℕ
emit zero buf bits = ([], bits)
emit (suc n) buf bits =
    let rest = emit n buf (bits - 5) in
    if leb 5 bits then (b32 (buf / 2 ^ (bits - 5) % 32) ∷ rest.0, rest.1) else ([], bits)

-- `buf` is a `u64`, from whose top old bits are shifted out.
unfoldable pub base32_loop : ℕ → ℕ → List ℕ → List ℕ
unfolding emit
base32_loop buf bits [] = if ltb 0 bits then b32 (buf * 2 ^ (5 - bits) % 2 ^ 64 % 32) ∷ [] else []
base32_loop buf bits (b ∷ bytes) =
    let buf' = buf * 256 % 2 ^ 64 + b in
    let out = emit 2 buf' (bits + 8) in out.0 ++ base32_loop buf' out.1 bytes

unfoldable pub base32_nopad : List ℕ → List ℕ
unfolding base32_loop
base32_nopad bytes = base32_loop 0 0 bytes

unfoldable pub key_for_multihash : List ℕ → List ℕ → BlockKey
unfolding base32_nopad
key_for_multihash prefix mh = prefix ++ base32_nopad mh

pub record CarImportReport : Type 0 where
  pub blocks : ℕ
  pub bytes : ℕ
  pub skipped : ℕ
  pub corrupt : ℕ
  pub errors : ℕ

-- The pragma of CARv2: `\xa1 \x67 version \x02`.
abbrev pub carv2_pragma : List ℕ
carv2_pragma = 161 ∷ 103 ∷ 118 ∷ 101 ∷ 114 ∷ 115 ∷ 105 ∷ 111 ∷ 110 ∷ 2 ∷ []

-- A multihash of sha2-256.
abbrev pub is_sha256 : List ℕ → Bool
is_sha256 [] = false
is_sha256 (a ∷ []) = false
is_sha256 (a ∷ b ∷ digest) = a == 18 && b == 32

-- What the reader has sent to the workers, in order, and its count of bad frames.
pub record Reading : Type 0 where
  pub sent : List (BlockKey × Body)
  pub corrupt : ℕ

abbrev pub frame_of : ℕ → List ℕ → DomainResult (List ℕ × List ℕ)
frame_of flen r =
    if flen == 0 || ltb (2 ^ 30) flen
    then err io
    else elim (read_exact flen r) [ none ↦ err io | some p ↦ ok p ]

module _ (sha256 : List ℕ → List ℕ) (key_prefix : List ℕ) (verify : Bool) where
  -- What becomes of a frame.
  unfoldable pub take_frame : List ℕ → Option (ℕ × List ℕ) → Reading → Reading
  unfolding key_for_multihash bytes_eq
  take_frame frame none rd = record rd { corrupt = rd.corrupt + 1 }
  take_frame frame (some (cid_len, mh)) rd =
      let body = drop cid_len frame in
      if verify && is_sha256 mh && not (bytes_eq (sha256 body) (take 32 (drop 2 mh)))
      then record rd { corrupt = rd.corrupt + 1 }
      else record rd { sent = rd.sent ++ (key_for_multihash key_prefix mh, body) ∷ [] }

  abbrev pub Read : Type 0
  Read = DomainResult (Unit {0}) × Reading

  abbrev pub with_len : DomainResult (Option (ℕ × List ℕ)) → Reading → (ℕ → List ℕ → Read) → Read
  with_len (err x) rd next = (err x, rd)
  with_len (ok none) rd next = (ok tt, rd)
  with_len (ok (some (flen, r))) rd next = next flen r

  abbrev pub with_frame : DomainResult (List ℕ × List ℕ) → Reading → (List ℕ → List ℕ → Read) → Read
  with_frame (err x) rd next = (err x, rd)
  with_frame (ok (frame, r)) rd next = next frame r

  -- The loop of the reader: each round takes a byte at least.
  unfoldable pub read_frames : ℕ → List ℕ → Reading → Read
  unfolding take_frame read_loop read_exact parse_cid
  read_frames zero r rd = (ok tt, rd)
  read_frames (suc fuel) r rd = with_len (read_varint r) rd (λ flen r1.
      with_frame (frame_of flen r1) rd
        (λ frame r2. read_frames fuel r2 (take_frame frame (parse_cid frame) rd)))

module _ (store : BlockStore) where
  open store use {Store}

  abbrev has_or_false : DomainResult Bool → Bool
  has_or_false (ok b) = b
  has_or_false (err x) = false

  abbrev pub put_counted :
      Body → DomainResult (Unit {0}) × Store → CarImportReport → CarImportReport × Store
  put_counted body (ok _, s) rep =
      (record rep { blocks = rep.blocks + 1; bytes = (rep.bytes + length body) % 2 ^ 64 }, s)
  put_counted body (err x, s) rep = (record rep { errors = rep.errors + 1 }, s)

  -- A worker takes the blocks one after the other; one that is stored already is passed over.
  unfoldable pub put_blocks :
      List (BlockKey × Body) → CarImportReport × Store → CarImportReport × Store
  put_blocks [] (rep, s) = (rep, s)
  put_blocks ((key, body) ∷ blocks) (rep, s) = put_blocks blocks (
      if has_or_false (store.has key s)
      then (record rep { skipped = rep.skipped + 1 }, s)
      else put_counted body (store.put key body s) rep)

  module _ (sha256 : List ℕ → List ℕ) (key_prefix : List ℕ) (verify : Bool) where
    abbrev pub empty_reading : Reading
    empty_reading = record { sent = []; corrupt = 0 }

    abbrev pub report_of : Reading → CarImportReport
    report_of rd = record { blocks = 0; bytes = 0; skipped = 0; corrupt = rd.corrupt; errors = 0 }

    -- The blocks that were read are put also if the stream ends in an error.
    abbrev pub imported :
        DomainResult (Unit {0}) × Reading → Store → DomainResult CarImportReport × Store
    imported (ok _, rd) s = let done = put_blocks rd.sent (report_of rd, s) in (ok done.0, done.1)
    imported (err x, rd) s = (err x, (put_blocks rd.sent (report_of rd, s)).1)

    abbrev pub import_frames :
        Option (List ℕ × List ℕ) → Store → DomainResult CarImportReport × Store
    import_frames none s = (err io, s)
    import_frames (some (hdr, r)) s =
        if bytes_eq hdr carv2_pragma
        then (err io, s)
        else imported (read_frames sha256 key_prefix verify (suc (length r)) r empty_reading) s

    abbrev pub import_header :
        DomainResult (Option (ℕ × List ℕ)) → Store → DomainResult CarImportReport × Store
    import_header (err x) s = (err x, s)
    import_header (ok none) s = (err io, s)
    import_header (ok (some (hlen, r))) s =
        if ltb (2 ^ 20) hlen then (err io, s) else import_frames (read_exact hlen r) s

    -- `car_import` with one worker.
    unfoldable pub car_import : List ℕ → Store → DomainResult CarImportReport × Store
    unfolding put_blocks read_frames read_loop read_exact bytes_eq
    car_import r s = import_header (read_varint r) s
