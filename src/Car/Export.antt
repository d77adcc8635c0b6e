-- ===== src/Car/Export.antt =====
-- The export of crates/ozd-app/src/car.rs, to a writer that takes every byte.
use ozd.Prelude.{
  ℕ, zero, suc, ◌+◌, ◌-◌, ◌*◌, ◌/◌, ◌%◌, ◌^◌, List, [], ◌∷◌, ◌++◌, Bool, true, false, ◌&&◌, ◌||◌,
  Option, none, some, ltb, leb, if◌then◌else◌, length, drop,
}
use ozd.Domain.{BlockKey, Body, DomainResult, ok, err, io, not_found}
use ozd.Cache.{BlockStore}
use ozd.Car.{write_varint, write_loop}

-- The value of a letter or a digit.
unfoldable pub b32_value : ℕ → Option ℕ
b32_value c =
    if leb 65 c && leb c 90
    then some (c - 65)
    else if leb 50 c && leb c 55
    then some (c - 50 + 26)
    else none

-- A byte is complete when eight bits are there.
abbrev pub push_byte : ℕ → ℕ → List ℕ → List ℕ
push_byte buf bits rest = if leb 8 bits then buf / 2 ^ (bits - 8) % 256 ∷ rest else rest

abbrev pub bits_left : ℕ → ℕ
bits_left bits = if leb 8 bits then bits - 8 else bits

unfoldable pub decode_loop : ℕ → ℕ → List ℕ → Option (List ℕ)
unfolding b32_value
decode_loop buf bits [] = some []
decode_loop buf bits (c ∷ s) = elim (b32_value c) [
  | none ↦ none
  | some v ↦
      let buf' = buf * 32 % 2 ^ 64 + v in
      elim (decode_loop buf' (bits_left (bits + 5)) s) [
        | none ↦ none
        | some rest ↦ some (push_byte buf' (bits + 5) rest)
      ]
]

unfoldable pub base32_decode : List ℕ → Option (List ℕ)
unfolding decode_loop
base32_decode s = decode_loop 0 0 s

pub record CarExportReport : Type 0 where
  pub blocks : ℕ
  pub bytes : ℕ

-- The DAG-CBOR of no roots and version 1.
abbrev pub export_header : List ℕ
export_header =
    162 ∷ 101 ∷ 114 ∷ 111 ∷ 111 ∷ 116 ∷ 115 ∷ 128 ∷ 103 ∷ 118 ∷ 101 ∷ 114 ∷ 115 ∷ 105 ∷ 111 ∷ 110
    ∷ 1 ∷ []

-- A frame: its length, the identifier CIDv1 with the raw codec, and the body.
unfoldable pub frame_of : List ℕ → Body → List ℕ
unfolding write_loop
frame_of mh body =
    let cid = 1 ∷ 85 ∷ mh in write_varint ((length cid + length body) % 2 ^ 64) ++ (cid ++ body)

module _ (store : BlockStore) (key_prefix : List ℕ) where
  open store use {Store}

  -- What is written, the report, and the store after its reads.
  pub record Exporting : Type 0 where
    pub out : List ℕ
    pub report : CarExportReport
    pub store_now : Store

  abbrev pub frame_written : Body → Option (List ℕ) → Exporting → DomainResult Exporting
  frame_written body none x = err io
  frame_written body (some mh) x = ok (record x {
    out = x.out ++ frame_of mh body;
    report = record {
      blocks = x.report.blocks + 1;
      bytes = (x.report.bytes + length body) % 2 ^ 64;
    };
  })

  -- A block that is gone since it was listed is passed over.
  abbrev pub block_written : BlockKey → DomainResult Body → Exporting → DomainResult Exporting
  block_written key (ok body) x =
      frame_written body (base32_decode (drop (length key_prefix) key)) x
  block_written key (err not_found) x = ok x
  block_written key (err e) x = err e

  unfoldable pub export_keys : List (BlockKey × ℕ) → Exporting → DomainResult Exporting
  unfolding base32_decode frame_of
  export_keys [] x = ok x
  export_keys ((key, n) ∷ keys) x =
      let got = store.get key x.store_now in
      elim (block_written key got.0 (record x { store_now = got.1 })) [
        | err e ↦ err e
        | ok x' ↦ export_keys keys x'
      ]

  abbrev pub last_key : List (BlockKey × ℕ) → Option BlockKey
  last_key [] = none
  last_key ((key, n) ∷ []) = some key
  last_key ((key, n) ∷ k ∷ keys) = last_key (k ∷ keys)

  abbrev pub is_none : Option BlockKey → Bool
  is_none none = true
  is_none (some key) = false

  -- The pages of a thousand and twenty-four keys, at most so many of them; without an end there is
  -- no result.
  unfoldable pub export_pages : ℕ → Option BlockKey → Exporting → Option (DomainResult Exporting)
  unfolding export_keys
  export_pages zero after x = none
  export_pages (suc fuel) after x = elim (store.list key_prefix after 1024 x.store_now) [
    | err e ↦ some (err e)
    | ok keys ↦ elim (export_keys keys x) [
      | err e ↦ some (err e)
      | ok x' ↦
          let rest = export_pages fuel (last_key keys) x' in
          if ltb (length keys) 1024 || is_none (last_key keys) then some (ok x') else rest
    ]
  ]

  unfoldable pub car_export : ℕ → Store → Option (DomainResult Exporting)
  unfolding export_pages
  car_export pages s = export_pages pages none (record {
    out = write_varint (length export_header) ++ export_header;
    report = record { blocks = 0; bytes = 0 };
    store_now = s;
  })
