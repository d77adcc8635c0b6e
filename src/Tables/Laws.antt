-- ===== src/Tables/Laws.antt =====
-- What a lookup of crates/ozd-engine/src/lib.rs finds after a transaction.
use ozd.Prelude.{
  inl, inr, ap, ◌∙◌, arith, Option-cases, List, ℕ, Bool, true, false, Option, none, some, ◌≡◌, refl,
  if◌then◌else◌, bytes_eq,
}
use ozd.Domain.{BlockKey, Body, ok}
use ozd.Index.{AddrEntry, encode_addr, decode_addr}
use ozd.Index.Roundtrip.{FitsEntry, decode-encode}
use ozd.Tables.{
  Index, lookup, found, inlined, addressed, missing, put_inline, put_addr, delete_rows, insert,
  remove,
}

module _ (i a : Option (List ℕ)) where
  found_inline :
      (b : Bool) (v : List ℕ)
      → found (if b then some v else i) (if b then none else a)
        ≡ (if b then ok (inlined v) else found i a)
  found_inline true v = refl
  found_inline false v = refl

  found_addr :
      (b : Bool) (e : AddrEntry)
      → decode_addr (encode_addr e) ≡ some e
      → found (if b then none else i) (if b then some (encode_addr e) else a)
        ≡ (if b then ok (addressed e) else found i a)
  found_addr true e h = rw h refl
  found_addr false e h = refl

  found_missing :
      (b : Bool)
      → found (if b then none else i) (if b then none else a)
        ≡ (if b then ok missing else found i a)
  found_missing true = refl
  found_missing false = refl

-- A body put in the index is found under its key, and every other key is found as before.
pub lookup-put_inline :
    (key k : BlockKey) (body : Body) (ix : Index)
    → lookup k (put_inline key body ix)
      ≡ (if bytes_eq key k then ok (inlined body) else lookup k ix)
unfolding lookup put_inline insert remove
lookup-put_inline key k body ix = found_inline (ix.inline k) (ix.addr k) (bytes_eq key k) body

-- An address put in the index is found under its key, if its fields fit their widths.
pub lookup-put_addr :
    (key k : BlockKey) (entry : AddrEntry) (ix : Index)
    → FitsEntry entry
    → lookup k (put_addr key entry ix)
      ≡ (if bytes_eq key k then ok (addressed entry) else lookup k ix)
unfolding lookup put_addr insert remove
lookup-put_addr key k entry ix fits =
    found_addr (ix.inline k) (ix.addr k) (bytes_eq key k) entry (decode-encode entry fits)

-- A deleted key is missing, and every other key is found as before.
pub lookup-delete_rows :
    (key k : BlockKey) (ix : Index)
    → lookup k (delete_rows key ix) ≡ (if bytes_eq key k then ok missing else lookup k ix)
unfolding lookup delete_rows remove
lookup-delete_rows key k ix = found_missing (ix.inline k) (ix.addr k) (bytes_eq key k)

other_found :
    (c : Bool) (x y i a : Option (List ℕ))
    → c ≡ false
    → found (if c then x else i) (if c then y else a) ≡ found i a
other_found true x y i a h = absurd cc
other_found false x y i a h = refl

pub put_inline-other :
    (key k : BlockKey) (body : Body) (ix : Index)
    → bytes_eq key k ≡ false
    → lookup k (put_inline key body ix) ≡ lookup k ix
unfolding lookup put_inline insert remove
put_inline-other key k body ix = other_found (bytes_eq key k) _ _ (ix.inline k) (ix.addr k)

pub put_addr-other :
    (key k : BlockKey) (entry : AddrEntry) (ix : Index)
    → bytes_eq key k ≡ false
    → lookup k (put_addr key entry ix) ≡ lookup k ix
unfolding lookup put_addr insert remove
put_addr-other key k entry ix = other_found (bytes_eq key k) _ _ (ix.inline k) (ix.addr k)

-- A key whose row is found is not in the inline table.
pub found_row :
    (i a : Option (List ℕ)) (e : AddrEntry)
    → found i a ≡ ok (addressed e)
    → (i ≡ none) × (v : List ℕ) × (a ≡ some v) × (decode_addr v ≡ some e)
found_row (some v) a e h = absurd cc
found_row none none e h = absurd cc
found_row none (some v) e h = elim (Option-cases (decode_addr v)) [
  | inl bad ↦ absurd (let failed = rw bad at h in cc)
  | inr (e', row) ↦ (refl, v, refl, row ∙ ap (λ x. some x) (let same = rw row at h in grind arith))
]
