-- ===== src/Tables.antt =====
-- The tables of `DiskEngine` of crates/ozd-engine/src/lib.rs, and the transactions on them. The
-- database is a map with atomic transactions; a read of it does not fail.
pub mod Laws
use ozd.Prelude.{
  ℕ, ◌+◌, ◌%◌, ◌^◌, List, [], ◌∷◌, Bool, true, false, ◌||◌, Option, none, some, ◌==◌, if◌then◌else◌,
  length, bytes_eq,
}
use ozd.Domain.{BlockKey, Body, DomainResult, ok, err, io, not_found}
use ozd.Index.{AddrEntry, encode_addr, decode_addr}

-- A table of the database: keys, and their rows.
abbrev pub Table : Type 0
Table = BlockKey → Option (List ℕ)

unfoldable pub insert : BlockKey → List ℕ → Table → Table
unfolding bytes_eq
insert key v t k = if bytes_eq key k then some v else t k

unfoldable pub remove : BlockKey → Table → Table
unfolding bytes_eq
remove key t k = if bytes_eq key k then none else t k

-- The tables; `discard` is what "meta" holds under "discard.{seg_id}", and `cursor`
-- is by the bytes of a name.
pub record Index : Type 0 where
  pub addr : Table
  pub inline : Table
  pub discard : ℕ → Option ℕ
  pub cursor : Table

abbrev pub unwrap_or : Option ℕ → ℕ → ℕ
unwrap_or none d = d
unwrap_or (some v) d = v

unfoldable pub bump_in : ℕ → ℕ → (ℕ → Option ℕ) → ℕ → Option ℕ
bump_in seg_id bytes discard id =
    if seg_id == id then some ((unwrap_or (discard seg_id) 0 + bytes) % 2 ^ 64) else discard id

-- What a replaced or removed row of the address table adds to the discarded bytes.
unfoldable pub discard_old : Option (List ℕ) → (ℕ → Option ℕ) → ℕ → Option ℕ
unfolding bump_in
discard_old none discard = discard
discard_old (some row) discard = elim (decode_addr row) [
  | none ↦ discard
  | some e ↦ bump_in e.addr.seg_id e.addr.stored_len discard
]

pub data Lookup : Type 0 where
  inlined : Body → Lookup
  addressed : AddrEntry → Lookup
  missing : Lookup

abbrev pub row_found : Option AddrEntry → DomainResult Lookup
row_found none = err io
row_found (some e) = ok (addressed e)

abbrev pub found : Option (List ℕ) → Option (List ℕ) → DomainResult Lookup
found (some v) row = ok (inlined v)
found none none = ok missing
found none (some row) = row_found (decode_addr row)

unfoldable pub lookup : BlockKey → Index → DomainResult Lookup
lookup key ix = found (ix.inline key) (ix.addr key)

unfoldable pub stat : BlockKey → Index → DomainResult ℕ
unfolding lookup
stat key ix = elim (lookup key ix) [
  | err e ↦ err e
  | ok (inlined v) ↦ ok (length v)
  | ok (addressed e) ↦ ok e.logical_len
  | ok missing ↦ err not_found
]

unfoldable pub stat_obj : BlockKey → Index → DomainResult (ℕ × Option ℕ)
unfolding lookup
stat_obj key ix = elim (lookup key ix) [
  | err e ↦ err e
  | ok (inlined v) ↦ ok (length v, none)
  | ok (addressed e) ↦ ok (e.logical_len, e.obj_logical)
  | ok missing ↦ err not_found
]

abbrev pub is_some : {A : Type 0} → Option A → Bool
is_some none = false
is_some (some a) = true

unfoldable pub has : BlockKey → Index → Bool
has key ix = is_some (ix.inline key) || is_some (ix.addr key)

-- The open database: the tables, and whether each of the next write transactions commits; past the
-- end of the list all do. A transaction that does not commit changes nothing.
pub record Db : Type 0 where
  pub index : Index
  pub commits : List Bool

abbrev pub commit : List Bool → (Index → Index) → Index → DomainResult (Unit {0}) × Db
commit [] f ix = (ok tt, record { index = f ix; commits = [] })
commit (true ∷ cs) f ix = (ok tt, record { index = f ix; commits = cs })
commit (false ∷ cs) f ix = (err io, record { index = ix; commits = cs })

abbrev pub transaction : (Index → Index) → Db → DomainResult (Unit {0}) × Db
transaction f db = commit db.commits f db.index

unfoldable pub put_inline : BlockKey → Body → Index → Index
unfolding insert remove discard_old
put_inline key body ix = record ix {
  inline = insert key body ix.inline;
  addr = remove key ix.addr;
  discard = discard_old (ix.addr key) ix.discard;
}

unfoldable pub put_addr : BlockKey → AddrEntry → Index → Index
unfolding insert remove discard_old
put_addr key entry ix = record ix {
  addr = insert key (encode_addr entry) ix.addr;
  inline = remove key ix.inline;
  discard = discard_old (ix.addr key) ix.discard;
}

unfoldable pub delete_rows : BlockKey → Index → Index
unfolding remove discard_old
delete_rows key ix = record ix {
  addr = remove key ix.addr;
  inline = remove key ix.inline;
  discard = discard_old (ix.addr key) ix.discard;
}
