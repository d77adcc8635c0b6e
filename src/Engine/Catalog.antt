-- ===== src/Engine/Catalog.antt =====
-- `list`, `set_obj_logical`, the cursors and `scrub_step` of crates/ozd-engine/src/lib.rs.
use ozd.Prelude.{
  ℕ, ◌+◌, ◌%◌, ◌^◌, List, [], ◌∷◌, ◌++◌, Bool, true, false, not, ◌&&◌, ◌||◌, Option, none, some,
  ltb, ◌==◌, if◌then◌else◌, length, take, bytes_eq,
}
use ozd.Domain.{BlockKey, Body, key_lt, not_found, DomainResult, ok, err, ◌>>=◌}
use ozd.Index.{AddrEntry, encode_addr, decode_addr}
use ozd.Shards.{ScrubStep}
use ozd.Tables.{Table, Index, transaction, insert, remove, unwrap_or}
use ozd.Engine.Gc.{row_at}
use ozd.Engine.{Segments, Zstd, EngineConfig, Engine, get, get_between}

-- The rows of a table from a key on, in the order of the keys; `iter` lists all of them so.
unfoldable pub from_key : BlockKey → List (BlockKey × List ℕ) → List (BlockKey × List ℕ)
unfolding key_lt
from_key start [] = []
from_key start ((k, v) ∷ rows) =
    let rest = from_key start rows in if key_lt k start then rest else (k, v) ∷ rest

unfoldable pub starts_with : List ℕ → List ℕ → Bool
starts_with k [] = true
starts_with [] (p ∷ prefix) = false
starts_with (b ∷ k) (p ∷ prefix) = b == p && starts_with k prefix

abbrev pub start_of : List ℕ → Option BlockKey → List ℕ
start_of prefix none = prefix
start_of prefix (some k) = k ++ 0 ∷ []

-- The logical size of a row's body, or of the object of which it is a piece.
abbrev pub listed_size : Option AddrEntry → ℕ
listed_size none = 0
listed_size (some e) = unwrap_or e.obj_logical e.logical_len

-- The scan of the address table: it ends at a key without the prefix, or when the limit is reached.
unfoldable pub scan_addr :
    List ℕ → ℕ → List (BlockKey × List ℕ) → List (BlockKey × ℕ) → List (BlockKey × ℕ)
unfolding starts_with
scan_addr prefix limit [] out = out
scan_addr prefix limit ((k, v) ∷ rows) out =
    let out' = out ++ (k, listed_size (decode_addr v)) ∷ [] in
    let rest = scan_addr prefix limit rows out' in
    if starts_with k prefix then (if ltb (length out') limit then rest else out') else out

-- The scan of the inline table ends at a key without the prefix.
unfoldable pub scan_inline :
    List ℕ → List (BlockKey × List ℕ) → List (BlockKey × ℕ) → List (BlockKey × ℕ)
unfolding starts_with
scan_inline prefix [] out = out
scan_inline prefix ((k, v) ∷ rows) out =
    let rest = scan_inline prefix rows (out ++ (k, length v) ∷ []) in
    if starts_with k prefix then rest else out

abbrev pub listing_lt : BlockKey × ℕ → BlockKey × ℕ → Bool
listing_lt (k, n) (j, m) = key_lt k j || (bytes_eq k j && ltb n m)

-- `sort` and `dedup_by` on the keys.
unfoldable pub insert_sorted : BlockKey × ℕ → List (BlockKey × ℕ) → List (BlockKey × ℕ)
unfolding key_lt bytes_eq
insert_sorted x [] = x ∷ []
insert_sorted x (y ∷ ys) =
    let rest = insert_sorted x ys in if listing_lt y x then y ∷ rest else x ∷ y ∷ ys

unfoldable pub sort : List (BlockKey × ℕ) → List (BlockKey × ℕ)
unfolding insert_sorted
sort [] = []
sort (x ∷ xs) = insert_sorted x (sort xs)

-- An element goes if its key is that of the last one that was kept.
unfoldable pub dedup_after : BlockKey → List (BlockKey × ℕ) → List (BlockKey × ℕ)
unfolding bytes_eq
dedup_after k [] = []
dedup_after k ((j, n) ∷ xs) =
    let rest = dedup_after j xs in if bytes_eq j k then rest else (j, n) ∷ rest

unfoldable pub dedup : List (BlockKey × ℕ) → List (BlockKey × ℕ)
unfolding dedup_after
dedup [] = []
dedup ((k, n) ∷ xs) = (k, n) ∷ dedup_after k xs

-- The bytes of a key are a row of the table of cursors.
unfoldable pub store_cursor : BlockKey → Option BlockKey → Index → Index
unfolding insert remove
store_cursor name none ix = record ix { cursor = remove name ix.cursor }
store_cursor name (some k) ix = record ix { cursor = insert name k ix.cursor }

abbrev pub differs : Option ℕ → ℕ → Bool
differs none obj = true
differs (some o) obj = not (o == obj)

-- Whether the row is changed, and the index after it.
abbrev pub with_obj : BlockKey → ℕ → Option AddrEntry → Index → Bool × Index
with_obj key obj none ix = (false, ix)
with_obj key obj (some e) ix =
    if differs e.obj_logical obj
    then (
      true,
      record ix { addr = insert key (encode_addr (record e { obj_logical = some obj })) ix.addr },
    )
    else (false, ix)

unfoldable pub set_obj : BlockKey → ℕ → Index → Bool × Index
unfolding insert
set_obj key obj ix = with_obj key obj (row_at (ix.addr key)) ix

module _ (segments : Segments) (zstd : Zstd) (cfg : EngineConfig)
    (iter : Table → List (BlockKey × List ℕ)) where
  abbrev State : Type 0
  State = Engine segments zstd cfg

  unfoldable pub list : List ℕ → Option BlockKey → ℕ → State → DomainResult (List (BlockKey × ℕ))
  unfolding from_key scan_addr scan_inline sort dedup
  list prefix after limit e =
      let start = start_of prefix after in
      let addressed = scan_addr prefix limit (from_key start (iter e.db.index.addr)) [] in
      let both = scan_inline prefix (from_key start (iter e.db.index.inline)) addressed in
      ok (take limit (dedup (sort both)))

  -- A key that is gone since it was listed is passed over.
  abbrev pub scrubbed : BlockKey → DomainResult Body → ScrubStep → ScrubStep
  scrubbed key (ok d) step = record step {
    checked = step.checked + 1;
    bytes = (step.bytes + length d) % 2 ^ 64;
  }
  scrubbed key (err not_found) step = step
  scrubbed key (err x) step = record step { corrupt = step.corrupt ++ key ∷ [] }

  unfoldable pub scrub_keys : List (BlockKey × ℕ) → State → ScrubStep → ScrubStep
  unfolding get_between
  scrub_keys [] e step = step
  scrub_keys ((key, n) ∷ keys) e step =
      scrub_keys keys e
        (record (scrubbed key (get segments zstd cfg key e) step) { last_key = some key })

  unfoldable pub scrub_step : Option BlockKey → ℕ → State → DomainResult ScrubStep
  unfolding list scrub_keys
  scrub_step after limit e = list [] after limit e >>= λ keys. ok (
      scrub_keys keys e (record {
        checked = 0;
        bytes = 0;
        corrupt = [];
        last_key = none;
        done = ltb (length keys) limit;
      }))

  abbrev noted : Bool → DomainResult (Unit {0}) → DomainResult Bool
  noted updated (ok _) = ok updated
  noted updated (err x) = err x

  unfoldable pub set_obj_logical : BlockKey → ℕ → State → DomainResult Bool × State
  unfolding set_obj
  set_obj_logical key obj e =
      let tx = transaction (λ ix. (set_obj key obj ix).1) e.db in
      (noted (set_obj key obj e.db.index).0 tx.0, record e { db = tx.1 })

  unfoldable pub save_cursor : BlockKey → Option BlockKey → State → DomainResult (Unit {0}) × State
  unfolding store_cursor
  save_cursor name pos e =
      let tx = transaction (store_cursor name pos) e.db in (tx.0, record e { db = tx.1 })

  unfoldable pub load_cursor : BlockKey → State → DomainResult (Option BlockKey)
  load_cursor name e = ok (e.db.index.cursor name)
