-- ===== src/Engine/Gc/Evict/Missed.antt =====
-- A reader of crates/ozd-engine/src/lib.rs sees an eviction as a miss, never as another body.
use ozd.Prelude.{
  ℕ, List, [], ◌∷◌, Bool, true, false, Option, none, some, ◌≡◌, refl, ◌∙◌, ap, sym, ◌⊎◌, inl, inr,
  arith, ltb, bytes_eq, bytes_eq_refl, Bool-cases,
}
use mathlib.Core.List.{Memᴰ}
use ozd.Io.{IoResult, ok, err}
use ozd.Domain.{BlockKey, Body, DomainResult, ok, err, not_found}
use ozd.Segment.{RecordAddr}
use ozd.Segment.Scan.{RecoveredRecord}
use ozd.Index.{AddrEntry, decode_addr}
use ozd.Tables.Laws.{found_row}
use ozd.Tables.{
  Table, Index, Db, commit, lookup, found, inlined, addressed, missing, Lookup, remove, row_found,
}
use ozd.Engine.{Segments, Zstd, EngineConfig, Engine, get, get_between}
use ozd.Engine.Append.{commit-ok}
use ozd.Engine.Reads.{Held, final, final-Held, Held-final}
use ozd.Engine.Gc.{DbReads, read_row, Files, alive, same_place, clear_discard}
use ozd.Engine.Gc.Collect.{then_do, transact, remove_file}
use ozd.Engine.Gc.Evict.{
  older, oldest, victims, drop_rows, evict_rows, evict_keys, evict_scanned, evict_segment,
  evict_oldest_segment,
}

oldest-Memᴰ : (files : List (ℕ × ℕ)) (f : ℕ × ℕ) → oldest files ≡ some f → Memᴰ f files
unfolding oldest
oldest-Memᴰ [] f h = absurd (ground arith)
oldest-Memᴰ ((id, size) ∷ files) f h = first (oldest files) (oldest-Memᴰ files f) h
  where
    first :
        (o : Option (ℕ × ℕ))
        → (o ≡ some f → Memᴰ f files)
        → some (older (id, size) o) ≡ some f
        → Memᴰ f ((id, size) ∷ files)
    first none rest e = Memᴰ.head (grind arith)
    first (some (j, n)) rest e = elim (Bool-cases (ltb j id)) [
      | inl smaller ↦ Memᴰ.tail (rest (rw smaller at e))
      | inr larger ↦ Memᴰ.head (let same = rw larger at e in grind arith)
    ]

-- A row is dropped, or stays as it is; the row of a dropped key is gone.
drop-cases :
    (ks : List BlockKey) (t : Table) (k : BlockKey)
    → (drop_rows ks t k ≡ none) ⊎ (drop_rows ks t k ≡ t k)
unfolding drop_rows remove
drop-cases [] t k = inr refl
drop-cases (j ∷ ks) t k = elim (drop-cases ks (remove j t) k) [
  | inl gone ↦ inl gone
  | inr same ↦ elim (Bool-cases (bytes_eq j k)) [
    | inl own ↦ inl (same ∙ rw own refl)
    | inr other ↦ inr (same ∙ rw other refl)
  ]
]

drop-gone : (ks : List BlockKey) (t : Table) (k : BlockKey) → t k ≡ none → drop_rows ks t k ≡ none
drop-gone ks t k h = elim (drop-cases ks t k) [ inl gone ↦ gone | inr same ↦ same ∙ h ]

drop-member : (ks : List BlockKey) (t : Table) (k : BlockKey) → Memᴰ k ks → drop_rows ks t k ≡ none
unfolding drop_rows remove
drop-member [] t k m = elim m [ ]
drop-member (j ∷ ks) t k (Memᴰ.head same) =
    drop-gone ks (remove j t) k (rw (← same, bytes_eq_refl k) refl)
drop-member (j ∷ ks) t k (Memᴰ.tail m) = drop-member ks (remove j t) k m

-- A record at the place of the key's row makes the key a victim.
victim-Memᴰ :
    (reads : DbReads) (rs : List RecoveredRecord) (ix : Index) (k : BlockKey) (x : AddrEntry)
    (r : RecoveredRecord)
    → reads.fails k ≡ false
    → lookup k ix ≡ ok (addressed x)
    → Memᴰ r rs
    → r.key ≡ k
    → same_place x.addr r.addr ≡ true
    → Memᴰ k (victims reads rs ix)
unfolding victims alive read_row
victim-Memᴰ reads [] ix k x r fine row m own place = elim m [ ]
victim-Memᴰ reads (q ∷ rs) ix k x r fine row (Memᴰ.head same) own place =
    let key_q : q.key ≡ k = ap (λ r. r.key) (sym same) ∙ own in
    let live : alive q.addr (read_row reads q.key ix) ≡ true =
      rw (key_q, fine, row) (ap (λ r. same_place x.addr r.addr) (sym same) ∙ place) in
    rw live (Memᴰ.head (sym key_q))
victim-Memᴰ reads (q ∷ rs) ix k x r fine row (Memᴰ.tail m) own place =
    elim (Bool-cases (alive q.addr (read_row reads q.key ix))) [
      | inl live ↦ rw live (Memᴰ.tail (victim-Memᴰ reads rs ix k x r fine row m own place))
      | inr dead ↦ rw dead (victim-Memᴰ reads rs ix k x r fine row m own place)
    ]

row_not_inlined : (o : Option AddrEntry) (b : Body) → ¬ (row_found o ≡ ok (inlined b))
row_not_inlined none b h = ground arith
row_not_inlined (some x) b h = ground arith

lookup-inlined :
    (i a a' : Option (List ℕ)) (b : Body) → found i a ≡ ok (inlined b) → found i a' ≡ ok (inlined b)
lookup-inlined none none a' b h = absurd cc
lookup-inlined none (some v) a' b h = absurd (row_not_inlined (decode_addr v) b h)
lookup-inlined (some v) a a' b h = h

row_contradiction : (v : List ℕ) → ¬ (none ≡ some v)
row_contradiction v h = ground arith

abbrev segment_of : DomainResult Lookup → ℕ
segment_of (ok (addressed x)) = x.addr.seg_id
segment_of (ok (inlined v)) = 0
segment_of (ok missing) = 0
segment_of (err x) = 0

module _ (segments : Segments) (zstd : Zstd) (cfg : EngineConfig) (files : Files segments)
    (reads : DbReads)
    (removed : (s : segments.Store) (id : ℕ) (a : RecordAddr) (crc : ℕ) (stored : Body)
      → ¬ (a.seg_id ≡ id)
      → segments.read s a crc ≡ ok stored
      → segments.read (files.remove_file id s).1 a crc ≡ ok stored)
    (k : BlockKey) (b : Body) (fine : reads.fails k ≡ false) where
  abbrev State : Type 0
  State = Engine segments zstd cfg

  -- The body is read, or its key is missing.
  abbrev ReadOrMissed : State → Type 0
  ReadOrMissed e =
      Held segments zstd cfg (lookup k e.db.index) e.store b ⊎ (lookup k e.db.index ≡ ok missing)

  -- The rows of the victims are dropped: the key's row does not point to the segment any more.
  abbrev Evicted : ℕ → State → Type 0
  Evicted id e =
      (Held segments zstd cfg (lookup k e.db.index) e.store b
        × ((x : AddrEntry) → lookup k e.db.index ≡ ok (addressed x) → ¬ (x.addr.seg_id ≡ id)))
      ⊎ (lookup k e.db.index ≡ ok missing)

  missing_row : (i a : Option (List ℕ)) → i ≡ none → a ≡ none → found i a ≡ ok missing
  missing_row i a hi ha = rw (hi, ha) refl

  removed-Held :
      (l : DomainResult Lookup) (s : segments.Store) (id : ℕ)
      → Held segments zstd cfg l s b
      → ((x : AddrEntry) → l ≡ ok (addressed x) → ¬ (x.addr.seg_id ≡ id))
      → Held segments zstd cfg l (files.remove_file id s).1 b
  unfolding Held
  removed-Held l s id (inl h) away = inl h
  removed-Held l s id (inr (e, stored, row, read, u)) away =
      inr (e, stored, row, removed s id e.addr e.crc stored (away e row) read, u)

  -- Whether the row points to the segment is decided by its record's place in the scan.
  evict_rows-Evicted :
      (id : ℕ) (rs : List RecoveredRecord) (e : State) (db : Db)
      → Held segments zstd cfg (lookup k e.db.index) e.store b
      → ((x : AddrEntry)
          → lookup k e.db.index ≡ ok (addressed x)
          → x.addr.seg_id ≡ id
          → (r : RecoveredRecord) × Memᴰ r rs × (r.key ≡ k) × (same_place x.addr r.addr ≡ true))
      → db.index ≡ evict_rows (victims reads rs e.db.index) id e.db.index
      → Evicted id (record e { db = db })
  unfolding Held evict_rows clear_discard lookup
  evict_rows-Evicted id rs e db (inl h) scanned now =
      let after : lookup k db.index ≡ ok (inlined b) =
        ap (lookup k) now ∙ lookup-inlined (e.db.index.inline k) (e.db.index.addr k) _ b h in
      inl (inl after, λ x row at_id. let both = sym after ∙ row in ground arith)
  evict_rows-Evicted id rs e db (inr (x, stored, row, read, u)) scanned now =
      let keys = victims reads rs e.db.index in
      let (no_inline, v, at, decoded) = found_row (e.db.index.inline k) (e.db.index.addr k) x row in
      elim (drop-cases keys e.db.index.addr k) [
        | inl gone ↦ inr (ap (lookup k) now ∙ missing_row (e.db.index.inline k) _ no_inline gone)
        | inr same ↦
            let after : lookup k db.index ≡ ok (addressed x) =
              ap (lookup k) now ∙ ap (λ a. found (e.db.index.inline k) a) same ∙ row in
            inl (
              inr (x, stored, after, read, u),
              λ y row' at_id.
                  let seg : x.addr.seg_id ≡ id = ap segment_of (sym after ∙ row') ∙ at_id in
                  let (r, m, own, place) = scanned x row seg in
                  let gone : drop_rows keys e.db.index.addr k ≡ none =
                    drop-member keys e.db.index.addr k
                      (victim-Memᴰ reads rs e.db.index k x r fine row m own place) in
                  row_contradiction v (sym gone ∙ same ∙ at),
            )
      ]

  -- After a step, whether it succeeded or not.
  then-ReadOrMissed {ℓ κ} :
      {A : Type ℓ} {B : Type κ} (x : DomainResult A × State)
      (f : A → State → DomainResult B × State)
      → ReadOrMissed x.1
      → ((a : A) → x.0 ≡ ok a → ReadOrMissed (f a x.1).1)
      → ReadOrMissed (then_do segments zstd cfg files reads x f).1
  then-ReadOrMissed (ok a, e) f h next = next a refl
  then-ReadOrMissed (err y, e) f h next = h

  dropped-ReadOrMissed : (id : ℕ) (e : State) → Evicted id e → ReadOrMissed e
  dropped-ReadOrMissed id e (inl (h, away)) = inl h
  dropped-ReadOrMissed id e (inr gone) = inr gone

  committed-ReadOrMissed :
      (id : ℕ) (f : Index → Index) (e : State) (cs : List Bool)
      → Held segments zstd cfg (lookup k e.db.index) e.store b
      → ((db : Db) → db.index ≡ f e.db.index → Evicted id (record e { db = db }))
      → ReadOrMissed (record e { db = (commit cs f e.db.index).1 })
  committed-ReadOrMissed id f e [] h next =
      let db = (commit [] f e.db.index).1 in
      dropped-ReadOrMissed id (record e { db = db }) (next db refl)
  committed-ReadOrMissed id f e (true ∷ cs) h next =
      let db = (commit (true ∷ cs) f e.db.index).1 in
      dropped-ReadOrMissed id (record e { db = db }) (next db refl)
  committed-ReadOrMissed id f e (false ∷ cs) h next = inl h

  removed-ReadOrMissed :
      (id : ℕ) (e : State)
      → Evicted id e
      → ReadOrMissed (remove_file segments zstd cfg files reads id e).1
  unfolding remove_file
  removed-ReadOrMissed id e (inl (h, away)) =
      inl (removed-Held (lookup k e.db.index) e.store id h away)
  removed-ReadOrMissed id e (inr gone) = inr gone

  evict_keys-ReadOrMissed :
      (id size : ℕ) (keys : List BlockKey) (e : State)
      → Held segments zstd cfg (lookup k e.db.index) e.store b
      → ((db : Db) → db.index ≡ evict_rows keys id e.db.index → Evicted id (record e { db = db }))
      → ReadOrMissed (evict_keys segments zstd cfg files reads id size keys e).1
  unfolding evict_keys transact
  evict_keys-ReadOrMissed id size keys e h next =
      let f = evict_rows keys id in
      let e1 = record e { db = (commit e.db.commits f e.db.index).1 } in
      then-ReadOrMissed (transact segments zstd cfg files reads f e) _
        (committed-ReadOrMissed id f e e.db.commits h next)
        (λ a done.
          then-ReadOrMissed (remove_file segments zstd cfg files reads id e1) _
            (removed-ReadOrMissed id e1 (
              next (commit e.db.commits f e.db.index).1 (commit-ok e.db.commits f e.db.index done)))
            (λ _ fine. removed-ReadOrMissed id e1 (
              next (commit e.db.commits f e.db.index).1
                (commit-ok e.db.commits f e.db.index done))))

  segment-ReadOrMissed :
      (o : Option (ℕ × ℕ)) (e : State)
      → Held segments zstd cfg (lookup k e.db.index) e.store b
      → ((id size : ℕ) (rs : List RecoveredRecord)
          → o ≡ some (id, size)
          → files.scan e.store id ≡ ok rs
          → (x : AddrEntry) → lookup k e.db.index ≡ ok (addressed x)
          → x.addr.seg_id ≡ id
          → (r : RecoveredRecord) × Memᴰ r rs × (r.key ≡ k) × (same_place x.addr r.addr ≡ true))
      → ReadOrMissed (evict_segment segments zstd cfg files reads o e).1
  unfolding evict_segment evict_scanned
  segment-ReadOrMissed none e h scanned = inl h
  segment-ReadOrMissed (some (id, size)) e h scanned = go (files.scan e.store id) refl
    where
      go :
          (x : IoResult (List RecoveredRecord))
          → files.scan e.store id ≡ x
          → ReadOrMissed (evict_scanned segments zstd cfg files reads id size x e).1
      go (err y) scan = inl h
      go (ok rs) scan =
          evict_keys-ReadOrMissed id size (victims reads rs e.db.index) e h
            (λ db now. evict_rows-Evicted id rs e db h (scanned id size rs refl scan) now)

  missed_get :
      (l : DomainResult Lookup) (s : segments.Store)
      → l ≡ ok missing
      → final segments zstd cfg l s ≡ err not_found
  missed_get l s h = rw h refl

  -- An eviction, whether it succeeds, finds no sealed segment or fails at any point, leaves a
  -- readable body readable or its key not found: no reader gets another body or an error of the
  -- disk. The lookup of the key while the segment is scanned does not fail (a key whose lookup fails
  -- keeps its row, and its file goes), the scan of the sealed segment to which the key's row points, if it does, comes to the
  -- key's record at that place, and the removal of a segment leaves the others readable.
  pub get-evict :
      (e : State)
      → get segments zstd cfg k e ≡ ok b
      → ((id size : ℕ) (rs : List RecoveredRecord)
          → Memᴰ (id, size) (files.sealed_segments e.store)
          → files.scan e.store id ≡ ok rs
          → (x : AddrEntry) → lookup k e.db.index ≡ ok (addressed x)
          → x.addr.seg_id ≡ id
          → (r : RecoveredRecord) × Memᴰ r rs × (r.key ≡ k) × (same_place x.addr r.addr ≡ true))
      → (get segments zstd cfg k (evict_oldest_segment segments zstd cfg files reads e).1 ≡ ok b)
        ⊎ (get segments zstd cfg k (evict_oldest_segment segments zstd cfg files reads e).1
            ≡ err not_found)
  unfolding evict_oldest_segment get_between
  get-evict e readable scanned =
      elim (segment-ReadOrMissed (oldest (files.sealed_segments e.store)) e
        (final-Held segments zstd cfg (lookup k e.db.index) e.store b readable)
        (λ id size rs chosen.
          scanned id size rs (oldest-Memᴰ (files.sealed_segments e.store) (id, size) chosen))) [
            | inl held ↦ inl (Held-final segments zstd cfg _ _ b held)
            | inr gone ↦ inr (missed_get _ _ gone)
          ]
