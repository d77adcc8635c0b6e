-- ===== src/Engine/Durable.antt =====
-- What `put` and `delete` of crates/ozd-engine/src/lib.rs keep readable.
use ozd.Prelude.{
  ℕ, ◌%◌, ◌^◌, ◌&&◌, List, [], ◌∷◌, Bool, true, false, not, Option, ◌≡◌, ◌∙◌, refl, ap, inl, inr,
  length, if◌then◌else◌, bytes_eq, Bool-cases, ltb,
}
use ozd.Io.{IoResult, ok, err}
use ozd.Domain.{BlockKey, Body, DomainResult, DomainError, ok, err, not_found}
use ozd.Segment.{RecordAddr}
use ozd.Tables.{Index, commit, put_inline, delete_rows, Lookup, missing, lookup, is_some}
use ozd.Tables.Laws.{lookup-delete_rows, put_inline-other, put_addr-other}
use ozd.Engine.{
  Segments, Zstd, EngineConfig, Engine, get, get_between, put_impl, delete, append_retried,
  index_record, record_of,
}
use ozd.Engine.Reads.{IsAppendOnly, Held, final, final-Held, Held-final, Held-append}
use ozd.Engine.Append.{commit-err, commit-ok, retried-Held, retried-db}

module _ (segments : Segments) (zstd : Zstd) (cfg : EngineConfig) (Whole : segments.Store → Type 0)
    (law : IsAppendOnly segments Whole) where
  abbrev S : Type 0
  S = Engine segments zstd cfg

  indexed-err :
      (key : BlockKey) (body : Body) (obj : Option ℕ) (x : IoResult (RecordAddr × ℕ)) (e : S)
      (d : _)
      → (index_record segments zstd cfg key body obj x e).0 ≡ err d
      → (index_record segments zstd cfg key body obj x e).1.db.index ≡ e.db.index
  unfolding index_record
  indexed-err key body obj (err y) e d h = refl
  indexed-err key body obj (ok (a, crc)) e d h = commit-err e.db.commits _ e.db.index d h

  pub indexed-store :
      (key : BlockKey) (body : Body) (obj : Option ℕ) (x : IoResult (RecordAddr × ℕ)) (e : S)
      → (index_record segments zstd cfg key body obj x e).1.store ≡ e.store
  unfolding index_record
  indexed-store key body obj (err y) e = refl
  indexed-store key body obj (ok (a, crc)) e = refl

  abbrev is_inline : Body → Option ℕ → Bool
  is_inline body obj = not (is_some obj) && ltb (length body % 2 ^ 32) cfg.inline_min

  -- What a lookup finds is still there after a put, whether or not the put succeeds.
  put-Held :
      (key : BlockKey) (body : Body) (obj : Option ℕ) (e : S) (l : _) (b : Body)
      → Held segments zstd cfg l e.store b
      → Held segments zstd cfg l (put_impl segments zstd cfg key body obj e).1.store b
  unfolding put_impl
  put-Held key body obj e l b h =
      let r = record_of segments zstd cfg key body in
      let x = segments.append r e.store in
      let appended = append_retried segments zstd cfg r x e in
      elim (Bool-cases (is_inline body obj)) [
        | inl small ↦ rw small h
        | inr large ↦
            rw (large, indexed-store key body obj appended.0 appended.1)
              (retried-Held segments zstd cfg Whole law r x e l b
                (Held-append segments zstd cfg Whole law r l e.store b h))
      ]

  put_err-index :
      (key : BlockKey) (body : Body) (obj : Option ℕ) (e : S) (d : _)
      → (put_impl segments zstd cfg key body obj e).0 ≡ err d
      → (put_impl segments zstd cfg key body obj e).1.db.index ≡ e.db.index
  unfolding put_impl
  put_err-index key body obj e d h =
      let r = record_of segments zstd cfg key body in
      let x = segments.append r e.store in
      let appended = append_retried segments zstd cfg r x e in
      elim (Bool-cases (is_inline body obj)) [
        | inl small ↦ rw small (commit-err e.db.commits _ e.db.index d (rw small at h))
        | inr large ↦ rw large (
            indexed-err key body obj appended.0 appended.1 d (rw large at h)
            ∙ ap (λ db. db.index) (retried-db segments zstd cfg Whole law r x e))
      ]

  -- A put that fails, at the append or at the transaction, loses nothing: every body that was
  -- read before it is read after it, also the old body of its own key, if the
  -- segments only grow.
  pub get-put_failed :
      (key k : BlockKey) (body b : Body) (obj : Option ℕ) (e : S) (d : DomainError)
      → (put_impl segments zstd cfg key body obj e).0 ≡ err d
      → get segments zstd cfg k e ≡ ok b
      → get segments zstd cfg k (put_impl segments zstd cfg key body obj e).1 ≡ ok b
  unfolding get_between
  get-put_failed key k body b obj e d failed h =
      let held = final-Held segments zstd cfg (lookup k e.db.index) e.store b h in
      rw (put_err-index key body obj e d failed)
        (Held-final segments zstd cfg _ _ b (put-Held key body obj e _ b held))

  missing_if :
      (c : Bool) (l : DomainResult Lookup) (st : segments.Store)
      → final segments zstd cfg (if c then ok missing else l) st
        ≡ (if c then err not_found else final segments zstd cfg l st)
  missing_if true l st = refl
  missing_if false l st = refl

  -- After a delete that commits, its key is not found and every other key reads as before.
  pub get-delete :
      (key k : BlockKey) (e : S)
      → (delete segments zstd cfg key e).0 ≡ ok tt
      → get segments zstd cfg k (delete segments zstd cfg key e).1
        ≡ (if bytes_eq key k then err not_found else get segments zstd cfg k e)
  unfolding delete get_between
  get-delete key k e h =
      rw
        (commit-ok e.db.commits (delete_rows key) e.db.index h, lookup-delete_rows key k e.db.index)
        (missing_if (bytes_eq key k) (lookup k e.db.index) e.store)

  pub commit-other :
      (cs : List Bool) (f : Index → Index) (ix : Index) (k : BlockKey)
      → lookup k (f ix) ≡ lookup k ix
      → lookup k (commit cs f ix).1.index ≡ lookup k ix
  commit-other [] f ix k h = h
  commit-other (true ∷ cs) f ix k h = h
  commit-other (false ∷ cs) f ix k h = refl

  indexed-other :
      (key k : BlockKey) (body : Body) (obj : Option ℕ) (x : IoResult (RecordAddr × ℕ)) (e : S)
      → bytes_eq key k ≡ false
      → lookup k (index_record segments zstd cfg key body obj x e).1.db.index ≡ lookup k e.db.index
  unfolding index_record
  indexed-other key k body obj (err y) e other = refl
  indexed-other key k body obj (ok (a, crc)) e other =
      commit-other e.db.commits _ e.db.index k (put_addr-other key k _ e.db.index other)

  put-other :
      (key k : BlockKey) (body : Body) (obj : Option ℕ) (e : S)
      → bytes_eq key k ≡ false
      → lookup k (put_impl segments zstd cfg key body obj e).1.db.index ≡ lookup k e.db.index
  unfolding put_impl
  put-other key k body obj e other =
      let r = record_of segments zstd cfg key body in
      let x = segments.append r e.store in
      let appended = append_retried segments zstd cfg r x e in
      elim (Bool-cases (is_inline body obj)) [
        | inl small ↦ rw small (
            commit-other e.db.commits (put_inline key body) e.db.index k
              (put_inline-other key k body e.db.index other))
        | inr large ↦ rw large (
            indexed-other key k body obj appended.0 appended.1 other
            ∙ ap (λ db. lookup k db.index) (retried-db segments zstd cfg Whole law r x e))
      ]

  -- A put, whether or not it succeeds, leaves every body readable that is under another key,
  -- if the segments only grow.
  pub get-put_other :
      (key k : BlockKey) (body b : Body) (obj : Option ℕ) (e : S)
      → bytes_eq key k ≡ false
      → get segments zstd cfg k e ≡ ok b
      → get segments zstd cfg k (put_impl segments zstd cfg key body obj e).1 ≡ ok b
  unfolding get_between
  get-put_other key k body b obj e other h =
      let held = final-Held segments zstd cfg (lookup k e.db.index) e.store b h in
      rw (put-other key k body obj e other)
        (Held-final segments zstd cfg _ _ b (put-Held key body obj e _ b held))
