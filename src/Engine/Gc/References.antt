-- ===== src/Engine/Gc/References.antt =====
-- The choice of the victim and the references of crates/ozd-engine/src/lib.rs.
use ozd.Prelude.{
  ℕ, List, [], ◌∷◌, true, Option, none, some, ◌≡◌, refl, ap, ◌⊎◌, inl, inr, arith, ltb, ◌==◌,
  ==_refl, Bool-cases,
}
use mathlib.Core.List.{Memᴰ}
use ozd.Domain.{BlockKey}
use ozd.Index.{AddrEntry, decode_addr}
use ozd.Tables.{Index, lookup, unwrap_or}
use ozd.Engine.Gc.{
  choose_victim, more_discarded, referenced_segments, count_ref, count_row, contains_key,
  clear_discard, clear_discards, bump_all,
}

-- A segment stays in the map of references, and a row's segment is in it.
count-contains :
    (id j : ℕ) (refs : List (ℕ × ℕ))
    → contains_key j refs ≡ true
    → contains_key j (count_ref id refs) ≡ true
unfolding contains_key count_ref
count-contains id j [] h = absurd cc
count-contains id j ((i, n) ∷ refs) h = ground (arith, count-contains id j refs)

count-contains_self : (id : ℕ) (refs : List (ℕ × ℕ)) → contains_key id (count_ref id refs) ≡ true
unfolding contains_key count_ref
count-contains_self id [] = rw ==_refl refl
count-contains_self id ((i, n) ∷ refs) = ground (arith, count-contains_self id refs)

referenced-contains :
    (rows : List (BlockKey × List ℕ)) (refs : List (ℕ × ℕ)) (j : ℕ)
    → contains_key j refs ≡ true
    → contains_key j (referenced_segments rows refs) ≡ true
unfolding referenced_segments
referenced-contains [] refs j h = h
referenced-contains ((k, v) ∷ rows) refs j h =
    referenced-contains rows (count_row (decode_addr v) refs) j (counted (decode_addr v))
  where
    counted : (o : Option AddrEntry) → contains_key j (count_row o refs) ≡ true
    counted none = h
    counted (some e) = count-contains e.addr.seg_id j refs h

-- The segment of every row that the table lists is referenced.
pub referenced_row :
    (rows : List (BlockKey × List ℕ)) (refs : List (ℕ × ℕ)) (k : BlockKey) (v : List ℕ)
    (e : AddrEntry)
    → Memᴰ (k, v) rows
    → decode_addr v ≡ some e
    → contains_key e.addr.seg_id (referenced_segments rows refs) ≡ true
unfolding referenced_segments
referenced_row [] refs k v e listed row = elim listed [ ]
referenced_row ((k', v') ∷ rows) refs k v e (Memᴰ.head same) row =
    referenced-contains rows (count_row (decode_addr v') refs) e.addr.seg_id
      (rw (← ap (λ p. p.1) same, row) (count-contains_self e.addr.seg_id refs))
referenced_row ((k', v') ∷ rows) refs k v e (Memᴰ.tail listed) row =
    referenced_row rows (count_row (decode_addr v') refs) k v e listed row

pub lookup-bump_all :
    (os : List (ℕ × ℕ)) (k : BlockKey) (ix : Index) → lookup k (bump_all os ix) ≡ lookup k ix
unfolding lookup bump_all
lookup-bump_all [] k ix = refl
lookup-bump_all ((seg, n) ∷ os) k ix = lookup-bump_all os k _

pub lookup-clear_discards :
    (ids : List ℕ) (k : BlockKey) (ix : Index) → lookup k (clear_discards ids ix) ≡ lookup k ix
unfolding lookup clear_discards clear_discard
lookup-clear_discards [] k ix = refl
lookup-clear_discards (id ∷ ids) k ix = lookup-clear_discards ids k _

pub lookup-clear_discard :
    (id : ℕ) (k : BlockKey) (ix : Index) → lookup k (clear_discard id ix) ≡ lookup k ix
unfolding lookup clear_discard
lookup-clear_discard id k ix = refl

pub choose_victim-Memᴰ :
    (discard : ℕ → Option ℕ) (sealed : List (ℕ × ℕ)) (o : Option (ℕ × ℕ × ℕ)) (id size d : ℕ)
    → choose_victim discard sealed o ≡ some (id, size, d)
    → (o ≡ some (id, size, d)) ⊎ Memᴰ (id, size) sealed
unfolding choose_victim
choose_victim-Memᴰ discard [] o id size d h = inl h
choose_victim-Memᴰ discard ((i, n) ∷ rest) o id size d h =
    elim (choose_victim-Memᴰ discard rest _ id size d h) [
      | inr later ↦ inr (Memᴰ.tail later)
      | inl now ↦ first o now
    ]
  where
    first :
        (o : Option (ℕ × ℕ × ℕ))
        → more_discarded (i, n) (unwrap_or (discard i) 0) o ≡ some (id, size, d)
        → (o ≡ some (id, size, d)) ⊎ Memᴰ (id, size) ((i, n) ∷ rest)
    first none now = elim (Bool-cases (unwrap_or (discard i) 0 == 0)) [
      | inl clean ↦ absurd (let no = rw clean at now in ground arith)
      | inr dirty ↦ inr (Memᴰ.head (let yes = rw dirty at now in grind arith))
    ]
    first (some (v, m, w)) now = elim (Bool-cases (unwrap_or (discard i) 0 == 0)) [
      | inl clean ↦ inl (rw clean at now)
      | inr dirty ↦ elim (Bool-cases (ltb w (unwrap_or (discard i) 0))) [
        | inl more ↦ inr (Memᴰ.head (let yes = rw (dirty, more) at now in grind arith))
        | inr less ↦ inl (rw (dirty, less) at now)
      ]
    ]
