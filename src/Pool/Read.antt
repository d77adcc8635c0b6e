-- ===== src/Pool/Read.antt =====
-- The reads of crates/ozd-app/src/pool.rs: get, stat, has and list. A race says which of two reads
-- that run at the same time answers first, and `answers` in which order parallel reads answer.
pub mod Found
pub mod Survives
use ozd.Prelude.{
  ℕ, zero, suc, ◌+◌, ◌-◌, ◌%◌, min, max, List, [], ◌∷◌, ◌++◌, Bool, true, false, not, ◌&&◌, Option,
  none, some, ltb, leb, ◌==◌, if◌then◌else◌, length, take, drop, set, get_or, get_elem?, replicate,
}
use ozd.Domain.{BlockKey, Body, ShardId, DomainError, not_found, DomainResult, ok, err}
use ozd.Domain.Piece.{PieceHeader, parse_piece_header}
use ozd.Erasure.{ReedSolomon, EcConfig, total, present, all_present, ec_decode}
use ozd.Placement.{Row}
use ozd.Shards.{ShardEngine}
use ozd.Pool.{Pool, ranking_for, replicas_for}
use ozd.Pool.Write.{contains}

-- The limits on the threshold, in microseconds.
abbrev hedge_min : ℕ
hedge_min = 10000

abbrev hedge_max : ℕ
hedge_max = 2000000

-- The time after which a read asks a second disk; `static` is `speculative_retry_after`.
unfoldable pub hedge_threshold : Bool → Option ℕ → Option ℕ → Option ℕ
hedge_threshold false p99 static = static
hedge_threshold true none static = static
hedge_threshold true (some p) static = some (min (max p hedge_min) hedge_max)

-- With a threshold, the first replica answers within it, or the second one is asked too and one of
-- them answers first.
pub data Race : Type 0 where
  in_time first_leg second_leg : Race

-- The replicas whose answers come out of the channel, in their order.
unfoldable pub asked : Option Race → List ShardId → List ShardId
asked none reps = []
asked (some r) [] = []
asked (some r) (i ∷ []) = []
asked (some Race.in_time) (i ∷ j ∷ is) = i ∷ []
asked (some Race.first_leg) (i ∷ j ∷ is) = i ∷ j ∷ []
asked (some Race.second_leg) (i ∷ j ∷ is) = j ∷ i ∷ []

-- The error that is kept: an absent block does not replace it.
abbrev pub kept : DomainError → DomainError → DomainError
kept not_found last = last
kept e last = e

-- The slot of a piece, if it is one of the set and is still empty.
unfoldable pub place : Body → List (Option Body) → List (Option Body)
unfolding parse_piece_header
place b slots = elim (parse_piece_header b) [
  | none ↦ slots
  | some h ↦ elim (get_elem? slots h.piece_idx) [
    | none ↦ slots
    | some (some x) ↦ slots
    | some none ↦ set slots h.piece_idx (some b)
  ]
]

-- The ranks below n of the empty slots, but for the one that was read first.
unfoldable pub wanted : ℕ → ℕ → ℕ → List (Option Body) → List ℕ
wanted zero r probe slots = []
wanted (suc n) r probe slots =
    let rest = wanted n (r + 1) probe slots in
    elim (get_or slots r none) [ none ↦ if r == probe then rest else r ∷ rest | some b ↦ rest ]

abbrev pub targets_at : List ShardId → List ℕ → List ShardId
targets_at targets [] = []
targets_at targets (r ∷ rs) = elim (get_elem? targets r) [
  | none ↦ targets_at targets rs
  | some i ↦ i ∷ targets_at targets rs
]

-- What a look at the ranked disks finds: the rank and the body, or the error to report.
pub data Probe : Type 0 where
  hit : ℕ → Body → Probe
  missed : DomainError → Probe

module _ (eng : ShardEngine) where
  open eng use {Shard}

  -- The first body that one of the disks gives.
  unfoldable pub read_legs : BlockKey → (ℕ → Shard) → List ShardId → DomainError → DomainResult Body
  read_legs key shards [] last = err last
  read_legs key shards (i ∷ is) last = elim (eng.get key (shards i)) [
    | ok b ↦ ok b
    | err e ↦ read_legs key shards is (kept e last)
  ]

  -- The shards from the i-th on that are not among those asked before.
  unfoldable pub others : ℕ → ℕ → List ShardId → List ShardId
  others i zero reps = []
  others i (suc n) reps =
      let rest = others (i + 1) n reps in if contains reps i then rest else i ∷ rest

  -- All other shards; their errors are not kept.
  unfoldable pub scan : BlockKey → (ℕ → Shard) → List ShardId → Option Body
  scan key shards [] = none
  scan key shards (i ∷ is) = elim (eng.get key (shards i)) [
    | ok b ↦ some b
    | err e ↦ scan key shards is
  ]

  abbrev pub or_scanned : DomainResult Body → Option Body → DomainResult Body
  or_scanned (ok b) s = ok b
  or_scanned (err e) none = err e
  or_scanned (err e) (some b) = ok b

  -- `get_inner` without erasure coding, of the chosen replicas.
  unfoldable pub read_replicas :
      Option Race → BlockKey → List ShardId → (ℕ → Shard) → ℕ → DomainResult Body
  unfolding read_legs others scan asked
  read_replicas race key reps shards n =
      let first = asked race reps in
      or_scanned (read_legs key shards (first ++ drop (length first) reps) not_found)
        (scan key shards (others 0 n reps))

  unfoldable pub probe : BlockKey → (ℕ → Shard) → ℕ → List ShardId → DomainError → Probe
  probe key shards rank [] last = Probe.missed last
  probe key shards rank (i ∷ is) last = elim (eng.get key (shards i)) [
    | ok b ↦ Probe.hit rank b
    | err e ↦ probe key shards (rank + 1) is (kept e last)
  ]

  -- The pieces that the disks give, in the order in which they answer.
  unfoldable pub gather :
      BlockKey → (ℕ → Shard) → List ShardId → List (Option Body) → List (Option Body)
  unfolding place
  gather key shards [] slots = slots
  gather key shards (i ∷ is) slots = elim (eng.get key (shards i)) [
    | ok b ↦ gather key shards is (place b slots)
    | err e ↦ gather key shards is slots
  ]

  -- The scan of `get_ec_aware`: a mirrored body, or the pieces of the set of the last header.
  abbrev resized : PieceHeader → List (Option Body) → List (Option Body)
  resized h slots =
      if length slots == (h.k + h.m) % 256 then slots else replicate ((h.k + h.m) % 256) none

  abbrev pub Strays : Type 0
  Strays = Option Body × List (Option Body) × Option PieceHeader

  unfoldable pub scan_strays :
      BlockKey → (ℕ → Shard) → List ShardId → List (Option Body) → Option PieceHeader → Strays
  unfolding place parse_piece_header
  scan_strays key shards [] slots hdr = (none, slots, hdr)
  scan_strays key shards (i ∷ is) slots hdr = elim (eng.get key (shards i)) [
    | err e ↦ scan_strays key shards is slots hdr
    | ok b ↦ elim (parse_piece_header b) [
      | none ↦ (some b, slots, hdr)
      | some h ↦ scan_strays key shards is (place b (resized h slots)) (some h)
    ]
  ]

  module _ (rs : ReedSolomon) where
    -- `ec_decode` of the stray pieces, if there are enough.
    unfoldable pub decode_strays : Strays → DomainError → DomainResult Body
    unfolding ec_decode
    decode_strays (some b, slots, hdr) last = ok b
    decode_strays (none, slots, none) last = err last
    decode_strays (none, slots, some h) last =
        if leb h.k (length (present rs slots)) then ec_decode rs slots h.k h.m else err last

    module _ (answers : List ShardId → List ShardId) where
      -- First the data pieces, then the parity pieces, then all other disks.
      unfoldable pub gather_ec :
          BlockKey → List ShardId → ℕ → Body → PieceHeader → (ℕ → Shard) → ℕ → DomainResult Body
      unfolding gather wanted others ec_decode
      gather_ec key targets rank first h shards n =
          let slots0 = set (replicate (h.k + h.m) none) h.piece_idx (some first) in
          let data_ranks = wanted h.k 0 rank slots0 in
          let slots1 = gather key shards (answers (targets_at targets data_ranks)) slots0 in
          if all_present rs (take h.k slots1)
          then ec_decode rs slots1 h.k h.m
          else (let parity_ranks = wanted h.m h.k rank slots1 in
              let slots2 = gather key shards (answers (targets_at targets parity_ranks)) slots1 in
              let strays = gather key shards (others 0 n targets) slots2 in
              ec_decode rs (if ltb (length (present rs slots2)) h.k then strays else slots2) h.k
                h.m)

      unfoldable pub read_probed :
          BlockKey → List ShardId → Probe → (ℕ → Shard) → ℕ → DomainResult Body
      unfolding gather_ec decode_strays scan_strays others parse_piece_header
      read_probed key targets (Probe.missed last) shards n =
          decode_strays (scan_strays key shards (others 0 n targets) [] none) last
      read_probed key targets (Probe.hit rank body) shards n = elim (parse_piece_header body) [
        | none ↦ ok body
        | some h ↦ gather_ec key targets rank body h shards n
      ]

      module _ (select : BlockKey → List Row → ℕ → List ShardId) where
        unfoldable pub get_as :
            Option EcConfig → Option Race → ℕ → BlockKey → Pool eng → DomainResult Body × Pool eng
        unfolding replicas_for ranking_for read_replicas probe read_probed total
        get_as none race now key p =
            let (reps, p') = replicas_for eng select now key p in
            (read_replicas race key reps p'.shards p'.shard_count, p')
        get_as (some ec) race now key p =
            let (targets, p') = ranking_for eng select now key (max (total ec) p.cfg.replicas) p in
            (
              read_probed key targets (probe key p'.shards 0 targets not_found) p'.shards
                  p'.shard_count,
              p',
            )

        -- `get`: the pool also answers while it shuts down.
        unfoldable pub get : Option Race → ℕ → BlockKey → Pool eng → DomainResult Body × Pool eng
        unfolding get_as
        get race now key p = get_as p.cfg.ec race now key p
