-- ===== src/Pool/Write/Arrival.antt =====
-- The answers of the threads that write the replicas of a block (crates/ozd-app/src/pool.rs)
-- arrive in some order.
use mathlib.Core.List.{Permᴰ}
use ozd.Prelude.{List, [], ◌∷◌, ◌≢◌, ◌≡◌, sym, ◌∙◌, ap, All, ℕ}
use ozd.Domain.{BlockKey, ShardId}
use ozd.Placement.{Row}
use ozd.Placement.Choice.{Fresh, Distinct}
use ozd.Pool.Topology.{row_ids}
use ozd.Pool.Write.{Job}
use ozd.Pool.Write.Acked.{ids}

-- A placement policy chooses different ones of the shards it is given.
pub record IsPolicy (select : BlockKey → List Row → ℕ → List ShardId) : Type 1 where
  pub chosen-Distinct :
      (key : BlockKey) (rows : List Row) (n : ℕ)
      → Distinct (row_ids rows)
      → Distinct (select key rows n)
  pub chosen-All :
      (P : ShardId → Type 0) (key : BlockKey) (rows : List Row) (n : ℕ)
      → All P (row_ids rows)
      → All P (select key rows n)

-- Every answer arrives, and arrives once.
abbrev pub Arrives : (List Job → List Job) → Type 0
Arrives arrive = (js : List Job) → Permᴰ js (arrive js)

module _ {ℓ κ} {A : Type ℓ} (P : A → Type κ) where
  pub All-Perm : {xs ys : List A} → Permᴰ xs ys → All P xs → All P ys
  All-Perm Permᴰ.nil h = tt
  All-Perm (Permᴰ.cons e d) h = (rw⁻¹ e h.0, All-Perm d h.1)
  All-Perm (Permᴰ.swap e f) h = (rw⁻¹ f h.1.0, (rw⁻¹ e h.0, h.1.1))
  All-Perm (Permᴰ.trans d e) h = All-Perm e (All-Perm d h)

ids-Perm : {js ks : List Job} → Permᴰ js ks → Permᴰ (ids js) (ids ks)
ids-Perm Permᴰ.nil = Permᴰ.nil
ids-Perm (Permᴰ.cons e d) = Permᴰ.cons (ap (λ j. j.0) e) (ids-Perm d)
ids-Perm (Permᴰ.swap e f) = Permᴰ.swap (ap (λ j. j.0) e) (ap (λ j. j.0) f)
ids-Perm (Permᴰ.trans d e) = Permᴰ.trans (ids-Perm d) (ids-Perm e)

differs_along : (i j : ShardId) → i ≡ j → (is : List ShardId) → Fresh i is → Fresh j is
differs_along i j e [] h = tt
differs_along i j e (k ∷ is) h = ((λ g. h.0 (g ∙ sym e)), differs_along i j e is h.1)

Distinct-Perm : {is ks : List ShardId} → Permᴰ is ks → Distinct is → Distinct ks
Distinct-Perm Permᴰ.nil h = tt
Distinct-Perm (Permᴰ.cons {b = b} e d) h =
    (All-Perm (λ j. j ≢ b) d (differs_along _ _ e _ h.0), Distinct-Perm d h.1)
Distinct-Perm (Permᴰ.swap e f) h = (
  (λ g. h.0.0 (f ∙ sym g ∙ sym e), differs_along _ _ f _ h.1.0),
  (differs_along _ _ e _ h.0.1, h.1.1),
)
Distinct-Perm (Permᴰ.trans d e) h = Distinct-Perm e (Distinct-Perm d h)

-- Of jobs for different shards, the answers are of different shards.
pub arrive-Distinct :
    (arrive : List Job → List Job) (js : List Job)
    → Arrives arrive
    → Distinct (ids js)
    → Distinct (ids (arrive js))
arrive-Distinct arrive js law h = Distinct-Perm (ids-Perm (law js)) h

pub arrive-All :
    (P : Job → Type 0) (arrive : List Job → List Job) (js : List Job)
    → Arrives arrive
    → All P js
    → All P (arrive js)
arrive-All P arrive js law h = All-Perm P (law js) h

pub arrive-ids :
    (P : ShardId → Type 0) (arrive : List Job → List Job) (js : List Job)
    → Arrives arrive
    → All P (ids js)
    → All P (ids (arrive js))
arrive-ids P arrive js law h = All-Perm P (ids-Perm (law js)) h
