-- ===== src/Pool/Read/Survives.antt =====
-- Of different shards that hold a block, one is left when fewer shards are lost.
use ozd.Prelude.{
  suc, ◌<◌, List, [], ◌∷◌, true, false, ◌||◌, ◌≡◌, ◌≢◌, refl, sym, ap, ◌∙◌, arith, All, Bool-cases,
  inl, inr, ◌==◌, ==_iff, length, if◌then◌else◌,
}
use ozd.Domain.{ShardId}
use ozd.Placement.Choice.{Fresh, Distinct}
use ozd.Shards.Laws.{ne→==}
use ozd.Pool.Write.{contains}

erase : ShardId → List ShardId → List ShardId
erase i [] = []
erase i (j ∷ js) = if i == j then js else j ∷ erase i js

length-erase :
    (i : ShardId) (is : List ShardId) → contains is i ≡ true → suc (length (erase i is)) ≡ length is
unfolding erase
length-erase i [] h = ground arith
length-erase i (j ∷ js) h = elim (Bool-cases (i == j)) [
  | inl e ↦ rw e refl
  | inr e ↦ rw e (ap suc (length-erase i js (sym (ap (λ b. b || contains js i) e) ∙ h)))
]

contains-erase :
    (i j : ShardId) (is : List ShardId) → j ≢ i → contains (erase i is) j ≡ contains is j
unfolding erase
contains-erase i j [] ne = refl
contains-erase i j (k ∷ ks) ne = elim (Bool-cases (i == k)) [
  | inl e ↦
      rw e (sym (ap (λ b. b || contains ks j) (ne→== j k (λ x. ne (x ∙ sym ((==_iff i k).0 e))))))
  | inr e ↦ rw e (ap (λ b. (j == k) || b) (contains-erase i j ks ne))
]

paired_apart :
    (P : ShardId → Type 0) (i : ShardId) (is : List ShardId)
    → Fresh i is
    → All P is
    → All (λ j. (j ≢ i) × P j) is
paired_apart P i [] f h = tt
paired_apart P i (j ∷ js) f h = ((f.0, h.0), paired_apart P i js f.1 h.1)

pub survivor :
    (P : ShardId → Type 0) (on lost : List ShardId)
    → Distinct on
    → All P on
    → length lost < length on
    → (i : ShardId) × (contains lost i ≡ false) × P i
survivor P [] lost d h l = absurd (omega arith)
survivor P (i ∷ is) lost d h l = elim (Bool-cases (contains lost i)) [
  | inr e ↦ (i, e, h.0)
  | inl e ↦
      let (j, e', other) =
        survivor (λ j. (j ≢ i) × P j) is (erase i lost) d.1 (paired_apart P i is d.0 h.1)
          (omega (arith, l, length-erase i lost e)) in
      (j, sym (contains-erase i j lost other.0) ∙ e', other.1)
]
