-- ===== src/Shards/Laws.antt =====
-- Lists of shards that differ, and fleets with a shard replaced.
use ozd.Prelude.{
  ℕ, List, [], ◌∷◌, ◌++◌, false, ◌≡◌, ◌≢◌, refl, arith, sym, ◌==◌, All, ==_refl, ==_iff, Bool-cases,
  inl, inr,
}
use ozd.Placement.Choice.{Fresh}
use ozd.Shards.{update}

pub ne→== : (i j : ℕ) → i ≢ j → (i == j) ≡ false
ne→== i j h = ground arith

pub update-same {ℓ} : {A : Type ℓ} (f : ℕ → A) (i : ℕ) (a : A) → update f i a i ≡ a
update-same f i a = rw (==_refl i) refl

pub update-other {ℓ} :
    {A : Type ℓ} (f : ℕ → A) (i : ℕ) (a : A) (j : ℕ) → i ≢ j → update f i a j ≡ f j
update-other f i a j h = rw (ne→== i j h) refl

pub All-map {ℓ κ κ'} :
    {A : Type ℓ} {P : A → Type κ} {Q : A → Type κ'} (xs : List A)
    → ((x : A) → P x → Q x)
    → All P xs
    → All Q xs
All-map [] f h = tt
All-map (x ∷ xs) f h = (f x h.0, All-map xs f h.1)

pub All-snoc {ℓ κ} :
    {A : Type ℓ} (P : A → Type κ) (xs : List A) (x : A) → All P xs → P x → All P (xs ++ x ∷ [])
All-snoc P [] x h p = (p, tt)
All-snoc P (y ∷ ys) x h p = (h.0, All-snoc P ys x h.1 p)

-- A predicate of the shards that holds before holds after one of them is replaced, if it holds of
-- the new one.
pub update-All {ℓ κ} :
    {A : Type ℓ} (P : A → Type κ) (f : ℕ → A) (i : ℕ) (a : A) (j : ℕ)
    → (i ≡ j → P a)
    → P (f j)
    → P (update f i a j)
update-All P f i a j new old = elim (Bool-cases (i == j)) [
  | inl e ↦ rw e (new ((==_iff i j).0 e))
  | inr e ↦ rw e old
]

-- What holds of other shards holds of them after one is replaced.
pub update-Fresh {ℓ κ} :
    {A : Type ℓ} (P : A → Type κ) (f : ℕ → A) (i : ℕ) (a : A) (is : List ℕ)
    → Fresh i is
    → All (λ j. P (f j)) is
    → All (λ j. P (update f i a j)) is
update-Fresh P f i a [] h all = tt
update-Fresh P f i a (j ∷ is) h all =
    (update-All P f i a j (λ e. absurd (h.0 (sym e))) all.0, update-Fresh P f i a is h.1 all.1)
