-- ===== src/Pool/Drain/Totals.antt =====
-- Sums over the workers that drain the heal queue of crates/ozd-app/src/pool.rs.
use mathlib.Core.Option.{none-ne-some, some-injective}
use ozd.Prelude.{
  ℕ, zero, suc, ◌+◌, List, [], ◌∷◌, ◌++◌, Bool, some, ◌≡◌, ap, arith, if◌then◌else◌, take, drop,
  get_elem?, set,
}
use ozd.Pool.Drain.{Running}

-- How many entries of a list pass a test.
abbrev pub tally {ℓ} : {A : Type ℓ} → (A → Bool) → List A → ℕ
tally q [] = 0
tally q (x ∷ xs) = (if q x then 1 else 0) + tally q xs

pub tally-append {ℓ} :
    {A : Type ℓ} (q : A → Bool) (xs ys : List A) → tally q (xs ++ ys) ≡ tally q xs + tally q ys
tally-append q [] ys = omega arith
tally-append q (x ∷ xs) ys = omega (arith, tally-append q xs ys)

abbrev pub total : (Running → ℕ) → List Running → ℕ
total f [] = 0
total f (w ∷ ws) = f w + total f ws

module _ (f : Running → ℕ) where
  pub total-append : (xs ys : List Running) → total f (xs ++ ys) ≡ total f xs + total f ys
  total-append [] ys = omega arith
  total-append (w ∷ ws) ys = omega (arith, total-append ws ys)

  pub total-drop :
      (n : ℕ) (ws : List Running) (w : Running)
      → get_elem? ws n ≡ some w
      → total f (take n ws ++ drop (suc n) ws) + f w ≡ total f ws
  total-drop n [] w h = absurd (none-ne-some w h)
  total-drop zero (v ∷ ws) w h = omega (arith, ap f (some-injective v w h))
  total-drop (suc n) (v ∷ ws) w h = omega (arith, total-drop n ws w h)

  pub total-set :
      (n : ℕ) (ws : List Running) (w w' : Running)
      → get_elem? ws n ≡ some w
      → total f (set ws n w') + f w ≡ total f ws + f w'
  total-set n [] w w' h = absurd (none-ne-some w h)
  total-set zero (v ∷ ws) w w' h = omega (arith, ap f (some-injective v w h))
  total-set (suc n) (v ∷ ws) w w' h = omega (arith, total-set n ws w w' h)
