-- ===== src/SemJobqueue/Family.antt =====
-- Processes by number, and sums over the first of them.
use csc.Base.{ℕ, zero, suc, ◌+◌, ◌*◌, ◌≤◌, ◌<◌, ◌≡◌, ◌≢◌, refl, arith, dec_lt}
use csc.Job.{update}

module _ {ℓ} {A : Type ℓ} (weight : A → ℕ) where
  pub sum_below : ℕ → (ℕ → A) → ℕ
  sum_below zero f = 0
  sum_below (suc n) f = weight (f n) + sum_below n f

  sum_below-update_out :
      (n i : ℕ) (f : ℕ → A) (a : A) → n ≤ i → sum_below n (update f i a) ≡ sum_below n f
  unfolding sum_below
  sum_below-update_out zero i f a h = refl
  sum_below-update_out (suc n) i f a h = ground (arith, sum_below-update_out n i f a)

  -- Changing one member changes the sum by the difference of its weights.
  pub sum_below-update :
      (n i : ℕ) (f : ℕ → A) (a : A)
      → i < n
      → sum_below n (update f i a) + weight (f i) ≡ sum_below n f + weight a
  unfolding sum_below
  sum_below-update zero i f a h = absurd (omega arith)
  sum_below-update (suc n) i f a h = elim (dec_lt i n) [
    | yes below ↦ ground (arith, sum_below-update n i f a)
    | no last ↦ ground (arith, sum_below-update_out n i f a)
  ]

  pub weight-le-sum : (n i : ℕ) (f : ℕ → A) → i < n → weight (f i) ≤ sum_below n f
  unfolding sum_below
  weight-le-sum zero i f h = absurd (omega arith)
  weight-le-sum (suc n) i f h = elim (dec_lt i n) [
    | yes below ↦ ground (arith, weight-le-sum n i f)
    | no last ↦ ground arith
  ]

  -- Two members count separately.
  pub two-le-sum :
      (n i j : ℕ) (f : ℕ → A) → i < n → j < n → i ≢ j → weight (f i) + weight (f j) ≤ sum_below n f
  unfolding sum_below
  two-le-sum zero i j f hi hj ne = absurd (omega arith)
  two-le-sum (suc n) i j f hi hj ne = elim (dec_lt i n) [
    | yes p ↦ elim (dec_lt j n) [
      | yes q ↦ ground (arith, two-le-sum n i j f p q ne)
      | no q ↦ ground (arith, weight-le-sum n i f p)
    ]
    | no p ↦ ground (arith, weight-le-sum n j f)
  ]

pub sums-le {ℓ} :
    {A : Type ℓ} (u v w : A → ℕ)
    → ((a : A) → u a + v a ≤ w a)
    → (n : ℕ) (f : ℕ → A) → sum_below u n f + sum_below v n f ≤ sum_below w n f
unfolding sum_below
sums-le u v w le zero f = omega arith
sums-le u v w le (suc n) f = omega (arith, le (f n), sums-le u v w le n f)

-- Where two weights together are at most a third one, and less at `i`, so are the sums.
pub sums-lt {ℓ} :
    {A : Type ℓ} (u v w : A → ℕ)
    → ((a : A) → u a + v a ≤ w a)
    → (n i : ℕ) (f : ℕ → A) → i < n
    → u (f i) + v (f i) < w (f i)
    → sum_below u n f + sum_below v n f < sum_below w n f
unfolding sum_below
sums-lt u v w le zero i f h lt = absurd (omega arith)
sums-lt u v w le (suc n) i f h lt = elim (dec_lt i n) [
  | yes below ↦ ground (arith, le (f n), sums-lt u v w le n i f below lt)
  | no last ↦ ground (arith, sums-le u v w le n f)
]

pub sum-le-times {ℓ} :
    {A : Type ℓ} (w : A → ℕ) (c : ℕ)
    → ((a : A) → w a ≤ c)
    → (n : ℕ) (f : ℕ → A) → sum_below w n f ≤ c * n
unfolding sum_below
sum-le-times w c le zero f = omega arith
sum-le-times w c le (suc n) f = omega (arith, le (f n), sum-le-times w c le n f)

pub sum-zero {ℓ} :
    {A : Type ℓ} (w : A → ℕ) (n : ℕ) (f : ℕ → A)
    → ((j : ℕ) → j < n → w (f j) ≡ 0)
    → sum_below w n f ≡ 0
unfolding sum_below
sum-zero w zero f h = refl
sum-zero w (suc n) f h =
    omega (arith, h n (omega arith), sum-zero w n f (λ j lt. h j (omega arith)))

-- A sum that is not zero has a member that is not.
pub sum-member {ℓ} :
    {A : Type ℓ} (w : A → ℕ) (n : ℕ) (f : ℕ → A)
    → 0 < sum_below w n f
    → (j : ℕ) × (j < n) × (0 < w (f j))
unfolding sum_below
sum-member w zero f h = absurd (omega arith)
sum-member w (suc n) f h = elim (dec_lt 0 (w (f n))) [
  | yes here ↦ (n, omega arith, here)
  | no zero_here ↦ let (j, lt, p) = sum-member w n f (omega arith) in (j, omega arith, p)
]
