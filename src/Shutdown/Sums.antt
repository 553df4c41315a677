-- ===== src/Shutdown/Sums.antt =====
-- Sums over the contexts of runtime/mod.rs, when one context changes or two do.
use dytor.Common.{
  subst, true, false, ℕ, zero, suc, ◌+◌, ◌≤◌, ◌<◌, ◌≡◌, ◌≢◌, refl, arith, ◌==◌, ℕ_discrete, update,
}
use dytor.Shutdown.{sum_below}

module _ {A : Type 0} (w : A → ℕ) where
  sum-update_beyond :
      (n : ℕ) (f : ℕ → A) (i : ℕ) (a : A) → n ≤ i → sum_below w n (update f i a) ≡ sum_below w n f
  unfolding sum_below
  sum-update_beyond zero f i a h = refl
  sum-update_beyond (suc n) f i a h = ground (arith, sum-update_beyond n f i a)

  pub sum-update :
      (n : ℕ) (f : ℕ → A) (i : ℕ) (a : A)
      → i < n
      → sum_below w n (update f i a) + w (f i) ≡ sum_below w n f + w a
  unfolding sum_below
  sum-update zero f i a h = absurd (omega arith)
  sum-update (suc n) f i a h = elim (ℕ_discrete i n) [
    | yes last ↦ ground (arith, sum-update_beyond n f i a)
    | no other ↦ ground (arith, sum-update n f i a)
  ]

  -- Two contexts change, the first by moving to `a`, the second to `b`.
  pub sum-update_two :
      (n : ℕ) (f : ℕ → A) (i j : ℕ) (a b : A)
      → i < n
      → j < n
      → i ≢ j
      → sum_below w n (update (update f i a) j b) + w (f i) + w (f j) ≡ sum_below w n f + w a + w b
  sum-update_two n f i j a b hi hj ne =
      let same : update f i a j ≡ f j = ground arith in
      let second = sum-update n (update f i a) j b hj in
      omega (arith, sum-update n f i a hi, rw same at second)

  pub le-sum : (n : ℕ) (f : ℕ → A) (i : ℕ) → i < n → w (f i) ≤ sum_below w n f
  unfolding sum_below
  le-sum zero f i h = absurd (omega arith)
  le-sum (suc n) f i h = elim (ℕ_discrete i n) [
    | yes last ↦ ground arith
    | no other ↦ omega (arith, le-sum n f i (omega arith))
  ]

-- What holds of the new context, and of each old one, holds after the update.
pub update_rule :
    {A : Type 0} (P : ℕ → A → Type 0) (f : ℕ → A) (i k : ℕ) (a : A)
    → P i a
    → P k (f k)
    → P k (update f i a k)
update_rule P f i k a new old = elim (ℕ_discrete i k) [
  | yes same ↦ let t : (i == k) ≡ true = ground arith in rw t (subst (λ j. P j a) same new)
  | no other ↦ let t : (i == k) ≡ false = ground arith in rw t old
]
