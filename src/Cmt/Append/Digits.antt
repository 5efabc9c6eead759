-- ===== src/Cmt/Append/Digits.antt =====
-- The digits of a leaf's index and of the next one: where `append` meets the tree.
use candyland.Prelude.{
  ℕ, zero, suc, ◌+◌, ◌-◌, ◌/◌, ◌%◌, ◌^◌, ◌≤◌, ◌<◌, ◌≡◌, sym, ap, ◌∙◌, arith, shr, shr-zero, shr-suc,
  shr_above, pow_double, inl, inr, eq_or_ne, test_of_eq, test_of_ne,
}
use candyland.Cmt.Append.{trailing_zeros}

shr-half : (n k : ℕ) → shr (n / 2) k ≡ shr n (suc k)
shr-half n zero = shr-zero (n / 2) ∙ sym (shr-suc n 0 ∙ ap (λ (q : ℕ). q / 2) (shr-zero n))
shr-half n (suc k) =
    shr-suc (n / 2) k ∙ ap (λ (q : ℕ). q / 2) (shr-half n k) ∙ sym (shr-suc n (suc k))

-- With `x` the trailing zeros of `m + 1`: the two indices differ by one in each level up to `x`, and
-- there the path of the next one is a right child.
pub record Meets (m x : ℕ) : Type 0 where
  pub apart : (k : ℕ) → k ≤ x → shr (suc m) k ≡ shr m k + 1
  pub right : shr (suc m) x % 2 ≡ 1
  pub even : (k : ℕ) → k < x → shr (suc m) k % 2 ≡ 0

Meets-odd : (m : ℕ) → suc m % 2 ≡ 1 → Meets m 0
Meets-odd m odd = record {
  apart = λ k le.
      ap (λ (n : ℕ). shr (suc m) n) {x = k} {y = 0} (omega arith)
      ∙ shr-zero (suc m)
      ∙ omega (arith, shr-zero m)
      ∙ ap (λ (n : ℕ). shr m n + 1) {x = 0} {y = k} (omega arith);
  right = rw (shr-zero (suc m)) odd;
  even = λ k lt. absurd (omega arith);
}

Meets-even : (m m' x : ℕ) → suc m / 2 ≡ suc m' → suc m % 2 ≡ 0 → Meets m' x → Meets m (suc x)
Meets-even m m' x half even' meets = record {
  apart = elim [
    | zero ↦ λ _. omega (arith, shr-zero m, shr-zero (suc m))
    | suc k ↦ λ le.
        up k
        ∙ meets.apart k (omega arith)
        ∙ ap (λ (q : ℕ). q + 1)
            (ap (λ (q : ℕ). shr q k) {x = m'} {y = m / 2} (omega arith) ∙ shr-half m k)
  ];
  right = rw (up x) meets.right;
  even = elim [
    | zero ↦ λ _. rw (shr-zero (suc m)) even'
    | suc k ↦ λ lt. rw (up k) (meets.even k (omega arith))
  ];
}
  where
    up : (k : ℕ) → shr (suc m) (suc k) ≡ shr (suc m') k
    up k = sym (shr-half (suc m) k) ∙ ap (λ (q : ℕ). shr q k) half

pub trailing_zeros_lem :
    (w m : ℕ) → suc m < 2 ^ w → (trailing_zeros w (suc m) < w) × Meets m (trailing_zeros w (suc m))
unfolding trailing_zeros
trailing_zeros_lem zero m lt = absurd (omega arith)
trailing_zeros_lem (suc w) m lt = elim (eq_or_ne (suc m % 2) 0) [
  | inl even ↦
      let m' = suc m / 2 - 1 in
      let half : suc m / 2 ≡ suc m' = omega arith in
      let (small, meets) = trailing_zeros_lem w m' (omega (arith, pow_double w)) in
      rw (test_of_eq (suc m % 2) 0 even, half) (omega arith, Meets-even m m' _ half even meets)
  | inr odd ↦ rw (test_of_ne (suc m % 2) 0 odd) (omega arith, Meets-odd m (omega arith))
]

-- Above the meeting place the paths are one.
pub agree_above : (m x : ℕ) → Meets m x → (n : ℕ) → shr (suc m) (n + suc x) ≡ shr m (n + suc x)
agree_above m x meets n = shr_above (suc m) m (suc x) n (
    shr-suc (suc m) x ∙ omega (arith, meets.right, meets.apart x (omega arith)) ∙ sym (shr-suc m x))
