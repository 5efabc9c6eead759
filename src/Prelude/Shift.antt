-- ===== src/Prelude/Shift.antt =====
-- The right shift, digit by digit, and powers of two.
use Prim.Native.Nat.{ℕ, zero, suc, ◌+◌, ◌*◌, ◌/◌, ◌^◌, ◌≤◌, ◌<◌}
use mathlib.Core.Path.{◌≡◌, ap, ◌∙◌}
use native.Mathlib.Nat.{
  pow-suc, one-le-pow, div-div-eq-div-mul, div-eq_of_lt, div-lt_iff_lt-mul, lt-div-mul-add,
  add-zero, zero-add, suc-add,
}
use native.Mathlib.Omega.{arith}

-- `x >> k`
unfoldable pub shr : ℕ → ℕ → ℕ
shr x k = x / 2 ^ k

pub shr-zero : (x : ℕ) → shr x 0 ≡ x
unfolding shr
shr-zero x = omega arith

pub shr-suc : (x k : ℕ) → shr x (suc k) ≡ shr x k / 2
unfolding shr
shr-suc x k = rw (pow-suc, ← div-div-eq-div-mul)

pub pow_pos : (k : ℕ) → 1 ≤ 2 ^ k
pow_pos k = one-le-pow k 2 (omega arith)

pub pow_double : (k : ℕ) → 2 ^ suc k ≡ 2 ^ k + 2 ^ k
pow_double k = omega (arith, pow-suc 2 k)

pub pow-add : (a b : ℕ) → 2 ^ (a + b) ≡ 2 ^ a * 2 ^ b
pow-add a zero = rw add-zero (omega arith)
pow-add a (suc b) =
    ap (λ (n : ℕ). 2 ^ n) {y = suc (a + b)} (omega arith)
    ∙ omega (arith, pow_double (a + b), pow-add a b, ap (λ (n : ℕ). 2 ^ a * n) (pow_double b))

-- Equal digits from some place on stay equal above it.
pub shr_above : (a b k n : ℕ) → shr a k ≡ shr b k → shr a (n + k) ≡ shr b (n + k)
shr_above a b k zero e = rw zero-add e
shr_above a b k (suc n) e =
    rw (suc-add, shr-suc a, shr-suc b) (ap (λ (x : ℕ). x / 2) (shr_above a b k n e))

-- What lies below `2 ^ d` has no digit from the place `d` on.
pub shr-eq-zero : (x d : ℕ) → x < 2 ^ d → shr x d ≡ 0
unfolding shr
shr-eq-zero x d h = div-eq_of_lt h

pub lt_of_shr : (x d : ℕ) → shr x d ≡ 0 → x < 2 ^ d
unfolding shr
lt_of_shr x d h = omega (arith, (div-lt_iff_lt-mul {x = x} {y = 1} (pow_pos d)).0 (omega arith))

-- The places from `shr x k + 1` on lie right of `x`.
pub shr_bound : (x k : ℕ) → x < (shr x k + 1) * 2 ^ k
unfolding shr
shr_bound x k = omega (arith, lt-div-mul-add {a = x} {b = 2 ^ k} (pow_pos k))
