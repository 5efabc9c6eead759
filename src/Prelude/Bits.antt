-- ===== src/Prelude/Bits.antt =====
-- The bit operations at variables, and the leading zeros of a word.
use Prim.Native.Nat.{
  ℕ, zero, suc, ◌+◌, ◌-◌, ◌*◌, ◌/◌, ◌%◌, ◌^◌, ◌≤◌, ◌<◌, min, bit_and, bit_xor, digits, differ,
  bit_and-bitwise, bit_xor-bitwise,
}
use mathlib.Core.Path.{◌≡◌, refl, ap, ◌∙◌}
use native.Mathlib.Nat.{mod-eq_of_lt, mod-lt, div-add-mod, add-mul-mod_self_left}
use native.Mathlib.Omega.{arith}
use candyland.Prelude.Shift.{shr, shr-zero, shr-suc, shr-eq-zero, lt_of_shr, pow_pos, pow_double}

module _ (rest : ℕ → ℕ) (join : ℕ → ℕ → ℕ) where
  -- Any count of digits from the first number on gives the same result.
  enough_digits : (a b m n : ℕ) → a ≤ m → a ≤ n → digits rest join m a b ≡ digits rest join n a b
  enough_digits zero b zero zero p q = refl
  enough_digits zero b zero (suc n) p q = refl
  enough_digits zero b (suc m) zero p q = refl
  enough_digits zero b (suc m) (suc n) p q = refl
  enough_digits (suc a) b zero n p q = absurd (omega arith)
  enough_digits (suc a) b (suc m) zero p q = absurd (omega arith)
  enough_digits (suc a) b (suc m) (suc n) p q =
      ap (λ (t : ℕ). t * 2 + join (suc a % 2) (b % 2))
        (enough_digits (suc a / 2) (b / 2) m n (omega arith) (omega arith))

-- The lowest digit, and the others.
pub bit_and_digit : (a b : ℕ) → bit_and a b ≡ bit_and (a / 2) (b / 2) * 2 + min (a % 2) (b % 2)
bit_and_digit zero b = omega (arith, bit_and-bitwise 0 b, bit_and-bitwise 0 (b / 2))
bit_and_digit (suc a) b =
    let h = suc a / 2 in
    omega (
      arith,
      bit_and-bitwise (suc a) b,
      bit_and-bitwise h (b / 2),
      enough_digits (λ _. 0) min h (b / 2) a h (omega arith) (omega arith),
    )

pub bit_xor_digit : (a b : ℕ) → bit_xor a b ≡ bit_xor (a / 2) (b / 2) * 2 + differ (a % 2) (b % 2)
bit_xor_digit zero b = omega (arith, bit_xor-bitwise 0 b, bit_xor-bitwise 0 (b / 2))
bit_xor_digit (suc a) b =
    let h = suc a / 2 in
    omega (
      arith,
      bit_xor-bitwise (suc a) b,
      bit_xor-bitwise h (b / 2),
      enough_digits (λ y. y) differ h (b / 2) a h (omega arith) (omega arith),
    )

bit_and-zero : (n a : ℕ) → a ≤ n → bit_and a 0 ≡ 0
bit_and-zero n zero h = refl
bit_and-zero zero (suc a) h = absurd (omega arith)
bit_and-zero (suc n) (suc a) h =
    omega (arith, bit_and_digit (suc a) 0, bit_and-zero n (suc a / 2) (omega arith))

mod-double : (a p : ℕ) → 1 ≤ p → a % (p + p) ≡ (a / 2 % p) * 2 + a % 2
mod-double a p h =
    let low = a / 2 % p * 2 + a % 2 in
    let split : a ≡ low + (p + p) * (a / 2 / p) =
      omega (arith, ap (λ (n : ℕ). n * 2) (div-add-mod (a / 2) p)) in
    ap (λ (n : ℕ). n % (p + p)) split
    ∙ add-mul-mod_self_left low (p + p) (a / 2 / p)
    ∙ mod-eq_of_lt (omega (arith, mod-lt (a / 2) h))

-- A mask of `k` ones is the remainder by `2 ^ k`.
pub bit_and_mask : (k a : ℕ) → bit_and a (2 ^ k - 1) ≡ a % 2 ^ k
bit_and_mask zero a = omega (arith, bit_and-zero a a (omega arith))
bit_and_mask (suc k) a = omega (
  arith,
  bit_and_digit a (2 ^ suc k - 1),
  pow_double k,
  pow_pos k,
  ap (λ (m : ℕ). bit_and (a / 2) m) {x = (2 ^ suc k - 1) / 2} {y = 2 ^ k - 1}
      (omega (arith, pow_double k, pow_pos k)),
  bit_and_mask k (a / 2),
  mod-double a (2 ^ k) (pow_pos k),
  ap (λ (m : ℕ). a % m) (pow_double k),
)

pub bit_and-one : (a : ℕ) → bit_and a 1 ≡ a % 2
bit_and-one a = bit_and_mask 1 a

differ_self : (x : ℕ) → x < 2 → differ x x ≡ 0
differ_self zero h = refl
differ_self (suc zero) h = refl
differ_self (suc (suc x)) h = absurd (omega arith)

differ-eq-zero : (x y : ℕ) → x < 2 → y < 2 → differ x y ≡ 0 → x ≡ y
differ-eq-zero zero y p q h = omega arith
differ-eq-zero (suc zero) zero p q h = absurd (omega arith)
differ-eq-zero (suc zero) (suc zero) p q h = refl
differ-eq-zero (suc zero) (suc (suc y)) p q h = absurd (omega arith)
differ-eq-zero (suc (suc x)) y p q h = absurd (omega arith)

differ_lt : (x y : ℕ) → x < 2 → y < 2 → differ x y < 2
differ_lt zero y p q = q
differ_lt (suc zero) zero p q = omega arith
differ_lt (suc zero) (suc y) p q = omega arith
differ_lt (suc (suc x)) y p q = absurd (omega arith)

xor_self_below : (n a : ℕ) → a ≤ n → bit_xor a a ≡ 0
xor_self_below n zero h = refl
xor_self_below zero (suc a) h = absurd (omega arith)
xor_self_below (suc n) (suc a) h = omega (
  arith,
  bit_xor_digit (suc a) (suc a),
  xor_self_below n (suc a / 2) (omega arith),
  differ_self (suc a % 2) (omega arith),
)

pub xor_self : (a : ℕ) → bit_xor a a ≡ 0
xor_self a = xor_self_below a a (omega arith)

xor-eq-zero_below : (n a b : ℕ) → a ≤ n → bit_xor a b ≡ 0 → a ≡ b
xor-eq-zero_below n zero b h e = omega (arith, bit_xor-bitwise 0 b)
xor-eq-zero_below zero (suc a) b h e = absurd (omega arith)
xor-eq-zero_below (suc n) (suc a) b h e =
    let d = bit_xor_digit (suc a) b in
    let halves : suc a / 2 ≡ b / 2 =
      xor-eq-zero_below n (suc a / 2) (b / 2) (omega arith) (omega arith) in
    let ones : suc a % 2 ≡ b % 2 =
      differ-eq-zero (suc a % 2) (b % 2) (omega arith) (omega arith) (omega arith) in
    omega arith

-- Words whose exclusive or is zero are equal.
pub xor-eq-zero : (a b : ℕ) → bit_xor a b ≡ 0 → a ≡ b
xor-eq-zero a b e = xor-eq-zero_below a a b (omega arith) e

xor-half : (a b : ℕ) → bit_xor a b / 2 ≡ bit_xor (a / 2) (b / 2)
xor-half a b =
    omega (arith, bit_xor_digit a b, differ_lt (a % 2) (b % 2) (omega arith) (omega arith))

pub shr-xor : (a b k : ℕ) → shr (bit_xor a b) k ≡ bit_xor (shr a k) (shr b k)
shr-xor a b zero = rw (shr-zero (bit_xor a b), shr-zero a, shr-zero b)
shr-xor a b (suc k) =
    rw (shr-suc (bit_xor a b), shr-suc a, shr-suc b, shr-xor a b k) (xor-half (shr a k) (shr b k))

pub xor_bound : (a b d : ℕ) → a < 2 ^ d → b < 2 ^ d → bit_xor a b < 2 ^ d
xor_bound a b d p q =
    lt_of_shr (bit_xor a b) d (rw (shr-xor, shr-eq-zero a d p, shr-eq-zero b d q) refl)
