-- ===== src/Prelude/Leading.antt =====
-- `leading_zeros`, and the highest place where two numbers differ.
use Prim.Native.Nat.{ℕ, zero, suc, ◌+◌, ◌-◌, ◌*◌, ◌%◌, ◌^◌, ◌≤◌, ◌<◌, bit_xor}
use mathlib.Core.Path.{◌≡◌, refl, sym, ap, ◌∙◌}
use mathlib.Core.Logic.{◌≢◌, inl, inr}
use native.Mathlib.Nat.{mod-eq_of_lt, suc-add}
use native.Mathlib.Omega.{arith}
use candyland.Prelude.Tests.{ltb, if◌then◌else◌, lt_or_ge, test_of_lt, test_of_ge}
use candyland.Prelude.Shift.{shr, shr-eq-zero, lt_of_shr, pow-add, pow_pos}
use candyland.Prelude.Bits.{xor_self, xor-eq-zero, shr-xor, xor_bound}

-- The zeros above the highest one of `x`, in a word of `w` bits.
unfoldable pub leading_zeros : ℕ → ℕ → ℕ
leading_zeros zero x = 0
leading_zeros (suc w) x = if ltb x (2 ^ w) then suc (leading_zeros w x) else 0

-- The place of the highest one.
pub leading_zeros_top :
    (w x : ℕ)
    → 1 ≤ x
    → x < 2 ^ w
    → (c : ℕ) × (leading_zeros w x + suc c ≡ w) × (2 ^ c ≤ x) × (x < 2 ^ suc c)
unfolding leading_zeros
leading_zeros_top zero x p q = absurd (omega arith)
leading_zeros_top (suc w) x p q = elim (lt_or_ge x (2 ^ w)) [
  | inl lt ↦
      let (c, sum, low, high) = leading_zeros_top w x p lt in
      (c, rw (test_of_lt x (2 ^ w) lt) (omega arith), low, high)
  | inr ge ↦ (w, rw (test_of_ge x (2 ^ w) ge) (omega arith), ge, q)
]

mul-lt : (x y z : ℕ) → 1 ≤ z → x < y → x * z < y * z
mul-lt x y z p q = grind arith

mul-le : (x y z : ℕ) → x ≤ y → x * z ≤ y * z
mul-le x y z q = grind arith

-- Zeros shifted in below leave the zeros above, if nothing is shifted out.
pub leading_zeros-shl :
    (w p x : ℕ) → 1 ≤ x → x < 2 ^ w → leading_zeros (w + p) (x * 2 ^ p) ≡ leading_zeros w x
unfolding leading_zeros
leading_zeros-shl zero p x h q = absurd (omega arith)
leading_zeros-shl (suc w) p x h q =
    rw (suc-add, leading_zeros)
      (elim (lt_or_ge x (2 ^ w)) [
        | inl lt ↦
            let shifted : x * 2 ^ p < 2 ^ (w + p) =
              rw (pow-add w p) (mul-lt x (2 ^ w) (2 ^ p) (pow_pos p) lt) in
            rw (test_of_lt _ _ shifted, test_of_lt _ _ lt) (ap suc (leading_zeros-shl w p x h lt))
        | inr ge ↦
            let shifted : 2 ^ (w + p) ≤ x * 2 ^ p =
              rw (pow-add w p) (mul-le (2 ^ w) x (2 ^ p) ge) in
            rw (test_of_ge _ _ shifted, test_of_ge _ _ ge) refl
      ])

-- A number of `d` bits moved to the top of a 32-bit word.
leading_zeros_word :
    (d x : ℕ)
    → d ≤ 32
    → 1 ≤ x
    → x < 2 ^ d
    → leading_zeros 32 (x * 2 ^ (32 - d) % 2 ^ 32) ≡ leading_zeros d x
leading_zeros_word d x small x_pos x_lt =
    let p = 32 - d in
    let word : 2 ^ d * 2 ^ p ≡ 2 ^ 32 =
      sym (pow-add d p) ∙ ap (λ (n : ℕ). 2 ^ n) {x = d + p} {y = 32} (omega arith) in
    let fits : x * 2 ^ p < 2 ^ 32 = rw (← word) (mul-lt x (2 ^ d) (2 ^ p) (pow_pos p) x_lt) in
    ap (λ (n : ℕ). leading_zeros 32 n) (mod-eq_of_lt fits)
    ∙ ap (λ (w : ℕ). leading_zeros w (x * 2 ^ p)) {x = 32} {y = d + p} (omega arith)
    ∙ leading_zeros-shl d p x x_pos x_lt

pos_of_ne_zero : (x : ℕ) → x ≢ 0 → 1 ≤ x
pos_of_ne_zero x h = omega arith

-- The highest place where `a` and `b` differ, as the leading zeros of their exclusive or show it.
pub highest_difference :
    (d a b : ℕ)
    → d ≤ 32
    → a < 2 ^ d
    → b < 2 ^ d
    → a ≢ b
    → (c : ℕ) × (leading_zeros 32 (bit_xor a b * 2 ^ (32 - d) % 2 ^ 32) + suc c ≡ d)
      × (shr a c ≢ shr b c)
      × (shr a (suc c) ≡ shr b (suc c))
highest_difference d a b small pa pb ne =
    let x = bit_xor a b in
    let x_pos : 1 ≤ x = pos_of_ne_zero x (λ e. ne (xor-eq-zero a b e)) in
    let x_lt : x < 2 ^ d = xor_bound a b d pa pb in
    let (c, sum, low, high) = leading_zeros_top d x x_pos x_lt in
    (
      c,
      ap (λ (z : ℕ). z + suc c) (leading_zeros_word d x small x_pos x_lt) ∙ sum,
      (λ e. absurd (
          omega (
            arith,
            low,
            lt_of_shr x c
                (shr-xor a b c ∙ ap (λ (n : ℕ). bit_xor n (shr b c)) e ∙ xor_self (shr b c)),
          ))),
      xor-eq-zero (shr a (suc c)) (shr b (suc c))
          (sym (shr-xor a b (suc c)) ∙ shr-eq-zero x (suc c) high),
    )
