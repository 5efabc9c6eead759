-- ===== src/Cmt/Ring.antt =====
-- Places in the ring of change logs, counted backwards from the active one.
use candyland.Prelude.{
  ℕ, suc, ◌+◌, ◌-◌, ◌*◌, ◌%◌, ◌^◌, ◌≤◌, ◌<◌, ◌≡◌, ◌≢◌, sym, ap, ◌∙◌, arith, leb, if◌then◌else◌,
  bit_and, bit_and_mask, pow-add, pow_pos, inl, inr, lt_or_ge, eq_or_ne, ◌==◌, test_of_eq,
  test_of_ne,
}
use candyland.Cmt.Roll.{wrapping_sub}
use native.Mathlib.Nat.{mod-eq_of_lt, mod_self, add-mul-mod_self_left, pow-le-pow_right}

-- The place `k` changes before the active one.
unfoldable pub place : ℕ → ℕ → ℕ → ℕ
place size active k = if leb k active then active - k else active + size - k

next_of : (size n : ℕ) → n < size → (n + 1) % size ≡ (if n + 1 == size then 0 else n + 1)
next_of size n h = elim (eq_or_ne (n + 1) size) [
  | inl e ↦ rw (test_of_eq (n + 1) size e, e) (mod_self size)
  | inr ne ↦ rw (test_of_ne (n + 1) size ne) (mod-eq_of_lt (omega arith))
]

module _ (size active : ℕ) (inside : active < size) where
  pub place-zero : place size active 0 ≡ active
  unfolding place
  place-zero = ground arith

  pub place-lt : (k : ℕ) → k < size → place size active k < size
  unfolding place
  place-lt k h = ground arith

  pub place_ne : (k l : ℕ) → k < size → l < size → k ≢ l → place size active k ≢ place size active l
  unfolding place
  place_ne k l p q ne = ground arith

  -- The place after that of the change before is that of the change.
  pub place_next :
      (k : ℕ) → suc k < size → (place size active (suc k) + 1) % size ≡ place size active k
  unfolding place
  place_next k h = ground (arith, next_of size (place size active (suc k)))

  pub next-lt : (active + 1) % size < size
  next-lt = ground (arith, next_of size active)

  -- When the ring moves on by one, what was `k` changes back is one more.
  pub place-move :
      (k : ℕ) → suc k < size → place size ((active + 1) % size) (suc k) ≡ place size active k
  unfolding place
  place-move k h = ground (arith, next_of size active)

-- The code's index is the place.
pub masked_sub :
    (b active k : ℕ)
    → b ≤ 32
    → active < 2 ^ b
    → k < 2 ^ b
    → bit_and (wrapping_sub active k) (2 ^ b - 1) ≡ place (2 ^ b) active k
unfolding place
masked_sub b active k small inside h = rw (bit_and_mask b) (elim (lt_or_ge active k) [
  | inl lt ↦
      let back = k - active in
      ap (λ (n : ℕ). n % 2 ^ b)
        (mod-eq_of_lt {n = active + 2 ^ 64 - k} {m = 2 ^ 64} (omega arith)
          ∙ omega (
            arith,
            word,
            ap (λ (n : ℕ). size * n) {x = t} {y = t - 1 + 1} (omega (arith, t_pos)),
          ))
      ∙ add-mul-mod_self_left (size - back) size (t - 1)
      ∙ mod-eq_of_lt (omega arith)
      ∙ ground arith
  | inr ge ↦
      ap (λ (n : ℕ). n % 2 ^ b)
        (ap (λ (n : ℕ). n % 2 ^ 64) {y = active - k + 2 ^ 64 * 1} (omega arith)
          ∙ add-mul-mod_self_left (active - k) (2 ^ 64) 1
          ∙ mod-eq_of_lt (omega (arith, size_le)))
      ∙ mod-eq_of_lt (omega arith)
      ∙ ground arith
])
  where
    size : ℕ
    size = 2 ^ b

    t : ℕ
    t = 2 ^ (64 - b)

    t_pos : 1 ≤ t
    t_pos = pow_pos (64 - b)

    size_le : size ≤ 2 ^ 64
    size_le = pow-le-pow_right {n = 2} (omega arith) {i = b} {j = 64} (omega arith)

    word : size * t ≡ 2 ^ 64
    word =
        sym (pow-add b (64 - b)) ∙ ap (λ (n : ℕ). 2 ^ n) {x = b + (64 - b)} {y = 64} (omega arith)
