-- ===== src/Tree/Digits.antt =====
-- Places on the path of a leaf and beside it.
use candyland.Prelude.{
  ℕ, suc, ◌+◌, ◌-◌, ◌/◌, ◌≡◌, ◌≢◌, sym, ap, ◌∙◌, arith, inl, inr, lt_or_ge, shr, shr-suc, shr_above,
}
use candyland.Tree.{sibling}

pub sibling_ne : (q : ℕ) → sibling q ≢ q
sibling_ne q = ground arith

pub sibling-half : (q : ℕ) → sibling q / 2 ≡ q / 2
sibling-half q = ground arith

-- Two places under one parent are the same or siblings.
pub sibling_of_half : (p q : ℕ) → p ≢ q → p / 2 ≡ q / 2 → sibling p ≡ q
sibling_of_half p q ne e = ground arith

-- Where the paths of `a` and `b` differ, so they do below.
pub shr_below : (a b k n : ℕ) → shr a (n + k) ≢ shr b (n + k) → shr a k ≢ shr b k
shr_below a b k n ne e = ne (shr_above a b k n e)

-- Below the place where two paths part, the sibling of the one is not on the other.
pub sibling-shr_ne : (a b k : ℕ) → shr a (suc k) ≢ shr b (suc k) → sibling (shr a k) ≢ shr b k
sibling-shr_ne a b k ne e =
    ne (shr-suc a k ∙ sym (sibling-half (shr a k)) ∙ ap (λ (n : ℕ). n / 2) e ∙ sym (shr-suc b k))

-- Paths that part at `c` (from the leaves' side, that meet above `c`).
module _ (a b c : ℕ) (ne : shr a c ≢ shr b c) (meet : shr a (suc c) ≡ shr b (suc c)) where
  -- Where they part each is the other's sibling.
  pub sibling_at : sibling (shr a c) ≡ shr b c
  sibling_at = sibling_of_half (shr a c) (shr b c) ne (sym (shr-suc a c) ∙ meet ∙ shr-suc b c)

  differ_to : (k n : ℕ) → n + k ≡ c → shr a k ≢ shr b k
  differ_to k n e = shr_below a b k n (λ h. ne (rw (← e) h))

  agree_from : (k n : ℕ) → n + suc c ≡ k → shr a k ≡ shr b k
  agree_from k n e = rw (← e) (shr_above a b (suc c) n meet)

  -- Anywhere else the one's sibling is off the other.
  pub sibling_elsewhere : (k : ℕ) → k ≢ c → sibling (shr a k) ≢ shr b k
  sibling_elsewhere k off = elim (lt_or_ge k c) [
    | inl lt ↦ sibling-shr_ne a b k (differ_to (suc k) (c - suc k) (omega arith))
    | inr ge ↦
        let same = agree_from k (k - suc c) (omega arith) in
        λ e. sibling_ne (shr a k) (e ∙ sym same)
  ]
