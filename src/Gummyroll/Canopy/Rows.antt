-- ===== src/Gummyroll/Canopy/Rows.antt =====
-- The nodes of a tree that the canopy holds.
use candyland.Prelude.{
  ℕ, zero, suc, ◌+◌, ◌-◌, ◌*◌, ◌/◌, ◌%◌, ◌^◌, ◌≤◌, ◌<◌, ◌≡◌, ◌≢◌, refl, sym, ap, ◌∙◌, arith, Option,
  some, List, length, get_elem?, ◌⊎◌, inl, inr, replicate, length-replicate, lt_or_ge, pow_double,
  pow_pos, pow-add, leading_zeros, leading_zeros_top, bit_and_mask, test_of_eq, test_of_ge, done,
  shr,
}
use native.Mathlib.Nat.{pow-le-pow_right, mod_self, mul-le-mul_right, div-mul-le_self}
use candyland.Cmt.Node.{Node, empty}
use candyland.Cmt.Utils.{empty_node}
use candyland.Cmt.Append.{trailing_zeros}
use candyland.Gummyroll.Canopy.{get_cached_path_length}
use candyland.Cmt.Utils.Recompute.{empty_node_lem}
use candyland.Tree.{Leaves, no_leaves, node_at}

-- Where the canopy holds place `q` of the row `k` below the root.
abbrev pub at : ℕ → ℕ → ℕ
at k q = 2 ^ k + q - 2

pub pow_mono : (i j : ℕ) → i ≤ j → 2 ^ i ≤ 2 ^ j
pow_mono i j le = pow-le-pow_right {n = 2} (omega arith) {i = i} {j = j} le

row_below : (k k' q q' : ℕ) → 1 ≤ k → q < 2 ^ k → k < k' → at k q < at k' q'
row_below k k' q q' one small lt =
    omega (arith, pow_mono (suc k) k' lt, pow_double k, pow_mono 1 k one)

-- Rows do not overlap.
pub at_ne : (k k' q q' : ℕ) → 1 ≤ k → 1 ≤ k' → q < 2 ^ k → q' < 2 ^ k' → k ≢ k' → at k q ≢ at k' q'
at_ne k k' q q' p p' s s' ne e = elim (lt_or_ge k k') [
  | inl lt ↦ omega (arith, row_below k k' q q' p s lt)
  | inr ge ↦ omega (arith, row_below k' k q' q p' s' (omega arith))
]

pub at-lt : (p k q : ℕ) → 1 ≤ k → k ≤ p → q < 2 ^ k → at k q < 2 ^ (p + 1) - 2
at-lt p k q one le small =
    omega (arith, pow_mono (suc k) (p + 1) (omega arith), pow_double k, pow_mono 1 k one)

-- The highest one of a number in row `k`.
pub row-leading_zeros : (k q : ℕ) → k < 32 → q < 2 ^ k → 31 - leading_zeros 32 (2 ^ k + q) ≡ k
row-leading_zeros k q lt small =
    let fits : 2 ^ k + q < 2 ^ 32 = omega (arith, pow_mono (suc k) 32 lt, pow_double k) in
    let (c, sum, low, high) = leading_zeros_top 32 (2 ^ k + q) (omega (arith, pow_pos k)) fits in
    elim (lt_or_ge c k) [
      | inl below ↦ absurd (omega (arith, pow_mono (suc c) k below))
      | inr ge ↦ elim (lt_or_ge k c) [
        | inl above ↦ absurd (omega (arith, pow_mono (suc k) c above, pow_double k))
        | inr le ↦ omega arith
      ]
    ]

trailing_zeros-pow : (w k : ℕ) → k < w → trailing_zeros w (2 ^ k) ≡ k
unfolding trailing_zeros
trailing_zeros-pow zero k lt = absurd (omega arith)
trailing_zeros-pow (suc w) zero lt = refl
trailing_zeros-pow (suc w) (suc k) lt =
    rw (test_of_eq (2 ^ suc k % 2) 0 (omega (arith, pow_double k))) (
      ap suc (
        ap (λ (n : ℕ). trailing_zeros w n) {x = 2 ^ suc k / 2} {y = 2 ^ k}
          (omega (arith, pow_double k))
        ∙ trailing_zeros-pow w k (omega arith)))

pub get_cached_path_length_lem :
    (p d : ℕ) (canopy : List Node)
    → p ≤ d
    → p < 31
    → length canopy + 2 ≡ 2 ^ (p + 1)
    → get_cached_path_length canopy d ≡ done p
unfolding get_cached_path_length
get_cached_path_length_lem p d canopy le small size =
    rw
      (
        size,
        bit_and_mask (p + 1) (2 ^ (p + 1)),
        mod_self (2 ^ (p + 1)),
        test_of_ge (2 ^ (d + 1)) (2 ^ (p + 1)) (pow_mono (p + 1) (d + 1) (omega arith)),
        trailing_zeros-pow 32 (p + 1) (omega arith),
      )
      (ap done (omega arith))

module _ (hashv : Node → Node → Node) (d p : ℕ) where
  -- A node, or the mark of one with no leaf below it.
  abbrev pub Holds : Leaves → ℕ → ℕ → Option Node → Type 0
  Holds f k q cached =
      (cached ≡ some (node_at hashv f (d - k) q))
      ⊎ ((cached ≡ some empty) × (node_at hashv f (d - k) q ≡ empty_node hashv (d - k)))

  pub record IsCanopy (f : Leaves) (canopy : List Node) : Type 0 where
    pub size : length canopy + 2 ≡ 2 ^ (p + 1)
    pub rows : (k q : ℕ) → 1 ≤ k → k ≤ p → q < 2 ^ k → Holds f k q (get_elem? canopy (at k q))

-- Where a path crosses row `k`, that is level `l`.
pub shr-row : (d l k j : ℕ) → l + k ≡ d → j < 2 ^ d → shr j l < 2 ^ k
shr-row d l k j e small = elim (lt_or_ge (shr j l) (2 ^ k)) [
  | inl lt ↦ lt
  | inr ge ↦ absurd (
      omega (
        arith,
        low,
        mul-le-mul_right {m = 2 ^ k} {n = shr j l} (2 ^ l) ge,
        pow-add k l,
        ap (λ (n : ℕ). 2 ^ n) {x = k + l} {y = d} (omega arith),
      ))
]
  where
    low : shr j l * 2 ^ l ≤ j
    low = unfold shr in div-mul-le_self j (2 ^ l)

get_elem?-unset : (n i : ℕ) → i < n → get_elem? (replicate n empty) i ≡ some empty
get_elem?-unset zero i lt = absurd (omega arith)
get_elem?-unset (suc n) zero lt = refl
get_elem?-unset (suc n) (suc i) lt = get_elem?-unset n i (omega arith)

-- A canopy of zeros is that of the tree with no leaves.
pub unset-IsCanopy :
    (hashv : Node → Node → Node) (d p n : ℕ)
    → n + 2 ≡ 2 ^ (p + 1)
    → IsCanopy hashv d p no_leaves (replicate n empty)
unset-IsCanopy hashv d p n e = record {
  size = ap (λ (m : ℕ). m + 2) (length-replicate n empty) ∙ e;
  rows = λ k q one le small. inr (
    get_elem?-unset n (at k q) (omega (arith, at-lt p k q one le small)),
    sym (empty_node_lem hashv (d - k) q),
  );
}
