-- ===== src/Cmt/History/Filled.antt =====
-- `check_bounds` and `fill_in_proof`: what the methods do before they look at the roll.
use candyland.Prelude.{
  ℕ, zero, suc, ◌-◌, ◌^◌, ◌<◌, ◌≡◌, refl, ap, ◌∙◌, arith, bit_and_mask, pow_pos, List, ◌++◌, length,
  length-append, done, test_of_lt, test_of_ge, test_of_ne,
}
use candyland.Cmt.Node.{Node}
use candyland.Cmt.Utils.{fill_in_proof, empty_nodes}
use candyland.Cmt.Roll.{check_bounds}
use native.Mathlib.Nat.{mod_self}
use mathlib.Core.List.{append-nil}

-- Every depth and size that the programs use pass the bounds.
pub check_bounds_lem : (depth b : ℕ) → depth < 31 → check_bounds depth (2 ^ b) ≡ done tt
unfolding check_bounds
check_bounds_lem depth b shallow =
    rw
      (
        test_of_lt depth 31 shallow,
        test_of_ne (2 ^ b) 0 (omega (arith, pow_pos b)),
        bit_and_mask b (2 ^ b),
        mod_self (2 ^ b),
      )
      refl

module _ (hashv : Node → Node → Node) where
  length-empty_nodes : (level n : ℕ) → length (empty_nodes hashv level n) ≡ n
  unfolding empty_nodes
  length-empty_nodes level zero = refl
  length-empty_nodes level (suc n) = ap suc (length-empty_nodes (suc level) n)

  -- A proof filled in is as long as the tree is deep.
  pub fill_in_proof-length :
      (depth : ℕ) (proof_vec : List Node) {proof : List Node}
      → fill_in_proof hashv depth proof_vec ≡ done proof
      → length proof ≡ depth
  unfolding fill_in_proof
  fill_in_proof-length depth proof_vec e = ground (
    arith,
    length-append proof_vec (empty_nodes hashv (length proof_vec) (depth - length proof_vec)),
    length-empty_nodes (length proof_vec) (depth - length proof_vec),
  )

  -- A proof of full length is taken as it is.
  pub fill_in_proof_full :
      (depth : ℕ) (proof_vec : List Node)
      → length proof_vec ≡ depth
      → fill_in_proof hashv depth proof_vec ≡ done proof_vec
  unfolding fill_in_proof
  fill_in_proof_full depth proof_vec e = rw (test_of_ge depth (length proof_vec) (omega arith)) (
      ap done (
        ap (λ (n : ℕ). proof_vec ++ empty_nodes hashv (length proof_vec) n) {y = 0} (omega arith)
        ∙ unfold empty_nodes in append-nil proof_vec))
