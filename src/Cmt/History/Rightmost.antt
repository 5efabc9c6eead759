-- ===== src/Cmt/History/Rightmost.antt =====
-- The rightmost leaf and its proof, as a change to leaf `j` leaves them.
use candyland.Prelude.{
  ℕ, ◌+◌, ◌-◌, ◌^◌, ◌≤◌, ◌<◌, ◌≡◌, ◌≢◌, refl, sym, ap, ◌∙◌, arith, test_of_ne, test_of_eq, List,
}
use candyland.Cmt.Node.{Node, empty}
use candyland.Cmt.ChangeLog.{ProofPath}
use candyland.Cmt.History.{IsRightmost}
use candyland.Tree.{Leaves, replace, proof_of}

module _ (hashv : Node → Node → Node) (depth : ℕ) (f : Leaves) (p : ProofPath)
    (q : IsRightmost hashv depth f p) (j : ℕ) (v : Node) where
  still_vacant : (m : ℕ) → p.index ≤ m → m ≢ j → replace j v f m ≡ empty
  still_vacant m le ne = rw (test_of_ne m j ne) (q.vacant m le)

  -- A full tree.
  pub full_IsRightmost :
      j < 2 ^ depth → 2 ^ depth ≤ p.index → IsRightmost hashv depth (replace j v f) p
  full_IsRightmost pj full = record {
    bounded = q.bounded;
    vacant = λ m le. still_vacant m le (λ e. absurd (omega arith));
    first_proof = λ e. absurd (omega arith);
    proof = λ n e lt. absurd (omega arith);
    leaf = λ n e lt. absurd (omega arith);
  }

  -- A leaf left of the end.
  pub follow_IsRightmost :
      j < p.index
      → IsRightmost hashv depth (replace j v f) (record p {
        proof = proof_of hashv depth (replace j v f) (p.index - 1);
        leaf = replace j v f (p.index - 1);
      })
  follow_IsRightmost lt = record {
    bounded = q.bounded;
    vacant = λ m le. still_vacant m le (λ e. absurd (omega arith));
    first_proof = λ e. absurd (omega arith);
    proof = λ n e _. ap (λ (k : ℕ). proof_of hashv depth (replace j v f) k) (omega arith);
    leaf = λ n e _. ap (λ (k : ℕ). replace j v f k) {x = p.index - 1} (omega arith);
  }

  -- The leaf at the end: the next one stands right of it.
  pub extend_IsRightmost :
      (proof' : List Node)
      → j ≡ p.index
      → j < 2 ^ depth
      → proof' ≡ proof_of hashv depth (replace j v f) j
      → IsRightmost hashv depth (replace j v f) (record { proof = proof'; leaf = v; index = j + 1 })
  extend_IsRightmost proof' e pj ep = record {
    bounded = omega arith;
    vacant = λ m le. still_vacant m (omega arith) (λ e. absurd (omega arith));
    first_proof = λ e. absurd (omega arith);
    proof = λ n e _. ep ∙ ap (λ (k : ℕ). proof_of hashv depth (replace j v f) k) (omega arith);
    leaf = λ n e _. sym (rw (test_of_eq n j (omega arith)) refl);
  }
