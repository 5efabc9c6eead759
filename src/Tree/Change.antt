-- ===== src/Tree/Change.antt =====
-- How the nodes, the root and the proofs change when one leaf does.
use candyland.Prelude.{
  ℕ, zero, suc, ◌+◌, ◌*◌, ◌≡◌, ◌≢◌, refl, sym, ap₂, ◌∙◌, arith, shr, shr-zero, shr-suc, set,
  tabulate_from_ext, set-tabulate_from, eq_or_ne, inl, inr, test_of_ne, test_of_eq,
}
use candyland.Cmt.Node.{Node}
use candyland.Tree.{Leaves, replace, sibling, node_at, proof_of}
use candyland.Tree.Digits.{sibling_ne, sibling_at, sibling_elsewhere}

module _ (hashv : Node → Node → Node) where
  -- A node that is not on the changed leaf's path stays.
  pub node_at-replace_ne :
      (f : Leaves) (j : ℕ) (v : Node) (level q : ℕ)
      → q ≢ shr j level
      → node_at hashv (replace j v f) level q ≡ node_at hashv f level q
  unfolding node_at
  node_at-replace_ne f j v zero q ne = rw (test_of_ne q j (λ e. ne (e ∙ sym (shr-zero j))))
  node_at-replace_ne f j v (suc level) q ne =
      ap₂ hashv (node_at-replace_ne f j v level (q * 2) (λ e. ne (omega (arith, shr-suc j level))))
        (node_at-replace_ne f j v level (q * 2 + 1) (λ e. ne (omega (arith, shr-suc j level))))

  -- The proof of the changed leaf stays.
  pub proof_of-replace_self :
      (depth : ℕ) (f : Leaves) (j : ℕ) (v : Node)
      → proof_of hashv depth (replace j v f) j ≡ proof_of hashv depth f j
  proof_of-replace_self depth f j v =
      tabulate_from_ext 0 depth _ _
        λ x _ _. node_at-replace_ne f j v x (sibling (shr j x)) (sibling_ne (shr j x))

  -- The proof of another leaf changes in one node, where the paths meet, and that node is on the
  -- path of the changed leaf.
  pub proof_of-replace_ne :
      (depth : ℕ) (f : Leaves) (i j : ℕ) (v : Node) (c : ℕ)
      → shr i c ≢ shr j c
      → shr i (suc c) ≡ shr j (suc c)
      → proof_of hashv depth (replace j v f) i
        ≡ set (proof_of hashv depth f i) c (node_at hashv (replace j v f) c (shr j c))
  proof_of-replace_ne depth f i j v c ne meet = sym (
      set-tabulate_from 0 depth c changed _
      ∙ tabulate_from_ext 0 depth _ _ λ x _ _. elim (eq_or_ne x c) [
        | inl e ↦ rw (e, test_of_eq c (0 + c) (omega arith), sibling_at i j c ne meet) refl
        | inr off ↦
            rw (test_of_ne x (0 + c) (omega arith))
              (sym (node_at-replace_ne f j v x _ (sibling_elsewhere i j c ne meet x off)))
      ])
    where
      changed : Node
      changed = node_at hashv (replace j v f) c (shr j c)
