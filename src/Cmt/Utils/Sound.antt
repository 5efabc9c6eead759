-- ===== src/Cmt/Utils/Sound.antt =====
-- utils.rs, where `hashv` has no collisions: a proof that leads to the root is the tree's.
use candyland.Prelude.{
  ℕ, suc, ◌+◌, ◌/◌, ◌%◌, ◌^◌, ◌<◌, ◌≡◌, refl, sym, ap, ap₂, ◌∙◌, arith, ◌==◌, shr, shr-zero,
  shr-suc, shr-eq-zero, List, [], ◌∷◌, length, tabulate_from, inl, inr, Bool-cases, eq_of_test,
  ne_of_test,
}
use candyland.Cmt.Node.{Node}
use candyland.Cmt.Utils.{is_left, hash_to_parent, recompute_from, recompute}
use candyland.Cmt.Utils.Recompute.{is_left_lem}
use candyland.Tree.{Leaves, sibling, node_at, root_of, proof_of}

-- Collision resistance, taken as injectivity.
abbrev pub IsCollisionFree : (Node → Node → Node) → Type 0
IsCollisionFree hashv = (a b c d : Node) → hashv a b ≡ hashv c d → (a ≡ c) × (b ≡ d)

module _ (hashv : Node → Node → Node) (free : IsCollisionFree hashv) where
  -- A parent that is the tree's has the tree's children.
  children :
      (f : Leaves) (level q : ℕ) (node other : Node)
      → hash_to_parent hashv node other (q % 2 == 0) ≡ node_at hashv f (suc level) (q / 2)
      → (node ≡ node_at hashv f level q) × (other ≡ node_at hashv f level (sibling q))
  unfolding hash_to_parent node_at
  children f level q node other e = elim (Bool-cases (q % 2 == 0)) [
    | inl even ↦
        let two = eq_of_test (q % 2) 0 even in
        let (left, right) = free _ _ _ _ (rw even at e) in
        (
          left ∙ ap (λ (n : ℕ). node_at hashv f level n) (omega arith),
          rw even (right ∙ ap (λ (n : ℕ). node_at hashv f level n) (omega arith)),
        )
    | inr odd ↦
        let one = ne_of_test (q % 2) 0 odd in
        let (left, right) = free _ _ _ _ (rw odd at e) in
        (
          right ∙ ap (λ (n : ℕ). node_at hashv f level n) (omega arith),
          rw odd (left ∙ ap (λ (n : ℕ). node_at hashv f level n) (omega arith)),
        )
  ]

  -- A proof that leads to the tree's node above holds the tree's siblings.
  recompute_from_inv :
      (f : Leaves) (i level : ℕ) (node : Node) (proof : List Node)
      → recompute_from hashv level node proof i
        ≡ node_at hashv f (level + length proof) (shr i (level + length proof))
      → (node ≡ node_at hashv f level (shr i level))
        × (proof ≡ tabulate_from level (length proof) (λ k. node_at hashv f k (sibling (shr i k))))
  unfolding recompute_from
  recompute_from_inv f i level node [] e =
      (e ∙ ap (λ (k : ℕ). node_at hashv f k (shr i k)) {x = level + 0} (omega arith), refl)
  recompute_from_inv f i level node (other ∷ proof) e =
      let (up, rest) =
        recompute_from_inv f i (suc level) (hash_to_parent hashv node other (is_left i level)) proof
          (e
            ∙ ap (λ (k : ℕ). node_at hashv f k (shr i k)) {x = level + suc (length proof)}
                (omega arith)) in
      let (here, beside) = children f level (shr i level) node other (
        rw (← is_left_lem i level)
          (up ∙ ap (λ (q : ℕ). node_at hashv f (suc level) q) (shr-suc i level))) in
      (here, ap₂ ◌∷◌ beside rest)

  -- For a hash without collisions, an index inside the tree and a proof as long as the tree is
  -- deep: if a leaf and the proof lead to the root of a tree, they are that tree's.
  pub recompute_sound :
      (depth : ℕ) (f : Leaves) (i : ℕ) (leaf : Node) (proof : List Node)
      → i < 2 ^ depth
      → length proof ≡ depth
      → recompute hashv leaf proof i ≡ root_of hashv depth f
      → (leaf ≡ f i) × (proof ≡ proof_of hashv depth f i)
  unfolding recompute node_at
  recompute_sound depth f i leaf proof small len e =
      let (here, rest) = recompute_from_inv f i 0 leaf proof (
        e
        ∙ ap (λ (q : ℕ). node_at hashv f depth q) (sym (shr-eq-zero i depth small))
        ∙ ap (λ (k : ℕ). node_at hashv f k (shr i k)) {y = 0 + length proof} (omega arith)) in
      (here ∙ ap f (shr-zero i), rest ∙ ap (λ (m : ℕ). proof_of hashv m f i) len)
