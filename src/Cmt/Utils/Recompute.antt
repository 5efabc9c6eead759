-- ===== src/Cmt/Utils/Recompute.antt =====
-- utils.rs against Tree: a proof of the tree leads to its root, and `empty_node` is its empty node.
use candyland.Prelude.{
  ℕ, zero, suc, ◌+◌, ◌*◌, ◌/◌, ◌%◌, ◌^◌, ◌<◌, ◌≡◌, refl, sym, ap, ap₂, ◌∙◌, arith, ◌==◌,
  bit_and-one, shr, shr-zero, shr-suc, shr-eq-zero, List, tabulate_from, get_or, replicate, ◌⊎◌,
  inl, inr, Bool-cases, eq_of_test, ne_of_test,
}
use candyland.Cmt.Node.{Node, empty}
use candyland.Cmt.Utils.{
  is_left, hash_to_parent, recompute_from, recompute, empty_node_cached, empty_node,
}
use candyland.Tree.{Leaves, no_leaves, sibling, node_at, root_of, proof_of}

pub is_left_lem : (index depth : ℕ) → is_left index depth ≡ (shr index depth % 2 == 0)
is_left_lem index depth = rw (bit_and-one (shr index depth))

module _ (hashv : Node → Node → Node) where
  -- One level up.
  pub hash_to_parent-node_at :
      (f : Leaves) (level q : ℕ)
      → hash_to_parent hashv
          (node_at hashv f level q)
          (node_at hashv f level (sibling q))
          (q % 2 == 0)
        ≡ node_at hashv f (suc level) (q / 2)
  unfolding hash_to_parent node_at
  hash_to_parent-node_at f level q = elim (Bool-cases (q % 2 == 0)) [
    | inl even ↦
        let e = eq_of_test (q % 2) 0 even in
        rw even (
          ap₂ (λ (a b : ℕ). hashv (node_at hashv f level a) (node_at hashv f level b)) (omega arith)
            (omega arith))
    | inr odd ↦
        let e = ne_of_test (q % 2) 0 odd in
        rw odd (
          ap₂ (λ (a b : ℕ). hashv (node_at hashv f level a) (node_at hashv f level b)) (omega arith)
            (omega arith))
  ]

  pub hash_to_parent-shr :
      (f : Leaves) (i level : ℕ)
      → hash_to_parent hashv
          (node_at hashv f level (shr i level))
          (node_at hashv f level (sibling (shr i level)))
          (is_left i level)
        ≡ node_at hashv f (suc level) (shr i (suc level))
  hash_to_parent-shr f i level =
      rw (is_left_lem i level, shr-suc i level) (hash_to_parent-node_at f level (shr i level))

  -- From any level on, the siblings lead along the path.
  recompute_from-siblings :
      (f : Leaves) (i level m : ℕ)
      → recompute_from hashv level
          (node_at hashv f level (shr i level))
          (tabulate_from level m (λ k. node_at hashv f k (sibling (shr i k))))
          i
        ≡ node_at hashv f (level + m) (shr i (level + m))
  unfolding recompute_from
  recompute_from-siblings f i level zero = ap (λ (k : ℕ). node_at hashv f k (shr i k)) (omega arith)
  recompute_from-siblings f i level (suc m) =
      ap
        (λ (n : Node).
          recompute_from hashv (suc level) n
            (tabulate_from (suc level) m (λ k. node_at hashv f k (sibling (shr i k)))) i)
        (hash_to_parent-shr f i level)
      ∙ recompute_from-siblings f i (suc level) m
      ∙ ap (λ (k : ℕ). node_at hashv f k (shr i k)) {x = suc level + m} (omega arith)

  -- For an index inside the tree, a leaf and its proof lead to the root.
  pub recompute-proof_of :
      (depth : ℕ) (f : Leaves) (i : ℕ)
      → i < 2 ^ depth
      → recompute hashv (f i) (proof_of hashv depth f i) i ≡ root_of hashv depth f
  unfolding recompute node_at
  recompute-proof_of depth f i small =
      ap (λ (leaf : Node). recompute_from hashv 0 leaf (proof_of hashv depth f i) i) {x = f i}
        {y = f (shr i 0)} (ap f (sym (shr-zero i)))
      ∙ recompute_from-siblings f i 0 depth
      ∙ ap (λ (k : ℕ). node_at hashv f k (shr i k)) {x = 0 + depth} {y = depth} (omega arith)
      ∙ ap (λ (q : ℕ). node_at hashv f depth q) (shr-eq-zero i depth small)

  pub empty_node-suc :
      (level : ℕ)
      → empty_node hashv (suc level) ≡ hashv (empty_node hashv level) (empty_node hashv level)
  unfolding empty_node
  empty_node-suc level = ap (λ (n : Node). hashv n n) (ground arith)

  -- Every node of the tree with no leaves is the `empty_node` of its level.
  pub empty_node_lem : (level q : ℕ) → empty_node hashv level ≡ node_at hashv no_leaves level q
  unfolding empty_node node_at
  empty_node_lem zero q = refl
  empty_node_lem (suc level) q =
      empty_node-suc level
      ∙ ap₂ hashv (empty_node_lem level (q * 2)) (empty_node_lem level (q * 2 + 1))

  -- What a cache may hold at each level: the unset value, or the level's empty node.
  abbrev pub IsCache : List Node → Type 0
  IsCache cache =
      (level : ℕ)
      → (get_or cache level empty ≡ empty) ⊎ (get_or cache level empty ≡ empty_node hashv level)

  -- A cache whose every level is unset or holds the level's empty node changes no result of
  -- `empty_node_cached`.
  pub empty_node_cached_lem :
      (level : ℕ) (cache : List Node)
      → IsCache cache
      → empty_node_cached hashv level cache ≡ empty_node hashv level
  unfolding empty_node
  empty_node_cached_lem zero cache valid = refl
  empty_node_cached_lem (suc target) cache valid =
      ap (λ (n : Node). hashv n n)
        (elim (valid target) [
          | inl unset ↦ rw unset (ground arith)
          | inr known ↦ rw known (ground arith)
        ])

  pub replicate-IsCache : (n : ℕ) → IsCache (replicate n empty)
  replicate-IsCache zero level = inl refl
  replicate-IsCache (suc n) zero = inl refl
  replicate-IsCache (suc n) (suc level) = inl (unset n level)
    where
      unset : (n level : ℕ) → get_or (replicate n empty) level empty ≡ empty
      unset zero level = refl
      unset (suc n) zero = refl
      unset (suc n) (suc level) = unset n level
