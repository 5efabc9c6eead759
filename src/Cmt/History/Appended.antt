-- ===== src/Cmt/History/Appended.antt =====
-- `append` on a roll that tells its history.
use candyland.Prelude.{
  ◌⊎◌, ℕ, zero, suc, ◌^◌, ◌≤◌, ◌<◌, ◌≡◌, ◌≢◌, refl, sym, ap, subst, ◌∙◌, arith, false, ◌==◌,
  if◌then◌else◌, pow_pos, List, done, done-injective, err, inl, inr, eq_or_ne, lt_or_ge, test_of_eq,
  test_of_ne, test_of_le, test_of_gt,
}
use candyland.Cmt.Node.{
  Node, empty, Result, cannot_append_empty_node, tree_full, tree_already_initialized,
}
use candyland.Cmt.Utils.{recompute, empty_node}
use candyland.Cmt.Utils.Recompute.{empty_node_lem, recompute-proof_of}
use candyland.Cmt.Utils.Sound.{IsCollisionFree}
use candyland.Cmt.Roll.{MerkleRoll}
use candyland.Cmt.Apply.{try_apply_proof}
use candyland.Cmt.Append.{append_leaf, append, initialize_tree_from_append}
use candyland.Cmt.History.{History, IsRollOf, advance}
use candyland.Cmt.History.Written.{written, Tells-advance}
use candyland.Cmt.History.Rightmost.{extend_IsRightmost}
use candyland.Cmt.History.Filled.{check_bounds_lem}
use candyland.Cmt.History.SetLeaf.{try_apply_proof_complete}
use candyland.Cmt.History.AppendRounds.{node_at-vacant}
use candyland.Tree.{Leaves, replace, root_of, proof_of}
use candyland.Cmt.History.AppendLeaf.{last_proof, append_leaf_made}

module _ (hashv : Node → Node → Node) (free : IsCollisionFree hashv) (depth b : ℕ) (pos : 1 ≤ depth)
    (shallow : depth < 31) (words : b ≤ 32) (r : MerkleRoll) (h : History)
    (ok : IsRollOf hashv depth b r h) (v : Node) where
  abbrev end : ℕ
  end = r.rightmost_proof.index

  -- What an append of `v` at the end must come to.
  abbrev Appends : ℕ → Result (Node × MerkleRoll) → Type 0
  Appends j outcome =
      (r' : MerkleRoll) × (outcome ≡ done (root_of hashv depth (replace j v (h.past 0)), r'))
      × IsRollOf hashv depth b r' (advance j v h)

  append_first :
      end ≡ 0
      → Appends 0 (initialize_tree_from_append depth (2 ^ b) hashv r v r.rightmost_proof.proof)
  unfolding initialize_tree_from_append
  append_first is_zero =
      let (r', made, rolls) =
        try_apply_proof_complete hashv free depth b pos shallow words r h ok 0 (pow_pos depth) 0 v
          false (omega (arith, ok.tells.some_logs)) (omega arith) refl in
      (r', opened ∙ made, rolls)
    where
      f : Leaves
      f = h.past 0

      attempt : Node → Node → List Node → Result (Node × MerkleRoll)
      attempt root leaf proof =
          if root == empty_node hashv depth
          then try_apply_proof depth (2 ^ b) hashv r root leaf v proof 0 false
          else err tree_already_initialized

      is_empty : empty ≡ f 0
      is_empty = sym (ok.rightmost.vacant 0 (omega arith))

      is_root : recompute hashv empty r.rightmost_proof.proof 0 ≡ root_of hashv depth f
      is_root =
          (λ i. recompute hashv (is_empty i) (ok.rightmost.first_proof is_zero i) 0)
          ∙ recompute-proof_of hashv depth f 0 (pow_pos depth)

      is_empty_root : root_of hashv depth f ≡ empty_node hashv depth
      is_empty_root =
          node_at-vacant hashv f depth 0 (λ l _. ok.rightmost.vacant l (omega arith))
          ∙ sym (empty_node_lem hashv depth 0)

      opened :
          attempt (recompute hashv empty r.rightmost_proof.proof 0) empty r.rightmost_proof.proof
          ≡ try_apply_proof depth
              (2 ^ b)
              hashv
              r
              (root_of hashv depth f)
              (f 0)
              v
              (proof_of hashv depth f 0)
              0
              false
      opened =
          (λ i. attempt (is_root i) (is_empty i) (ok.rightmost.first_proof is_zero i))
          ∙ rw (test_of_eq (root_of hashv depth f) (empty_node hashv depth) is_empty_root) refl

  append_later :
      (j : ℕ)
      → end ≡ j
      → end < 2 ^ depth
      → Appends j (
          if end == 0
          then initialize_tree_from_append depth (2 ^ b) hashv r v r.rightmost_proof.proof
          else done (append_leaf depth (2 ^ b) hashv r v))
  unfolding advance
  append_later zero e room = rw (test_of_eq end 0 e) (append_first e)
  append_later (suc m) e room = rw (test_of_ne end 0 (omega arith)) (
    written hashv depth b r h ok.tells (suc m) v
        (last_proof hashv depth b shallow r h ok v (suc m)),
    ap done (append_leaf_made hashv depth b shallow r h ok v m e (omega arith)),
    record {
      tells = Tells-advance hashv depth b r h ok.tells (suc m) v _ (omega arith);
      rightmost =
          extend_IsRightmost hashv depth (h.past 0) r.rightmost_proof ok.rightmost (suc m) v _
            (sym e) (omega arith) refl;
      ends = omega (arith, ok.ends);
    },
  )

  -- For a leaf that is not empty: either the tree has room, and the result is the root of the
  -- tree with the leaf at its end and a roll that tells the longer history; or the tree is full,
  -- and the result is the error for that.
  pub append_lem :
      v ≢ empty
      → ((end < 2 ^ depth)
          × (r' : MerkleRoll) × (append depth (2 ^ b) hashv r v
              ≡ done (root_of hashv depth (replace end v (h.past 0)), r'))
          × IsRollOf hashv depth b r' (advance end v h))
        ⊎ ((2 ^ depth ≤ end) × (append depth (2 ^ b) hashv r v ≡ err tree_full))
  unfolding append
  append_lem leaf = elim (lt_or_ge end (2 ^ depth)) [
    | inl room ↦
        let (r', made, rolls) = append_later end refl room in
        inl (
          room,
          r',
          rw
              (
                check_bounds_lem depth b shallow,
                test_of_ne v 0 leaf,
                test_of_gt (2 ^ depth) end room,
              )
              made,
          rolls,
        )
    | inr full ↦ inr (
      full,
      rw (check_bounds_lem depth b shallow, test_of_ne v 0 leaf, test_of_le (2 ^ depth) end full)
          refl,
    )
  ]

  -- Whatever is appended is a leaf that is not empty, at the end of a tree with room for it.
  pub append_sound :
      {out : Node × MerkleRoll}
      → append depth (2 ^ b) hashv r v ≡ done out
      → (v ≢ empty)
        × (end < 2 ^ depth)
        × (out.0 ≡ root_of hashv depth (replace end v (h.past 0)))
        × IsRollOf hashv depth b out.1 (advance end v h)
  append_sound {out} e = elim (eq_or_ne v 0) [
    | inl none_given ↦ cc (append_empty none_given, e)
    | inr leaf ↦ elim (append_lem leaf) [
      | inr (_, full) ↦ cc (full, e)
      | inl (room, r', made, rolls) ↦
          subst
            (λ o.
              (v ≢ empty)
              × (end < 2 ^ depth)
              × (o.0 ≡ root_of hashv depth (replace end v (h.past 0)))
              × IsRollOf hashv depth b o.1 (advance end v h))
            (done-injective (sym made ∙ e)) (leaf, room, refl, rolls)
    ]
  ]
    where
      append_empty : v ≡ 0 → append depth (2 ^ b) hashv r v ≡ err cannot_append_empty_node
      append_empty e = unfold append in rw (check_bounds_lem depth b shallow, test_of_eq v 0 e) refl
