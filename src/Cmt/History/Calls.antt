-- ===== src/Cmt/History/Calls.antt =====
-- `prove_leaf` and `fill_empty_or_append` on a roll that tells its history.
use candyland.Prelude.{
  eq_or_ne, ℕ, ◌^◌, ◌≤◌, ◌<◌, ◌≡◌, ◌≢◌, refl, sym, ap, ◌∙◌, arith, Bool, true, false, ltb, ◌==◌,
  if◌then◌else◌, List, done, err, panic, diverge, ◌>>=◌, >>=-eq-done, ◌⊎◌, inl, inr, lt_or_ge,
  test_of_ne, test_of_lt, test_of_ge, length-tabulate_from,
}
use candyland.Cmt.Node.{
  Node, empty, Result, CmtError, invalid_proof, leaf_contents_modified, leaf_index_out_of_bounds,
}
use candyland.Cmt.Utils.{fill_in_proof}
use candyland.Cmt.Utils.Sound.{IsCollisionFree}
use candyland.Cmt.Roll.{MerkleRoll}
use candyland.Cmt.Apply.{check_valid_leaf, try_apply_proof}
use candyland.Cmt.Append.{append}
use candyland.Cmt.Api.{prove_leaf, append_if_modified, fill_empty_or_append}
use candyland.Cmt.History.{History, IsRollOf, advance}
use candyland.Cmt.History.Checked.{check_valid_leaf_sound, check_valid_leaf_complete}
use candyland.Cmt.History.Filled.{check_bounds_lem, fill_in_proof-length, fill_in_proof_full}
use candyland.Cmt.History.SetLeaf.{
  try_apply_proof_sound, try_apply_proof_lem, try_apply_proof_complete,
}
use candyland.Cmt.History.Appended.{append_sound}
use candyland.Tree.{replace, root_of, proof_of}

module _ (hashv : Node → Node → Node) (free : IsCollisionFree hashv) (depth b : ℕ) (pos : 1 ≤ depth)
    (shallow : depth < 31) (words : b ≤ 32) (r : MerkleRoll) (h : History)
    (ok : IsRollOf hashv depth b r h) (i : ℕ) (pi : i < 2 ^ depth) where
  abbrev conclude : Bool × List Node → Result Node
  conclude (valid, _) = if valid then done empty else err invalid_proof

  abbrev check : Node → Node → List Node → Result Node
  check root leaf proof = check_valid_leaf depth (2 ^ b) hashv r root leaf proof i true >>= conclude

  prove_leaf_lem :
      (root leaf : Node) (proof_vec : List Node)
      → prove_leaf depth (2 ^ b) hashv r root leaf proof_vec i ≡ (
          if ltb r.rightmost_proof.index i
          then err leaf_index_out_of_bounds
          else (fill_in_proof hashv depth proof_vec >>= check root leaf))
  unfolding prove_leaf
  prove_leaf_lem root leaf proof_vec = rw (check_bounds_lem depth b shallow) refl

  conclude-true :
      (checked : Bool × List Node) {out : Node} → conclude checked ≡ done out → checked.0 ≡ true
  conclude-true (true, _) e = refl
  conclude-true (false, _) e = cc

  -- On a roll that tells a history, for an index inside the tree and whatever root and proof a
  -- caller gives: if the call returns, the given leaf is the one that stands there.
  pub prove_leaf_sound :
      (root leaf : Node) (proof_vec : List Node) {out : Node}
      → prove_leaf depth (2 ^ b) hashv r root leaf proof_vec i ≡ done out
      → leaf ≡ h.past 0 i
  prove_leaf_sound root leaf proof_vec {out} e = elim (lt_or_ge r.rightmost_proof.index i) [
    | inl beyond ↦ cc (prove_leaf_lem root leaf proof_vec, test_of_lt _ _ beyond, e)
    | inr inside ↦
        let (proof, filled, made) =
          >>=-eq-done _ (check root leaf)
            (sym (prove_leaf_lem root leaf proof_vec ∙ rw (test_of_ge _ _ inside) refl) ∙ e) in
        let (checked, accepted, concluded) = >>=-eq-done _ conclude made in
        (check_valid_leaf_sound hashv free depth b r h ok.tells i pi root leaf proof true
          (fill_in_proof-length hashv depth proof_vec filled)
          (accepted ∙ ap (λ (v : Bool). done (v, checked.1)) (conclude-true checked concluded))).0
  ]

  conclude_if :
      (same : Bool) (p : List Node)
      → ((if same then done (true, p) else err leaf_contents_modified) >>= conclude)
        ≡ (if same then done empty else err leaf_contents_modified)
  conclude_if true p = refl
  conclude_if false p = refl

  -- For a leaf inside the tree and not beyond the next free one, and the root, the leaf and the
  -- proof of any tree in the buffer: the call returns if the leaf still stands, and is the error
  -- for a changed leaf if it does not.
  pub prove_leaf_complete :
      (k : ℕ)
      → k < r.buffer_size
      → i ≤ r.rightmost_proof.index
      → prove_leaf depth
          (2 ^ b)
          hashv
          r
          (root_of hashv depth (h.past k))
          (h.past k i)
          (proof_of hashv depth (h.past k) i)
          i
        ≡ (if h.past 0 i == h.past k i then done empty else err leaf_contents_modified)
  prove_leaf_complete k lt inside =
      prove_leaf_lem _ _ _
      ∙ rw
          (
            test_of_ge r.rightmost_proof.index i inside,
            fill_in_proof_full hashv depth (proof_of hashv depth (h.past k) i)
                (length-tabulate_from 0 depth _),
            check_valid_leaf_complete hashv free depth b r h ok.tells i pi words pos (omega arith) k
                true lt,
          )
          (conclude_if (h.past 0 i == h.past k i) (proof_of hashv depth (h.past 0) i))

  module _ (v : Node) where
    abbrev end : ℕ
    end = r.rightmost_proof.index

    abbrev fill : Node → List Node → Result (Node × MerkleRoll)
    fill root proof =
        append_if_modified depth (2 ^ b) hashv r v
          (try_apply_proof depth (2 ^ b) hashv r root empty v proof i false)

    fill_lem :
        (root : Node) (proof_vec : List Node)
        → fill_empty_or_append depth (2 ^ b) hashv r root v proof_vec i
          ≡ (fill_in_proof hashv depth proof_vec >>= fill root)
    unfolding fill_empty_or_append
    fill_lem root proof_vec = rw (check_bounds_lem depth b shallow) refl

    -- A result is that of the write, or that of the append.
    append_if_modified_lem :
        (tried : Result (Node × MerkleRoll)) {out : Node × MerkleRoll}
        → append_if_modified depth (2 ^ b) hashv r v tried ≡ done out
        → (tried ≡ done out) ⊎ (append depth (2 ^ b) hashv r v ≡ done out)
    unfolding append_if_modified
    append_if_modified_lem (done o) e = inl e
    append_if_modified_lem (err CmtError.leaf_contents_modified) e = inr e
    append_if_modified_lem (err CmtError.leaf_index_out_of_bounds) e = inl e
    append_if_modified_lem (err CmtError.invalid_proof) e = inl e
    append_if_modified_lem (err CmtError.cannot_append_empty_node) e = inl e
    append_if_modified_lem (err CmtError.tree_full) e = inl e
    append_if_modified_lem (err CmtError.tree_already_initialized) e = inl e
    append_if_modified_lem (err CmtError.invalid_node_byte_length) e = inl e
    append_if_modified_lem (err CmtError.root_not_found) e = inl e
    append_if_modified_lem panic e = inl e
    append_if_modified_lem diverge e = inl e

    -- On a roll that tells a history, for an index inside the tree and whatever root and proof a
    -- caller gives: if the call returns, either the leaf at the index was empty and the new one
    -- stands there, or the new leaf is not empty and stands at the end of the tree; the root
    -- returned and the roll are those of that tree.
    pub fill_empty_or_append_sound :
        (root : Node) (proof_vec : List Node) {out : Node × MerkleRoll}
        → fill_empty_or_append depth (2 ^ b) hashv r root v proof_vec i ≡ done out
        → ((h.past 0 i ≡ empty)
            × (out.0 ≡ root_of hashv depth (replace i v (h.past 0)))
            × IsRollOf hashv depth b out.1 (advance i v h))
          ⊎ ((v ≢ empty)
              × (end < 2 ^ depth)
              × (out.0 ≡ root_of hashv depth (replace end v (h.past 0)))
              × IsRollOf hashv depth b out.1 (advance end v h))
    fill_empty_or_append_sound root proof_vec {out} e =
        let (proof, filled, made) = >>=-eq-done _ (fill root) (sym (fill_lem root proof_vec) ∙ e) in
        elim (append_if_modified_lem _ made) [
          | inl written ↦
              let (was, changes) =
                try_apply_proof_sound hashv free depth b pos shallow words r h ok i pi root empty v
                  proof false (fill_in_proof-length hashv depth proof_vec filled) written in
              inl (sym was, changes.0, changes.1)
          | inr appended ↦ inr (append_sound hashv free depth b pos shallow words r h ok v appended)
        ]

    -- For a leaf inside the tree and not beyond the next free one, and the root and the proof of
    -- any tree in the buffer in which it is empty: either it still is, and the result is the root
    -- and a roll of the tree with the new leaf there; or it is not, and the result is that of
    -- `append`.
    pub fill_empty_or_append_complete :
        (k : ℕ)
        → k < r.buffer_size
        → i ≤ end
        → h.past k i ≡ empty
        → let outcome =
            fill_empty_or_append depth
              (2 ^ b)
              hashv
              r
              (root_of hashv depth (h.past k))
              v
              (proof_of hashv depth (h.past k) i)
              i in
          ((h.past 0 i ≡ empty)
            × (r' : MerkleRoll) × (outcome
                ≡ done (root_of hashv depth (replace i v (h.past 0)), r'))
            × IsRollOf hashv depth b r' (advance i v h))
          ⊎ ((h.past 0 i ≢ empty) × (outcome ≡ append depth (2 ^ b) hashv r v))
    unfolding append_if_modified
    fill_empty_or_append_complete k lt inside was = elim (eq_or_ne (h.past 0 i) empty) [
      | inl still ↦
          let (r', made, rolls) =
            try_apply_proof_complete hashv free depth b pos shallow words r h ok i pi k v false lt
              inside (still ∙ sym was) in
          inl (still, r', filled ∙ ap (append_if_modified depth (2 ^ b) hashv r v) made, rolls)
      | inr taken ↦ inr (
        taken,
        filled
            ∙ ap (append_if_modified depth (2 ^ b) hashv r v) {y = err leaf_contents_modified} (
                try_apply_proof_lem hashv free depth b pos shallow words r h ok i pi k v false lt
                ∙ rw (test_of_ne (h.past 0 i) (h.past k i) (λ e. taken (e ∙ was))) refl),
      )
    ]
      where
        filled :
            fill_empty_or_append depth
              (2 ^ b)
              hashv
              r
              (root_of hashv depth (h.past k))
              v
              (proof_of hashv depth (h.past k) i)
              i
            ≡ append_if_modified depth (2 ^ b) hashv r v (
                try_apply_proof depth
                  (2 ^ b)
                  hashv
                  r
                  (root_of hashv depth (h.past k))
                  (h.past k i)
                  v
                  (proof_of hashv depth (h.past k) i)
                  i
                  false)
        filled =
            fill_lem _ _
            ∙ rw
                (fill_in_proof_full hashv depth (proof_of hashv depth (h.past k) i)
                  (length-tabulate_from 0 depth _))
                (ap
                  (λ (leaf : Node). append_if_modified depth (2 ^ b) hashv r v (
                    try_apply_proof depth (2 ^ b) hashv r (root_of hashv depth (h.past k)) leaf v
                      (proof_of hashv depth (h.past k) i) i false))
                  (sym was))
