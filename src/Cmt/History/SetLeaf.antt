-- ===== src/Cmt/History/SetLeaf.antt =====
-- `set_leaf` on a roll that tells its history.
use candyland.Prelude.{
  eq_or_ne, ◌⊎◌, ℕ, ◌^◌, ◌≤◌, ◌<◌, ◌≡◌, ◌≢◌, refl, sym, ap, subst, ◌∙◌, arith, Bool, true, false,
  ◌==◌, if◌then◌else◌, List, length, done, err, ◌>>=◌, >>=-eq-done, done-injective, inl, inr,
  lt_or_ge, test_of_eq, test_of_ne, test_of_lt, test_of_ge, length-tabulate_from,
}
use candyland.Cmt.Node.{
  Node, Result, invalid_proof, leaf_contents_modified, leaf_index_out_of_bounds,
}
use candyland.Cmt.Utils.{fill_in_proof}
use candyland.Cmt.Utils.Sound.{IsCollisionFree}
use candyland.Cmt.Roll.{MerkleRoll}
use candyland.Cmt.Apply.{
  check_valid_leaf, try_apply_proof, update_internal_counters, update_buffers_from_proof,
}
use candyland.Cmt.Api.{set_leaf}
use candyland.Cmt.History.{History, IsRollOf, advance}
use candyland.Cmt.History.Checked.{check_valid_leaf_sound, check_valid_leaf_complete}
use candyland.Cmt.History.Updated.{update-IsRollOf, update_beyond}
use candyland.Cmt.History.Filled.{check_bounds_lem, fill_in_proof-length, fill_in_proof_full}
use candyland.Tree.{replace, root_of, proof_of}

module _ (hashv : Node → Node → Node) (free : IsCollisionFree hashv) (depth b : ℕ) (pos : 1 ≤ depth)
    (shallow : depth < 31) (words : b ≤ 32) (r : MerkleRoll) (h : History)
    (ok : IsRollOf hashv depth b r h) (i : ℕ) (pi : i < 2 ^ depth) where
  -- What a change of leaf `i` to `v` must come to.
  abbrev pub Changes : Node → Node × MerkleRoll → Type 0
  Changes v (root, r') =
      (root ≡ root_of hashv depth (replace i v (h.past 0)))
      × IsRollOf hashv depth b r' (advance i v h)

  abbrev write : Node → Bool × List Node → Result (Node × MerkleRoll)
  write v (valid, p) =
      if valid
      then update_buffers_from_proof depth (2 ^ b) hashv (update_internal_counters depth (2 ^ b) r)
          v p i
      else err invalid_proof

  update_Changes :
      (v : Node) (p : List Node) {out : Node × MerkleRoll}
      → p ≡ proof_of hashv depth (h.past 0) i
      → update_buffers_from_proof depth
          (2 ^ b)
          hashv
          (update_internal_counters depth (2 ^ b) r)
          v
          p
          i
        ≡ done out
      → Changes v out
  update_Changes v p {out} is_proof e = elim (lt_or_ge r.rightmost_proof.index i) [
    | inl beyond ↦
        cc (update_beyond hashv depth b pos (omega arith) r h ok i v pi beyond, is_proof, e)
    | inr le ↦
        let (r', made, rolls) = update-IsRollOf hashv depth b pos (omega arith) r h ok i v pi le in
        subst (Changes v) (done-injective (sym made ∙ cc)) (refl, rolls)
  ]

  pub try_apply_proof_sound :
      (root leaf v : Node) (proof : List Node) (allow : Bool) {out : Node × MerkleRoll}
      → length proof ≡ depth
      → try_apply_proof depth (2 ^ b) hashv r root leaf v proof i allow ≡ done out
      → (leaf ≡ h.past 0 i) × Changes v out
  unfolding try_apply_proof
  try_apply_proof_sound root leaf v proof allow {out} len e =
      let (checked, accepted, written) = >>=-eq-done _ (write v) e in
      judged checked accepted written
    where
      judged :
          (checked : Bool × List Node)
          → check_valid_leaf depth (2 ^ b) hashv r root leaf proof i allow ≡ done checked
          → write v checked ≡ done out
          → (leaf ≡ h.past 0 i) × Changes v out
      judged (false, p) accepted written = cc
      judged (true, p) accepted written =
          let (is_leaf, is_proof) =
            check_valid_leaf_sound hashv free depth b r h ok.tells i pi root leaf proof allow len
              accepted in
          (is_leaf, update_Changes v p is_proof written)

  -- A leaf right of the next free one is refused.
  set_leaf_beyond :
      (root leaf v : Node) (proof_vec : List Node)
      → r.rightmost_proof.index < i
      → set_leaf depth (2 ^ b) hashv r root leaf v proof_vec i ≡ err leaf_index_out_of_bounds
  unfolding set_leaf
  set_leaf_beyond root leaf v proof_vec beyond =
      rw (check_bounds_lem depth b shallow, test_of_lt r.rightmost_proof.index i beyond) refl

  abbrev apply : Node → Node → Node → List Node → Result (Node × MerkleRoll)
  apply root leaf v proof = try_apply_proof depth (2 ^ b) hashv r root leaf v proof i true

  set_leaf_inside :
      (root leaf v : Node) (proof_vec : List Node)
      → i ≤ r.rightmost_proof.index
      → set_leaf depth (2 ^ b) hashv r root leaf v proof_vec i
        ≡ (fill_in_proof hashv depth proof_vec >>= apply root leaf v)
  unfolding set_leaf
  set_leaf_inside root leaf v proof_vec inside =
      rw (check_bounds_lem depth b shallow, test_of_ge r.rightmost_proof.index i inside) refl

  -- On a roll that tells a history, for an index inside the tree and whatever root, leaf and
  -- proof a caller gives: if the call returns, the given leaf is the one that stands there, the
  -- root returned is that of the tree with the new leaf, and the roll tells the longer history.
  pub set_leaf_sound :
      (root leaf v : Node) (proof_vec : List Node) {out : Node × MerkleRoll}
      → set_leaf depth (2 ^ b) hashv r root leaf v proof_vec i ≡ done out
      → (leaf ≡ h.past 0 i)
        × (out.0 ≡ root_of hashv depth (replace i v (h.past 0)))
        × IsRollOf hashv depth b out.1 (advance i v h)
  set_leaf_sound root leaf v proof_vec {out} e = elim (lt_or_ge r.rightmost_proof.index i) [
    | inl beyond ↦ cc (set_leaf_beyond root leaf v proof_vec beyond)
    | inr inside ↦
        let (proof, filled, made) =
          >>=-eq-done _ (apply root leaf v)
            (sym (set_leaf_inside root leaf v proof_vec inside) ∙ e) in
        let (is_leaf, changes) =
          try_apply_proof_sound root leaf v proof true
            (fill_in_proof-length hashv depth proof_vec filled) made in
        (is_leaf, changes.0, changes.1)
  ]

  written_if :
      (same : Bool) (v : Node) (p : List Node)
      → ((if same then done (true, p) else err leaf_contents_modified) >>= write v)
        ≡ (if same then write v (true, p) else err leaf_contents_modified)
  written_if true v p = refl
  written_if false v p = refl

  -- The outcome for the root, the leaf and the proof of a tree in the buffer.
  pub try_apply_proof_lem :
      (k : ℕ) (v : Node) (allow : Bool)
      → k < r.buffer_size
      → try_apply_proof depth
          (2 ^ b)
          hashv
          r
          (root_of hashv depth (h.past k))
          (h.past k i)
          v
          (proof_of hashv depth (h.past k) i)
          i
          allow
        ≡ (if h.past 0 i == h.past k i
            then write v (true, proof_of hashv depth (h.past 0) i)
            else err leaf_contents_modified)
  unfolding try_apply_proof
  try_apply_proof_lem k v allow lt =
      ap (λ (m : Result (Bool × List Node)). m >>= write v)
        (check_valid_leaf_complete hashv free depth b r h ok.tells i pi words pos (omega arith) k
          allow lt)
      ∙ written_if (h.past 0 i == h.past k i) v (proof_of hashv depth (h.past 0) i)

  -- A leaf that still stands is changed.
  pub try_apply_proof_complete :
      (k : ℕ) (v : Node) (allow : Bool)
      → k < r.buffer_size
      → i ≤ r.rightmost_proof.index
      → h.past 0 i ≡ h.past k i
      → (r' : MerkleRoll) × (try_apply_proof depth
            (2 ^ b)
            hashv
            r
            (root_of hashv depth (h.past k))
            (h.past k i)
            v
            (proof_of hashv depth (h.past k) i)
            i
            allow
          ≡ done (root_of hashv depth (replace i v (h.past 0)), r'))
        × IsRollOf hashv depth b r' (advance i v h)
  try_apply_proof_complete k v allow lt inside same =
      let (r', made, rolls) =
        update-IsRollOf hashv depth b pos (omega arith) r h ok i v pi inside in
      (r', try_apply_proof_lem k v allow lt ∙ rw (test_of_eq _ _ same) made, rolls)

  -- For a leaf inside the tree and not beyond the next free one, and the root, the leaf and the
  -- proof of any tree in the buffer: either the leaf still stands, and the result is the root and
  -- a roll of the tree with the new leaf, whatever other leaves were changed since; or it was
  -- changed, and the result is the error for that.
  pub set_leaf_complete :
      (k : ℕ) (v : Node)
      → k < r.buffer_size
      → i ≤ r.rightmost_proof.index
      → let outcome =
          set_leaf depth
            (2 ^ b)
            hashv
            r
            (root_of hashv depth (h.past k))
            (h.past k i)
            v
            (proof_of hashv depth (h.past k) i)
            i in
        ((h.past 0 i ≡ h.past k i)
          × (r' : MerkleRoll) × (outcome ≡ done (root_of hashv depth (replace i v (h.past 0)), r'))
          × IsRollOf hashv depth b r' (advance i v h))
        ⊎ ((h.past 0 i ≢ h.past k i) × (outcome ≡ err leaf_contents_modified))
  set_leaf_complete k v lt inside = elim (eq_or_ne (h.past 0 i) (h.past k i)) [
    | inl same ↦
        let (r', made, rolls) = try_apply_proof_complete k v true lt inside same in
        inl (same, r', applied ∙ made, rolls)
    | inr changed ↦
        inr (changed, applied ∙ try_apply_proof_lem k v true lt ∙ rw (test_of_ne _ _ changed) refl)
  ]
    where
      applied :
          set_leaf depth
            (2 ^ b)
            hashv
            r
            (root_of hashv depth (h.past k))
            (h.past k i)
            v
            (proof_of hashv depth (h.past k) i)
            i
          ≡ apply
              (root_of hashv depth (h.past k))
              (h.past k i)
              v
              (proof_of hashv depth (h.past k) i)
      applied =
          set_leaf_inside _ _ v _ inside
          ∙ rw
              (fill_in_proof_full hashv depth (proof_of hashv depth (h.past k) i)
                (length-tabulate_from 0 depth _))
              refl
