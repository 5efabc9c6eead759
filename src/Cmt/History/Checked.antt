-- ===== src/Cmt/History/Checked.antt =====
-- `check_valid_leaf`: what it accepts is the current tree's, and it accepts what was a tree's in the
-- buffer and still holds.
use candyland.Prelude.{
  ℕ, suc, ◌^◌, ◌≤◌, ◌<◌, ◌≡◌, refl, sym, ◌∙◌, arith, Bool, true, false, ◌==◌, if◌then◌else◌, List,
  length, Option, done, err, ◌>>=◌, >>=-eq-done, >>=-assoc, inl, inr, test_of_eq,
  length-tabulate_from,
}
use candyland.Cmt.Node.{Node, Result, leaf_contents_modified}
use candyland.Cmt.Utils.{recompute}
use candyland.Cmt.Utils.Recompute.{recompute-proof_of}
use candyland.Cmt.Utils.Sound.{IsCollisionFree, recompute_sound}
use candyland.Cmt.ChangeLog.Patch.{log_of}
use candyland.Cmt.Ring.{place, place-zero}
use candyland.Cmt.Roll.{MerkleRoll, get_change_log, fast_forward, find_root_in_changelog}
use candyland.Cmt.Apply.{starting_point, fast_forward_proof, check_valid_leaf}
use candyland.Cmt.History.{History, Tells}
use candyland.Cmt.History.Lengths.{fast_forward-HasLength}
use candyland.Cmt.History.Window.{fast_forward_lem, find_root_lem}
use candyland.Tree.{root_of, proof_of}

accepted :
    (l leaf x y : Node) (p' p : List Node)
    → ◌≡◌ {A = Result (Bool × List Node)}
        (if l == leaf then done (x == y, p') else err leaf_contents_modified)
        (done (true, p))
    → (l ≡ leaf) × (x ≡ y) × (p' ≡ p)
accepted l leaf x y p' p e = ground arith

module _ (hashv : Node → Node → Node) (free : IsCollisionFree hashv) (depth b : ℕ) (r : MerkleRoll)
    (h : History) (t : Tells hashv depth b r h) (i : ℕ) (pi : i < 2 ^ depth) where
  abbrev size : ℕ
  size = 2 ^ b

  pub current_log : get_change_log depth size r ≡ done (log_of hashv depth (h.past 0) (h.changed 0))
  unfolding get_change_log
  current_log = rw (← place-zero size r.active_index t.active, t.logs 0 t.some_logs) refl

  -- The three steps after the search, each with those that follow it.
  abbrev judge : Node → List Node × Node → Result (Bool × List Node)
  judge leaf (p, l) =
      if l == leaf
      then done (recompute hashv l p i == root_of hashv depth (h.past 0), p)
      else err leaf_contents_modified

  abbrev bring : List Node → Node → ℕ × Bool → Result (Bool × List Node)
  bring proof leaf (start, full) =
      fast_forward depth size (suc size) r i full start proof leaf >>= judge leaf

  abbrev begin : List Node → Node → Bool → Option ℕ → Result (Bool × List Node)
  begin proof leaf allow found = starting_point depth size r allow found >>= bring proof leaf

  verdict :
      (root leaf : Node) (proof : List Node) (allow : Bool)
      → check_valid_leaf depth size hashv r root leaf proof i allow
        ≡ (find_root_in_changelog depth size r root >>= begin proof leaf allow)
  unfolding check_valid_leaf fast_forward_proof
  verdict root leaf proof allow = simp (>>=-assoc, current_log)

  -- What is accepted is the current tree's, whatever root and proof were given: the leaf stands at
  -- the index, and the proof as it was brought up to date is the leaf's.
  pub check_valid_leaf_sound :
      (root leaf : Node) (proof : List Node) (allow : Bool) {p : List Node}
      → length proof ≡ depth
      → check_valid_leaf depth size hashv r root leaf proof i allow ≡ done (true, p)
      → (leaf ≡ h.past 0 i) × (p ≡ proof_of hashv depth (h.past 0) i)
  check_valid_leaf_sound root leaf proof allow {p} len e =
      let (found, _, e1) =
        >>=-eq-done _ (begin proof leaf allow) (sym (verdict root leaf proof allow) ∙ e) in
      let (from, _, e2) = >>=-eq-done _ (bring proof leaf) e1 in
      let (reached, forwarded, e3) = >>=-eq-done _ (judge leaf) e2 in
      let (same_leaf, same_root, same_proof) = accepted reached.1 leaf _ _ reached.0 p e3 in
      let kept : length reached.0 ≡ length proof =
        rw forwarded at
          (fast_forward-HasLength depth size (suc size) r i from.1 from.0 proof leaf) in
      let (is_leaf, is_proof) =
        recompute_sound hashv free depth (h.past 0) i reached.1 reached.0 pi (kept ∙ len)
          same_root in
      (sym same_leaf ∙ is_leaf, sym same_proof ∙ is_proof)

  -- A leaf and its proof from any tree in the buffer, with that tree's root, are accepted exactly if
  -- the leaf is still the same, and the proof comes back as that in the current tree.
  pub check_valid_leaf_complete :
      (words : b ≤ 32) (pos : 1 ≤ depth) (small : depth ≤ 32) (k : ℕ) (allow : Bool)
      → k < r.buffer_size
      → check_valid_leaf depth size hashv r
          (root_of hashv depth (h.past k))
          (h.past k i)
          (proof_of hashv depth (h.past k) i)
          i
          allow
        ≡ (if h.past 0 i == h.past k i
            then done (true, proof_of hashv depth (h.past 0) i)
            else err leaf_contents_modified)
  unfolding starting_point
  check_valid_leaf_complete words pos small k allow lt =
      elim (find_root_lem hashv depth b pos small r h t words (root_of hashv depth (h.past k))) [
        | inr (_, absent) ↦ absurd (absent k (omega arith) lt refl)
        | inl (k', found, lt', same) ↦
            let (is_leaf, is_proof) =
              recompute_sound hashv free depth (h.past k') i (h.past k i)
                (proof_of hashv depth (h.past k) i) pi (length-tabulate_from 0 depth _)
                (recompute-proof_of hashv depth (h.past k) i pi ∙ sym same) in
            let forwarded : fast_forward depth size (suc size) r i false
                  (place size r.active_index k') (proof_of hashv depth (h.past k) i) (h.past k i)
                ≡ done (proof_of hashv depth (h.past 0) i, h.past 0 i) =
              (λ n.
                fast_forward depth size (suc size) r i false (place size r.active_index k')
                  (is_proof n) (is_leaf n))
              ∙ fast_forward_lem hashv depth b pos small r h t i pi k' (suc size) lt'
                  (omega (arith, t.no_more_logs)) in
            let holds = recompute-proof_of hashv depth (h.past 0) i pi in
            verdict _ _ _ allow
            ∙ rw (found, forwarded, holds, test_of_eq (root_of hashv depth (h.past 0)) _ refl) refl
      ]
