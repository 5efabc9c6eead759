-- ===== src/Cmt/History/Updated.antt =====
-- `update_buffers_from_proof`: a valid proof and a new leaf move the roll on by that change.
use candyland.Prelude.{
  max, ℕ, suc, ◌+◌, ◌-◌, ◌^◌, ◌≤◌, ◌<◌, ◌≡◌, refl, sym, ap, ◌∙◌, arith, ltb, ◌==◌, if◌then◌else◌,
  get_elem?-tabulate_from, shr, shr-zero, done, assert, ◌>>=◌, ◌>>◌, inl, inr, lt_or_ge, test_of_eq,
  test_of_ne, panic, test_of_lt, test_of_ge,
}
use candyland.Cmt.Node.{Node, Result}
use candyland.Cmt.ChangeLog.{ChangeLog, ProofPath, get_leaf, update_proof_or_leaf}
use candyland.Cmt.ChangeLog.Patch.{replace_and_recompute_path_lem, update_proof_or_leaf_lem}
use candyland.Cmt.Roll.{MerkleRoll, log_at}
use candyland.Cmt.Apply.{update_internal_counters, update_buffers_from_proof}
use candyland.Cmt.History.{History, IsRollOf, IsRightmost, advance}
use candyland.Cmt.History.Written.{written, own_log, next_inside, Tells-advance}
use candyland.Cmt.History.Rightmost.{full_IsRightmost, follow_IsRightmost, extend_IsRightmost}
use candyland.Tree.{Leaves, replace, root_of, proof_of, node_at}
use candyland.Tree.Change.{proof_of-replace_self}

module _ (hashv : Node → Node → Node) (depth b : ℕ) (pos : 1 ≤ depth) (small : depth ≤ 32)
    (r : MerkleRoll) (h : History) (ok : IsRollOf hashv depth b r h) (j : ℕ) (v : Node)
    (pj : j < 2 ^ depth) where
  abbrev size : ℕ
  size = 2 ^ b

  abbrev f : Leaves
  f = h.past 0

  abbrev f' : Leaves
  f' = replace j v f

  abbrev now : ProofPath → MerkleRoll
  now p = written hashv depth b r h ok.tells j v p

  abbrev log : ChangeLog
  log = own_log hashv depth b r h ok.tells j v

  abbrev rightmost : ProofPath
  rightmost = r.rightmost_proof

  abbrev update : Result (Node × MerkleRoll)
  update =
      update_buffers_from_proof depth size hashv (update_internal_counters depth size r) v
        (proof_of hashv depth f j) j

  -- The new log is computed; what is left is the choice of what to do with the rightmost proof.
  update_lem : update ≡ (
      if ltb rightmost.index (2 ^ depth)
      then (if ltb j rightmost.index
          then (update_proof_or_leaf depth log (rightmost.index - 1) rightmost.proof rightmost.leaf
              >>= λ (p, l).
                  done (root_of hashv depth f', now (record rightmost { proof = p; leaf = l })))
          else (assert (j == rightmost.index)
              >> (get_leaf log >>= λ l. done (
                root_of hashv depth f',
                now (record { proof = proof_of hashv depth f j; leaf = l; index = j + 1 }),
              ))))
      else done (root_of hashv depth f', now rightmost))
  unfolding update_buffers_from_proof update_internal_counters log_at
  update_lem =
      let (old, here, len) = ok.tells.paths _ (next_inside hashv depth b r h ok.tells j v) in
      rw (here, replace_and_recompute_path_lem hashv depth f j v old pj len) refl

  get_leaf-own : get_leaf log ≡ done v
  unfolding get_leaf
  get_leaf-own =
      rw (get_elem?-tabulate_from 0 depth 0 (λ x. node_at hashv f' x (shr j x)) pos)
        (ap done (unfold node_at in rw (shr-zero j, test_of_eq j j refl) refl))

  abbrev n : ℕ
  n = rightmost.index - 1

  -- The rightmost leaf and its proof, brought up to date by the new log.
  followed :
      j < rightmost.index
      → rightmost.index < 2 ^ depth
      → update_proof_or_leaf depth log n rightmost.proof rightmost.leaf
        ≡ done (proof_of hashv depth f' n, f' n)
  followed lt room =
      let last : rightmost.index ≡ suc n = omega arith in
      (λ i.
        update_proof_or_leaf depth log n (ok.rightmost.proof n last room i)
          (ok.rightmost.leaf n last room i))
      ∙ update_proof_or_leaf_lem hashv depth f n j v pos small (omega arith) pj

  -- The change is made: the new root, the log, and a rightmost proof of the new tree.
  pub update_buffers_from_proof_lem :
      j ≤ rightmost.index
      → (p : ProofPath) × (update ≡ done (root_of hashv depth f', now p))
        × IsRightmost hashv depth f' p
        × (p.index ≡ max rightmost.index (j + 1))
  update_buffers_from_proof_lem le = elim (lt_or_ge rightmost.index (2 ^ depth)) [
    | inr full ↦ (
      rightmost,
      update_lem ∙ rw (test_of_ge _ _ full) refl,
      full_IsRightmost hashv depth f rightmost ok.rightmost j v pj full,
      omega arith,
    )
    | inl room ↦ elim (lt_or_ge j rightmost.index) [
      | inl lt ↦ (
        record rightmost { proof = proof_of hashv depth f' n; leaf = f' n },
        update_lem ∙ rw (test_of_lt _ _ room, test_of_lt _ _ lt, followed lt room) refl,
        follow_IsRightmost hashv depth f rightmost ok.rightmost j v lt,
        omega arith,
      )
      | inr ge ↦ (
        record { proof = proof_of hashv depth f j; leaf = v; index = j + 1 },
        update_lem
            ∙ rw
                (
                  test_of_lt _ _ room,
                  test_of_ge _ _ ge,
                  test_of_eq j rightmost.index (omega arith),
                  get_leaf-own,
                )
                refl,
        extend_IsRightmost hashv depth f rightmost ok.rightmost j v _ (omega arith) pj
            (sym (proof_of-replace_self hashv depth f j v)),
        omega arith,
      )
    ]
  ]

  -- The roll after the change tells the history with the change.
  pub update-IsRollOf :
      j ≤ rightmost.index
      → (r' : MerkleRoll) × (update ≡ done (root_of hashv depth f', r'))
        × IsRollOf hashv depth b r' (advance j v h)
  unfolding advance
  update-IsRollOf le =
      let (p, e, right, ends) = update_buffers_from_proof_lem le in
      (
        now p,
        e,
        record {
          tells = Tells-advance hashv depth b r h ok.tells j v p pj;
          rightmost = right;
          ends = ends ∙ ap (λ (n : ℕ). max n (j + 1)) ok.ends;
        },
      )

  -- A leaf beyond the next free one is not written.
  pub update_beyond : rightmost.index < j → update ≡ panic
  update_beyond lt =
      update_lem
      ∙ rw
          (
            test_of_lt rightmost.index (2 ^ depth) (omega arith),
            test_of_ge j rightmost.index (omega arith),
            test_of_ne j rightmost.index (omega arith),
          )
          refl
