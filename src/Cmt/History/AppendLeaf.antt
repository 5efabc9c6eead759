-- ===== src/Cmt/History/AppendLeaf.antt =====
-- `append_leaf`: what its loop ends with, and the roll that it makes of it.
use candyland.Prelude.{
  ℕ, zero, suc, ◌+◌, ◌^◌, ◌≤◌, ◌<◌, ◌≡◌, refl, sym, ap, ◌∙◌, arith, ltb, if◌then◌else◌, shr,
  shr-zero, shr-eq-zero, List, set, ◌∷◌, replicate, tabulate_from, tabulate_from_ext, inl, inr,
  eq_or_ne, test_of_eq, test_of_lt, test_of_ge,
}
use native.Mathlib.Nat.{pow-le-pow_right}
use candyland.Cmt.Node.{Node, empty}
use candyland.Cmt.ChangeLog
use candyland.Cmt.ChangeLog.{ChangeLog, ProofPath}
use candyland.Cmt.Roll.{MerkleRoll}
use candyland.Cmt.Apply.{update_internal_counters}
use candyland.Cmt.Append.{trailing_zeros, AppendLoop, append_rounds, append_leaf}
use candyland.Cmt.Append.Digits.{Meets, trailing_zeros_lem}
use candyland.Cmt.History.{History, IsRollOf}
use candyland.Cmt.History.Written.{written}
use candyland.Cmt.History.AppendRounds.{at_level, append_rounds-at_level}
use candyland.Tree.{Leaves, replace, node_at, sibling, root_of, proof_of, path_of}

replicate-tabulate : (k n : ℕ) → replicate n empty ≡ tabulate_from k n (λ _. empty)
replicate-tabulate k zero = refl
replicate-tabulate k (suc n) = ap (λ (xs : List Node). empty ∷ xs) (replicate-tabulate (suc k) n)

module _ (hashv : Node → Node → Node) (depth : ℕ) (f : Leaves) (m x : ℕ) (meets : Meets m x)
    (v : Node) (vacant : (l : ℕ) → suc m ≤ l → f l ≡ empty) where
  abbrev f' : Leaves
  f' = replace (suc m) v f

  abbrev level : ℕ → AppendLoop
  level = at_level hashv depth f m x meets v vacant

  abbrev start : AppendLoop
  start = record {
    node = v;
    intersection_node = f m;
    proof = proof_of hashv depth f m;
    change_list = replicate depth empty;
  }

  start_lem : start ≡ level 0
  unfolding node_at
  start_lem i = record {
    node = new_leaf i;
    intersection_node = old_leaf i;
    proof =
        tabulate_from_ext 0 depth (λ k. node_at hashv f k (sibling (shr m k)))
          (λ k.
            if ltb k 0
            then node_at hashv f' k (sibling (shr (suc m) k))
            else node_at hashv f k (sibling (shr m k)))
          (λ k _ _. rw (test_of_ge k 0 (omega arith)) refl) i;
    change_list =
        (replicate-tabulate 0 depth
            ∙ tabulate_from_ext 0 depth (λ k. empty)
                (λ k. if ltb k 0 then node_at hashv f' k (shr (suc m) k) else empty)
                (λ k _ _. rw (test_of_ge k 0 (omega arith)) refl))
          i;
  }
    where
      new_leaf : v ≡ f' (shr (suc m) 0)
      new_leaf = sym (rw (shr-zero (suc m), test_of_eq (suc m) (suc m) refl) refl)

      old_leaf : f m ≡ (level 0).intersection_node
      old_leaf = elim (eq_or_ne x 0) [
        | inl e ↦ rw e (ap f (sym (shr-zero m)))
        | inr ne ↦ rw (test_of_lt 0 x (omega arith), shr-zero m) refl
      ]

  module _ (inside : suc m < 2 ^ depth) where
    end_node : (level depth).node ≡ root_of hashv depth f'
    end_node = ap (λ (q : ℕ). node_at hashv f' depth q) (shr-eq-zero (suc m) depth inside)

    end_proof : (level depth).proof ≡ proof_of hashv depth f' (suc m)
    end_proof = tabulate_from_ext 0 depth _ _ λ k _ lt. rw (test_of_lt k depth (omega arith)) refl

    end_path : (level depth).change_list ≡ path_of hashv depth f' (suc m)
    end_path = tabulate_from_ext 0 depth _ _ λ k _ lt. rw (test_of_lt k depth (omega arith)) refl

module _ (hashv : Node → Node → Node) (depth b : ℕ) (shallow : depth < 31) (r : MerkleRoll)
    (h : History) (ok : IsRollOf hashv depth b r h) (v : Node) where
  abbrev rightmost : ProofPath
  rightmost = r.rightmost_proof

  -- What `append_leaf` makes of the end of its loop.
  abbrev finish : ℕ → AppendLoop → Node × MerkleRoll
  finish index end =
      let self = update_internal_counters depth (2 ^ b) r in
      (
        end.node,
        record self {
          change_logs =
              set r.change_logs self.active_index (ChangeLog.new end.node end.change_list index);
          rightmost_proof = record { proof = end.proof; leaf = v; index = index + 1 };
        },
      )

  abbrev pub last_proof : ℕ → ProofPath
  last_proof j = record {
    proof = proof_of hashv depth (replace j v (h.past 0)) j;
    leaf = v;
    index = j + 1;
  }

  pub append_leaf_made :
      (m : ℕ)
      → rightmost.index ≡ suc m
      → suc m < 2 ^ depth
      → append_leaf depth (2 ^ b) hashv r v ≡ (
        root_of hashv depth (replace (suc m) v (h.past 0)),
        written hashv depth b r h ok.tells (suc m) v (last_proof (suc m)),
      )
  unfolding append_leaf update_internal_counters ChangeLog.new
  append_leaf_made m last inside =
      (λ i. finish (last i) (
        append_rounds depth (2 ^ b) hashv (last i) (trailing_zeros 32 (last i)) 0 depth (record {
          node = v;
          intersection_node = ok.rightmost.leaf m last room i;
          proof = ok.rightmost.proof m last room i;
          change_list = replicate depth empty;
        })))
      ∙ ap
          (λ (s : AppendLoop).
            finish (suc m) (append_rounds depth (2 ^ b) hashv (suc m) x 0 depth s))
          (start_lem hashv depth f m x meets v vacant)
      ∙ ap (finish (suc m))
          (append_rounds-at_level hashv depth f m x meets v vacant (2 ^ b) 0 depth (omega arith))
      ∙ (λ i. finish (suc m) (record {
        node = end_node hashv depth f m x meets v vacant inside i;
        intersection_node = (at_level hashv depth f m x meets v vacant depth).intersection_node;
        proof = end_proof hashv depth f m x meets v vacant inside i;
        change_list = end_path hashv depth f m x meets v vacant inside i;
      }))
    where
      f : Leaves
      f = h.past 0

      room : rightmost.index < 2 ^ depth
      room = omega arith

      x : ℕ
      x = trailing_zeros 32 (suc m)

      meets : Meets m x
      meets =
          let le : 2 ^ depth ≤ 2 ^ 32 =
            pow-le-pow_right {n = 2} (omega arith) {i = depth} {j = 32} (omega arith) in
          (trailing_zeros_lem 32 m (omega arith)).1

      vacant : (l : ℕ) → suc m ≤ l → f l ≡ empty
      vacant l le = ok.rightmost.vacant l (omega arith)
