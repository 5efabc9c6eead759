-- ===== src/Cmt/History/Window.antt =====
-- Going through the buffer: `find_root_in_changelog` and `fast_forward_proof` on a roll that tells
-- its history.
use candyland.Prelude.{
  ℕ, zero, suc, ◌+◌, ◌-◌, ◌^◌, ◌≤◌, ◌<◌, ◌≡◌, ◌≢◌, refl, sym, ◌∙◌, arith, false, ◌==◌,
  if◌then◌else◌, bit_and, bit_and_mask, List, some, none, done, test_of_eq, test_of_ne, Option, ◌⊎◌,
  inl, inr, eq_or_ne,
}
use candyland.Cmt.Node.{Node, Result}
use candyland.Cmt.ChangeLog.{update_proof_or_leaf}
use candyland.Cmt.ChangeLog.Patch.{log_of, update_proof_or_leaf_lem}
use candyland.Cmt.Ring.{place, place-zero, place_ne, place_next, masked_sub}
use candyland.Cmt.Roll.{MerkleRoll, fast_forward, find_root_from, find_root_in_changelog}
use candyland.Cmt.History.{History, Tells}
use candyland.Tree.{root_of, proof_of}

module _ (hashv : Node → Node → Node) (depth b : ℕ) (pos : 1 ≤ depth) (small : depth ≤ 32)
    (r : MerkleRoll) (h : History) (t : Tells hashv depth b r h) where
  abbrev size : ℕ
  size = 2 ^ b

  abbrev at : ℕ → ℕ
  at k = place size r.active_index k

  next_at : (k : ℕ) → suc k < r.buffer_size → bit_and (at (suc k) + 1) (size - 1) ≡ at k
  next_at k lt =
      bit_and_mask b (at (suc k) + 1)
      ∙ place_next size r.active_index t.active k (omega (arith, t.no_more_logs))

  at-suc_ne : (k : ℕ) → suc k < r.buffer_size → at (suc k) ≢ r.active_index
  at-suc_ne k lt e =
      place_ne size r.active_index t.active (suc k) 0 (omega (arith, t.no_more_logs))
        (omega (arith, t.no_more_logs)) (omega arith)
        (e ∙ sym (place-zero size r.active_index t.active))

  module _ (i : ℕ) (pi : i < 2 ^ depth) where
    abbrev forward : ℕ → ℕ → Result (List Node × Node)
    forward fuel k =
        fast_forward depth size fuel r i false (at k) (proof_of hashv depth (h.past k) i)
          (h.past k i)

    -- One round of the loop takes a leaf and its proof to the next tree.
    patched :
        (k : ℕ)
        → suc k < r.buffer_size
        → update_proof_or_leaf depth
            (log_of hashv depth (h.past k) (h.changed k))
            i
            (proof_of hashv depth (h.past (suc k)) i)
            (h.past (suc k) i)
          ≡ done (proof_of hashv depth (h.past k) i, h.past k i)
    patched k lt = rw (t.changes k lt) (
        update_proof_or_leaf_lem hashv depth (h.past (suc k)) i (h.changed k) (h.value k) pos small
          pi (t.inside k lt))

    round : (fuel k : ℕ) → suc k < r.buffer_size → forward (suc fuel) (suc k) ≡ forward fuel k
    unfolding fast_forward
    round fuel k lt =
        rw
          (
            test_of_ne (at (suc k)) r.active_index (at-suc_ne k lt),
            next_at k lt,
            t.logs k (omega arith),
            patched k lt,
          )
          refl

    -- On a roll that tells a history, with use_full_buffer false, from the place of the tree `k`
    -- changes ago, for a tree in the buffer, a leaf inside the tree and more than `k` rounds of
    -- fuel: the loop ends, and takes that tree's leaf and proof to those of the current tree.
    pub fast_forward_lem :
        (k fuel : ℕ)
        → k < r.buffer_size
        → k < fuel
        → forward fuel k ≡ done (proof_of hashv depth (h.past 0) i, h.past 0 i)
    unfolding fast_forward
    fast_forward_lem k zero lt enough = absurd (omega arith)
    fast_forward_lem zero (suc fuel) lt enough =
        rw (test_of_eq (at 0) r.active_index (place-zero size r.active_index t.active)) refl
    fast_forward_lem (suc k) (suc fuel) lt enough =
        round fuel k lt ∙ fast_forward_lem k fuel (omega arith) (omega arith)

  -- What a search for a root finds from `i` changes back: the most recent tree with that root, or
  -- that no tree in the buffer has it.
  abbrev pub Finds : ℕ → Node → Result (Option ℕ) → Type 0
  Finds i root found =
      ((k : ℕ) × (found ≡ done (some (at k)))
        × (k < r.buffer_size)
        × (root_of hashv depth (h.past k) ≡ root))
      ⊎ ((found ≡ done none)
          × ((k : ℕ) → i ≤ k → k < r.buffer_size → root_of hashv depth (h.past k) ≢ root))

  find_root_round :
      (words : b ≤ 32) (left i : ℕ) (root : Node)
      → i < r.buffer_size
      → find_root_from depth size (suc left) i r root ≡ (
          if root_of hashv depth (h.past i) == root
          then done (some (at i))
          else find_root_from depth size left (i + 1) r root)
  unfolding find_root_from
  find_root_round words left i root lt =
      let place_of = masked_sub b r.active_index i words t.active (omega (arith, t.no_more_logs)) in
      rw (place_of, t.logs i lt) refl

  Finds-older :
      (i : ℕ) (root : Node) (found : Result (Option ℕ))
      → root_of hashv depth (h.past i) ≢ root
      → Finds (i + 1) root found
      → Finds i root found
  Finds-older i root found ne (inl match) = inl match
  Finds-older i root found ne (inr (e, absent)) = inr (
    e,
    λ k p q. elim (eq_or_ne k i) [ inl same ↦ rw same ne | inr off ↦ absent k (omega arith) q ],
  )

  find_root_from_lem :
      (words : b ≤ 32) (left i : ℕ) (root : Node)
      → i + left ≡ r.buffer_size
      → Finds i root (find_root_from depth size left i r root)
  find_root_from_lem words zero i root e =
      unfold find_root_from in inr (refl, λ k p q. absurd (omega arith))
  find_root_from_lem words (suc left) i root e =
      rw (find_root_round words left i root (omega arith))
        (elim (eq_or_ne (root_of hashv depth (h.past i)) root) [
          | inl same ↦ inl (i, rw (test_of_eq _ _ same) refl, omega arith, same)
          | inr other ↦ rw (test_of_ne _ _ other) (
              Finds-older i root _ other (find_root_from_lem words left (i + 1) root (omega arith)))
        ])

  -- On a roll that tells a history: the search ends, and either finds the place of a tree in the
  -- buffer that has the root, or finds none and no tree in the buffer has it.
  pub find_root_lem :
      (words : b ≤ 32) (root : Node) → Finds 0 root (find_root_in_changelog depth size r root)
  unfolding find_root_in_changelog
  find_root_lem words root = find_root_from_lem words r.buffer_size 0 root (omega arith)
