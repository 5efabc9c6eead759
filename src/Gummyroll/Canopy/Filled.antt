-- ===== src/Gummyroll/Canopy/Filled.antt =====
-- `fill_in_proof_from_canopy`: the canopy of a tree gives the upper part of every proof.
use candyland.Prelude.{
  ℕ, zero, suc, ◌+◌, ◌-◌, ◌*◌, ◌/◌, ◌%◌, ◌^◌, ◌≤◌, ◌<◌, ◌≡◌, ◌≢◌, refl, sym, ap, subst, ◌∙◌, arith,
  Option, some, List, ◌∷◌, ◌++◌, length, get_elem?, set, length-set, get_elem?-set_self,
  get_elem?-set_ne, tabulate, tabulate_from, replicate, shr, shr-suc, shr-eq-zero,
  tabulate_from-append, pow-add, pow_pos, pow_double, inl, inr, eq_or_ne, test_of_eq, test_of_ne,
  test_of_lt, test_of_ge, test_of_gt, done, ◌==◌, if◌then◌else◌,
}
use native.Mathlib.Nat.{mul-add-div_right}
use candyland.Cmt.Node.{Node, empty}
use candyland.Cmt.Utils.{empty_node, empty_node_cached}
use candyland.Cmt.Utils.Recompute.{empty_node_cached_lem, replicate-IsCache}
use candyland.Gummyroll.Canopy.{CanopyBytes, check_canopy_bytes, climb, fill_in_proof_from_canopy}
use candyland.Gummyroll.Canopy.Rows.{
  at, pow_mono, at_ne, at-lt, shr-row, row-leading_zeros, get_cached_path_length_lem, Holds,
  IsCanopy,
}
use candyland.Tree.{Leaves, sibling, node_at, proof_of}

module _ (hashv : Node → Node → Node) (d p : ℕ) (le : p ≤ d) (shallow : d < 31)
    (nonzero : (a b : Node) → hashv a b ≢ empty) (f : Leaves) (i : ℕ) (pi : i < 2 ^ d) where
  -- What the canopy comes to when the node at a place is read, and what is read.
  abbrev kept : List Node → ℕ → ℕ → Node → List Node
  kept canopy k place cached =
      if cached == empty
      then set canopy place (empty_node_cached hashv (d - k) (replicate 30 empty))
      else canopy

  abbrev read : ℕ → Node → Node
  read k cached =
      if cached == empty then empty_node_cached hashv (d - k) (replicate 30 empty) else cached

  -- No hash is zero, so that a zero is a leaf's or the mark.
  zero_node :
      (level q : ℕ)
      → node_at hashv f level q ≡ empty
      → node_at hashv f level q ≡ empty_node hashv level
  unfolding node_at empty_node empty_node_cached
  zero_node zero q e = e
  zero_node (suc level) q e = absurd (nonzero _ _ e)

  cached_lem :
      (k q : ℕ) (slot : Option Node)
      → Holds hashv d p f k q slot
      → (cached : Node) × (slot ≡ some cached)
        × (cached ≡ empty → node_at hashv f (d - k) q ≡ empty_node hashv (d - k))
        × (cached ≢ empty → cached ≡ node_at hashv f (d - k) q)
  cached_lem k q slot (inl here) = (node_at hashv f (d - k) q, here, zero_node (d - k) q, λ _. refl)
  cached_lem k q slot (inr (unset, vacant)) = (empty, unset, λ _. vacant, λ ne. absurd (ne refl))

  -- The canopy with the true node at a place.
  IsCanopy-set :
      (k q : ℕ) (canopy : List Node) (v : Node)
      → 1 ≤ k
      → k ≤ p
      → q < 2 ^ k
      → v ≡ node_at hashv f (d - k) q
      → IsCanopy hashv d p f canopy
      → IsCanopy hashv d p f (set canopy (at k q) v)
  IsCanopy-set k q canopy v one le small true_node holds = record {
    size = ap (λ (m : ℕ). m + 2) (length-set canopy (at k q) v) ∙ holds.size;
    rows = λ k' q' one' le' small'. elim (eq_or_ne (at k q) (at k' q')) [
      | inr ne ↦
          subst (Holds hashv d p f k' q') (sym (get_elem?-set_ne canopy (at k q) (at k' q') v ne))
            (holds.rows k' q' one' le' small')
      | inl e ↦ elim (eq_or_ne k k') [
        | inr ne ↦ absurd (at_ne k k' q q' one one' small small' ne e)
        | inl same ↦
            let same_place : q ≡ q' = omega (
              arith,
              ap (λ (n : ℕ). 2 ^ n) same,
              pow_double (k - 1),
              pow_pos (k - 1),
              one_up k one,
            ) in
            inl (
              ap (λ (n : ℕ). get_elem? (set canopy (at k q) v) n) (sym e)
              ∙ get_elem?-set_self canopy (at k q) v
                  (omega (arith, at-lt p k q one le small, holds.size))
              ∙ ap some true_node
              ∙ (λ t. some (node_at hashv f (d - same t) (same_place t))))
      ]
    ];
  }
    where
      one_up : (k : ℕ) → 1 ≤ k → 2 ^ suc (k - 1) ≡ 2 ^ k
      one_up k one = ap (λ (n : ℕ). 2 ^ n) {x = suc (k - 1)} (omega arith)

  -- A node that is read is the tree's, and the canopy stays that of the tree.
  read_lem :
      (k q : ℕ) (canopy : List Node)
      → 1 ≤ k
      → k ≤ p
      → q < 2 ^ k
      → IsCanopy hashv d p f canopy
      → (cached : Node) × (get_elem? canopy (at k q) ≡ some cached)
        × (read k cached ≡ node_at hashv f (d - k) q)
        × IsCanopy hashv d p f (kept canopy k (at k q) cached)
  read_lem k q canopy one le small holds =
      let (cached, here, unset, known) = cached_lem k q _ (holds.rows k q one le small) in
      elim (eq_or_ne cached empty) [
        | inl e ↦
            let true_node = filler ∙ sym (unset e) in
            (
              cached,
              here,
              rw (test_of_eq cached empty e) true_node,
              rw (test_of_eq cached empty e)
                  (IsCanopy-set k q canopy _ one le small true_node holds),
            )
        | inr ne ↦ (
          cached,
          here,
          rw (test_of_ne cached empty ne) (known ne),
          rw (test_of_ne cached empty ne) holds,
        )
      ]
    where
      filler : empty_node_cached hashv (d - k) (replicate 30 empty) ≡ empty_node hashv (d - k)
      filler = empty_node_cached_lem hashv (d - k) (replicate 30 empty) (replicate-IsCache hashv 30)

  -- The place beside a node's, as the loop computes it.
  cached_idx :
      (k q : ℕ)
      → 1 ≤ k
      → q < 2 ^ k
      → ((if (2 ^ k + q - 2) % 2 == 0 then 2 ^ k + q - 2 + 1 else 2 ^ k + q - 2 - 1)
          ≡ at k (sibling q))
        × (sibling q < 2 ^ k)
  cached_idx zero q one small = absurd (omega arith)
  cached_idx (suc k) q one small = elim (eq_or_ne (q % 2) 0) [
    | inl even ↦
        rw
          (
            test_of_eq (q % 2) 0 even,
            test_of_eq ((2 ^ suc k + q - 2) % 2) 0 (omega (arith, pow_double k, pow_pos k)),
          )
          (omega (arith, pow_double k, pow_pos k), omega (arith, pow_double k, pow_pos k))
    | inr odd ↦
        rw
          (
            test_of_ne (q % 2) 0 odd,
            test_of_ne ((2 ^ suc k + q - 2) % 2) 0 (omega (arith, pow_double k, pow_pos k)),
          )
          (omega (arith, pow_double k, pow_pos k), omega (arith, pow_double k, pow_pos k))
  ]

  climb_lem :
      (fuel k l : ℕ) (canopy : List Node)
      → k < fuel
      → k ≤ p
      → l + k ≡ d
      → IsCanopy hashv d p f canopy
      → (nodes : List Node) × (climb hashv fuel d (2 ^ k + shr i l) canopy
          ≡ done
              (nodes, tabulate_from l k (λ level. node_at hashv f level (sibling (shr i level)))))
        × IsCanopy hashv d p f nodes
  unfolding climb
  climb_lem zero k l canopy enough le' level holds = absurd (omega arith)
  climb_lem (suc fuel) zero l canopy enough le' level holds = (
    canopy,
    rw (test_of_ge 1 (2 ^ 0 + shr i l) (omega (arith, shr-eq-zero i l (rw (← at_top) pi)))) refl,
    holds,
  )
    where
      at_top : d ≡ l
      at_top = omega arith
  climb_lem (suc fuel) (suc k) l canopy enough le' level holds =
      let (beside, row) = cached_idx (suc k) (shr i l) (omega arith) small in
      let (cached, here, true_node, holds') =
        read_lem (suc k) (sibling (shr i l)) canopy (omega arith) le' row holds in
      let (nodes, made, holds'') =
        climb_lem fuel k (suc l) (kept canopy (suc k) (at (suc k) (sibling (shr i l))) cached)
          (omega arith) (omega arith) (omega arith) holds' in
      (
        nodes,
        rw
            (
              test_of_lt 1 (2 ^ suc k + (shr i l)) (omega (arith, pow_double k, pow_pos k)),
              row-leading_zeros (suc k) (shr i l) (omega arith) small,
              beside,
              here,
              half,
              made,
            )
            (λ t. done (
              nodes,
              (true_node ∙ ap (λ (n : ℕ). node_at hashv f n (sibling (shr i l))) row_level) t
                  ∷ tabulate_from (suc l) k (λ m. node_at hashv f m (sibling (shr i m))),
            )),
        holds'',
      )
    where
      small : shr i l < 2 ^ suc k
      small = shr-row d l (suc k) i level pi

      half : (2 ^ suc k + shr i l) / 2 ≡ 2 ^ k + shr i (suc l)
      half = omega (arith, shr-suc i l, pow_double k)

      row_level : d - suc k ≡ l
      row_level = omega arith

  start_lem : shr (2 ^ d + i) (d - p) ≡ 2 ^ p + shr i (d - p)
  unfolding shr
  start_lem =
      ap (λ (n : ℕ). (n + i) / 2 ^ (d - p)) {x = 2 ^ d} {y = 2 ^ p * 2 ^ (d - p)}
        (ap (λ (n : ℕ). 2 ^ n) {x = d} {y = p + (d - p)} (omega arith) ∙ pow-add p (d - p))
      ∙ mul-add-div_right (pow_pos (d - p)) (2 ^ p) i

  abbrev beside : ℕ → Node
  beside level = node_at hashv f level (sibling (shr i level))

  -- Whatever is given as the lower part, the canopy of a tree adds the upper part of its proof, and it
  -- still is a canopy of that tree.
  pub fill_upper :
      (canopy : CanopyBytes) (proof : List Node)
      → canopy.spare ≡ 0
      → IsCanopy hashv d p f canopy.nodes
      → (nodes : List Node) × (fill_in_proof_from_canopy hashv canopy d i proof
          ≡ done (record canopy { nodes = nodes }, proof ++ tabulate_from (d - p) p beside))
        × IsCanopy hashv d p f nodes
  unfolding fill_in_proof_from_canopy check_canopy_bytes
  fill_upper canopy proof whole holds =
      let (nodes, made, holds') =
        climb_lem 33 p (d - p) canopy.nodes (omega arith) (omega arith) (omega arith) holds in
      (
        nodes,
        rw
            (
              test_of_eq ((length canopy.nodes * 32 + canopy.spare) % 32) 0 (omega arith),
              get_cached_path_length_lem p d canopy.nodes le (omega arith) holds.size,
              test_of_gt (2 ^ 32) (2 ^ d + i)
                  (omega (arith, pow_mono (suc d) 32 (omega arith), pow_double d)),
              start_lem,
              made,
            )
            refl,
        holds',
      )

  -- If no hash is zero, for a canopy of whole nodes that holds the `p` rows of the tree below the
  -- root: the lower part of a proof, without those rows, is completed to the proof, and the
  -- canopy still holds the rows of the tree.
  pub fill_in_proof_from_canopy_lem :
      (canopy : CanopyBytes)
      → canopy.spare ≡ 0
      → IsCanopy hashv d p f canopy.nodes
      → (nodes : List Node) × (fill_in_proof_from_canopy hashv canopy d i
            (tabulate (d - p) (λ level. node_at hashv f level (sibling (shr i level))))
          ≡ done (record canopy { nodes = nodes }, proof_of hashv d f i))
        × IsCanopy hashv d p f nodes
  fill_in_proof_from_canopy_lem canopy whole holds =
      let (nodes, made, holds') = fill_upper canopy (tabulate (d - p) beside) whole holds in
      (
        nodes,
        made ∙ ap (λ (proof : List Node). done (record canopy { nodes = nodes }, proof)) joined,
        holds',
      )
    where
      joined : tabulate (d - p) beside ++ tabulate_from (d - p) p beside ≡ tabulate d beside
      joined =
          ap (λ (k : ℕ). tabulate (d - p) beside ++ tabulate_from k p beside) {y = 0 + (d - p)}
            (omega arith)
          ∙ tabulate_from-append 0 (d - p) p beside
          ∙ ap (λ (n : ℕ). tabulate n beside) {y = d} (omega arith)
