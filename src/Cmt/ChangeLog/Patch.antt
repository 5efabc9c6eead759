-- ===== src/Cmt/ChangeLog/Patch.antt =====
-- state.rs against Tree: a log holds the new path of one changed leaf, and bringing a proof up to
-- date by it gives the proof in the changed tree.
use candyland.Prelude.{
  ℕ, zero, suc, ◌+◌, ◌-◌, ◌^◌, ◌≤◌, ◌<◌, ◌≡◌, ◌≢◌, refl, sym, ap, ap₂, ◌∙◌, arith, ltb,
  if◌then◌else◌, shr, shr-zero, shr-eq-zero, List, [], ◌∷◌, length, get_or, set, tabulate,
  tabulate_from, tabulate_from_ext, length-tabulate_from, set-tabulate_from, get_or-tabulate_from,
  get_elem?-tabulate_from, put_at, eq_or_ne, inl, inr, done, highest_difference, leading_zeros,
  bit_xor, ◌*◌, ◌%◌, test_of_eq, test_of_ne, test_of_ge,
}
use candyland.Cmt.Node.{Node, empty}
use candyland.Cmt.Utils.Recompute.{hash_to_parent-shr}
use candyland.Cmt.ChangeLog.{
  ChangeLog, replace_path, replace_and_recompute_path, update_proof_or_leaf,
}
use candyland.Tree.{Leaves, replace, sibling, node_at, root_of, proof_of, path_of}
use candyland.Tree.Change.{proof_of-replace_self, proof_of-replace_ne}

-- Any list is made by its own elements.
pub tabulate_self :
    (k : ℕ) (xs : List Node) → xs ≡ tabulate_from k (length xs) (λ x. get_or xs (x - k) empty)
tabulate_self k [] = refl
tabulate_self k (x ∷ xs) = ap₂ ◌∷◌ (ap (λ (n : ℕ). get_or (x ∷ xs) n empty) {x = 0} (omega arith)) (
    tabulate_self (suc k) xs
    ∙ tabulate_from_ext (suc k) (length xs) _ _
        λ n p q. ap (λ (m : ℕ). get_or (x ∷ xs) m empty) {x = suc (n - suc k)} (omega arith))

module _ (hashv : Node → Node → Node) where
  -- The log of a change of leaf `j` that made `f` the tree.
  abbrev pub log_of : ℕ → Leaves → ℕ → ChangeLog
  log_of depth f j = record {
    root = root_of hashv depth f;
    path = path_of hashv depth f j;
    index = j;
  }

  pub length-path_of : (depth : ℕ) (f : Leaves) (j : ℕ) → length (path_of hashv depth f j) ≡ depth
  length-path_of depth f j = length-tabulate_from 0 depth _

  -- The elements below `k` are kept, the others are those of the path.
  abbrev path_from : Leaves → ℕ → ℕ → (ℕ → Node) → ℕ → Node
  path_from f j k g x = if ltb x k then g x else node_at hashv f x (shr j x)

  path_from_step :
      (f : Leaves) (j k : ℕ) (g : ℕ → Node) (x : ℕ)
      → path_from f j (suc k) (put_at k (node_at hashv f k (shr j k)) g) x ≡ path_from f j k g x
  path_from_step f j k g x = elim (eq_or_ne x k) [
    | inl e ↦ rw e (ground arith)
    | inr ne ↦ rw (test_of_ne x k ne) (ground arith)
  ]

  replace_path_lem :
      (depth : ℕ) (f : Leaves) (j k m : ℕ) (g : ℕ → Node)
      → k + m ≡ depth
      → replace_path hashv k j
          (tabulate depth g)
          (node_at hashv f k (shr j k))
          (tabulate_from k m (λ x. node_at hashv f x (sibling (shr j x))))
        ≡ (tabulate depth (path_from f j k g), node_at hashv f depth (shr j depth))
  unfolding replace_path
  replace_path_lem depth f j k zero g e = λ i. (
    tabulate_from_ext 0 depth g (path_from f j k g) (λ x _ small. ground arith) i,
    ap (λ (n : ℕ). node_at hashv f n (shr j n)) {x = k} {y = depth} (omega arith) i,
  )
  replace_path_lem depth f j k (suc m) g e =
      let own = node_at hashv f k (shr j k) in
      ap₂
        (λ (path : List Node) (node : Node).
          replace_path hashv (suc k) j path node
            (tabulate_from (suc k) m (λ x. node_at hashv f x (sibling (shr j x)))))
        (set-tabulate_from 0 depth k own g
          ∙ ap (λ (c : ℕ). tabulate depth (put_at c own g)) {x = 0 + k} {y = k} (omega arith))
        (hash_to_parent-shr hashv f j k)
      ∙ replace_path_lem depth f j (suc k) m (put_at k own g) (omega arith)
      ∙ λ i. (
        tabulate_from_ext 0 depth (path_from f j (suc k) (put_at k own g)) (path_from f j k g)
            (λ x _ _. path_from_step f j k g x) i,
        node_at hashv f depth (shr j depth),
      )

  -- For an index inside the tree and a log as long as the tree is deep: from the proof of leaf
  -- `j` and a new value come the root and the log of the tree with that value.
  pub replace_and_recompute_path_lem :
      (depth : ℕ) (f : Leaves) (j : ℕ) (v : Node) (old : ChangeLog)
      → j < 2 ^ depth
      → length old.path ≡ depth
      → replace_and_recompute_path hashv old j v (proof_of hashv depth f j)
        ≡ (root_of hashv depth (replace j v f), log_of depth (replace j v f) j)
  unfolding replace_and_recompute_path
  replace_and_recompute_path_lem depth f j v old small len =
      ap (λ (r : List Node × Node). (r.1, record { root = r.1; path = r.0; index = j })) whole
    where
      f' : Leaves
      f' = replace j v f

      own_path : old.path ≡ tabulate depth (λ x. get_or old.path (x - 0) empty)
      own_path =
          tabulate_self 0 old.path
          ∙ ap (λ (m : ℕ). tabulate m (λ x. get_or old.path (x - 0) empty)) len

      own_leaf : v ≡ node_at hashv f' 0 (shr j 0)
      own_leaf = unfold node_at in rw (shr-zero j, test_of_eq j j refl) refl

      whole :
          replace_path hashv 0 j old.path v (proof_of hashv depth f j)
          ≡ (path_of hashv depth f' j, root_of hashv depth f')
      whole =
          (λ i.
            replace_path hashv 0 j (own_path i) (own_leaf i)
              (sym (proof_of-replace_self hashv depth f j v) i))
          ∙ replace_path_lem depth f' j 0 depth (λ x. get_or old.path (x - 0) empty) (omega arith)
          ∙ λ i. (
            tabulate_from_ext 0 depth (path_from f' j 0 (λ x. get_or old.path (x - 0) empty))
                (λ x. node_at hashv f' x (shr j x)) (λ x _ _. ground arith) i,
            node_at hashv f' depth (shr-eq-zero j depth small i),
          )

  patched_self :
      (depth : ℕ) (f : Leaves) (j : ℕ) (v : Node)
      → 1 ≤ depth
      → update_proof_or_leaf depth
          (log_of depth (replace j v f) j)
          j
          (proof_of hashv depth f j)
          (f j)
        ≡ done (proof_of hashv depth (replace j v f) j, v)
  unfolding update_proof_or_leaf
  patched_self depth f j v pos =
      rw
        (
          test_of_eq j j refl,
          get_elem?-tabulate_from 0 depth 0 (λ x. node_at hashv (replace j v f) x (shr j x)) pos,
        )
        (λ i. done (sym (proof_of-replace_self hashv depth f j v) i, own_leaf i))
    where
      own_leaf : node_at hashv (replace j v f) 0 (shr j 0) ≡ v
      own_leaf = unfold node_at in rw (shr-zero j, test_of_eq j j refl) refl

  patched_ne :
      (depth : ℕ) (f : Leaves) (i j : ℕ) (v : Node)
      → depth ≤ 32
      → i < 2 ^ depth
      → j < 2 ^ depth
      → i ≢ j
      → update_proof_or_leaf depth
          (log_of depth (replace j v f) j)
          i
          (proof_of hashv depth f i)
          (f i)
        ≡ done (proof_of hashv depth (replace j v f) i, f i)
  unfolding update_proof_or_leaf
  patched_ne depth f i j v small pi pj ne =
      let (c, sum, part, meet) = highest_difference depth i j small pi pj ne in
      let zeros = leading_zeros 32 (bit_xor i j * 2 ^ (32 - depth) % 2 ^ 32) in
      let critbit : depth - 1 - zeros ≡ c = omega arith in
      let changed : get_or (path_of hashv depth f' j) c empty ≡ node_at hashv f' c (shr j c) =
        get_or-tabulate_from 0 depth c _ empty (omega arith)
        ∙ ap (λ (k : ℕ). node_at hashv f' k (shr j k)) {x = 0 + c} {y = c} (omega arith) in
      rw (test_of_ne i j ne, test_of_ge (depth - 1) zeros (omega arith), critbit)
        (ap (λ (p : List Node). done (p, f i))
          (ap (λ (n : Node). set (proof_of hashv depth f i) c n) changed
            ∙ sym (proof_of-replace_ne hashv depth f i j v c part meet)))
    where
      f' : Leaves
      f' = replace j v f

  -- For a depth from 1 to 32 and indices inside the tree: the log of a change to leaf `j` takes
  -- leaf `i` of the tree before the change, and its proof, to that leaf and its proof after it.
  pub update_proof_or_leaf_lem :
      (depth : ℕ) (f : Leaves) (i j : ℕ) (v : Node)
      → 1 ≤ depth
      → depth ≤ 32
      → i < 2 ^ depth
      → j < 2 ^ depth
      → update_proof_or_leaf depth
          (log_of depth (replace j v f) j)
          i
          (proof_of hashv depth f i)
          (f i)
        ≡ done (proof_of hashv depth (replace j v f) i, replace j v f i)
  update_proof_or_leaf_lem depth f i j v pos small pi pj = elim (eq_or_ne i j) [
    | inl e ↦ rw (e, test_of_eq j j refl) (patched_self depth f j v pos)
    | inr ne ↦ rw (test_of_ne i j ne) (patched_ne depth f i j v small pi pj ne)
  ]
