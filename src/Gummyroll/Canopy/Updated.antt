-- ===== src/Gummyroll/Canopy/Updated.antt =====
-- `update_canopy`: the log of a change takes the canopy of the tree before it to that of the tree after.
use candyland.Prelude.{
  ℕ, zero, suc, ◌+◌, ◌-◌, ◌*◌, ◌%◌, ◌^◌, ◌≤◌, ◌<◌, ◌≡◌, ◌≢◌, refl, sym, ap, subst, ◌∙◌, arith,
  Option, some, List, [], ◌∷◌, ◌++◌, length, get_elem?, set, length-set, get_elem?-set_self,
  get_elem?-set_ne, tabulate, tabulate_from, reverse, take, drop, reverse-snoc, reverse-tabulate,
  shr, pow_pos, pow_double, inl, inr, eq_or_ne, test_of_eq, test_of_lt, test_of_ge, done,
}
use candyland.Cmt.Node.{Node}
use candyland.Cmt.ChangeLog.Patch.{log_of, length-path_of}
use candyland.Gummyroll.Event.{PathNode, path_nodes, from_log}
use candyland.Gummyroll.Canopy.{
  CanopyBytes, check_canopy_bytes, write_node, write_path, update_canopy,
}
use candyland.Gummyroll.Canopy.Rows.{
  at, at_ne, at-lt, shr-row, get_cached_path_length_lem, Holds, IsCanopy,
}
use candyland.Tree.{Leaves, replace, node_at}
use candyland.Tree.Change.{node_at-replace_ne}

path_nodes_lem :
    (len j lvl n : ℕ) (g : ℕ → Node)
    → path_nodes len j lvl (tabulate_from lvl n g)
      ≡ tabulate_from lvl n (λ l. record { node = g l; index = 2 ^ (len - l) + shr j l })
unfolding path_nodes
path_nodes_lem len j lvl zero g = refl
path_nodes_lem len j lvl (suc n) g =
    ap
      (λ (path : List PathNode).
        record { node = g lvl; index = 2 ^ (len - lvl) + shr j lvl } ∷ path)
      (path_nodes_lem len j (suc lvl) n g)

module _ (hashv : Node → Node → Node) (d p : ℕ) (le : p ≤ d) (f : Leaves) (j : ℕ) (v : Node)
    (pj : j < 2 ^ d) where
  abbrev f' : Leaves
  f' = replace j v f

  -- The elements of the log's path, as they are emitted.
  abbrev emitted : ℕ → PathNode
  emitted l = record { node = node_at hashv f' l (shr j l); index = 2 ^ (d - l) + shr j l }

  -- The rows up to `t` are those of the new tree.
  record IsUpTo (t : ℕ) (canopy : List Node) : Type 0 where
    size : length canopy + 2 ≡ 2 ^ (p + 1)
    fresh :
        (k q : ℕ) → 1 ≤ k → k ≤ t → q < 2 ^ k → Holds hashv d p f' k q (get_elem? canopy (at k q))
    stale :
        (k q : ℕ) → t < k → k ≤ p → q < 2 ^ k → Holds hashv d p f k q (get_elem? canopy (at k q))

  -- Off the changed leaf's path nothing changes.
  Holds-replace :
      (k q : ℕ) (cached : Option Node)
      → q ≢ shr j (d - k)
      → Holds hashv d p f k q cached
      → Holds hashv d p f' k q cached
  Holds-replace k q cached off (inl here) =
      inl (here ∙ ap some (sym (node_at-replace_ne hashv f j v (d - k) q off)))
  Holds-replace k q cached off (inr (unset, vacant)) =
      inr (unset, node_at-replace_ne hashv f j v (d - k) q off ∙ vacant)

  module _ (t n : ℕ) (canopy : List Node) (upto : IsUpTo t canopy) (more : suc t ≤ p)
      (level : n + suc t ≡ d) where
    abbrev place : ℕ
    place = at (suc t) (shr j n)

    abbrev canopy' : List Node
    canopy' = set canopy place (node_at hashv f' n (shr j n))

    on_row : shr j n < 2 ^ suc t
    on_row = shr-row d n (suc t) j level pj

    inside : place < length canopy
    inside = omega (arith, at-lt p (suc t) (shr j n) (omega arith) more on_row, upto.size)

    untouched : (k q : ℕ) → at k q ≢ place → get_elem? canopy' (at k q) ≡ get_elem? canopy (at k q)
    untouched k q ne = get_elem?-set_ne canopy place (at k q) _ (λ e. ne (sym e))

    at_ne-same : (q : ℕ) → q ≢ shr j n → at (suc t) q ≢ place
    at_ne-same q ne e = ne (omega (arith, pow_double t, pow_pos t))

    own_row :
        (q : ℕ) → q < 2 ^ suc t → Holds hashv d p f' (suc t) q (get_elem? canopy' (at (suc t) q))
    own_row q small = elim (eq_or_ne q (shr j n)) [
      | inl e ↦ inl (
          ap (λ (i : ℕ). get_elem? canopy' (at (suc t) i)) e
          ∙ get_elem?-set_self canopy place _ inside
          ∙ (λ i. some (node_at hashv f' (row_level i) (sym e i))))
      | inr ne ↦
          subst (Holds hashv d p f' (suc t) q) (sym (untouched (suc t) q (at_ne-same q ne))) (
            Holds-replace (suc t) q _ (λ e. ne (e ∙ ap (λ (l : ℕ). shr j l) (sym row_level)))
              (upto.stale (suc t) q (omega arith) more small))
    ]
      where
        row_level : n ≡ d - suc t
        row_level = omega arith

    IsUpTo-suc : IsUpTo (suc t) canopy'
    IsUpTo-suc = record {
      size = ap (λ (m : ℕ). m + 2) (length-set canopy place _) ∙ upto.size;
      fresh = λ k q one below small. elim (eq_or_ne k (suc t)) [
        | inl e ↦
            subst (λ (m : ℕ). Holds hashv d p f' m q (get_elem? canopy' (at m q))) (sym e)
              (own_row q (rw (← e) small))
        | inr ne ↦
            subst (Holds hashv d p f' k q)
              (sym (untouched k q (at_ne k (suc t) q (shr j n) one (omega arith) small on_row ne)))
              (upto.fresh k q one (omega arith) small)
      ];
      stale = λ k q above inside small.
          subst (Holds hashv d p f k q)
            (sym (
              untouched k q (
                at_ne k (suc t) q (shr j n) (omega arith) (omega arith) small on_row
                  (λ e. absurd (omega arith)))))
            (upto.stale k q (omega arith) inside small);
    }

  -- What the writes from row `t` down come to.
  write_path_lem :
      (t n left : ℕ) (canopy : List Node)
      → t + left ≡ p
      → n + t ≡ d
      → IsUpTo t canopy
      → (nodes : List Node) × (write_path canopy (take left (reverse (tabulate n emitted)))
          ≡ done nodes)
        × IsUpTo p nodes
  unfolding write_path write_node
  write_path_lem t n zero canopy e level upto =
      (canopy, refl, subst (λ (m : ℕ). IsUpTo m canopy) (omega arith) upto)
  write_path_lem t zero (suc left) canopy e level upto = absurd (omega arith)
  write_path_lem t (suc n) (suc left) canopy e level upto =
      let (nodes, made, done_all) =
        write_path_lem (suc t) n left (canopy' t n canopy upto more level') (omega arith) level'
          (IsUpTo-suc t n canopy upto more level') in
      (
        nodes,
        rw
            (
              reverse-tabulate n emitted,
              row,
              test_of_ge (2 ^ suc t + shr j n) 2 (omega (arith, pow_double t, pow_pos t)),
              test_of_lt _ _ (inside t n canopy upto more level'),
            )
            made,
        done_all,
      )
    where
      more : suc t ≤ p
      more = omega arith

      level' : n + suc t ≡ d
      level' = omega arith

      row : d - n ≡ suc t
      row = omega arith

  IsCanopy-IsUpTo : (canopy : List Node) → IsCanopy hashv d p f canopy → IsUpTo 0 canopy
  IsCanopy-IsUpTo canopy holds = record {
    size = holds.size;
    fresh = λ k q one below small. absurd (omega arith);
    stale = λ k q above inside small. holds.rows k q (omega arith) inside small;
  }

  top_down :
      (path : List PathNode) (top : PathNode) → drop 1 (reverse (path ++ (top ∷ []))) ≡ reverse path
  top_down path top = ap (λ (nodes : List PathNode). drop 1 nodes) (reverse-snoc path top)

  -- For a canopy of whole nodes that holds the `p` rows of the tree below the root, with `p` at
  -- most the depth and below 31: the event of a change of a leaf inside the tree is applied, and
  -- the canopy then holds those rows of the changed tree.
  pub update_canopy_lem :
      (canopy : CanopyBytes) (id seq : ℕ)
      → p < 31
      → canopy.spare ≡ 0
      → IsCanopy hashv d p f canopy.nodes
      → (nodes : List Node) × (update_canopy canopy d
            (some (from_log (log_of hashv d (replace j v f) j) id seq))
          ≡ done (record canopy { nodes = nodes }))
        × IsCanopy hashv d p (replace j v f) nodes
  unfolding update_canopy check_canopy_bytes from_log
  update_canopy_lem canopy id seq small whole holds =
      let (nodes, made, upto) =
        write_path_lem 0 d p canopy.nodes (omega arith) (omega arith)
          (IsCanopy-IsUpTo canopy.nodes holds) in
      (
        nodes,
        rw
            (
              test_of_eq ((length canopy.nodes * 32 + canopy.spare) % 32) 0 (omega arith),
              get_cached_path_length_lem p d canopy.nodes le small holds.size,
              top_down,
              length-path_of hashv d f' j,
              path_nodes_lem d j 0 d (λ l. node_at hashv f' l (shr j l)),
              made,
            )
            refl,
        record { size = upto.size; rows = λ k q one below small. upto.fresh k q one below small },
      )
