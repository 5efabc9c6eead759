-- ===== src/Cmt/History/AppendRounds.antt =====
-- The loop of `append` builds the path and the proof of the next leaf.
use candyland.Prelude.{
  ℕ, zero, suc, ◌+◌, ◌-◌, ◌*◌, ◌%◌, ◌^◌, ◌≤◌, ◌<◌, ◌≡◌, refl, sym, ap, ◌∙◌, arith, Bool, true,
  false, ltb, ◌==◌, if◌then◌else◌, shr, shr_bound, pow_double, ap₂, List, get_or, set, replicate,
  tabulate, tabulate_from_ext, set-tabulate_from, get_or-tabulate_from, put_at, inl, inr, lt_or_ge,
  eq_or_ne, test_of_eq, test_of_ne, test_of_lt, test_of_ge,
}
use candyland.Cmt.Node.{Node, empty}
use candyland.Cmt.Utils.{is_left, hash_to_parent, empty_node}
use candyland.Cmt.Utils.Recompute.{
  hash_to_parent-shr, is_left_lem, empty_node_lem, empty_node_cached_lem, replicate-IsCache,
}
use candyland.Cmt.Append.{AppendLoop, append_round, append_rounds}
use candyland.Cmt.Append.Digits.{Meets, agree_above}
use candyland.Tree.{Leaves, no_leaves, replace, sibling, node_at}
use candyland.Tree.Digits.{sibling_ne}
use candyland.Tree.Change.{node_at-replace_ne}

module _ (hashv : Node → Node → Node) where
  -- A node with no leaf below it is that of the tree with no leaves.
  pub node_at-vacant :
      (f : Leaves) (level q : ℕ)
      → ((l : ℕ) → q * 2 ^ level ≤ l → f l ≡ empty)
      → node_at hashv f level q ≡ node_at hashv no_leaves level q
  unfolding node_at
  node_at-vacant f zero q vacant = vacant q (omega arith)
  node_at-vacant f (suc level) q vacant =
      ap₂ hashv
        (node_at-vacant f level (q * 2)
          (λ l le. vacant l (omega (arith, ap (λ (t : ℕ). q * t) (pow_double level)))))
        (node_at-vacant f level (q * 2 + 1)
          (λ l le. vacant l (omega (arith, ap (λ (t : ℕ). q * t) (pow_double level)))))

  -- One more element of the first kind.
  tabulate_grow :
      (depth i : ℕ) (g h : ℕ → Node)
      → set (tabulate depth (λ k. if ltb k i then g k else h k)) i (g i)
        ≡ tabulate depth (λ k. if ltb k (suc i) then g k else h k)
  tabulate_grow depth i g h =
      set-tabulate_from 0 depth i (g i) _
      ∙ tabulate_from_ext 0 depth (put_at (0 + i) (g i) (λ k. if ltb k i then g k else h k))
          (λ k. if ltb k (suc i) then g k else h k)
          (λ k _ _. elim (eq_or_ne k i) [
            | inl e ↦
                rw (e, test_of_eq i (0 + i) (omega arith), test_of_lt i (suc i) (omega arith)) refl
            | inr ne ↦ rw (test_of_ne k (0 + i) (omega arith)) (ground arith)
          ])

  tabulate_same :
      (depth i : ℕ) (g h : ℕ → Node)
      → g i ≡ h i
      → tabulate depth (λ k. if ltb k i then g k else h k)
        ≡ tabulate depth (λ k. if ltb k (suc i) then g k else h k)
  tabulate_same depth i g h same =
      tabulate_from_ext 0 depth (λ k. if ltb k i then g k else h k)
        (λ k. if ltb k (suc i) then g k else h k)
        (λ k _ _. elim (eq_or_ne k i) [
          | inl e ↦
              rw (e, test_of_ge i i (omega arith), test_of_lt i (suc i) (omega arith)) (sym same)
          | inr ne ↦ ground arith
        ])

module _ (hashv : Node → Node → Node) (depth : ℕ) (f : Leaves) (m x : ℕ) (meets : Meets m x)
    (v : Node) (vacant : (l : ℕ) → suc m ≤ l → f l ≡ empty) where
  abbrev n : ℕ
  n = suc m

  abbrev f' : Leaves
  f' = replace n v f

  -- The variables of the loop when level `i` is reached: below `i` the proof is that of the next
  -- leaf, and the changes are its path.
  abbrev pub at_level : ℕ → AppendLoop
  at_level i = record {
    node = node_at hashv f' i (shr n i);
    intersection_node =
        if ltb i x then node_at hashv f i (shr m i) else node_at hashv f x (shr m x);
    proof = tabulate depth (λ k.
        if ltb k i
        then node_at hashv f' k (sibling (shr n k))
        else node_at hashv f k (sibling (shr m k)));
    change_list = tabulate depth (λ k. if ltb k i then node_at hashv f' k (shr n k) else empty);
  }

  -- The sibling of the next leaf's path, level by level.
  sibling_below : (i : ℕ) → i < x → node_at hashv f' i (sibling (shr n i)) ≡ empty_node hashv i
  sibling_below i lt =
      ap (λ (q : ℕ). node_at hashv f' i q) {y = shr n i + 1} (ground (arith, meets.even i lt))
      ∙ node_at-vacant hashv f' i (shr n i + 1) (λ l le. right_of l (omega (arith, shr_bound n i)))
      ∙ sym (empty_node_lem hashv i (shr n i + 1))
    where
      right_of : (l : ℕ) → n < l → f' l ≡ empty
      right_of l lt = rw (test_of_ne l n (omega arith)) (vacant l (omega arith))

  sibling_meeting : node_at hashv f' x (sibling (shr n x)) ≡ node_at hashv f x (shr m x)
  sibling_meeting =
      ap (λ (q : ℕ). node_at hashv f' x q) {y = shr m x}
        (ground (arith, meets.right, meets.apart x (omega arith)))
      ∙ node_at-replace_ne hashv f n v x (shr m x) (omega (arith, meets.apart x (omega arith)))

  sibling_above :
      (i : ℕ)
      → x < i
      → (shr n i ≡ shr m i)
        × (node_at hashv f' i (sibling (shr n i)) ≡ node_at hashv f i (sibling (shr m i)))
  sibling_above i lt =
      let same : shr n i ≡ shr m i = rw (← at_i) (agree_above m x meets (i - suc x)) in
      (
        same,
        node_at-replace_ne hashv f n v i (sibling (shr n i)) (sibling_ne (shr n i))
            ∙ ap (λ (q : ℕ). node_at hashv f i (sibling q)) same,
      )
    where
      at_i : i - suc x + suc x ≡ i
      at_i = omega arith

  abbrev old_proof : ℕ → List Node
  old_proof i = (at_level i).proof

  own_lem :
      (i : ℕ) → i < depth → get_or (old_proof i) i empty ≡ node_at hashv f i (sibling (shr m i))
  own_lem i lt =
      get_or-tabulate_from 0 depth i _ empty lt
      ∙ ap
          (λ (c : ℕ).
            if ltb c i
            then node_at hashv f' c (sibling (shr n c))
            else node_at hashv f c (sibling (shr m c)))
          {x = 0 + i} {y = i} (omega arith)
      ∙ rw (test_of_ge i i (omega arith)) refl

  changes_lem :
      (i : ℕ)
      → set (at_level i).change_list i (node_at hashv f' i (shr n i))
        ≡ (at_level (suc i)).change_list
  changes_lem i = tabulate_grow hashv depth i (λ k. node_at hashv f' k (shr n k)) (λ k. empty)

  proof_lem :
      (i : ℕ) (s : Node)
      → s ≡ node_at hashv f' i (sibling (shr n i))
      → set (old_proof i) i s ≡ old_proof (suc i)
  proof_lem i s e =
      ap (λ (t : Node). set (old_proof i) i t) e
      ∙ tabulate_grow hashv depth i (λ k. node_at hashv f' k (sibling (shr n k)))
          (λ k. node_at hashv f k (sibling (shr m k)))

  -- The node of the next leaf's path, from its sibling.
  up_lem :
      (i : ℕ) (s : Node) (left : Bool)
      → s ≡ node_at hashv f' i (sibling (shr n i))
      → left ≡ is_left n i
      → hash_to_parent hashv (node_at hashv f' i (shr n i)) s left
        ≡ node_at hashv f' (suc i) (shr n (suc i))
  up_lem i s left e l =
      (λ j. hash_to_parent hashv (node_at hashv f' i (shr n i)) (e j) (l j))
      ∙ hash_to_parent-shr hashv f' i' i
    where
      i' : ℕ
      i' = n

  abbrev meeting_node : ℕ → Node
  meeting_node i = (at_level i).intersection_node

  -- The node of the old path, up to where the paths meet.
  old_path_lem :
      (i : ℕ)
      → i < depth
      → i < x
      → hash_to_parent hashv
          (node_at hashv f i (shr m i))
          (get_or (old_proof i) i empty)
          (is_left (n - 1) i)
        ≡ meeting_node (suc i)
  old_path_lem i lt below =
      (λ j.
        hash_to_parent hashv (node_at hashv f i (shr m i)) (own_lem i lt j) (is_left (back j) i))
      ∙ hash_to_parent-shr hashv f m i
      ∙ elim (lt_or_ge (suc i) x) [
        | inl lt' ↦ rw (test_of_lt (suc i) x lt') refl
        | inr ge ↦
            rw (test_of_ge (suc i) x ge)
              (ap (λ (k : ℕ). node_at hashv f k (shr m k)) {x = suc i} {y = x} (omega arith))
      ]
    where
      back : n - 1 ≡ m
      back = omega arith

  met : (i : ℕ) → x ≤ i → meeting_node i ≡ node_at hashv f x (shr m x)
  met i le = rw (test_of_ge i x le) refl

  is_left-below : (i : ℕ) → i < x → true ≡ is_left n i
  is_left-below i below = sym (is_left_lem n i ∙ test_of_eq _ 0 (meets.even i below))

  is_left-meeting : false ≡ is_left n x
  is_left-meeting = sym (is_left_lem n x ∙ test_of_ne _ 0 (omega (arith, meets.right)))

  is_left-above : (i : ℕ) → x < i → is_left (n - 1) i ≡ is_left n i
  is_left-above i above =
      ap (λ (k : ℕ). is_left k i) {x = n - 1} {y = m} (omega arith)
      ∙ is_left_lem m i
      ∙ ap (λ (q : ℕ). q % 2 == 0) (sym (sibling_above i above).0)
      ∙ sym (is_left_lem n i)

  module _ (size : ℕ) where
    abbrev round : ℕ → AppendLoop
    round i = append_round depth size hashv n x i (at_level i)

    round_below : (i : ℕ) → i < depth → i < x → round i ≡ at_level (suc i)
    unfolding append_round
    round_below i lt below =
        let cached =
          empty_node_cached_lem hashv i (replicate depth empty) (replicate-IsCache hashv depth) in
        let is_sibling = cached ∙ sym (sibling_below i below) in
        rw (test_of_lt i x below) (λ j. record {
          node = up_lem i _ true is_sibling (is_left-below i below) j;
          intersection_node = old_path_lem i lt below j;
          proof = proof_lem i _ is_sibling j;
          change_list = changes_lem i j;
        })

    round_meeting : x < depth → round x ≡ at_level (suc x)
    unfolding append_round
    round_meeting lt =
        rw (test_of_ge x x (omega arith), test_of_eq x x refl)
          (λ j. record {
            node = up_lem x _ false (sym sibling_meeting) is_left-meeting j;
            intersection_node = sym (met (suc x) (omega arith)) j;
            proof = proof_lem x _ (sym sibling_meeting) j;
            change_list = changes_lem x j;
          })

    round_above : (i : ℕ) → i < depth → x < i → round i ≡ at_level (suc i)
    unfolding append_round
    round_above i lt above =
        let own = own_lem i lt ∙ sym (sibling_above i above).1 in
        rw (test_of_ge i x (omega arith), test_of_ne i x (omega arith))
          (λ j. record {
            node =
                ((λ t.
                      hash_to_parent hashv (node_at hashv f' i (shr n i)) (own t)
                        (is_left-above i above t))
                    ∙ up_lem i _ _ refl refl)
                  j;
            intersection_node = sym (met (suc i) (omega arith)) j;
            proof =
                tabulate_same hashv depth i (λ k. node_at hashv f' k (sibling (shr n k)))
                  (λ k. node_at hashv f k (sibling (shr m k))) (sibling_above i above).1 j;
            change_list = changes_lem i j;
          })

    append_round_lem : (i : ℕ) → i < depth → round i ≡ at_level (suc i)
    append_round_lem i lt = elim (lt_or_ge i x) [
      | inl below ↦ round_below i lt below
      | inr ge ↦ elim (eq_or_ne i x) [
        | inl e ↦ rw e (round_meeting (rw (← e) lt))
        | inr ne ↦ round_above i lt (omega arith)
      ]
    ]

    -- The rounds from level `i` on.
    pub append_rounds-at_level :
        (i left : ℕ)
        → i + left ≡ depth
        → append_rounds depth size hashv n x i left (at_level i) ≡ at_level depth
    unfolding append_rounds
    append_rounds-at_level i zero e = ap at_level (omega arith)
    append_rounds-at_level i (suc left) e =
        ap (λ (s : AppendLoop). append_rounds depth size hashv n x (suc i) left s)
          (append_round_lem i (omega arith))
        ∙ append_rounds-at_level (suc i) left (omega arith)
