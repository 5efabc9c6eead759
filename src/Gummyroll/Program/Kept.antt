-- ===== src/Gummyroll/Program/Kept.antt =====
-- The instructions keep the roll and the canopy those of one tree.
use candyland.Prelude.{
  subst, done-injective, ℕ, ◌-◌, ◌^◌, ◌<◌, ◌≡◌, ◌≢◌, sym, ap, ◌∙◌, List, ◌++◌, tabulate_from, shr,
  ◌==◌, done, >>=-eq-done, assert, ◌>>=◌, ◌>>◌, eq_of_test,
}
use candyland.Cmt.Node.{Node, empty, Result}
use candyland.Cmt.Utils.Sound.{IsCollisionFree}
use candyland.Cmt.ChangeLog.Patch.{log_of}
use candyland.Cmt.Roll.{MerkleRoll}
use candyland.Cmt.Append
use candyland.Cmt.Api
use candyland.Cmt.History.{History, IsRollOf, advance}
use candyland.Cmt.History.Calls.{prove_leaf_sound}
use candyland.Cmt.History.SetLeaf.{set_leaf_sound}
use candyland.Cmt.History.Appended.{append_sound}
use candyland.Gummyroll.Event.{ChangeLogEvent, from_log}
use candyland.Gummyroll.Canopy.{Checked, CanopyBytes, fill_in_proof_from_canopy}
use candyland.Gummyroll.Canopy.Filled.{fill_upper}
use candyland.Gummyroll.Program.{
  verify_leaf, Account, check_size, apply_fn, store, replace_leaf, append,
}
use candyland.Tree.{replace, sibling, node_at}
use candyland.Gummyroll.Program.Store.{IsAccountOf, apply_fn-eq-done, stored, assert-eq-done}

module _ (hashv : Node → Node → Node) (free : IsCollisionFree hashv)
    (nonzero : (a b : Node) → hashv a b ≢ empty) (b p : ℕ) (acc : Account) (h : History)
    (ok : IsAccountOf hashv b p acc h) where
  abbrev depth : ℕ
  depth = acc.header.max_depth

  module _ (authority : ℕ) (root previous_leaf new_leaf : Node) (index : ℕ)
      (accounts : List Node) where
    abbrev set : List Node → ℕ → ℕ → MerkleRoll → Result (Node × MerkleRoll)
    set proof d s r = Api.set_leaf d s hashv r root previous_leaf new_leaf proof index

    abbrev replace_with : CanopyBytes × List Node → Checked (Account × ChangeLogEvent)
    replace_with (canopy, proof) = apply_fn acc (set proof) >>= store acc canopy

    abbrev replace_filled : Unit {0} → Checked (Account × ChangeLogEvent)
    replace_filled _ =
        fill_in_proof_from_canopy hashv acc.canopy depth index accounts >>= replace_with

    abbrev replace_sized : Unit {0} → Checked (Account × ChangeLogEvent)
    replace_sized _ = check_size acc.header >>= replace_filled

    -- On an account whose roll and canopy are those of one tree, for an index inside the tree and
    -- whatever accounts are passed as the proof: if the call returns, the authority signed, the
    -- given leaf stood there, roll and canopy are those of the tree with the new leaf, and the
    -- event is that of the change.
    pub replace_leaf_sound :
        {out : Account × ChangeLogEvent}
        → index < 2 ^ depth
        → replace_leaf hashv acc authority root previous_leaf new_leaf index accounts ≡ done out
        → (acc.header.authority ≡ authority)
          × (previous_leaf ≡ h.past 0 index)
          × IsAccountOf hashv b p out.0 (advance index new_leaf h)
          × (out.1
              ≡ from_log
                  (log_of hashv depth (replace index new_leaf (h.past 0)) index)
                  acc.id
                  out.0.roll.sequence_number)
    unfolding replace_leaf
    replace_leaf_sound {out} pi e =
        let (_, authorized, e1) =
          >>=-eq-done (assert (acc.header.authority == authority)) replace_sized e in
        let (_, _, e2) = >>=-eq-done (check_size acc.header) replace_filled e1 in
        let (nodes, filled, rows) =
          fill_upper hashv depth p ok.held ok.shallow nonzero (h.past 0) index pi acc.canopy
            accounts ok.whole ok.rows in
        let (is_leaf, kept, event) =
          stored hashv free nonzero b p acc h ok (set (accounts ++ upper))
            (previous_leaf ≡ h.past 0 index) index new_leaf nodes pi rows sound
            (sym (ap (λ (m : Checked (CanopyBytes × List Node)). m >>= replace_with) filled)
              ∙ e2) in
        (
          eq_of_test _ _ (assert-eq-done hashv free nonzero b p acc h ok _ authorized),
          is_leaf,
          kept,
          event,
        )
      where
        upper : List Node
        upper =
            tabulate_from (depth - p) p
              (λ level. node_at hashv (h.past 0) level (sibling (shr index level)))

        sound :
            (changed : Node × MerkleRoll)
            → set (accounts ++ upper) depth (2 ^ b) acc.roll ≡ done changed
            → (previous_leaf ≡ h.past 0 index)
              × IsRollOf hashv depth b changed.1 (advance index new_leaf h)
        sound changed made =
            let (is_leaf, _, rolls) =
              set_leaf_sound hashv free depth b ok.pos ok.shallow ok.words acc.roll h ok.rolls index
                pi root previous_leaf new_leaf (accounts ++ upper) made in
            (is_leaf, rolls)

  module _ (authority append_authority : ℕ) (leaf : Node) where
    abbrev add : ℕ → ℕ → MerkleRoll → Result (Node × MerkleRoll)
    add d s r = Append.append d s hashv r leaf

    abbrev end : ℕ
    end = acc.roll.rightmost_proof.index

    abbrev append_sized : Unit {0} → Checked (Account × ChangeLogEvent)
    append_sized _ = check_size acc.header >> (apply_fn acc add >>= store acc acc.canopy)

    abbrev append_by : Unit {0} → Checked (Account × ChangeLogEvent)
    append_by _ = assert (acc.header.append_authority == append_authority) >>= append_sized

    -- On an account whose roll and canopy are those of one tree: if the call returns, both
    -- authorities signed, the leaf is not empty, roll and canopy are those of the tree with the
    -- leaf at its end, and the event is that of the change.
    pub append_account_sound :
        {out : Account × ChangeLogEvent}
        → append hashv acc authority append_authority leaf ≡ done out
        → (acc.header.authority ≡ authority)
          × (acc.header.append_authority ≡ append_authority)
          × (leaf ≢ empty)
          × IsAccountOf hashv b p out.0 (advance end leaf h)
          × (out.1
              ≡ from_log
                  (log_of hashv depth (replace end leaf (h.past 0)) end)
                  acc.id
                  out.0.roll.sequence_number)
    unfolding append
    append_account_sound {out} e =
        let (_, authorized, e1) =
          >>=-eq-done (assert (acc.header.authority == authority)) append_by e in
        let (_, both, e2) =
          >>=-eq-done (assert (acc.header.append_authority == append_authority)) append_sized e1 in
        let (_, _, e3) =
          >>=-eq-done (check_size acc.header) (λ _. apply_fn acc add >>= store acc acc.canopy) e2 in
        let (changed, applied, _) = >>=-eq-done (apply_fn acc add) (store acc acc.canopy) e3 in
        let (_, _, made, _, _) = apply_fn-eq-done acc add applied in
        let (given, room, _) =
          sound _ (ap (λ (s : ℕ). add depth s acc.roll) (sym ok.sized) ∙ made) in
        let (_, kept, event) =
          stored hashv free nonzero b p acc h ok add (leaf ≢ empty) end leaf acc.canopy.nodes room
            ok.rows (λ changed made. let (given, _, rolls) = sound changed made in (given, rolls))
            e3 in
        (
          eq_of_test _ _ (assert-eq-done hashv free nonzero b p acc h ok _ authorized),
          eq_of_test _ _ (assert-eq-done hashv free nonzero b p acc h ok _ both),
          given,
          kept,
          event,
        )
      where
        sound :
            (changed : Node × MerkleRoll)
            → add depth (2 ^ b) acc.roll ≡ done changed
            → (leaf ≢ empty)
              × (end < 2 ^ depth)
              × IsRollOf hashv depth b changed.1 (advance end leaf h)
        sound changed made =
            let (given, room, _, rolls) =
              append_sound hashv free depth b ok.pos ok.shallow ok.words acc.roll h ok.rolls leaf
                made in
            (given, room, rolls)

  module _ (root leaf : Node) (index : ℕ) (accounts : List Node) where
    abbrev prove : List Node → ℕ → ℕ → MerkleRoll → Result (Node × MerkleRoll)
    prove proof d s r = Api.prove_leaf d s hashv r root leaf proof index >>= λ n. done (n, r)

    abbrev verify_with : CanopyBytes × List Node → Checked Account
    verify_with (canopy, proof) =
        apply_fn acc (prove proof) >>= λ _. done (record acc { canopy = canopy })

    abbrev verify_filled : Unit {0} → Checked Account
    verify_filled _ =
        fill_in_proof_from_canopy hashv acc.canopy depth index accounts >>= verify_with

    abbrev upper_proof : List Node
    upper_proof =
        accounts
        ++ tabulate_from (depth - p) p
            (λ level. node_at hashv (h.past 0) level (sibling (shr index level)))

    prove-eq-done :
        {changed : Node × MerkleRoll}
        → index < 2 ^ depth
        → prove upper_proof depth (2 ^ b) acc.roll ≡ done changed
        → leaf ≡ h.past 0 index
    prove-eq-done pi e =
        let (_, proved, _) =
          >>=-eq-done (Api.prove_leaf depth (2 ^ b) hashv acc.roll root leaf upper_proof index)
            (λ n. done (n, acc.roll)) e in
        prove_leaf_sound hashv free depth b ok.pos ok.shallow ok.words acc.roll h ok.rolls index pi
          root leaf upper_proof proved

    -- On an account whose roll and canopy are those of one tree, for an index inside the tree and
    -- whatever accounts are passed as the proof: if the call returns, the given leaf is the one
    -- that stands there, and roll and canopy still are those of the tree.
    pub verify_leaf_sound :
        {acc' : Account}
        → index < 2 ^ depth
        → verify_leaf hashv acc root leaf index accounts ≡ done acc'
        → (leaf ≡ h.past 0 index) × IsAccountOf hashv b p acc' h
    unfolding verify_leaf
    verify_leaf_sound {acc'} pi e =
        let (_, _, e1) = >>=-eq-done (check_size acc.header) verify_filled e in
        let (nodes, filled, rows) =
          fill_upper hashv depth p ok.held ok.shallow nonzero (h.past 0) index pi acc.canopy
            accounts ok.whole ok.rows in
        let kept : CanopyBytes = record acc.canopy { nodes = nodes } in
        let (changed, applied, e2) =
          >>=-eq-done (apply_fn acc (prove upper_proof)) (λ _. done (record acc { canopy = kept }))
            (sym (ap (λ (m : Checked (CanopyBytes × List Node)). m >>= verify_with) filled) ∙ e1) in
        let (_, _, made, _, _) = apply_fn-eq-done acc (prove upper_proof) applied in
        (
          prove-eq-done pi
              (ap (λ (s : ℕ). prove upper_proof depth s acc.roll) (sym ok.sized) ∙ made),
          subst (λ a. IsAccountOf hashv b p a h) (done-injective e2)
              (record {
                sized = ok.sized;
                words = ok.words;
                pos = ok.pos;
                shallow = ok.shallow;
                held = ok.held;
                whole = ok.whole;
                rolls = ok.rolls;
                rows = rows;
              }),
        )
