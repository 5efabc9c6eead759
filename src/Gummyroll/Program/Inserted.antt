-- ===== src/Gummyroll/Program/Inserted.antt =====
-- insert_or_append: a leaf where none stood, or at the end.
use candyland.Prelude.{
  ℕ, ◌-◌, ◌^◌, ◌<◌, ◌≡◌, ◌≢◌, ◌⊎◌, inl, inr, sym, ap, subst, ◌∙◌, List, ◌++◌, tabulate_from, shr,
  ◌==◌, done, done-injective, >>=-eq-done, assert, ◌>>=◌, eq_of_test,
}
use candyland.Cmt.Node.{Node, empty, Result}
use candyland.Cmt.Utils.Sound.{IsCollisionFree}
use candyland.Cmt.ChangeLog.Patch.{log_of}
use candyland.Cmt.Roll.{MerkleRoll}
use candyland.Cmt.Api
use candyland.Cmt.History.{History, IsRollOf, advance}
use candyland.Cmt.History.Calls.{fill_empty_or_append_sound}
use candyland.Gummyroll.Event.{ChangeLogEvent, from_log}
use candyland.Gummyroll.Canopy.{Checked, CanopyBytes}
use candyland.Gummyroll.Canopy.Filled.{fill_upper}
use candyland.Gummyroll.Program.{Account, check_size, apply_fn, store, insert_or_append}
use candyland.Tree.{replace, sibling, node_at}
use candyland.Gummyroll.Program.Store.{IsAccountOf, apply_fn-eq-done, stored, assert-eq-done}

module _ (hashv : Node → Node → Node) (free : IsCollisionFree hashv)
    (nonzero : (a b : Node) → hashv a b ≢ empty) (b p : ℕ) (acc : Account) (h : History)
    (ok : IsAccountOf hashv b p acc h) (authority : ℕ) (root leaf : Node) (index : ℕ)
    (accounts : List Node) where
  abbrev depth : ℕ
  depth = acc.header.max_depth

  abbrev end : ℕ
  end = acc.roll.rightmost_proof.index

  abbrev insert : List Node → ℕ → ℕ → MerkleRoll → Result (Node × MerkleRoll)
  insert proof d s r = Api.fill_empty_or_append d s hashv r root leaf proof index

  abbrev insert_with : CanopyBytes × List Node → Checked (Account × ChangeLogEvent)
  insert_with (canopy, proof) = apply_fn acc (insert proof) >>= store acc canopy

  -- Roll, canopy and event are those of the tree with the leaf at a place.
  abbrev pub IsWritten : ℕ → Account × ChangeLogEvent → Type 0
  IsWritten j out =
      IsAccountOf hashv b p out.0 (advance j leaf h)
      × (out.1
          ≡ from_log (log_of hashv depth (replace j leaf (h.past 0)) j) acc.id
              out.0.roll.sequence_number)

  -- On an account whose roll and canopy are those of one tree, for an index inside the tree and
  -- whatever accounts are passed as the proof: if the call returns, the authority signed, and
  -- either no leaf stood at the index, or the leaf is not empty and was put at the end; roll and
  -- canopy are those of the tree with the leaf there, and the event is that of the change.
  pub insert_or_append_sound :
      {out : Account × ChangeLogEvent}
      → index < 2 ^ depth
      → insert_or_append hashv acc authority root leaf index accounts ≡ done out
      → (acc.header.authority ≡ authority)
        × (((h.past 0 index ≡ empty) × IsWritten index out) ⊎ ((leaf ≢ empty) × IsWritten end out))
  unfolding insert_or_append
  insert_or_append_sound {out} pi e =
      let (_, authorized, e1) = >>=-eq-done (assert (acc.header.authority == authority)) _ e in
      let (_, _, e2) = >>=-eq-done (check_size acc.header) _ e1 in
      let (nodes, filled, rows) =
        fill_upper hashv depth p ok.held ok.shallow nonzero (h.past 0) index pi acc.canopy accounts
          ok.whole ok.rows in
      let kept : CanopyBytes = record acc.canopy { nodes = nodes } in
      let proof = accounts ++ upper in
      let e3 =
        sym (ap (λ (m : Checked (CanopyBytes × List Node)). m >>= insert_with) filled) ∙ e2 in
      let (changed, applied, _) = >>=-eq-done (apply_fn acc (insert proof)) (store acc kept) e3 in
      let (returned, _, made, _, _) = apply_fn-eq-done acc (insert proof) applied in
      let made_sized : insert proof depth (2 ^ b) acc.roll ≡ done (returned, changed.0) =
        ap (λ (s : ℕ). insert proof depth s acc.roll) (sym ok.sized) ∙ made in
      let only : (Q : Type 0) (j : ℕ)
          → Q × IsRollOf hashv depth b changed.0 (advance j leaf h)
          → (c : Node × MerkleRoll) → insert proof depth (2 ^ b) acc.roll ≡ done c
          → Q × IsRollOf hashv depth b c.1 (advance j leaf h) =
        λ Q j known c again.
          subst (λ (o : Node × MerkleRoll). Q × IsRollOf hashv depth b o.1 (advance j leaf h))
            (done-injective (sym made_sized ∙ again)) known in
      (
        eq_of_test _ _ (assert-eq-done hashv free nonzero b p acc h ok _ authorized),
        elim (fill_empty_or_append_sound hashv free depth b ok.pos ok.shallow ok.words acc.roll h
            ok.rolls index pi leaf root proof made_sized) [
              | inl (was, _, rolls) ↦
                  let (_, stands, event) =
                    stored hashv free nonzero b p acc h ok (insert proof) (h.past 0 index ≡ empty)
                      index leaf nodes pi rows (only (h.past 0 index ≡ empty) index (was, rolls))
                      e3 in
                  inl (was, (stands, event))
              | inr (given, room, _, rolls) ↦
                  let (_, stands, event) =
                    stored hashv free nonzero b p acc h ok (insert proof) (leaf ≢ empty) end leaf
                      nodes room rows (only (leaf ≢ empty) end (given, rolls)) e3 in
                  inr (given, (stands, event))
            ],
      )
    where
      upper : List Node
      upper =
          tabulate_from (depth - p) p
            (λ level. node_at hashv (h.past 0) level (sibling (shr index level)))
