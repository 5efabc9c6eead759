-- ===== src/Gummyroll/Program/Header.antt =====
-- The instructions that change a leaf leave the account's key and header as they were.
use candyland.Prelude.{
  ℕ, ◌≡◌, refl, subst, List, done, done-injective, >>=-eq-done, assert, ◌>>=◌, some, ◌==◌,
}
use candyland.Cmt.Node.{Node, Result}
use candyland.Cmt.Roll.{MerkleRoll}
use candyland.Cmt.Append
use candyland.Cmt.Api
use candyland.Gummyroll.Event.{ChangeLogEvent}
use candyland.Gummyroll.Canopy.{Checked, CanopyBytes, update_canopy, fill_in_proof_from_canopy}
use candyland.Gummyroll.Program.{Account, check_size, apply_fn, store, replace_leaf, append}

abbrev pub SameAccount : Account → Account → Type 0
SameAccount acc out = (out.id ≡ acc.id) × (out.header ≡ acc.header)

store_keeps :
    (acc : Account) (canopy : CanopyBytes) (changed : MerkleRoll × ChangeLogEvent)
    {out : Account × ChangeLogEvent}
    → store acc canopy changed ≡ done out
    → SameAccount acc out.0
unfolding store
store_keeps acc canopy (roll, event) e =
    let (canopy', _, e') =
      >>=-eq-done (update_canopy canopy acc.header.max_depth (some event))
        (λ c. done (record acc { roll = roll; canopy = c }, event)) e in
    subst (λ o. SameAccount acc o.0) (done-injective e') (refl, refl)

module _ (hashv : Node → Node → Node) (acc : Account) where
  apply_keeps :
      (func : ℕ → ℕ → MerkleRoll → Result (Node × MerkleRoll)) (canopy : CanopyBytes)
      {out : Account × ChangeLogEvent}
      → (apply_fn acc func >>= store acc canopy) ≡ done out
      → SameAccount acc out.0
  apply_keeps func canopy e =
      let (changed, _, e') = >>=-eq-done (apply_fn acc func) (store acc canopy) e in
      store_keeps acc canopy changed e'

  -- What replace_leaf returns has the key and the header of the account.
  pub replace_leaf-SameAccount :
      (authority : ℕ) (root previous_leaf new_leaf : Node) (index : ℕ) (accounts : List Node)
      {out : Account × ChangeLogEvent}
      → replace_leaf hashv acc authority root previous_leaf new_leaf index accounts ≡ done out
      → SameAccount acc out.0
  unfolding replace_leaf
  replace_leaf-SameAccount authority root previous_leaf new_leaf index accounts {out} e =
      let (_, _, e1) = >>=-eq-done (assert (acc.header.authority == authority)) sized e in
      let (_, _, e2) = >>=-eq-done (check_size acc.header) filled e1 in
      let ((canopy, proof), _, e3) =
        >>=-eq-done (fill_in_proof_from_canopy hashv acc.canopy acc.header.max_depth index accounts)
          replaced e2 in
      apply_keeps (set proof) canopy e3
    where
      set : List Node → ℕ → ℕ → MerkleRoll → Result (Node × MerkleRoll)
      set proof d s r = Api.set_leaf d s hashv r root previous_leaf new_leaf proof index

      replaced : CanopyBytes × List Node → Checked (Account × ChangeLogEvent)
      replaced (canopy, proof) = apply_fn acc (set proof) >>= store acc canopy

      filled : Unit {0} → Checked (Account × ChangeLogEvent)
      filled _ =
          fill_in_proof_from_canopy hashv acc.canopy acc.header.max_depth index accounts
          >>= replaced

      sized : Unit {0} → Checked (Account × ChangeLogEvent)
      sized _ = check_size acc.header >>= filled

  -- What append returns has the key and the header of the account.
  pub append-SameAccount :
      (authority append_authority : ℕ) (leaf : Node) {out : Account × ChangeLogEvent}
      → append hashv acc authority append_authority leaf ≡ done out
      → SameAccount acc out.0
  unfolding append
  append-SameAccount authority append_authority leaf {out} e =
      let (_, _, e1) = >>=-eq-done (assert (acc.header.authority == authority)) both e in
      let (_, _, e2) =
        >>=-eq-done (assert (acc.header.append_authority == append_authority)) sized e1 in
      let (_, _, e3) = >>=-eq-done (check_size acc.header) applied e2 in
      apply_keeps add acc.canopy e3
    where
      add : ℕ → ℕ → MerkleRoll → Result (Node × MerkleRoll)
      add d s r = Append.append d s hashv r leaf

      applied : Unit {0} → Checked (Account × ChangeLogEvent)
      applied _ = apply_fn acc add >>= store acc acc.canopy

      sized : Unit {0} → Checked (Account × ChangeLogEvent)
      sized _ = check_size acc.header >>= applied

      both : Unit {0} → Checked (Account × ChangeLogEvent)
      both _ = assert (acc.header.append_authority == append_authority) >>= sized
