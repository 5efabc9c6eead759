-- ===== src/Bubblegum/Ledger/Vouched.antt =====
-- The instructions on vouchers, on the ledger.
use candyland.Prelude.{
  ℕ, ◌^◌, ◌<◌, ◌≡◌, ◌≢◌, refl, sym, ap, subst, ◌∙◌, arith, Option, none, some, List, [], ◌∷◌,
  put_at, some-injective, done, done-injective, >>=-eq-done, require, ◌==◌, eq_of_test,
}
use candyland.Cmt.Node.{Node, empty}
use candyland.Cmt.Utils.Sound.{IsCollisionFree}
use candyland.Cmt.History.{History, advance}
use candyland.Bubblegum.Metadata.{MetadataArgs, TokenProgramVersion, original, token2022}
use candyland.Bubblegum.Schema.{
  LeafSchema, Voucher, Hashes, new, new_v0, to_node, to_event, get_asset_id,
}
use candyland.Bubblegum.Program.{
  bubblegum, asset_owner_mismatch, hashing_mismatch, constraint_seeds, leaf, wrapped_leaf,
  wrapped_node, Slab, Emitted, AccountInfo, Checked, initialized, uninitialized, signed,
  cmp_pubkeys, assert_pubkey_equal, replace_leaf,
}
use candyland.Bubblegum.Redeem.{set_voucher, voucher_at, redeem, cancel_redeem}
use candyland.Bubblegum.Decompress.{
  TokenAccounts, TokenCall, supported, invoke_all, token_calls, metadata_calls, hash_metadata,
  decompress_v1,
}
use candyland.Bubblegum.Ledger.{
  Holding, compressed, redeemed, absent, Ledger, schema_of, voucher_of, leaf_of, IsSlab,
}
use candyland.Bubblegum.Ledger.Moves.{Redeems, Cancels, Decompresses}
use candyland.Bubblegum.Ledger.Changed.{changed_lem, replaced_lem, put_at-stays}
use candyland.Bubblegum.Ledger.Moved.{IsStep, taken_lem, require-eq-done, named}

-- An account that exists, with what it holds.
pub initialized-eq-done :
    {A : Type 0} (o : Option A) {a : A} → ◌≡◌ {A = Checked A} (initialized o) (done a) → o ≡ some a
initialized-eq-done none e = cc
initialized-eq-done (some x) e = ap some (done-injective e)

pub supported-eq-done :
    (v : TokenProgramVersion) {u : Unit {0}} → supported v ≡ done u → v ≡ original
unfolding supported
supported-eq-done original e = refl
supported-eq-done token2022 e = cc

-- What has a voucher was taken out of the tree.
voucher_of-some :
    (id i : ℕ) (holding : Holding) (v : Voucher)
    → voucher_of id i holding ≡ some v
    → (holding ≡ redeemed v.leaf_schema) × (v.index ≡ i) × (v.merkle_slab ≡ id)
voucher_of-some id i absent v e = cc
voucher_of-some id i (compressed s) v e = cc
voucher_of-some id i (redeemed s) v e =
    subst
      (λ (u : Voucher).
        (redeemed s ≡ redeemed u.leaf_schema) × (u.index ≡ i) × (u.merkle_slab ≡ id))
      (some-injective e) (refl, refl, refl)

module _ (hashes : Hashes) (b p : ℕ) (slab : Slab) (h : History) (ledger : Ledger)
    (ok : IsSlab hashes b p slab h ledger) where
  abbrev id : ℕ
  id = slab.account.id

  voucher_at-eq-done :
      (nonce : ℕ) {v : Voucher}
      → voucher_at slab nonce ≡ done v
      → (ledger nonce ≡ redeemed v.leaf_schema) × (v.index ≡ nonce) × (v.merkle_slab ≡ id)
  unfolding voucher_at
  voucher_at-eq-done nonce {v} e =
      let (u, at, e1) = >>=-eq-done (initialized (slab.vouchers nonce)) _ e in
      let (_, _, e2) = >>=-eq-done (require (u.leaf_schema.nonce == nonce) constraint_seeds) _ e1 in
      voucher_of-some id nonce (ledger nonce) v
        (sym (ok.vouchers nonce) ∙ initialized-eq-done _ at ∙ ap some (done-injective e2))

  -- A voucher that was used is closed, and what it was for is in the tree again or nowhere.
  set-none :
      (vouchers : ℕ → Option Voucher) (nonce index : ℕ)
      → index ≡ nonce
      → vouchers ≡ slab.vouchers
      → (k : ℕ) → set_voucher vouchers nonce none k ≡ put_at index none slab.vouchers k
  unfolding set_voucher
  set-none vouchers nonce index at same k =
      ap (λ (vs : ℕ → Option Voucher). put_at nonce none vs k) same
      ∙ ap (λ (i : ℕ). put_at i none slab.vouchers k) (sym at)

  module _ (free : IsCollisionFree hashes.node)
      (nonzero : (x y : Node) → hashes.node x y ≢ empty) where
    pub cancel_redeem-IsStep :
        (owner : AccountInfo) (nonce : ℕ) (accounts : List Node) (root : Node)
        {out : Slab × List Emitted}
        → cancel_redeem hashes slab owner nonce accounts root ≡ done out
        → IsStep hashes b p (Cancels hashes slab owner nonce) slab ledger out.0
    unfolding cancel_redeem assert_pubkey_equal cmp_pubkeys advance
    cancel_redeem-IsStep owner nonce accounts root {out} e =
        let (_, _, e1) = >>=-eq-done (initialized slab.authority) _ e in
        let (v, at, e2) = >>=-eq-done (voucher_at slab nonce) _ e1 in
        let (_, is, e3) = >>=-eq-done (signed owner) _ e2 in
        let s = v.leaf_schema in
        let (_, owned, e4) =
          >>=-eq-done (require (owner.key == s.owner) (bubblegum asset_owner_mismatch)) _ e3 in
        let (made, replaced, e5) =
          >>=-eq-done
            (replace_leaf hashes slab (leaf (to_event hashes s) ∷ wrapped_leaf s ∷ []) accounts root
              0 (to_node hashes s) v.index)
            _ e4 in
        let (here, placed, _) = voucher_at-eq-done nonce at in
        let there : ledger v.index ≡ redeemed s = ap ledger placed ∙ here in
        let belongs = ok.belongs v.index s (ap schema_of there) in
        let inside : v.index < 2 ^ slab.account.header.max_depth =
          omega (arith, belongs.minted, ok.kept.rolls.ends, ok.kept.rolls.rightmost.bounded) in
        let (_, kept, authority, vouchers, key) =
          replaced_lem hashes b p slab h ledger ok free nonzero
            (leaf (to_event hashes s) ∷ wrapped_leaf s ∷ []) accounts root 0 (to_node hashes s)
            v.index inside replaced in
        subst
          (λ (o : Slab × List Emitted).
            IsStep hashes b p (Cancels hashes slab owner nonce) slab ledger o.0)
          (done-injective e5)
          (
            v.index,
            compressed s,
            advance v.index (to_node hashes s) h,
            (
              placed,
              require-eq-done owner.is_signer _ is,
              (
                s,
                sym (eq_of_test _ _ (require-eq-done (owner.key == s.owner) _ owned)),
                there,
                refl,
              ),
            ),
            changed_lem hashes b p slab h ledger ok
                (record made.0 { vouchers = set_voucher made.0.vouchers nonce none })
                (advance v.index (to_node hashes s) h) v.index (compressed s) (omega arith)
                (omega arith) (λ i. refl) kept
                (authority ∙ ok.counted ∙ ap some (omega (arith, belongs.minted))) key
                (set-none made.0.vouchers nonce v.index placed vouchers)
                (λ t is.
                  subst
                    (λ (r : LeafSchema).
                      (r.nonce ≡ v.index) × (r.id ≡ get_asset_id hashes id v.index))
                    (some-injective is) (belongs.nonced, belongs.named)),
          )

  pub decompress_v1-IsStep :
      (invoke : TokenCall → Checked (Unit {0})) (owner : AccountInfo) (nonce : ℕ)
      (accounts : TokenAccounts) (metadata : MetadataArgs) {out : Slab × List Emitted}
      → decompress_v1 hashes invoke slab owner nonce accounts metadata ≡ done out
      → IsStep hashes b p (Decompresses hashes slab owner nonce metadata) slab ledger out.0
  unfolding decompress_v1 cmp_pubkeys hash_metadata
  decompress_v1-IsStep invoke owner nonce accounts metadata {out} e =
      let (v, at, e1) = >>=-eq-done (voucher_at slab nonce) _ e in
      let (_, _, e1') =
        >>=-eq-done (require (v.merkle_slab == slab.account.id) constraint_seeds) _ e1 in
      let (_, is, e2) = >>=-eq-done (signed owner) _ e1' in
      let (_, _, e3) =
        >>=-eq-done
          (require (cmp_pubkeys accounts.mint (get_asset_id hashes v.merkle_slab nonce))
            constraint_seeds)
          _ e2 in
      let (_, _, e4) =
        >>=-eq-done
          (require (cmp_pubkeys accounts.mint_authority (hashes.authority accounts.mint))
            constraint_seeds)
          _ e3 in
      let s = v.leaf_schema in
      let (_, hashed, e5) =
        >>=-eq-done
          (require (s.data_hash == hash_metadata hashes invoke metadata)
            (bubblegum hashing_mismatch))
          _ e4 in
      let (_, owned, e6) =
        >>=-eq-done (require (s.owner == owner.key) (bubblegum asset_owner_mismatch)) _ e5 in
      let (_, accepted, e7) = >>=-eq-done (supported metadata.token_program_version) _ e6 in
      let (_, _, e8) =
        >>=-eq-done (invoke_all hashes invoke (token_calls owner.key accounts)) _ e7 in
      let (_, _, e9) =
        >>=-eq-done (invoke_all hashes invoke (metadata_calls owner.key accounts metadata)) _ e8 in
      let (here, placed, _) = voucher_at-eq-done nonce at in
      let belongs = ok.belongs nonce s (ap schema_of here) in
      subst
        (λ (o : Slab × List Emitted).
          IsStep hashes b p (Decompresses hashes slab owner nonce metadata) slab ledger o.0)
        (done-injective e9)
        (
          nonce,
          absent,
          h,
          (
            refl,
            require-eq-done owner.is_signer _ is,
            supported-eq-done metadata.token_program_version accepted,
            (
              s,
              eq_of_test _ _ (require-eq-done (s.owner == owner.key) _ owned),
              eq_of_test _ _
                  (require-eq-done (s.data_hash == hash_metadata hashes invoke metadata) _ hashed),
              here,
            ),
            refl,
          ),
          changed_lem hashes b p slab h ledger ok
              (record slab { vouchers = set_voucher slab.vouchers nonce none }) h nonce absent
              belongs.minted (omega arith)
              (put_at-stays nonce empty (h.past 0) (ok.leaves nonce ∙ ap (leaf_of hashes) here))
              ok.kept ok.counted refl (set-none slab.vouchers nonce nonce refl refl) (λ t is. cc),
        )

  module _ (free : IsCollisionFree hashes.node) (nonzero : (x y : Node) → hashes.node x y ≢ empty)
      (leaf_free : (xs ys : List ℕ) → hashes.leaf xs ≡ hashes.leaf ys → xs ≡ ys)
      (leaf_nonzero : (xs : List ℕ) → hashes.leaf xs ≢ empty) where
    pub redeem-IsStep :
        (owner : AccountInfo) (delegate : ℕ) (accounts : List Node)
        (root data_hash creator_hash : Node) (nonce index : ℕ) {out : Slab × List Emitted}
        → index < 2 ^ slab.account.header.max_depth
        → redeem hashes slab owner delegate accounts root data_hash creator_hash nonce index
          ≡ done out
        → IsStep hashes b p
            (Redeems hashes slab owner delegate nonce data_hash creator_hash index)
            slab
            ledger
            out.0
    unfolding redeem new new_v0 get_asset_id set_voucher
    redeem-IsStep owner delegate accounts root data_hash creator_hash nonce index {out} inside e =
        let (_, _, e1) = >>=-eq-done (initialized slab.authority) _ e in
        let (_, is, e2) = >>=-eq-done (signed owner) _ e1 in
        let (_, _, e3) = >>=-eq-done (uninitialized (slab.vouchers nonce)) _ e2 in
        let s =
          new_v0 (get_asset_id hashes id nonce) owner.key delegate nonce data_hash creator_hash in
        let emitted = leaf (to_event hashes s) ∷ wrapped_node empty ∷ [] in
        let (made, replaced, e4) =
          >>=-eq-done
            (replace_leaf hashes slab emitted accounts root (to_node hashes s) empty index) _ e3 in
        let (here, nonced, vouchers, slab_of) =
          taken_lem hashes free nonzero leaf_free leaf_nonzero b p slab h ledger ok s (redeemed s)
            emitted accounts root index inside (named s s refl refl) replaced in
        let voucher : Voucher = record { leaf_schema = s; index = index; merkle_slab = id } in
        subst
          (λ (o : Slab × List Emitted).
            IsStep hashes b p
              (Redeems hashes slab owner delegate nonce data_hash creator_hash index) slab ledger
              o.0)
          (done-injective e4)
          (
            index,
            redeemed s,
            advance index empty h,
            (refl, nonced, require-eq-done owner.is_signer _ is, here, refl),
            slab_of (set_voucher made.0.vouchers nonce (some voucher)) (λ k.
                ap (λ (vs : ℕ → Option Voucher). put_at nonce (some voucher) vs k) vouchers
                ∙ ap (λ (i : ℕ). put_at i (some voucher) slab.vouchers k) nonced),
          )
