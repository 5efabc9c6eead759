-- ===== src/Gumball/Stuck.antt =====
-- A machine's items and decompress_v1: which token program an item is minted for.
use candyland.Prelude.{
  ℕ, ◌≡◌, ◌≢◌, sym, ap, ◌∙◌, List, some, some-injective, done, done-injective, >>=-eq-done, require,
  ◌==◌, eq_of_test,
}
use candyland.Bubblegum.Metadata.{MetadataArgs, original, token2022}
use candyland.Bubblegum.Schema.{Hashes, Voucher, get_asset_id}
use candyland.Bubblegum.Program.{
  Slab, Emitted, AccountInfo, Checked, bubblegum, hashing_mismatch, asset_owner_mismatch,
  constraint_seeds, initialized, signed, cmp_pubkeys,
}
use candyland.Bubblegum.Redeem.{voucher_at}
use candyland.Bubblegum.Decompress.{
  TokenAccounts, TokenCall, supported, hash_metadata, decompress_v1,
}
use candyland.Bubblegum.Ledger.Moved.{require-eq-done}
use candyland.Bubblegum.Ledger.Vouched.{initialized-eq-done, supported-eq-done}
use candyland.Gumball.State.{EncodeMethod, GumballMachineHeader}
use candyland.Gumball.Metadata.{from_utf8, config_text, get_metadata_args}

pub minted_for :
    (base58 : List ℕ → List ℕ) (header : GumballMachineHeader) (index : ℕ) (config_line : List ℕ)
    (method : EncodeMethod) {args : MetadataArgs}
    → get_metadata_args base58 header index config_line method ≡ done args
    → args.token_program_version ≡ token2022
unfolding get_metadata_args
minted_for base58 header index config_line method {args} e =
    let (_, _, e1) = >>=-eq-done (from_utf8 header.name_base) _ e in
    let (_, _, e2) = >>=-eq-done (from_utf8 header.symbol) _ e1 in
    let (_, _, e3) = >>=-eq-done (from_utf8 header.url_base) _ e2 in
    let (_, _, e4) = >>=-eq-done (config_text base58 method config_line) _ e3 in
    sym (ap (λ (m : MetadataArgs). m.token_program_version) (done-injective e4))

pub original-ne-token2022 : original ≢ token2022
original-ne-token2022 e = cc

module _ (hashes : Hashes) (invoke : TokenCall → Checked (Unit {0})) (slab : Slab) where
  -- What a decompression that returns was for.
  decompress_v1-eq-done :
      (owner : AccountInfo) (nonce : ℕ) (accounts : TokenAccounts) (metadata : MetadataArgs)
      (voucher : Voucher) {out : Slab × List Emitted}
      → slab.vouchers nonce ≡ some voucher
      → decompress_v1 hashes invoke slab owner nonce accounts metadata ≡ done out
      → (voucher.leaf_schema.data_hash ≡ hashes.metadata metadata)
        × (metadata.token_program_version ≡ original)
  unfolding decompress_v1 voucher_at cmp_pubkeys hash_metadata
  decompress_v1-eq-done owner nonce accounts metadata voucher stands e =
      let (v, at, e1) = >>=-eq-done (voucher_at slab nonce) _ e in
      let (u, opened, a1) = >>=-eq-done (initialized (slab.vouchers nonce)) _ at in
      let (_, _, a2) = >>=-eq-done (require (u.leaf_schema.nonce == nonce) constraint_seeds) _ a1 in
      let same : v ≡ voucher =
        sym (done-injective a2)
        ∙ some-injective (sym (initialized-eq-done (slab.vouchers nonce) opened) ∙ stands) in
      let (_, _, e2) =
        >>=-eq-done (require (v.merkle_slab == slab.account.id) constraint_seeds) _ e1 in
      let (_, _, e3) = >>=-eq-done (signed owner) _ e2 in
      let (_, _, e4) =
        >>=-eq-done
          (require (accounts.mint == get_asset_id hashes v.merkle_slab nonce) constraint_seeds) _
          e3 in
      let (_, _, e5) =
        >>=-eq-done
          (require (accounts.mint_authority == hashes.authority accounts.mint) constraint_seeds) _
          e4 in
      let (_, hashed, e6) =
        >>=-eq-done
          (require (v.leaf_schema.data_hash == hashes.metadata metadata)
            (bubblegum hashing_mismatch))
          _ e5 in
      let (_, _, e7) =
        >>=-eq-done (require (v.leaf_schema.owner == owner.key) (bubblegum asset_owner_mismatch)) _
          e6 in
      let (_, accepted, _) = >>=-eq-done (supported metadata.token_program_version) _ e7 in
      (
        ap (λ (w : Voucher). w.leaf_schema.data_hash) (sym same)
            ∙ eq_of_test _ _ (
                require-eq-done (v.leaf_schema.data_hash == hashes.metadata metadata)
                  (bubblegum hashing_mismatch) hashed),
        supported-eq-done metadata.token_program_version accepted,
      )

  -- For a hash of metadata that tells token programs apart: an asset with the data hash of the
  -- metadata that get_metadata_args makes for a machine's item, once it stands in a voucher, is
  -- never decompressed: decompress_v1 does not return, whoever calls it, with any accounts and
  -- metadata, and whatever the calls to the token programs do.
  pub item-stuck :
      ((x y : MetadataArgs)
        → hashes.metadata x ≡ hashes.metadata y
        → x.token_program_version ≡ y.token_program_version)
      → (base58 : List ℕ → List ℕ) (header : GumballMachineHeader) (index : ℕ)
        (config_line : List ℕ) (method : EncodeMethod) {args : MetadataArgs}
      → get_metadata_args base58 header index config_line method ≡ done args
      → (nonce : ℕ) (voucher : Voucher) → slab.vouchers nonce ≡ some voucher
      → voucher.leaf_schema.data_hash ≡ hashes.metadata args
      → (owner : AccountInfo) (accounts : TokenAccounts) (metadata : MetadataArgs)
        (out : Slab × List Emitted)
      → decompress_v1 hashes invoke slab owner nonce accounts metadata ≢ done out
  item-stuck tells base58 header index config_line method {args} made nonce voucher stands item
        owner accounts metadata out e =
      let (hashed, version) =
        decompress_v1-eq-done owner nonce accounts metadata voucher stands e in
      original-ne-token2022 (
        sym version
        ∙ tells metadata args (sym hashed ∙ item)
        ∙ minted_for base58 header index config_line method made)
