-- ===== src/Bubblegum/Ledger/Leaf.antt =====
-- A leaf tells which asset it stands for.
use candyland.Prelude.{ℕ, ◌≡◌, ◌≢◌, ap, sym, List, [], ◌∷◌}
use candyland.Cmt.Node.{empty}
use candyland.Bubblegum.Schema.{LeafSchema, Hashes, to_node, to_bytes, version}
use candyland.Bubblegum.Ledger.{Holding, absent, compressed, redeemed, leaf_of}

-- The schema with the hashed fields, or the other one for a list of another length.
abbrev schema_from : LeafSchema → List ℕ → LeafSchema
schema_from other (_ ∷ id ∷ owner ∷ delegate ∷ nonce ∷ data_hash ∷ creator_hash ∷ []) = record {
  id = id;
  owner = owner;
  delegate = delegate;
  nonce = nonce;
  data_hash = data_hash;
  creator_hash = creator_hash;
}
schema_from other _ = other

module _ (hashes : Hashes)
    (leaf_free : (xs ys : List ℕ) → hashes.leaf xs ≡ hashes.leaf ys → xs ≡ ys)
    (leaf_nonzero : (xs : List ℕ) → hashes.leaf xs ≢ empty) where
  pub to_node-injective : (s t : LeafSchema) → to_node hashes s ≡ to_node hashes t → s ≡ t
  unfolding to_node to_bytes version
  to_node-injective s t e = ap (schema_from s) (leaf_free _ _ e)

  pub to_node-nonzero : (s : LeafSchema) → to_node hashes s ≢ empty
  unfolding to_node
  to_node-nonzero s = leaf_nonzero _

  -- A leaf of an asset stands only for that asset, in the tree.
  pub leaf-compressed :
      (s : LeafSchema) (holding : Holding)
      → to_node hashes s ≡ leaf_of hashes holding
      → holding ≡ compressed s
  leaf-compressed s absent e = absurd (to_node-nonzero s e)
  leaf-compressed s (compressed t) e = ap compressed (sym (to_node-injective s t e))
  leaf-compressed s (redeemed t) e = absurd (to_node-nonzero s e)
