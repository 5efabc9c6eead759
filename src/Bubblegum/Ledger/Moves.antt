-- ===== src/Bubblegum/Ledger/Moves.antt =====
-- What each instruction is meant to do to a ledger: the place `i` that it changes, what stands there
-- before and after, and who signed.
use candyland.Prelude.{ℕ, ◌≡◌, ◌⊎◌, true, some, map}
use candyland.Cmt.Node.{Node}
use candyland.Bubblegum.Metadata.{MetadataArgs, original}
use candyland.Bubblegum.Schema.{LeafSchema, Hashes, get_asset_id}
use candyland.Bubblegum.Program.{AccountInfo, Slab, share_of}
use candyland.Bubblegum.Ledger.{Holding, absent, compressed, redeemed}

-- The place, and what stands there before and after.
abbrev pub Move : Type 1
Move = ℕ → Holding → Holding → Type 0

module _ (hashes : Hashes) (slab : Slab) where
  -- The asset with a nonce, as an owner, a delegate and two hashes describe it.
  abbrev pub asset : ℕ → ℕ → ℕ → Node → Node → LeafSchema
  asset owner delegate nonce data_hash creator_hash = record {
    id = get_asset_id hashes slab.account.id nonce;
    owner = owner;
    delegate = delegate;
    nonce = nonce;
    data_hash = data_hash;
    creator_hash = creator_hash;
  }

  -- The next nonce's asset comes into the tree, with the metadata's hashes.
  abbrev pub Mints : AccountInfo → ℕ → ℕ → MetadataArgs → Move
  Mints minter owner delegate message i before after =
      (slab.authority ≡ some i)
      × (minter.key ≡ slab.account.header.append_authority)
      × (minter.is_signer ≡ true)
      × (before ≡ absent)
      × (after
          ≡ compressed (
              asset owner delegate i (hashes.metadata message)
                (hashes.creators (map share_of message.creators))))

  -- The new owner has the asset, and is its delegate too.
  abbrev pub Transfers : AccountInfo → AccountInfo → ℕ → ℕ → Node → Node → ℕ → Move
  Transfers owner delegate new_owner nonce data_hash creator_hash index i before after =
      (i ≡ index)
      × (nonce ≡ index)
      × ((owner.is_signer ≡ true) ⊎ (delegate.is_signer ≡ true))
      × (before ≡ compressed (asset owner.key delegate.key nonce data_hash creator_hash))
      × (after ≡ compressed (asset new_owner new_owner nonce data_hash creator_hash))

  -- The owner names another delegate.
  abbrev pub Delegates : AccountInfo → ℕ → ℕ → ℕ → Node → Node → ℕ → Move
  Delegates owner previous_delegate new_delegate nonce data_hash creator_hash index i before after =
      (i ≡ index)
      × (nonce ≡ index)
      × (owner.is_signer ≡ true)
      × (before ≡ compressed (asset owner.key previous_delegate nonce data_hash creator_hash))
      × (after ≡ compressed (asset owner.key new_delegate nonce data_hash creator_hash))

  -- The asset is gone.
  abbrev pub Burns : AccountInfo → AccountInfo → ℕ → Node → Node → ℕ → Move
  Burns owner delegate nonce data_hash creator_hash index i before after =
      (i ≡ index)
      × (nonce ≡ index)
      × ((owner.is_signer ≡ true) ⊎ (delegate.is_signer ≡ true))
      × (before ≡ compressed (asset owner.key delegate.key nonce data_hash creator_hash))
      × (after ≡ absent)

  -- The asset goes from the tree into a voucher.
  abbrev pub Redeems : AccountInfo → ℕ → ℕ → Node → Node → ℕ → Move
  Redeems owner delegate nonce data_hash creator_hash index i before after =
      (i ≡ index)
      × (nonce ≡ index)
      × (owner.is_signer ≡ true)
      × (before ≡ compressed (asset owner.key delegate nonce data_hash creator_hash))
      × (after ≡ redeemed (asset owner.key delegate nonce data_hash creator_hash))

  -- The voucher's asset goes back to the tree, unchanged.
  abbrev pub Cancels : AccountInfo → ℕ → Move
  Cancels owner nonce i before after =
      (i ≡ nonce)
      × (owner.is_signer ≡ true)
      × ((s : LeafSchema) × (s.owner ≡ owner.key) × (before ≡ redeemed s) × (after ≡ compressed s))

  -- The voucher's asset leaves for a token with the metadata that it was minted for.
  abbrev pub Decompresses : AccountInfo → ℕ → MetadataArgs → Move
  Decompresses owner nonce metadata i before after =
      (i ≡ nonce)
      × (owner.is_signer ≡ true)
      × (metadata.token_program_version ≡ original)
      × ((s : LeafSchema) × (s.owner ≡ owner.key)
          × (s.data_hash ≡ hashes.metadata metadata)
          × (before ≡ redeemed s))
      × (after ≡ absent)
