-- ===== src/Gumball/Dispense.antt =====
-- lib.rs of gumball-machine: items are chosen, minted by bubblegum, and paid.
use candyland.Prelude.{
  ℕ, zero, suc, ◌+◌, ◌-◌, ◌*◌, ◌/◌, ◌%◌, min, max, true, List, [], ◌∷◌, ◌++◌, length, get_elem?,
  set, take, drop, ltb, leb, ◌==◌, if◌then◌else◌, done, panic, assert, in_range, ◌>>=◌, ◌>>◌,
}
use candyland.Bubblegum.Metadata.{MetadataArgs}
use candyland.Bubblegum.Schema.{Hashes}
use candyland.Bubblegum.Program.{Slab, Emitted, AccountInfo, mint_v1}
use candyland.Gumball.State.{Checked, Machine, from_u8, signed, word, call}
use candyland.Gumball.Metadata.{get_metadata_args}

-- What a call of the runtime, or of the code that is not here, gives: the programs whose instructions
-- the transaction holds, the time, the hash of the recent blockhashes and a count as its first four
-- bytes, the text of bytes in base 58, and the derived key that mints.
pub record Env : Type 0 where
  pub program_ids : List ℕ
  pub compute_budget : ℕ
  pub id : ℕ
  pub wrapped_sol : ℕ
  pub unix_timestamp : ℕ
  pub entropy : ℕ → ℕ
  pub base58 : List ℕ → List ℕ
  pub willy_wonka : ℕ → ℕ

-- Lamports or tokens from one account to another.
pub record Payment : Type 0 where
  pub source : ℕ
  pub receiver : ℕ
  pub amount : ℕ

-- `slice::swap`
unfoldable pub swap : List ℕ → ℕ → ℕ → Checked (List ℕ)
swap xs i j = do
  a ← in_range (get_elem? xs i)
  b ← in_range (get_elem? xs j)
  done (set (set xs i b) j a)

-- `bytes[start..start + count]`
unfoldable pub slice : List ℕ → ℕ → ℕ → Checked (List ℕ)
slice bytes start count =
    if leb (start + count) (length bytes) then done (take count (drop start bytes)) else panic

-- `usize::to_le_bytes`
abbrev pub le_bytes : ℕ → ℕ → List ℕ
le_bytes zero n = []
le_bytes (suc k) n = n % 256 ∷ le_bytes k (n / 256)

module _ (env : Env) where
  unfoldable pub assert_valid_single_instruction_transaction : List ℕ → Checked (Unit {0})
  assert_valid_single_instruction_transaction [] = done tt
  assert_valid_single_instruction_transaction (only ∷ []) = assert (only == env.id)
  assert_valid_single_instruction_transaction (first ∷ second ∷ []) = do
    assert (first == env.compute_budget)
    assert (second == env.id)
  assert_valid_single_instruction_transaction (_ ∷ _ ∷ _ ∷ _) = panic

  -- The config line of an item: its slice of the lines, or its number if there are none.
  unfoldable pub config_line_of : List ℕ → ℕ → ℕ → Checked (List ℕ)
  unfolding slice
  config_line_of config_lines line_size zero_nft_index =
      if ltb 0 (length config_lines)
      then slice config_lines (zero_nft_index * line_size) line_size
      else done (le_bytes 8 (zero_nft_index + 1))

  -- The number of the chosen item is logged.
  unfoldable pub fisher_yates_shuffle_and_fetch_nft_metadata :
      Machine → ℕ → Checked (Machine × ℕ × MetadataArgs)
  unfolding swap config_line_of get_metadata_args from_u8
  fisher_yates_shuffle_and_fetch_nft_metadata machine line_size = do
    let header = machine.header
    assert (ltb 0 header.remaining)
    let selected = env.entropy header.remaining % header.remaining
    let remaining = header.remaining - 1
    indices ← swap machine.indices selected remaining
    zero_nft_index ← in_range (get_elem? indices remaining)
    config_line ← config_line_of machine.config_lines line_size zero_nft_index
    encode_method ← from_u8 header.config_line_encode_method
    message ← get_metadata_args env.base58 header (zero_nft_index + 1) config_line encode_method
    done (
      record machine { header = record header { remaining = remaining }; indices = indices },
      zero_nft_index + 1,
      message,
    )

  module _ (hashes : Hashes) (payer : AccountInfo) where
    -- The loop over the items, each minted by the machine's derived key to the payer, with the numbers
    -- that are logged.
    unfoldable pub mint_items :
        ℕ → ℕ → Machine → Slab → Checked (Machine × Slab × List Emitted × List ℕ)
    unfolding fisher_yates_shuffle_and_fetch_nft_metadata call
    mint_items zero line_size machine slab = done (machine, slab, [], [])
    mint_items (suc n) line_size machine slab =
        let willy_wonka : AccountInfo = record {
          key = env.willy_wonka machine.id;
          is_signer = true;
        } in
        fisher_yates_shuffle_and_fetch_nft_metadata machine line_size
        >>= λ (machine', number, message).
            call (mint_v1 hashes slab willy_wonka payer.key payer.key message)
            >>= λ (slab', emitted).
                mint_items n line_size machine' slab' >>= λ (machine'', slab'', more, numbers).
                done (machine'', slab'', emitted ++ more, number ∷ numbers)

    unfoldable pub find_and_mint_compressed_nfts :
        Machine → Slab → ℕ → Checked (Machine × Slab × List Emitted × List ℕ × ℕ)
    unfolding assert_valid_single_instruction_transaction mint_items
    find_and_mint_compressed_nfts machine slab num_items = do
      signed payer
      assert_valid_single_instruction_transaction env.program_ids
      let header = machine.header
      assert (header.max_items == header.smallest_uninitialized_index)
      assert (leb num_items header.max_mint_size)
      assert (ltb header.go_live_date env.unix_timestamp)
      index_array_size ← word 64 (4 * header.max_items)
      config_size ← word 64 (header.extension_len * header.max_items)
      data_size ← word 64 (index_array_size + config_size)
      assert (4 * length machine.indices + length machine.config_lines == data_size)
      let num_nfts_to_mint = min (max num_items 1) header.remaining
      assert (ltb 0 num_nfts_to_mint)
      (machine', slab', emitted, numbers) ←
          mint_items num_nfts_to_mint header.extension_len machine slab
      done (machine', slab', emitted, numbers, num_nfts_to_mint)

    unfoldable pub dispense_nft_sol :
        Machine → Slab → ℕ → ℕ → Checked (Machine × Slab × List Emitted × List ℕ × Payment)
    unfolding find_and_mint_compressed_nfts
    dispense_nft_sol machine slab receiver num_items = do
      (machine', slab', emitted, numbers, num_nfts_minted) ←
          find_and_mint_compressed_nfts machine slab num_items
      let header = machine'.header
      assert (header.receiver == receiver)
      assert (header.mint == env.wrapped_sol)
      amount ← word 64 (header.price * num_nfts_minted)
      done (
        machine',
        slab',
        emitted,
        numbers,
        record { source = payer.key; receiver = receiver; amount = amount },
      )

    -- `payer_tokens` is an account of tokens of the mint `tokens_mint`.
    unfoldable pub dispense_nft_token :
        Machine → Slab → ℕ → ℕ → ℕ → ℕ → Checked (Machine × Slab × List Emitted × List ℕ × Payment)
    unfolding find_and_mint_compressed_nfts
    dispense_nft_token machine slab payer_tokens tokens_mint receiver num_items = do
      (machine', slab', emitted, numbers, num_nfts_minted) ←
          find_and_mint_compressed_nfts machine slab num_items
      let header = machine'.header
      assert (header.receiver == receiver)
      assert (tokens_mint == header.mint)
      amount ← word 64 (header.price * num_nfts_minted)
      done (
        machine',
        slab',
        emitted,
        numbers,
        record { source = payer_tokens; receiver = receiver; amount = amount },
      )
