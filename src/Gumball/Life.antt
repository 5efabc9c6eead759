-- ===== src/Gumball/Life.antt =====
-- Any sequence of instructions on a new machine.
use candyland.Prelude.{
  ◌+◌, ◌*◌, ◌≡◌, inl, inr, sym, subst, ◌∙◌, arith, true, List, [], length, ltb, leb, ◌==◌, done,
  done-injective, >>=-eq-done, assert, length-take, ℕ, zero, suc, ◌≤◌, take, ap, refl, ◌∷◌,
  eq_of_test,
}
use candyland.Bubblegum.Schema.{Hashes}
use candyland.Bubblegum.Program.{Slab, Emitted, AccountInfo, create_tree}
use candyland.Gumball.State.{GumballMachineHeader, Machine, signed, word, num_creators, call}
use candyland.Gumball.Dispense.{
  Env, Payment, assert_valid_single_instruction_transaction, find_and_mint_compressed_nfts,
  dispense_nft_sol, dispense_nft_token,
}
use candyland.Gumball.Manage.{
  Settings, u32s_of, sum_u8, header_from, initialize_gumball_machine, initialize_indices_chunk,
  add_config_lines, update_config_lines, HeaderUpdate, update_header_metadata, destroy,
}
use candyland.Gumball.Shuffle.{IsShuffle}
use candyland.Gumball.Sold.{IsSoldFrom, assert-eq-done}
use candyland.Gumball.Paid.{
  word-eq-done, fresh-IsSoldFrom, dispense_nft_sol_lem, dispense_nft_token_lem,
}
use candyland.Gumball.Invariant.{IsMachine, numbered-IsShuffle}
use candyland.Gumball.Steps.{
  initialize_indices_chunk-IsMachine, add_config_lines-IsMachine, update_config_lines-IsMachine,
  update_header_metadata-IsMachine, destroy-IsMachine,
}

abbrev Sold : Type 0
Sold = Machine × Slab × List Emitted × List ℕ × Payment

-- A machine that sells has all its indices, each item once.
module _ (env : Env) (hashes : Hashes) (payer : AccountInfo) (m : Machine) (ok : IsMachine m) where
  full-IsShuffle :
      m.header.max_items ≡ m.header.smallest_uninitialized_index
      → IsShuffle m.header.max_items m.indices
  full-IsShuffle full = elim ok.filled [
    | inl (_, shuffle) ↦ shuffle
    | inr numbered ↦
        numbered-IsShuffle m.header.max_items m.indices ok.places (λ i h. numbered i (omega arith))
  ]

  find_and_mint-full :
      (slab : Slab) (num_items : ℕ) {out : Machine × Slab × List Emitted × List ℕ × ℕ}
      → find_and_mint_compressed_nfts env hashes payer m slab num_items ≡ done out
      → m.header.max_items ≡ m.header.smallest_uninitialized_index
  unfolding find_and_mint_compressed_nfts
  find_and_mint-full slab num_items e =
      let h = m.header in
      let (_, _, e1) = >>=-eq-done (signed payer) _ e in
      let (_, _, e2) =
        >>=-eq-done (assert_valid_single_instruction_transaction env env.program_ids) _ e1 in
      let (_, full, e3) =
        >>=-eq-done (assert (h.max_items == h.smallest_uninitialized_index)) _ e2 in
      eq_of_test _ _ (assert-eq-done (h.max_items == h.smallest_uninitialized_index) full)

  -- What a sale leaves is a machine.
  sold-IsMachine :
      (m' : Machine) (numbers : List ℕ)
      → m.header.max_items ≡ m.header.smallest_uninitialized_index
      → IsSoldFrom m m' numbers
      → IsMachine m'
  sold-IsMachine m' numbers full sold =
      let same : (f : GumballMachineHeader → ℕ)
          → f m'.header ≡ f (record m.header { remaining = m'.header.remaining }) =
        λ f. ap f sold.header in
      let items = same (λ h. h.max_items) in
      let first = same (λ h. h.smallest_uninitialized_index) in
      let total = same (λ h. h.total_items_added) in
      let batch = same (λ h. h.max_mint_size) in
      let size = same (λ h. h.extension_len) in
      record {
        places = sold.shuffle.size ∙ sym items;
        started = omega (arith, ok.started);
        added = omega (arith, ok.added);
        left = omega (arith, sold.count, ok.left);
        lines = elim ok.lines [ inl z ↦ inl (size ∙ z) | inr le ↦ inr (omega (arith, sold.count)) ];
        batch = omega (arith, ok.batch);
        filled =
            inl (omega arith, subst (λ (n : ℕ). IsShuffle n m'.indices) (sym items) sold.shuffle);
      }

  dispense_nft_sol-IsMachine :
      (slab : Slab) (receiver num_items : ℕ) {out : Sold}
      → dispense_nft_sol env hashes payer m slab receiver num_items ≡ done out
      → IsMachine out.0
  unfolding dispense_nft_sol
  dispense_nft_sol-IsMachine slab receiver num_items {out} e =
      let (_, found, _) =
        >>=-eq-done (find_and_mint_compressed_nfts env hashes payer m slab num_items) _ e in
      let full = find_and_mint-full slab num_items found in
      sold-IsMachine out.0 out.3 full
        (dispense_nft_sol_lem env hashes payer m m [] slab receiver num_items
          (fresh-IsSoldFrom m (full-IsShuffle full) ok.left) e).0

  dispense_nft_token-IsMachine :
      (slab : Slab) (payer_tokens tokens_mint receiver num_items : ℕ) {out : Sold}
      → dispense_nft_token env hashes payer m slab payer_tokens tokens_mint receiver num_items
        ≡ done out
      → IsMachine out.0
  unfolding dispense_nft_token
  dispense_nft_token-IsMachine slab payer_tokens tokens_mint receiver num_items {out} e =
      let (_, found, _) =
        >>=-eq-done (find_and_mint_compressed_nfts env hashes payer m slab num_items) _ e in
      let full = find_and_mint-full slab num_items found in
      sold-IsMachine out.0 out.3 full
        (dispense_nft_token_lem env hashes payer m m [] slab payer_tokens tokens_mint receiver
          num_items (fresh-IsSoldFrom m (full-IsShuffle full) ok.left) e).1.0

length-u32s_of : (n : ℕ) (bytes : List ℕ) → length bytes ≡ 4 * n → length (u32s_of bytes) ≡ n
unfolding u32s_of
length-u32s_of zero [] e = refl
length-u32s_of (suc n) [] e = absurd (omega arith)
length-u32s_of n (a ∷ []) e = absurd (omega arith)
length-u32s_of n (a ∷ b ∷ []) e = absurd (omega arith)
length-u32s_of n (a ∷ b ∷ c ∷ []) e = absurd (omega arith)
length-u32s_of zero (a ∷ b ∷ c ∷ d ∷ bytes) e = absurd (omega arith)
length-u32s_of (suc n) (a ∷ b ∷ c ∷ d ∷ bytes) e = ap suc (length-u32s_of n bytes (omega arith))

initialize-IsMachine :
    (env : Env) (hashes : Hashes) (id : ℕ) (bytes : List ℕ) (lamports : ℕ) (slab : Slab)
    (payer : AccountInfo) (mint slot max_depth max_buffer_size : ℕ) (s : Settings)
    (keys shares : List ℕ) {out : Machine × Slab × List Emitted}
    → initialize_gumball_machine env hashes id bytes lamports slab payer mint slot max_depth
        max_buffer_size s keys shares
      ≡ done out
    → IsMachine out.0
unfolding initialize_gumball_machine header_from
initialize-IsMachine env hashes id bytes lamports slab payer mint slot max_depth max_buffer_size s
      keys shares {out} e =
    let (_, _, e1) = >>=-eq-done (signed payer) _ e in
    let (_, _, e2) = >>=-eq-done (assert (length keys == length shares)) _ e1 in
    let (_, _, e3) = >>=-eq-done (assert (ltb (length keys) num_creators)) _ e2 in
    let (total, _, e4) = >>=-eq-done (sum_u8 0 shares) _ e3 in
    let (_, _, e5) = >>=-eq-done (assert (leb total 100)) _ e4 in
    let (index_size, is_index, e6) = >>=-eq-done (word 64 (4 * s.max_items)) _ e5 in
    let (config_size, is_config, e7) = >>=-eq-done (word 64 (s.extension_len * s.max_items)) _ e6 in
    let (data_size, is_data, e8) = >>=-eq-done (word 64 (index_size + config_size)) _ e7 in
    let (_, whole, e9) = >>=-eq-done (assert (length bytes == data_size)) _ e8 in
    let fits : index_size ≤ length bytes = omega (
      arith,
      word-eq-done 64 (index_size + config_size) is_data,
      eq_of_test (length bytes) data_size (assert-eq-done (length bytes == data_size) whole),
    ) in
    let willy_wonka : AccountInfo = record { key = env.willy_wonka id; is_signer = true } in
    let (_, _, e10) =
      >>=-eq-done (call (create_tree hashes slab payer willy_wonka slot max_depth max_buffer_size))
        _ e9 in
    subst (λ (o : Machine × Slab × List Emitted). IsMachine o.0) (done-injective e10)
      (record {
        places =
            length-u32s_of s.max_items (take index_size bytes) (
              length-take index_size bytes fits ∙ sym (word-eq-done 64 (4 * s.max_items) is_index));
        started = omega arith;
        added = omega arith;
        left = omega arith;
        lines = inr (omega arith);
        batch = omega arith;
        filled = inr (λ i h. absurd (omega arith));
      })

module _ (env : Env) (hashes : Hashes) where
  -- One instruction that returned.
  pub data Step (m : Machine) : Machine → Type 0 where
    wrote_indices :
        {m' : Machine} (authority : AccountInfo)
        → initialize_indices_chunk m authority ≡ done m'
        → Step m m'
    added_lines :
        {m' : Machine} (authority : AccountInfo) (new : List ℕ)
        → add_config_lines m authority new ≡ done m'
        → Step m m'
    updated_lines :
        {m' : Machine} (authority : AccountInfo) (line : ℕ) (new : List ℕ)
        → update_config_lines m authority line new ≡ done m'
        → Step m m'
    updated_header :
        {m' : Machine} (authority : AccountInfo) (u : HeaderUpdate)
        → update_header_metadata m authority u ≡ done m'
        → Step m m'
    destroyed :
        {out : Machine × ℕ} (authority : AccountInfo) (lamports : ℕ)
        → destroy m authority lamports ≡ done out
        → Step m out.0
    sold_for_sol :
        {out : Sold} (payer : AccountInfo) (slab : Slab) (receiver num_items : ℕ)
        → dispense_nft_sol env hashes payer m slab receiver num_items ≡ done out
        → Step m out.0
    sold_for_tokens :
        {out : Sold} (payer : AccountInfo) (slab : Slab) (tokens mint receiver num_items : ℕ)
        → dispense_nft_token env hashes payer m slab tokens mint receiver num_items ≡ done out
        → Step m out.0

  -- The machines after instructions that returned, from a new one on.
  pub data Lived : Machine → Type 0 where
    born :
        {out : Machine × Slab × List Emitted} (id : ℕ) (bytes : List ℕ) (lamports : ℕ) (slab : Slab)
        (payer : AccountInfo) (mint slot max_depth max_buffer_size : ℕ) (s : Settings)
        (keys shares : List ℕ)
        → initialize_gumball_machine env hashes id bytes lamports slab payer mint slot max_depth
            max_buffer_size s keys shares
          ≡ done out
        → Lived out.0
    stepped : {m m' : Machine} → Lived m → Step m m' → Lived m'

  Step-IsMachine : {m m' : Machine} → IsMachine m → Step m m' → IsMachine m'
  Step-IsMachine {m} ok (wrote_indices authority e) =
      initialize_indices_chunk-IsMachine m authority ok e
  Step-IsMachine {m} ok (added_lines authority new e) =
      add_config_lines-IsMachine m authority new ok e
  Step-IsMachine {m} ok (updated_lines authority line new e) =
      update_config_lines-IsMachine m authority line new ok e
  Step-IsMachine {m} ok (updated_header authority u e) =
      update_header_metadata-IsMachine m authority u ok e
  Step-IsMachine {m} ok (destroyed authority lamports e) =
      destroy-IsMachine m authority lamports ok e
  Step-IsMachine {m} ok (sold_for_sol payer slab receiver num_items e) =
      dispense_nft_sol-IsMachine env hashes payer m ok slab receiver num_items e
  Step-IsMachine {m} ok (sold_for_tokens payer slab tokens mint receiver num_items e) =
      dispense_nft_token-IsMachine env hashes payer m ok slab tokens mint receiver num_items e

  -- After any instructions that returned, from initialize_gumball_machine on: remaining, added
  -- lines, written indices and max_mint_size are at most max_items, and either every item stands
  -- in the indices once, or the written ones hold their own numbers.
  pub Lived-IsMachine : {m : Machine} → Lived m → IsMachine m
  Lived-IsMachine (born id bytes lamports slab payer mint slot d size s keys shares e) =
      initialize-IsMachine env hashes id bytes lamports slab payer mint slot d size s keys shares e
  Lived-IsMachine (stepped lived step) = Step-IsMachine (Lived-IsMachine lived) step
