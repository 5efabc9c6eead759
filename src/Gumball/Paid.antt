-- ===== src/Gumball/Paid.antt =====
-- What one sale gives and what it is paid.
use candyland.Prelude.{
  le_of_test, ℕ, ◌+◌, ◌*◌, ◌^◌, ◌≤◌, ◌<◌, min, max, ◌≡◌, refl, sym, ap, subst, ◌∙◌, arith, Bool,
  true, false, List, [], ◌++◌, length, ltb, leb, ◌==◌, if◌then◌else◌, done, panic, done-injective,
  >>=-eq-done, assert, lt_of_test, eq_of_test,
}
use candyland.Bubblegum.Schema.{Hashes}
use candyland.Bubblegum.Program.{Slab, Emitted, AccountInfo}
use candyland.Gumball.State.{Checked, GumballMachineHeader, Machine, signed, word}
use candyland.Gumball.Dispense.{
  Env, Payment, assert_valid_single_instruction_transaction, mint_items,
  find_and_mint_compressed_nfts, dispense_nft_sol, dispense_nft_token,
}
use candyland.Gumball.Shuffle.{IsShuffle}
use candyland.Gumball.Sold.{IsSoldFrom, assert-eq-done, mint_items-IsSoldFrom}

pub word-eq-done : (w n : ℕ) {m : ℕ} → word w n ≡ done m → n ≡ m
word-eq-done w n {m} e = go (ltb n (2 ^ w)) e
  where
    go : (t : Bool) → ◌≡◌ {A = Checked ℕ} (if t then done n else panic) (done m) → n ≡ m
    go true e = done-injective e
    go false e = cc

-- Nothing was sold yet.
pub fresh-IsSoldFrom :
    (m : Machine)
    → IsShuffle m.header.max_items m.indices
    → m.header.remaining ≤ m.header.max_items
    → IsSoldFrom m m []
fresh-IsSoldFrom m shuffle room = record {
  header = refl;
  shuffle = shuffle;
  room = room;
  count = omega arith;
  places = λ k h. absurd (omega arith);
}

module _ (env : Env) (hashes : Hashes) (payer : AccountInfo) where
  abbrev Minted : Type 0
  Minted = Machine × Slab × List Emitted × List ℕ × ℕ

  -- What a sale asks of the machine, and what it gives.
  abbrev IsSale : Machine → Machine → List ℕ → ℕ → Minted → Type 0
  IsSale start m numbers num_items out =
      IsSoldFrom start out.0 (numbers ++ out.3)
      × (length out.3 ≡ out.4)
      × (out.4 ≡ min (max num_items 1) m.header.remaining)
      × (1 ≤ out.4)
      × (num_items ≤ m.header.max_mint_size)
      × (m.header.go_live_date < env.unix_timestamp)

  pub find_and_mint-IsSale :
      (start m : Machine) (numbers : List ℕ) (slab : Slab) (num_items : ℕ) {out : Minted}
      → IsSoldFrom start m numbers
      → find_and_mint_compressed_nfts env hashes payer m slab num_items ≡ done out
      → IsSale start m numbers num_items out
  unfolding find_and_mint_compressed_nfts
  find_and_mint-IsSale start m numbers slab num_items {out} ok e =
      let h = m.header in
      let (_, _, e1) = >>=-eq-done (signed payer) _ e in
      let (_, _, e2) =
        >>=-eq-done (assert_valid_single_instruction_transaction env env.program_ids) _ e1 in
      let (_, _, e3) = >>=-eq-done (assert (h.max_items == h.smallest_uninitialized_index)) _ e2 in
      let (_, few, e4) = >>=-eq-done (assert (leb num_items h.max_mint_size)) _ e3 in
      let (_, live, e5) = >>=-eq-done (assert (ltb h.go_live_date env.unix_timestamp)) _ e4 in
      let (index_size, _, e6) = >>=-eq-done (word 64 (4 * h.max_items)) _ e5 in
      let (config_size, _, e7) = >>=-eq-done (word 64 (h.extension_len * h.max_items)) _ e6 in
      let (data_size, _, e8) = >>=-eq-done (word 64 (index_size + config_size)) _ e7 in
      let (_, _, e9) =
        >>=-eq-done (assert (4 * length m.indices + length m.config_lines == data_size)) _ e8 in
      let n = min (max num_items 1) h.remaining in
      let (_, some_left, e10) = >>=-eq-done (assert (ltb 0 n)) _ e9 in
      let (minted, made, e11) =
        >>=-eq-done (mint_items env hashes payer n h.extension_len m slab) _ e10 in
      let (sold, size) =
        mint_items-IsSoldFrom env hashes payer n h.extension_len start m numbers slab ok made in
      subst (λ (o : Minted). IsSale start m numbers num_items o) (done-injective e11)
        (
          sold,
          size,
          refl,
          lt_of_test 0 n (assert-eq-done _ some_left),
          le_of_test num_items h.max_mint_size (assert-eq-done _ few),
          lt_of_test h.go_live_date env.unix_timestamp (assert-eq-done _ live),
        )

  abbrev Sold : Type 0
  Sold = Machine × Slab × List Emitted × List ℕ × Payment

  -- What both kinds of sale give: items of the machine, and a payment.
  abbrev pub IsPaid : Machine → Machine → List ℕ → ℕ → ℕ → Sold → Type 0
  IsPaid start m numbers num_items source out =
      IsSoldFrom start out.0 (numbers ++ out.3)
      × (length out.3 ≡ min (max num_items 1) m.header.remaining)
      × (1 ≤ length out.3)
      × (num_items ≤ m.header.max_mint_size)
      × (m.header.go_live_date < env.unix_timestamp)
      × (out.4 ≡ record {
        source = source;
        receiver = m.header.receiver;
        amount = m.header.price * length out.3;
      })

  paid_lem :
      (start m : Machine) (numbers : List ℕ) (num_items source receiver amount : ℕ)
      (minted : Minted)
      → IsSoldFrom start m numbers
      → IsSale start m numbers num_items minted
      → minted.0.header.receiver ≡ receiver
      → minted.0.header.price * minted.4 ≡ amount
      → IsPaid start m numbers num_items source (
        minted.0,
        minted.1,
        minted.2,
        minted.3,
        record { source = source; receiver = receiver; amount = amount },
      )
  paid_lem start m numbers num_items source receiver amount (m', slab', emitted, others, n) ok
        (sold, size, wanted, one, few, live) to exact =
      (
        sold,
        size ∙ wanted,
        omega arith,
        few,
        live,
        ap (λ (r : ℕ). record { source = source; receiver = r; amount = amount })
              (sym to ∙ same_receiver)
            ∙ ap (λ (a : ℕ). record { source = source; receiver = m.header.receiver; amount = a })
                (sym exact
                  ∙ ap (λ (c : ℕ). m'.header.price * c) (sym size)
                  ∙ ap (λ (c : ℕ). c * length others) same_price),
      )
    where
      same_receiver : m'.header.receiver ≡ m.header.receiver
      same_receiver =
          ap (λ (h : GumballMachineHeader). h.receiver) sold.header
          ∙ sym (ap (λ (h : GumballMachineHeader). h.receiver) ok.header)

      same_price : m'.header.price ≡ m.header.price
      same_price =
          ap (λ (h : GumballMachineHeader). h.price) sold.header
          ∙ sym (ap (λ (h : GumballMachineHeader). h.price) ok.header)

  -- For a machine that sold the items behind its remaining ones: if dispense_nft_sol returns, it
  -- is live, the items sold, at least one, are num_items or one if that is zero, or all that
  -- remain if those are fewer; num_items is at most max_mint_size, and the buyer pays the
  -- receiver the price of each item sold.
  pub dispense_nft_sol_lem :
      (start m : Machine) (numbers : List ℕ) (slab : Slab) (receiver num_items : ℕ) {out : Sold}
      → IsSoldFrom start m numbers
      → dispense_nft_sol env hashes payer m slab receiver num_items ≡ done out
      → IsPaid start m numbers num_items payer.key out
  unfolding dispense_nft_sol
  dispense_nft_sol_lem start m numbers slab receiver num_items {out} ok e =
      let (minted, found, e1) =
        >>=-eq-done (find_and_mint_compressed_nfts env hashes payer m slab num_items) _ e in
      let (_, to, e2) = >>=-eq-done (assert (minted.0.header.receiver == receiver)) _ e1 in
      let (_, _, e3) = >>=-eq-done (assert (minted.0.header.mint == env.wrapped_sol)) _ e2 in
      let (amount, exact, e4) = >>=-eq-done (word 64 (minted.0.header.price * minted.4)) _ e3 in
      subst (λ (o : Sold). IsPaid start m numbers num_items payer.key o) (done-injective e4)
        (paid_lem start m numbers num_items payer.key receiver amount minted ok
          (find_and_mint-IsSale start m numbers slab num_items ok found)
          (eq_of_test _ _ (assert-eq-done (minted.0.header.receiver == receiver) to))
          (word-eq-done 64 (minted.0.header.price * minted.4) exact))

  -- For a machine that sold the items behind its remaining ones, and any mint, wrapped SOL too:
  -- if dispense_nft_token returns, the tokens' mint is the machine's, it is live, the items sold,
  -- at least one, are num_items or one if that is zero, or all that remain if those are fewer;
  -- num_items is at most max_mint_size, and the buyer's tokens pay the receiver the price of each
  -- item sold.
  pub dispense_nft_token_lem :
      (start m : Machine) (numbers : List ℕ) (slab : Slab)
      (payer_tokens tokens_mint receiver num_items : ℕ) {out : Sold}
      → IsSoldFrom start m numbers
      → dispense_nft_token env hashes payer m slab payer_tokens tokens_mint receiver num_items
        ≡ done out
      → (m.header.mint ≡ tokens_mint) × IsPaid start m numbers num_items payer_tokens out
  unfolding dispense_nft_token
  dispense_nft_token_lem start m numbers slab payer_tokens tokens_mint receiver num_items {out} ok
        e =
      let (minted, found, e1) =
        >>=-eq-done (find_and_mint_compressed_nfts env hashes payer m slab num_items) _ e in
      let (_, to, e2) = >>=-eq-done (assert (minted.0.header.receiver == receiver)) _ e1 in
      let (_, of, e3) = >>=-eq-done (assert (tokens_mint == minted.0.header.mint)) _ e2 in
      let (amount, exact, e4) = >>=-eq-done (word 64 (minted.0.header.price * minted.4)) _ e3 in
      let sale = find_and_mint-IsSale start m numbers slab num_items ok found in
      subst
        (λ (o : Sold).
          (m.header.mint ≡ tokens_mint) × IsPaid start m numbers num_items payer_tokens o)
        (done-injective e4)
        (
          ap (λ (h : GumballMachineHeader). h.mint) ok.header
              ∙ sym (ap (λ (h : GumballMachineHeader). h.mint) sale.0.header)
              ∙ sym (eq_of_test _ _ (assert-eq-done (tokens_mint == minted.0.header.mint) of)),
          paid_lem start m numbers num_items payer_tokens receiver amount minted ok sale
              (eq_of_test _ _ (assert-eq-done (minted.0.header.receiver == receiver) to))
              (word-eq-done 64 (minted.0.header.price * minted.4) exact),
        )
