-- ===== src/Gumball/Sales.antt =====
-- Any sequence of sales of one machine.
use candyland.Prelude.{
  ℕ, ◌+◌, ◌-◌, ◌≤◌, ◌<◌, ◌≡◌, sym, ap, ◌∙◌, arith, some, List, [], ◌++◌, length, get_elem?, done,
  some-injective,
}
use candyland.Bubblegum.Schema.{Hashes}
use candyland.Bubblegum.Program.{Slab, Emitted, AccountInfo}
use candyland.Gumball.State.{Machine}
use candyland.Gumball.Dispense.{Env, Payment, dispense_nft_sol, dispense_nft_token}
use candyland.Gumball.Shuffle.{IsShuffle, get_elem?-lt}
use candyland.Gumball.Paid.{fresh-IsSoldFrom, dispense_nft_sol_lem, dispense_nft_token_lem}
use candyland.Gumball.Sold.{IsSoldFrom}

-- The sales of a machine that returned, by any buyers and for any trees, with the numbers of the items.
pub data Sales (env : Env) (hashes : Hashes) (start : Machine) : Machine → List ℕ → Type 0 where
  unsold : Sales env hashes start start []
  for_sol :
      {m : Machine} {numbers : List ℕ} {out : Machine × Slab × List Emitted × List ℕ × Payment}
      → Sales env hashes start m numbers
      → (payer : AccountInfo) (slab : Slab) (receiver num_items : ℕ)
      → dispense_nft_sol env hashes payer m slab receiver num_items ≡ done out
      → Sales env hashes start out.0 (numbers ++ out.3)
  for_tokens :
      {m : Machine} {numbers : List ℕ} {out : Machine × Slab × List Emitted × List ℕ × Payment}
      → Sales env hashes start m numbers
      → (payer : AccountInfo) (slab : Slab) (payer_tokens tokens_mint receiver num_items : ℕ)
      → dispense_nft_token env hashes payer m slab payer_tokens tokens_mint receiver num_items
        ≡ done out
      → Sales env hashes start out.0 (numbers ++ out.3)

module _ (env : Env) (hashes : Hashes) (start : Machine)
    (shuffle : IsShuffle start.header.max_items start.indices)
    (room : start.header.remaining ≤ start.header.max_items) where
  Sales-IsSoldFrom :
      {m : Machine} {numbers : List ℕ}
      → Sales env hashes start m numbers
      → IsSoldFrom start m numbers
  Sales-IsSoldFrom unsold = fresh-IsSoldFrom start shuffle room
  Sales-IsSoldFrom (for_sol {m} {numbers} sales payer slab receiver num_items e) =
      (dispense_nft_sol_lem env hashes payer start m numbers slab receiver num_items
        (Sales-IsSoldFrom sales) e).0
  Sales-IsSoldFrom
        (for_tokens {m} {numbers} sales payer slab payer_tokens tokens_mint receiver num_items e) =
      (dispense_nft_token_lem env hashes payer start m numbers slab payer_tokens tokens_mint
        receiver num_items (Sales-IsSoldFrom sales) e).1.0

  -- For a machine whose indices hold every item once and with at most that many remaining: the
  -- numbers that any sales log which returned, for lamports or tokens and by any buyers, are all
  -- different and from 1 to max_items, and with the remaining items they are as many as remained
  -- before.
  pub sold_once :
      {m : Machine} {numbers : List ℕ}
      → Sales env hashes start m numbers
      → ((k l v : ℕ) → get_elem? numbers k ≡ some v → get_elem? numbers l ≡ some v → k ≡ l)
        × ((k v : ℕ) → get_elem? numbers k ≡ some v → (1 ≤ v) × (v ≤ start.header.max_items))
        × (length numbers + m.header.remaining ≡ start.header.remaining)
  sold_once {m} {numbers} sales = (once, bounds, sold.count)
    where
      sold : IsSoldFrom start m numbers
      sold = Sales-IsSoldFrom sales

      -- The item of a number, at its place.
      place :
          (k v : ℕ)
          → get_elem? numbers k ≡ some v
          → (u : ℕ) × (v ≡ u + 1)
            × (get_elem? m.indices (start.header.remaining - 1 - k) ≡ some u)
            × (k < length numbers)
      place k v e =
          let inside = get_elem?-lt numbers k e in
          let (u, number, at) = sold.places k inside in
          (u, some-injective (sym e ∙ number), at, inside)

      once : (k l v : ℕ) → get_elem? numbers k ≡ some v → get_elem? numbers l ≡ some v → k ≡ l
      once k l v e f =
          let (u, is_u, at_k, in_k) = place k v e in
          let (w, is_w, at_l, in_l) = place l v f in
          let same : w ≡ u = omega arith in
          let there =
            sold.shuffle.distinct (start.header.remaining - 1 - k) (start.header.remaining - 1 - l)
              u at_k (at_l ∙ ap some same) in
          omega (arith, sold.count, there, in_k, in_l)

      bounds : (k v : ℕ) → get_elem? numbers k ≡ some v → (1 ≤ v) × (v ≤ start.header.max_items)
      bounds k v e =
          let (u, is_u, at_k, in_k) = place k v e in
          let (w, at_w, low) =
            sold.shuffle.item (start.header.remaining - 1 - k) (omega (arith, sold.count, in_k)) in
          let same : u ≡ w = some-injective (sym at_k ∙ at_w) in (omega arith, omega arith)
