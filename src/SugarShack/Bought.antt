-- ===== src/SugarShack/Bought.antt =====
-- A purchase pays its price and moves the asset.
use candyland.Prelude.{
  ℕ, ◌+◌, ◌-◌, ◌*◌, ◌/◌, ◌^◌, ◌<◌, ◌≡◌, ◌≢◌, refl, ap, subst, ◌∙◌, arith, Bool, true, false,
  eq_of_test, List, [], ◌∷◌, ◌++◌, length, take, drop, done, err, done-injective, >>=-eq-done,
  assert, require, ◌≤◌, map, length-take, le_of_test, leb, ◌==◌, panic, diverge,
}
use candyland.Cmt.Node.{Node, empty}
use candyland.Cmt.Utils.Sound.{IsCollisionFree}
use candyland.Cmt.History.{History}
use candyland.Bubblegum.Schema.{Hashes}
use candyland.Bubblegum.Program
use candyland.Bubblegum.Program.{AccountInfo, Slab, Emitted, transfer}
use candyland.Bubblegum.Ledger.{Ledger, compressed, IsSlab}
use candyland.Bubblegum.Ledger.Moves.{Move, asset}
use candyland.Bubblegum.Ledger.Moved.{IsStep, transfer-IsStep}
use candyland.Gumball.Dispense.{Payment}
use candyland.SugarShack.Market.{
  MarketplaceProperties, MarketFault, not_signed, Checked, constraint_seeds, Runtime, signed, call,
  pay_creators, pairs_of, pay_price, purchase,
}

-- The crate's operations give what they are named for, or fail.
pub record IsSafe (runtime : Runtime) : Type 0 where
  pub add : (a b c : ℕ) → runtime.safe_add a b ≡ done c → c ≡ a + b
  pub sub : (a b c : ℕ) → runtime.safe_sub a b ≡ done c → a ≡ b + c
  pub mul : (a b c : ℕ) → runtime.safe_mul a b ≡ done c → c ≡ a * b
  pub div : (a b c : ℕ) → runtime.safe_div a b ≡ done c → c ≡ a / b

abbrev pub total_of : List Payment → ℕ
total_of [] = 0
total_of (payment ∷ payments) = payment.amount + total_of payments

total_of-append : (xs ys : List Payment) → total_of (xs ++ ys) ≡ total_of xs + total_of ys
total_of-append [] ys = omega arith
total_of-append (x ∷ xs) ys = omega (arith, total_of-append xs ys)

call-eq-done : {A : Type 0} (m : Program.Checked A) {a : A} → call m ≡ done a → m ≡ done a
unfolding call
call-eq-done (done x) e = ap done (done-injective e)
call-eq-done (err x) e = cc
call-eq-done panic e = cc
call-eq-done diverge e = cc

assert-eq-done :
    (t : Bool) {u : Unit {0}} → ◌≡◌ {A = Checked (Unit {0})} (assert t) (done u) → t ≡ true
assert-eq-done true e = refl
assert-eq-done false e = cc

pub require-eq-done :
    (t : Bool) (fault : MarketFault) {u : Unit {0}}
    → ◌≡◌ {A = Checked (Unit {0})} (require t fault) (done u)
    → t ≡ true
require-eq-done true fault e = refl
require-eq-done false fault e = cc

-- The source, receivers and amounts of what creators are paid.
abbrev pub royalties_of : ℕ → ℕ → List ℕ → List ℕ → List Payment
royalties_of purchaser basis_point [] shares = []
royalties_of purchaser basis_point (account ∷ accounts) [] = []
royalties_of purchaser basis_point (account ∷ accounts) (share ∷ shares) =
    let payment : Payment = record {
      source = purchaser;
      receiver = account;
      amount = basis_point * (share * 100);
    } in
    payment ∷ royalties_of purchaser basis_point accounts shares

module _ (hashes : Hashes) (runtime : Runtime) (safe : IsSafe runtime) where
  pay_creators_lem :
      (purchaser basis_point paid : ℕ) (accounts shares : List ℕ) {out : ℕ × List Payment}
      → pay_creators hashes runtime purchaser basis_point paid accounts shares ≡ done out
      → (out.1 ≡ royalties_of purchaser basis_point accounts shares)
        × (out.0 ≡ paid + total_of out.1)
  unfolding pay_creators
  pay_creators_lem purchaser basis_point paid [] [] {out} e =
      subst (λ (o : ℕ × List Payment). (o.1 ≡ []) × (o.0 ≡ paid + total_of o.1)) (done-injective e)
        (refl, omega arith)
  pay_creators_lem purchaser basis_point paid (account ∷ accounts) [] {out} e =
      subst (λ (o : ℕ × List Payment). (o.1 ≡ []) × (o.0 ≡ paid + total_of o.1)) (done-injective e)
        (refl, omega arith)
  pay_creators_lem purchaser basis_point paid [] (share ∷ shares) {out} e = cc
  pay_creators_lem purchaser basis_point paid (account ∷ accounts) (share ∷ shares) {out} e =
      let (points, is_points, e1) = >>=-eq-done (runtime.safe_mul share 100) _ e in
      let (amount, is_amount, e2) = >>=-eq-done (runtime.safe_mul basis_point points) _ e1 in
      let payment : Payment = record { source = purchaser; receiver = account; amount = amount } in
      let (_, _, e3) = >>=-eq-done (runtime.pay payment) _ e2 in
      let (paid', is_paid, e4) = >>=-eq-done (runtime.safe_add paid amount) _ e3 in
      let ((total, payments), rest, e5) =
        >>=-eq-done (pay_creators hashes runtime purchaser basis_point paid' accounts shares) _
          e4 in
      let (same, sum) = pay_creators_lem purchaser basis_point paid' accounts shares rest in
      let exact : amount ≡ basis_point * (share * 100) =
        safe.mul basis_point points amount is_amount
        ∙ ap (λ (n : ℕ). basis_point * n) (safe.mul share 100 points is_points) in
      subst
        (λ (o : ℕ × List Payment).
          (o.1 ≡ royalties_of purchaser basis_point (account ∷ accounts) (share ∷ shares))
          × (o.0 ≡ paid + total_of o.1))
        (done-injective e5)
        (
          ap (λ (a : ℕ). record { source = purchaser; receiver = account; amount = a } ∷ payments)
                exact
              ∙ ap
                  (λ (ps : List Payment).
                    record {
                      source = purchaser;
                      receiver = account;
                      amount = basis_point * (share * 100);
                    }
                    ∷ ps)
                  same,
          omega (arith, sum, safe.add paid amount paid' is_paid),
        )

  -- As many accounts as shares stand in the pairs, in their order.
  pairs_of-map :
      (accounts shares : List ℕ)
      → length accounts ≡ length shares
      → (map (λ c. c.0) (pairs_of hashes runtime accounts shares) ≡ accounts)
        × (map (λ c. c.1) (pairs_of hashes runtime accounts shares) ≡ shares)
  pairs_of-map [] [] same = (refl, refl)
  pairs_of-map [] (share ∷ shares) same = absurd (omega arith)
  pairs_of-map (account ∷ accounts) [] same = absurd (omega arith)
  pairs_of-map (account ∷ accounts) (share ∷ shares) same =
      let (keys, parts) = pairs_of-map accounts shares (omega arith) in
      (ap (λ xs. account ∷ xs) keys, ap (λ xs. share ∷ xs) parts)

  -- The fee, the royalties and the rest make up the price.
  abbrev pub IsPaid : ℕ → ℕ → ℕ → List ℕ → ℕ → List ℕ → List Payment → Type 0
  IsPaid share purchaser owner accounts price shares payments =
      let fee = price / 10000 * share in
      (rest : ℕ) × (payments
        ≡ record { source = purchaser; receiver = runtime.marketplace; amount = fee }
          ∷ (royalties_of purchaser ((price - fee) / 10000) (take (length shares) accounts) shares
              ++ (record { source = purchaser; receiver = owner; amount = rest } ∷ [])))
      × (total_of payments ≡ price)

  -- The payments, from what the operations gave.
  exact_lem :
      (share purchaser owner price fee allocation point rest : ℕ) (creators shares : List ℕ)
      (royalties : List Payment)
      → fee ≡ price / 10000 * share
      → price ≡ fee + allocation
      → point ≡ allocation / 10000
      → royalties ≡ royalties_of purchaser point creators shares
      → allocation ≡ total_of royalties + rest
      → (record { source = purchaser; receiver = runtime.marketplace; amount = fee }
            ∷ (royalties ++ (record { source = purchaser; receiver = owner; amount = rest } ∷ []))
          ≡ record {
            source = purchaser;
            receiver = runtime.marketplace;
            amount = price / 10000 * share;
          }
            ∷ (royalties_of purchaser ((price - price / 10000 * share) / 10000) creators shares
                ++ (record { source = purchaser; receiver = owner; amount = rest } ∷ [])))
        × (fee
              + total_of (
                  royalties
                  ++ (record { source = purchaser; receiver = owner; amount = rest } ∷ []))
            ≡ price)
  exact_lem share purchaser owner price fee allocation point rest creators shares royalties is_fee
        split is_point royal sum =
      let left : allocation ≡ price - price / 10000 * share = omega arith in
      let rest_payment : Payment = record { source = purchaser; receiver = owner; amount = rest } in
      (
        ap
              (λ (n : ℕ).
                record { source = purchaser; receiver = runtime.marketplace; amount = n }
                ∷ (royalties ++ (rest_payment ∷ [])))
              is_fee
            ∙ ap
                (λ (ps : List Payment).
                  record {
                    source = purchaser;
                    receiver = runtime.marketplace;
                    amount = price / 10000 * share;
                  }
                  ∷ (ps ++ (rest_payment ∷ [])))
                (royal
                  ∙ ap (λ (n : ℕ). royalties_of purchaser n creators shares)
                      (is_point ∙ ap (λ (n : ℕ). n / 10000) left)),
        omega (arith, total_of-append royalties (rest_payment ∷ [])),
      )

  pay_price_lem :
      (share purchaser owner : ℕ) (accounts : List ℕ) (price : ℕ) (shares : List ℕ)
      {payments : List Payment}
      → pay_price hashes runtime share purchaser owner accounts price shares ≡ done payments
      → IsPaid share purchaser owner accounts price shares payments
        × (length shares ≤ length accounts)
  unfolding pay_price
  pay_price_lem share purchaser owner accounts price shares {payments} e =
      let (basis, is_basis, e3) = >>=-eq-done (runtime.safe_div price 10000) _ e in
      let (fee, is_fee, e4) = >>=-eq-done (runtime.safe_mul basis share) _ e3 in
      let (_, _, e5) =
        >>=-eq-done
          (runtime.pay
            (record { source = purchaser; receiver = runtime.marketplace; amount = fee }))
          _ e4 in
      let (allocation, is_allocation, e6) = >>=-eq-done (runtime.safe_sub price fee) _ e5 in
      let (point, is_point, e7) = >>=-eq-done (runtime.safe_div allocation 10000) _ e6 in
      let (_, enough, e8) = >>=-eq-done (assert (leb (length shares) (length accounts))) _ e7 in
      let creators = take (length shares) accounts in
      let (paid, is_paid, e9) =
        >>=-eq-done (pay_creators hashes runtime purchaser point 0 creators shares) _ e8 in
      let (rest, is_rest, e10) = >>=-eq-done (runtime.safe_sub allocation paid.0) _ e9 in
      let (_, _, e11) =
        >>=-eq-done (runtime.pay (record { source = purchaser; receiver = owner; amount = rest })) _
          e10 in
      let (royal, sum) = pay_creators_lem purchaser point 0 creators shares is_paid in
      let (exact, total) =
        exact_lem share purchaser owner price fee allocation point rest creators shares paid.1
          (safe.mul basis share fee is_fee
            ∙ ap (λ (n : ℕ). n * share) (safe.div price 10000 basis is_basis))
          (safe.sub price fee allocation is_allocation) (safe.div allocation 10000 point is_point)
          royal (omega (arith, sum, safe.sub allocation paid.0 rest is_rest)) in
      subst
        (λ (ps : List Payment).
          IsPaid share purchaser owner accounts price shares ps × (length shares ≤ length accounts))
        (done-injective e11)
        (
          (rest, exact, total),
          le_of_test (length shares) (length accounts) (assert-eq-done _ enough),
        )

  module _ (free : IsCollisionFree hashes.node) (nonzero : (x y : Node) → hashes.node x y ≢ empty)
      (leaf_free : (xs ys : List ℕ) → hashes.leaf xs ≡ hashes.leaf ys → xs ≡ ys)
      (leaf_nonzero : (xs : List ℕ) → hashes.leaf xs ≢ empty) (b p : ℕ) (slab : Slab) (h : History)
      (ledger : Ledger) (ok : IsSlab hashes b p slab h ledger) where
    abbrev Returned : Type 0
    Returned = Slab × List Emitted × List Payment

    -- The asset that the seller delegated to the listing's key goes to the purchaser; its creators are
    -- the accounts that were paid royalties, with their shares.
    abbrev pub Buys : ℕ → ℕ → ℕ → List ℕ → List ℕ → Node → ℕ → ℕ → Move
    Buys owner purchaser lister accounts shares data_hash nonce index i before after =
        (creators : List (ℕ × ℕ)) × (map (λ c. c.0) creators ≡ take (length shares) accounts)
        × (map (λ c. c.1) creators ≡ shares)
        × (i ≡ index)
        × (nonce ≡ index)
        × (before
            ≡ compressed
                (asset hashes slab owner lister nonce data_hash (hashes.creators creators)))
        × (after
            ≡ compressed
                (asset hashes slab purchaser purchaser nonce data_hash (hashes.creators creators)))

    -- The price is paid, and the asset that was listed at the price moved to the purchaser.
    abbrev pub IsBought :
        MarketplaceProperties
        → AccountInfo
        → AccountInfo
        → ℕ
        → List ℕ
        → ℕ
        → List ℕ
        → Node
        → ℕ
        → ℕ
        → Returned
        → Type 0
    IsBought props owner purchaser lister accounts price shares data_hash nonce index out =
        IsPaid props.share purchaser.key owner.key accounts price shares out.2
        × (lister ≡ runtime.listing price)
        × (purchaser.is_signer ≡ true)
        × IsStep hashes b p
            (Buys owner.key purchaser.key lister accounts shares data_hash nonce index) slab ledger
            out.0

    -- For arithmetic that gives exact results or fails, hashes without collisions that are never
    -- zero, and a tree that keeps a ledger of assets: if purchase returns for a leaf inside the
    -- tree, the purchaser signed and the listing's key is the one of the price; the payments are
    -- the fee, each creator's royalty of what the fee leaves, and the rest to the seller, which
    -- make up the price; and the asset with the nonce and data hash, which stood in the tree as
    -- the seller's with the listing's key as its delegate and with the paid creators and their
    -- shares hashed in it, is the purchaser's now, who is its delegate too.
    pub purchase_lem :
        (props : MarketplaceProperties) (owner purchaser : AccountInfo) (lister : ℕ)
        (accounts : List ℕ) (price : ℕ) (data_hash : Node) (nonce index : ℕ) (root : Node)
        (shares : List ℕ) {out : Returned}
        → index < 2 ^ slab.account.header.max_depth
        → purchase hashes runtime props slab owner purchaser lister accounts price data_hash nonce
            index root shares
          ≡ done out
        → IsBought props owner purchaser lister accounts price shares data_hash nonce index out
    unfolding purchase
    purchase_lem props owner purchaser lister accounts price data_hash nonce index root shares {out}
          inside e =
        let (_, signs, e1) = >>=-eq-done (signed purchaser) _ e in
        let (_, listed, e2) =
          >>=-eq-done (require (lister == runtime.listing price) constraint_seeds) _ e1 in
        let (payments, paid, e3) =
          >>=-eq-done
            (pay_price hashes runtime props.share purchaser.key owner.key accounts price shares) _
            e2 in
        let seller : AccountInfo = record owner { is_signer = owner.key == lister } in
        let by : AccountInfo = record { key = lister; is_signer = true } in
        let creator_hash =
          hashes.creators (pairs_of hashes runtime (take (length shares) accounts) shares) in
        let transferred =
          transfer hashes slab seller by purchaser.key (drop (length shares) accounts) root
            data_hash creator_hash nonce index in
        let (moved, called, e4) = >>=-eq-done (call transferred) _ e3 in
        let (priced, enough) =
          pay_price_lem props.share purchaser.key owner.key accounts price shares paid in
        let creators = take (length shares) accounts in
        let zipped = pairs_of-map creators shares (length-take (length shares) accounts enough) in
        let (i, holding, h', (at, same, _, before, after), is_slab) =
          transfer-IsStep hashes free nonzero leaf_free leaf_nonzero b p slab h ledger ok
            (drop (length shares) accounts) root data_hash creator_hash nonce index inside seller by
            purchaser.key (call-eq-done transferred called) in
        subst
          (λ (o : Returned).
            IsBought props owner purchaser lister accounts price shares data_hash nonce index o)
          (done-injective e4)
          (
            priced,
            eq_of_test _ _
                (require-eq-done (lister == runtime.listing price) constraint_seeds listed),
            require-eq-done purchaser.is_signer not_signed signs,
            (
              i,
              holding,
              h',
              (
                pairs_of hashes runtime creators shares,
                zipped.0,
                zipped.1,
                at,
                same,
                before,
                after,
              ),
              is_slab,
            ),
          )
