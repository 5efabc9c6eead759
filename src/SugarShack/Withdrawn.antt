-- ===== src/SugarShack/Withdrawn.antt =====
-- A withdrawal moves lamports and creates none.
use candyland.Prelude.{
  ℕ, ◌+◌, ◌≡◌, ◌≢◌, ◌⊎◌, inl, inr, refl, sym, ap, subst, ◌∙◌, arith, Bool, true, false, put_at,
  done, done-injective, >>=-eq-done, assert, ◌==◌, eq_of_test, eq_or_ne,
}
use candyland.Bubblegum.Program.{AccountInfo}
use candyland.Bubblegum.Ledger.Changed.{put_at-same, put_at-other}
use candyland.SugarShack.Market.{
  MarketplaceProperties, Checked, not_signed, Runtime, signed, marketplace_properties_size,
  withdraw_fees,
}
use candyland.SugarShack.Bought.{IsSafe, require-eq-done}

assert-eq-done :
    (t : Bool) {u : Unit {0}} → ◌≡◌ {A = Checked (Unit {0})} (assert t) (done u) → t ≡ true
assert-eq-done true e = refl
assert-eq-done false e = cc

module _ (runtime : Runtime) where
  -- What the accounts hold after a withdrawal to an account.
  abbrev pub IsWithdrawn : (ℕ → ℕ) → ℕ → ℕ → (ℕ → ℕ) → Type 0
  IsWithdrawn balances recipient lamports balances' =
      ((recipient ≡ runtime.marketplace) × ((k : ℕ) → balances' k ≡ balances k))
      ⊎ ((recipient ≢ runtime.marketplace)
          × (balances' runtime.marketplace + lamports ≡ balances runtime.marketplace)
          × (balances' recipient ≡ balances recipient + lamports)
          × ((k : ℕ) → k ≢ runtime.marketplace → k ≢ recipient → balances' k ≡ balances k)
          × (runtime.is_exempt (balances' runtime.marketplace) marketplace_properties_size ≡ true))

-- For arithmetic that gives exact results or fails: if withdraw_fees returns, the authority
-- signed, and either the recipient is the marketplace's account and no balance changed, or the
-- marketplace's balance fell and the recipient's rose by the lamports withdrawn, no other
-- changed, and the marketplace's account is still exempt from rent.
pub withdraw_fees_lem :
    (runtime : Runtime)
    → IsSafe runtime
    → (props : MarketplaceProperties) (signer : AccountInfo) (balances : ℕ → ℕ)
      (recipient lamports : ℕ)
    → {balances' : ℕ → ℕ}
    → withdraw_fees runtime props signer balances recipient lamports ≡ done balances'
    → (signer.key ≡ props.authority)
      × (signer.is_signer ≡ true)
      × IsWithdrawn runtime balances recipient lamports balances'
unfolding withdraw_fees
withdraw_fees_lem runtime safe props signer balances recipient lamports {balances'} e =
    let mp = runtime.marketplace in
    let (_, signs, e1) = >>=-eq-done (signed signer) _ e in
    let (_, owns, e2) = >>=-eq-done (assert (signer.key == props.authority)) _ e1 in
    let (after, is_after, e3) = >>=-eq-done (runtime.safe_sub (balances mp) lamports) _ e2 in
    let (_, exempt, e4) =
      >>=-eq-done (assert (runtime.is_exempt after marketplace_properties_size)) _ e3 in
    let drawn = put_at mp after balances in
    let (paid, is_paid, e5) = >>=-eq-done (runtime.safe_add (drawn recipient) lamports) _ e4 in
    let out = safe.sub (balances mp) lamports after is_after in
    let sum = safe.add (drawn recipient) lamports paid is_paid in
    (
      eq_of_test _ _ (assert-eq-done (signer.key == props.authority) owns),
      require-eq-done signer.is_signer not_signed signs,
      subst (λ (bs : ℕ → ℕ). IsWithdrawn runtime balances recipient lamports bs) (done-injective e5)
          (elim (eq_or_ne recipient mp) [
            | inl same ↦ inl (
              same,
              λ k. elim (eq_or_ne k recipient) [
                | inl eq ↦
                    put_at-same recipient paid drawn k eq
                    ∙ sum
                    ∙ omega (arith, out, put_at-same mp after balances recipient same)
                    ∙ ap balances (sym same ∙ sym eq)
                | inr n ↦
                    put_at-other recipient paid drawn k n
                    ∙ put_at-other mp after balances k (λ eq. n (eq ∙ sym same))
              ],
            )
            | inr apart ↦
                let kept =
                  put_at-other recipient paid drawn mp (λ eq. apart (sym eq))
                  ∙ put_at-same mp after balances mp refl in
                inr (
                  apart,
                  omega (arith, kept, out),
                  put_at-same recipient paid drawn recipient refl
                      ∙ sum
                      ∙ ap (λ (n : ℕ). n + lamports)
                          (put_at-other mp after balances recipient apart),
                  λ k n m.
                      put_at-other recipient paid drawn k m ∙ put_at-other mp after balances k n,
                  ap (λ (n : ℕ). runtime.is_exempt n marketplace_properties_size) kept
                      ∙ assert-eq-done (runtime.is_exempt after marketplace_properties_size) exempt,
                )
          ]),
    )
