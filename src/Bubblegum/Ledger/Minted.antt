-- ===== src/Bubblegum/Ledger/Minted.antt =====
-- Minting, on the ledger.
use candyland.Prelude.{
  ℕ, ◌+◌, ◌-◌, ◌^◌, ◌≤◌, min, ◌≡◌, ◌≢◌, refl, sym, ap, subst, ◌∙◌, arith, none, some,
  some-injective, List, map, done, done-injective, >>=-eq-done,
}
use candyland.Cmt.Node.{Node, empty}
use candyland.Cmt.Utils.Sound.{IsCollisionFree}
use candyland.Cmt.History.{History, advance}
use candyland.Gummyroll.Canopy.Rows.{pow_mono}
use candyland.Gummyroll.Program
use candyland.Gummyroll.Program.{Account}
use candyland.Gummyroll.Program.Kept.{append_account_sound}
use candyland.Gummyroll.Program.Header.{append-SameAccount}
use candyland.Bubblegum.Metadata.{MetadataArgs}
use candyland.Bubblegum.Schema.{Hashes, new_v0, to_node, get_asset_id}
use candyland.Bubblegum.Program.{
  Slab, Emitted, AccountInfo, call, share_of, initialized, signed, append_leaf, mint_v1,
}
use candyland.Bubblegum.Ledger.{
  Holding, compressed, redeemed, absent, Ledger, schema_of, voucher_of, IsSlab,
}
use candyland.Bubblegum.Ledger.Moves.{Mints, asset}
use candyland.Bubblegum.Ledger.Changed.{changed_lem, call-eq-done, put_at-stays}
use candyland.Bubblegum.Ledger.Moved.{IsStep, require-eq-done, named}
use candyland.Bubblegum.Ledger.Vouched.{initialized-eq-done}

module _ (hashes : Hashes) (free : IsCollisionFree hashes.node)
    (nonzero : (x y : Node) → hashes.node x y ≢ empty) (b p : ℕ) (slab : Slab) (h : History)
    (ledger : Ledger) (ok : IsSlab hashes b p slab h ledger) where
  abbrev acc : Account
  acc = slab.account

  abbrev end : ℕ
  end = acc.roll.rightmost_proof.index

  -- Nothing was minted at the end.
  end-absent : (holding : Holding) → ledger end ≡ holding → holding ≡ absent
  end-absent absent e = refl
  end-absent (compressed s) e =
      absurd (omega (arith, (ok.belongs end s (ap schema_of e)).minted, ok.kept.rolls.ends))
  end-absent (redeemed s) e =
      absurd (omega (arith, (ok.belongs end s (ap schema_of e)).minted, ok.kept.rolls.ends))

  -- The count of minted assets stays far below the words' end.
  counted_lem :
      (count : ℕ)
      → slab.authority ≡ some count
      → (count ≡ end) × (min (count + 1) (2 ^ 64 - 1) ≡ end + 1)
  counted_lem count e =
      let is : count ≡ end = some-injective (sym e ∙ ok.counted) ∙ sym ok.kept.rolls.ends in
      let small : 2 ^ acc.header.max_depth ≤ 2 ^ 31 =
        pow_mono acc.header.max_depth 31 (omega (arith, ok.kept.shallow)) in
      (is, omega (arith, is, small, ok.kept.rolls.rightmost.bounded))

  pub mint_v1-IsStep :
      (mint_authority : AccountInfo) (owner delegate : ℕ) (message : MetadataArgs)
      {out : Slab × List Emitted}
      → mint_v1 hashes slab mint_authority owner delegate message ≡ done out
      → IsStep hashes b p
          (Mints hashes slab mint_authority owner delegate message)
          slab
          ledger
          out.0
  unfolding mint_v1 append_leaf new_v0 get_asset_id advance
  mint_v1-IsStep mint_authority owner delegate message {out} e =
      let (_, is, e1) = >>=-eq-done (signed mint_authority) _ e in
      let (count, at, e2) = >>=-eq-done (initialized slab.authority) _ e1 in
      let s =
        new_v0 (get_asset_id hashes acc.id count) owner delegate count (hashes.metadata message)
          (hashes.creators (map share_of message.creators)) in
      let append =
        Program.append hashes.node acc (hashes.authority acc.id) mint_authority.key
          (to_node hashes s) in
      let (changed, called, e3) = >>=-eq-done (call append) _ e2 in
      let returned = call-eq-done append called in
      let (counts, saturated) = counted_lem count (initialized-eq-done slab.authority at) in
      let (_, minter, _, kept, _) =
        append_account_sound hashes.node free nonzero b p acc h ok.kept (hashes.authority acc.id)
          mint_authority.key (to_node hashes s) returned in
      let (key, _) =
        append-SameAccount hashes.node acc (hashes.authority acc.id) mint_authority.key
          (to_node hashes s) returned in
      let nothing = end-absent (ledger end) refl in
      subst
        (λ (o : Slab × List Emitted).
          IsStep hashes b p (Mints hashes slab mint_authority owner delegate message) slab ledger
            o.0)
        (done-injective e3)
        (
          end,
          compressed s,
          advance end (to_node hashes s) h,
          (
            ok.counted ∙ ap some (sym ok.kept.rolls.ends),
            sym minter,
            require-eq-done mint_authority.is_signer _ is,
            nothing,
            ap
                (λ (n : ℕ). compressed (
                  asset hashes slab owner delegate n (hashes.metadata message)
                    (hashes.creators (map share_of message.creators))))
                counts,
          ),
          changed_lem hashes b p slab h ledger ok
              (record slab { account = changed.0; authority = some (min (count + 1) (2 ^ 64 - 1)) })
              (advance end (to_node hashes s) h) end (compressed s) (omega arith) (omega arith)
              (λ i. refl) kept (ap some (omega (arith, saturated, ok.kept.rolls.ends))) key
              (put_at-stays end none slab.vouchers
                (ok.vouchers end ∙ ap (voucher_of acc.id end) nothing))
              (named (record s { nonce = end; id = get_asset_id hashes acc.id end }) s counts
                (ap (get_asset_id hashes acc.id) counts)),
        )
