-- ===== src/Bubblegum/Ledger/Changed.antt =====
-- A change of one leaf of a slab: what gummyroll's call gives, and the ledger after it.
use candyland.Prelude.{
  ℕ, ◌^◌, ◌<◌, ◌≤◌, ◌≡◌, ◌≢◌, refl, sym, ap, subst, ◌∙◌, arith, inl, inr, Bool, some, List, put_at,
  if◌then◌else◌, done, err, panic, diverge, done-injective, >>=-eq-done, eq_or_ne, test_of_eq,
  test_of_ne,
}
use candyland.Cmt.Node.{Node, empty}
use candyland.Cmt.Utils.Sound.{IsCollisionFree}
use candyland.Cmt.History.{History, advance}
use candyland.Gummyroll.Canopy
use candyland.Gummyroll.Event.{ChangeLogEvent}
use candyland.Gummyroll.Program
use candyland.Gummyroll.Program.{Account}
use candyland.Gummyroll.Program.Store.{IsAccountOf}
use candyland.Gummyroll.Program.Kept.{replace_leaf_sound}
use candyland.Gummyroll.Program.Header.{replace_leaf-SameAccount}
use candyland.Bubblegum.Schema.{LeafSchema, Hashes, get_asset_id}
use candyland.Bubblegum.Program.{Slab, Emitted, call, stored, replace_leaf}
use candyland.Bubblegum.Ledger.{Holding, Ledger, schema_of, voucher_of, leaf_of, Belongs, IsSlab}

pub call-eq-done : {A : Type 0} (m : Canopy.Checked A) {a : A} → call m ≡ done a → m ≡ done a
unfolding call
call-eq-done (done x) e = ap done (done-injective e)
call-eq-done (err x) e = cc
call-eq-done panic e = cc
call-eq-done diverge e = cc

module _ {A : Type 0} (j : ℕ) (x : A) (f : ℕ → A) where
  pub put_at-same : (i : ℕ) → i ≡ j → put_at j x f i ≡ x
  put_at-same i e = ap (λ (t : Bool). if t then x else f i) (test_of_eq i j e)

  pub put_at-other : (i : ℕ) → i ≢ j → put_at j x f i ≡ f i
  put_at-other i n = ap (λ (t : Bool). if t then x else f i) (test_of_ne i j n)

  -- What is put where it stood already changes nothing.
  pub put_at-stays : f j ≡ x → (i : ℕ) → f i ≡ put_at j x f i
  put_at-stays e i = elim (eq_or_ne i j) [
    | inl eq ↦ ap f eq ∙ e ∙ sym (put_at-same i eq)
    | inr n ↦ sym (put_at-other i n)
  ]

module _ (hashes : Hashes) (b p : ℕ) (slab : Slab) (h : History) (ledger : Ledger)
    (ok : IsSlab hashes b p slab h ledger) where
  abbrev id : ℕ
  id = slab.account.id

  -- The ledger after a change at `j`, from what changed in the accounts.
  pub changed_lem :
      (slab' : Slab) (h' : History) (j : ℕ) (holding : Holding)
      → j < h'.end
      → h.end ≤ h'.end
      → ((i : ℕ) → h'.past 0 i ≡ put_at j (leaf_of hashes holding) (h.past 0) i)
      → IsAccountOf hashes.node b p slab'.account h'
      → slab'.authority ≡ some h'.end
      → slab'.account.id ≡ id
      → ((i : ℕ) → slab'.vouchers i ≡ put_at j (voucher_of id j holding) slab.vouchers i)
      → ((s : LeafSchema)
          → schema_of holding ≡ some s
          → (s.nonce ≡ j) × (s.id ≡ get_asset_id hashes id j))
      → IsSlab hashes b p slab' h' (put_at j holding ledger)
  changed_lem slab' h' j holding inside more changed kept counted same vouchers named = record {
    kept = kept;
    counted = counted;
    leaves = leaves;
    vouchers = vouchers';
    belongs = belongs;
  }
    where
      leaves : (i : ℕ) → h'.past 0 i ≡ leaf_of hashes (put_at j holding ledger i)
      leaves i = changed i ∙ elim (eq_or_ne i j) [
        | inl e ↦
            put_at-same j (leaf_of hashes holding) (h.past 0) i e
            ∙ sym (ap (leaf_of hashes) (put_at-same j holding ledger i e))
        | inr n ↦
            put_at-other j (leaf_of hashes holding) (h.past 0) i n
            ∙ ok.leaves i
            ∙ sym (ap (leaf_of hashes) (put_at-other j holding ledger i n))
      ]

      vouchers' :
          (i : ℕ) → slab'.vouchers i ≡ voucher_of slab'.account.id i (put_at j holding ledger i)
      vouchers' i =
          vouchers i
          ∙ elim (eq_or_ne i j) [
            | inl e ↦
                put_at-same j (voucher_of id j holding) slab.vouchers i e
                ∙ ap (λ (k : ℕ). voucher_of id k holding) (sym e)
                ∙ ap (λ (x : Holding). voucher_of id i x) (sym (put_at-same j holding ledger i e))
            | inr n ↦
                put_at-other j (voucher_of id j holding) slab.vouchers i n
                ∙ ok.vouchers i
                ∙ ap (λ (x : Holding). voucher_of id i x) (sym (put_at-other j holding ledger i n))
          ]
          ∙ ap (λ (k : ℕ). voucher_of k i (put_at j holding ledger i)) (sym same)

      belongs :
          (i : ℕ) (s : LeafSchema)
          → schema_of (put_at j holding ledger i) ≡ some s
          → Belongs hashes slab'.account.id i h'.end s
      belongs i s e = elim (eq_or_ne i j) [
        | inl eq ↦
            let (nonced, name) =
              named s (sym (ap schema_of (put_at-same j holding ledger i eq)) ∙ e) in
            record {
              nonced = nonced ∙ sym eq;
              named =
                  name
                  ∙ ap (λ (k : ℕ). get_asset_id hashes k j) (sym same)
                  ∙ ap (λ (k : ℕ). get_asset_id hashes slab'.account.id k) (sym eq);
              minted = subst (λ k. k < h'.end) (sym eq) inside;
            }
        | inr n ↦
            let old = ok.belongs i s (sym (ap schema_of (put_at-other j holding ledger i n)) ∙ e) in
            record {
              nonced = old.nonced;
              named = old.named ∙ ap (λ (k : ℕ). get_asset_id hashes k i) (sym same);
              minted = omega (arith, old.minted, more);
            }
      ]

  module _ (free : IsCollisionFree hashes.node)
      (nonzero : (x y : Node) → hashes.node x y ≢ empty) where
    -- What a slab comes to when gummyroll replaced a leaf.
    pub replaced_lem :
        (emitted : List Emitted) (accounts : List Node) (root previous_leaf new_leaf : Node)
        (index : ℕ) {out : Slab × List Emitted}
        → index < 2 ^ slab.account.header.max_depth
        → replace_leaf hashes slab emitted accounts root previous_leaf new_leaf index ≡ done out
        → (previous_leaf ≡ h.past 0 index)
          × IsAccountOf hashes.node b p out.0.account (advance index new_leaf h)
          × (out.0.authority ≡ slab.authority)
          × (out.0.vouchers ≡ slab.vouchers)
          × (out.0.account.id ≡ id)
    unfolding replace_leaf
    replaced_lem emitted accounts root previous_leaf new_leaf index {out} inside e =
        let (changed, called, e') =
          >>=-eq-done (call replace) (λ c. done (stored slab emitted c)) e in
        let returned = call-eq-done replace called in
        let (_, stood, kept, _) =
          replace_leaf_sound hashes.node free nonzero b p slab.account h ok.kept
            (hashes.authority id) root previous_leaf new_leaf index accounts inside returned in
        let (same, _) =
          replace_leaf-SameAccount hashes.node slab.account (hashes.authority id) root previous_leaf
            new_leaf index accounts returned in
        subst
          (λ o.
            (previous_leaf ≡ h.past 0 index)
            × IsAccountOf hashes.node b p o.0.account (advance index new_leaf h)
            × (o.0.authority ≡ slab.authority)
            × (o.0.vouchers ≡ slab.vouchers)
            × (o.0.account.id ≡ id))
          (done-injective e') (stood, kept, refl, refl, same)
      where
        replace : Canopy.Checked (Account × ChangeLogEvent)
        replace =
            Program.replace_leaf hashes.node slab.account (hashes.authority id) root previous_leaf
              new_leaf index accounts
